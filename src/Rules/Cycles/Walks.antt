-- ===== src/Rules/Cycles/Walks.antt =====
-- Directed walks of a graph, and the nodes that no walk comes back to.
use merm.Prelude.{
  ◌≡◌, inl, inr, refl, sym, ◌∙◌, subst, String, List, [], ◌∷◌, ◌++◌, some, arith, str_eq, eq_iff,
  Bool-cases, Option-cases,
}
use merm.Model.{Edge}
use merm.Rules.State.Search.{HasEdge}
use merm.Rules.Cycles.{segment}

-- A walk of one edge or more.
pub data Walk (edges : List Edge) : String → String → Type 0 where
  edge : {x y : String} → HasEdge edges x y → Walk edges x y
  step : {x y z : String} → HasEdge edges x y → Walk edges y z → Walk edges x z

-- Nodes in the order of a walk.
abbrev pub IsPath : List Edge → List String → Type 0
IsPath edges [] = Unit
IsPath edges (x ∷ []) = Unit
IsPath edges (x ∷ y ∷ ids) = HasEdge edges x y × IsPath edges (y ∷ ids)

-- A stack whose last element comes first.
abbrev pub IsStack : List Edge → List String → Type 0
IsStack edges [] = Unit
IsStack edges (x ∷ []) = Unit
IsStack edges (y ∷ x ∷ ids) = HasEdge edges x y × IsStack edges (x ∷ ids)

-- The walks from a node end.
pub data Ends (edges : List Edge) : String → Type 0 where
  ends : {x : String} → ((y : String) → HasEdge edges x y → Ends edges y) → Ends edges x

Walk-append :
    {edges : List Edge} {x y : String} (z : String)
    → Walk edges x y
    → HasEdge edges y z
    → Walk edges x z
Walk-append z (Walk.edge e) f = Walk.step e (Walk.edge f)
Walk-append z (Walk.step e w) f = Walk.step e (Walk-append z w f)

pub Ends-no_cycle : {edges : List Edge} {x : String} → Ends edges x → ¬ Walk edges x x
Ends-no_cycle (Ends.ends {x} next) (Walk.edge e) = Ends-no_cycle (next x e) (Walk.edge e)
Ends-no_cycle (Ends.ends {x} next) (Walk.step {y} e w) =
    Ends-no_cycle (next y e) (Walk-append y w e)

-- a path goes on by an edge from its last node
abbrev pub Last : String → List String → Type 0
Last k [] = ⊥
Last k (x ∷ []) = x ≡ k
Last k (x ∷ y ∷ ids) = Last k (y ∷ ids)

abbrev pub First : String → List String → Type 0
First k [] = ⊥
First k (x ∷ ids) = x ≡ k

pub IsPath-append :
    (edges : List Edge) (ids : List String) (k z : String)
    → IsPath edges ids
    → Last k ids
    → HasEdge edges k z
    → IsPath edges (ids ++ (z ∷ []))
IsPath-append edges [] k z p l e = absurd l
IsPath-append edges (x ∷ []) k z p l e = (subst (λ t. HasEdge edges t z) (sym l) e, tt)
IsPath-append edges (x ∷ y ∷ ids) k z p l e = (p.0, IsPath-append edges (y ∷ ids) k z p.1 l e)

pub Last-append : (ids : List String) (z : String) → Last z (ids ++ (z ∷ []))
Last-append [] z = refl
Last-append (x ∷ []) z = refl
Last-append (x ∷ y ∷ ids) z = Last-append (y ∷ ids) z

pub First-append :
    (ids : List String) (k : String) (more : List String) → First k ids → First k (ids ++ more)
First-append [] k more f = absurd f
First-append (x ∷ ids) k more f = f

-- along a path and by one edge more
pub path_walk :
    (edges : List Edge) (ids : List String) (k l z : String)
    → IsPath edges ids
    → First k ids
    → Last l ids
    → HasEdge edges l z
    → Walk edges k z
path_walk edges [] k l z p f g e = absurd f
path_walk edges (x ∷ []) k l z p f g e = Walk.edge (subst (λ t. HasEdge edges t z) (sym g ∙ f) e)
path_walk edges (x ∷ y ∷ ids) k l z p f g e =
    Walk.step (subst (λ t. HasEdge edges t y) f p.0) (path_walk edges (y ∷ ids) y l z p.1 refl g e)

-- The part of a stack from a node on is a path from that node to the top.
record IsSegment (edges : List Edge) (next top : String) (ids : List String) : Type 0 where
  path : IsPath edges ids
  first : First next ids
  last : Last top ids

single-IsSegment :
    (edges : List Edge) (next top : String) (ids : List String)
    → top ≡ next
    → top ∷ [] ≡ ids
    → IsSegment edges next top ids
single-IsSegment edges next top ids e h =
    subst (IsSegment edges next top) h (record { path = tt; first = e; last = refl })

segment-IsSegment :
    (edges : List Edge) (next top : String) (stack ids : List String)
    → IsStack edges (top ∷ stack)
    → segment next (top ∷ stack) ≡ some ids
    → IsSegment edges next top ids
unfolding segment
segment-IsSegment edges next top [] ids p h =
    single-IsSegment edges next top ids (ground (arith, eq_iff top next)) (ground arith)
segment-IsSegment edges next top (x ∷ stack) ids p h = elim (Bool-cases (str_eq top next)) [
  | inl here ↦ single-IsSegment edges next top ids (ground (arith, eq_iff top next)) (ground arith)
  | inr further ↦ elim (Option-cases (segment next (x ∷ stack))) [
    | inl absent ↦ absurd (ground arith)
    | inr (ids', found) ↦
        let s = segment-IsSegment edges next x stack ids' p.1 found in
        let same : ids' ++ (top ∷ []) ≡ ids = ground arith in
        subst (IsSegment edges next top) same (record {
          path = IsPath-append edges ids' x top s.path s.last p.0;
          first = First-append ids' next (top ∷ []) s.first;
          last = Last-append ids' top;
        })
  ]
]

-- The nodes of a directed cycle in order, the first again at the end.
pub record IsCycle (edges : List Edge) (ids : List String) : Type 0 where
  pub path : IsPath edges ids
  pub node : String
  pub first : First node ids
  pub last : Last node ids
  pub edge : Walk edges node node

pub segment-IsCycle :
    (edges : List Edge) (next top : String) (stack ids : List String)
    → IsStack edges (top ∷ stack)
    → segment next (top ∷ stack) ≡ some ids
    → HasEdge edges top next
    → IsCycle edges (ids ++ (next ∷ []))
segment-IsCycle edges next top stack ids p h e =
    let s = segment-IsSegment edges next top stack ids p h in
    record {
      path = IsPath-append edges ids top next s.path s.last e;
      node = next;
      first = First-append ids next (next ∷ []) s.first;
      last = Last-append ids next;
      edge = path_walk edges ids next top next s.path s.first s.last e;
    }
