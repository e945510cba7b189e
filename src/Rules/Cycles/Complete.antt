-- ===== src/Rules/Cycles/Complete.antt =====
-- internal/rules/no_cycles.go: the search ends, and makes a finding exactly if there is a cycle.
use merm.Prelude.{
  ℕ, zero, suc, ◌≤◌, ◌≡◌, ◌⊎◌, inl, inr, refl, sym, ◌∙◌, subst, String, true, false, not, List, [],
  ◌∷◌, ◌++◌, Option, some, arith, map, str_eq, eq_iff, contains, keep, length, All, Any, Bool-cases,
}
use merm.Model.{Edge, Diagram}
use merm.Rules.Config.{Config}
use merm.Rules.Keys.{contains-append}
use merm.Rules.State.Search.{HasEdge}
use merm.Rules.Cycles.{
  Search, is_skipped, out_edges, close_cycle, enter, leave, behind, scan_edges, dfs, visit_roots,
  names,
}
use merm.Rules.Cycles.Walks.{IsStack, Ends}
use merm.Rules.Cycles.Invariant.{
  is_empty, fresh, fresh-le, fresh_mono, fresh_less, Within, followed, IsSound, Goes, Goes-refl,
  Goes-trans, enter-IsSound, leave-IsSound, close_cycle-IsSound,
}

module _ (d : Diagram) (cfg : Config) where
  -- A part of the search that ends.
  pub record Returns (s : Search) (r : Option Search) : Type 0 where
    pub out : Search
    pub returns : r ≡ some out
    pub sound : IsSound d cfg out
    pub goes : Goes d cfg s out

  -- an edge from a node, which the search may follow
  abbrev From : String → Edge → Type 0
  From n e =
      (contains e.to (names d) ≡ true)
      × ((is_skipped cfg e ≡ true) ⊎ HasEdge (followed d cfg) n e.to)

  -- where the edges lead to, walks end
  abbrev Closed : List Edge → Type 0
  Closed = All (λ e. (is_skipped cfg e ≡ true) ⊎ Ends (followed d cfg) e.to)

  -- a visited node that is not on the stack, while there is no finding
  ended :
      (k : String) (s t : Search)
      → contains k s.stack ≡ false
      → contains k t.visited ≡ true
      → Goes d cfg s t
      → IsSound d cfg t
      → (is_empty t.issues ≡ false) ⊎ Ends (followed d cfg) k
  ended k s t n h g v = ground (arith, v.done k, g.stack)

  off_stack :
      (k : String) (s : Search)
      → contains k s.visited ≡ false
      → IsSound d cfg s
      → contains k s.stack ≡ false
  off_stack k s n v = ground (arith, v.seen k)

  abbrev Scanned : Search → List Edge → Option Search → Type 0
  Scanned s es r = (x : Returns s r) × ((is_empty x.out.issues ≡ false) ⊎ Closed es)

  -- one edge, and then the others
  and_then :
      (s t : Search) (e : Edge) (es : List Edge) (r' r : Option Search)
      → r' ≡ r
      → Goes d cfg s t
      → (is_empty t.issues ≡ false) ⊎ (is_skipped cfg e ≡ true) ⊎ Ends (followed d cfg) e.to
      → Scanned t es r
      → Scanned s (e ∷ es) r'
  and_then s t e es r' r same g h (x, later) = (
    record {
      out = x.out;
      returns = same ∙ x.returns;
      sound = x.sound;
      goes = Goes-trans d cfg s t x.out g x.goes;
    },
    (let kept = x.goes.found in ground (arith, kept)),
  )

  onto :
      (n k : String) (rest stack : List String)
      → stack ≡ n ∷ rest
      → HasEdge (followed d cfg) n k
      → IsStack (followed d cfg) stack
      → IsStack (followed d cfg) (k ∷ stack)
  onto n k rest stack st e p = rw st (e, subst (IsStack (followed d cfg)) st p)

  module _ (call : String → Search → Option Search) (fuel : ℕ)
      (calls : (k : String) (s : Search)
        → contains k s.visited ≡ false
        → contains k (names d) ≡ true
        → IsStack (followed d cfg) (k ∷ s.stack)
        → IsSound d cfg s
        → fresh s.visited (names d) ≤ fuel
        → (r : Returns s (call k s)) × (contains k r.out.visited ≡ true)) where
    scan_edges_lem :
        (n : String) (rest : List String) (es : List Edge) (s : Search)
        → s.stack ≡ n ∷ rest
        → All (From n) es
        → IsSound d cfg s
        → fresh s.visited (names d) ≤ fuel
        → (r : Returns s (scan_edges call d cfg es s)) × ((is_empty r.out.issues ≡ false)
            ⊎ Closed es)
    unfolding scan_edges
    scan_edges_lem n rest [] s st a v m =
        (record { out = s; returns = refl; sound = v; goes = Goes-refl d cfg s }, inr tt)
    scan_edges_lem n rest (e ∷ es) s st a v m = elim (Bool-cases (is_skipped cfg e)) [
      | inl skipped ↦
          (and_then s s e es (scan_edges call d cfg (e ∷ es) s) (scan_edges call d cfg es s)
            (rw (skipped, scan_edges)) (Goes-refl d cfg s) (inr (inl skipped))
            (scan_edges_lem n rest es s st a.1 v m))
      | inr taken ↦
          let edge : HasEdge (followed d cfg) n e.to = elim a.0.1 [
            | inl skipped ↦ absurd (ground arith)
            | inr h ↦ h
          ] in
          elim (Bool-cases (contains e.to s.visited)) [
            | inr new ↦
                let (r, seen) =
                  calls e.to s new a.0.0 (onto n e.to rest s.stack st edge v.path) v m in
                let m' = fresh_mono s.visited r.out.visited (names d) r.goes.grows in
                (and_then s r.out e es (scan_edges call d cfg (e ∷ es) s)
                  (scan_edges call d cfg es r.out) (rw (taken, new, r.returns, scan_edges)) r.goes
                  (let off = off_stack e.to s new v in
                    elim (ended e.to s r.out off seen r.goes r.sound) [
                      | inl made ↦ inl made
                      | inr ending ↦ inr (inr ending)
                    ])
                  (scan_edges_lem n rest es r.out (r.goes.stack ∙ st) a.1 r.sound
                    (omega (arith, m, m'))))
            | inl old ↦ elim (Bool-cases (contains e.to s.on_stack)) [
              | inl on ↦
                  let (sound, goes, made) = close_cycle-IsSound d cfg e n rest s st on edge v in
                  let t = close_cycle d cfg e s in
                  let m' = fresh_mono s.visited t.visited (names d) goes.grows in
                  (and_then s t e es (scan_edges call d cfg (e ∷ es) s) (scan_edges call d cfg es t)
                    (rw (taken, old, on, scan_edges)) goes (inl made)
                    (scan_edges_lem n rest es t (goes.stack ∙ st) a.1 sound (omega (arith, m, m'))))
              | inr off ↦
                  (and_then s s e es (scan_edges call d cfg (e ∷ es) s) (scan_edges call d cfg es s)
                    (rw (taken, old, off, scan_edges)) (Goes-refl d cfg s)
                    (elim (ended e.to s s (sym (v.on e.to) ∙ off) old (Goes-refl d cfg s) v) [
                      | inl made ↦ inl made
                      | inr ending ↦ inr (inr ending)
                    ])
                    (scan_edges_lem n rest es s st a.1 v m))
            ]
          ]
    ]

  All-members :
      (P : Edge → Type 0) (l : List Edge) → ((e : Edge) → Any (λ f. f ≡ e) l → P e) → All P l
  All-members P [] h = tt
  All-members P (e ∷ l) h = (h e (inl refl), All-members P l (λ f m. h f (inr m)))

  out_edges-members :
      (k : String) (e : Edge) (edges : List Edge)
      → Any (λ f. f ≡ e) (out_edges k edges)
      → (e.from ≡ k) × Any (λ f. f ≡ e) edges
  unfolding out_edges
  out_edges-members k e [] m = absurd m
  out_edges-members k e (f ∷ edges) m =
      ground (arith, eq_iff f.from k, eq_iff e.from k, out_edges-members k e edges)

  followed-members :
      (e : Edge) (edges : List Edge)
      → Any (λ f. f ≡ e) edges
      → (is_skipped cfg e ≡ true) ⊎ HasEdge (keep (λ f. not (is_skipped cfg f)) edges) e.from e.to
  unfolding keep
  followed-members e [] m = absurd m
  followed-members e (f ∷ edges) m = ground (arith, followed-members e edges)

  targets-members :
      (e : Edge) (edges : List Edge)
      → Any (λ f. f ≡ e) edges
      → contains e.to (map (λ f. f.to) edges) ≡ true
  unfolding contains
  targets-members e [] m = absurd m
  targets-members e (f ∷ edges) m = ground (arith, eq_iff f.to e.to, targets-members e edges)

  out_edges-From : (k : String) → All (From k) (out_edges k d.edges)
  out_edges-From k = All-members (From k) (out_edges k d.edges) (λ e m.
      let (from, member) = out_edges-members k e d.edges m in
      let nodes = map (λ n. n.id) d.nodes in
      let froms = map (λ f. f.from) d.edges in
      let tos = map (λ f. f.to) d.edges in
      (
        ground (
          arith,
          contains-append e.to nodes (froms ++ tos),
          contains-append e.to froms tos,
          targets-members e d.edges member,
        ),
        subst (λ x. (is_skipped cfg e ≡ true) ⊎ HasEdge (followed d cfg) x e.to) from
            (followed-members e d.edges member),
      ))

  edge_cases :
      (k y : String) (e : Edge) (edges : List Edge)
      → HasEdge (keep (λ f. not (is_skipped cfg f)) (e ∷ edges)) k y
      → ((is_skipped cfg e ≡ false) × (e.from ≡ k) × (e.to ≡ y))
        ⊎ HasEdge (keep (λ f. not (is_skipped cfg f)) edges) k y
  unfolding keep
  edge_cases k y e edges h = ground arith

  Closed-tail :
      (k : String) (e : Edge) (edges : List Edge)
      → Closed (out_edges k (e ∷ edges))
      → Closed (out_edges k edges)
  unfolding out_edges
  Closed-tail k e edges c = elim (Bool-cases (str_eq e.from k)) [
    | inl here ↦ (rw (here, out_edges) at c).1
    | inr elsewhere ↦ rw (elsewhere, out_edges) at c
  ]

  Closed-head :
      (k : String) (e : Edge) (edges : List Edge)
      → Closed (out_edges k (e ∷ edges))
      → is_skipped cfg e ≡ false
      → e.from ≡ k
      → Ends (followed d cfg) e.to
  unfolding out_edges
  Closed-head k e edges c taken from = elim (rw ((eq_iff e.from k).1 from, out_edges) at c).0 [
    | inl skipped ↦ absurd (ground arith)
    | inr ending ↦ ending
  ]

  Closed-edge :
      (k y : String) (edges : List Edge)
      → Closed (out_edges k edges)
      → HasEdge (keep (λ f. not (is_skipped cfg f)) edges) k y
      → Ends (followed d cfg) y
  unfolding out_edges keep
  Closed-edge k y [] c h = absurd h
  Closed-edge k y (e ∷ edges) c h = elim (edge_cases k y e edges h) [
    | inl (taken, from, to) ↦ subst (Ends (followed d cfg)) to (Closed-head k e edges c taken from)
    | inr later ↦ Closed-edge k y edges (Closed-tail k e edges c) later
  ]

  leave-stack :
      (k : String) (stack : List String) (t : Search) → t.stack ≡ k ∷ stack → behind t.stack ≡ stack
  leave-stack k stack t h = rw h refl

  contains_enter :
      (j k : String) (v w : List String)
      → (contains j (k ∷ v) ≡ false) ⊎ (contains j w ≡ true)
      → (contains j v ≡ false) ⊎ (contains j w ≡ true)
  unfolding contains
  contains_enter j k v w h = ground arith

  dfs_lem :
      (fuel : ℕ) (k : String) (s : Search)
      → contains k s.visited ≡ false
      → contains k (names d) ≡ true
      → IsStack (followed d cfg) (k ∷ s.stack)
      → IsSound d cfg s
      → fresh s.visited (names d) ≤ fuel
      → (r : Returns s (dfs fuel d cfg k s)) × (contains k r.out.visited ≡ true)
  unfolding dfs enter leave contains
  dfs_lem zero k s new known p v m =
      absurd (omega (arith, fresh_less k s.visited (names d) new known))
  dfs_lem (suc fuel) k s new known p v m =
      let fewer = fresh_less k s.visited (names d) new known in
      let (x, closed) =
        scan_edges_lem (dfs fuel d cfg) fuel (dfs_lem fuel) k s.stack (out_edges k d.edges)
          (enter k s) refl (out_edges-From k) (enter-IsSound d cfg k s new p v)
          (omega (arith, m, fewer)) in
      let ending : (is_empty x.out.issues ≡ false) ⊎ Ends (followed d cfg) k = elim closed [
        | inl made ↦ inl made
        | inr c ↦ inr (Ends.ends (λ y h. Closed-edge k y d.edges c h))
      ] in
      let seen = x.goes.grows k in
      (
        record {
          out = leave k x.out;
          returns = rw (x.returns, dfs);
          sound =
              leave-IsSound d cfg k s.stack x.out x.goes.stack (off_stack k s new v) ending x.sound;
          goes = record {
            stack = leave-stack k s.stack x.out x.goes.stack;
            grows = λ j. contains_enter j k s.visited x.out.visited (x.goes.grows j);
            found = x.goes.found;
          };
        },
        ground (arith, eq_iff k k, seen),
      )

  within_cons :
      (id k : String) (ids v w : List String)
      → contains id v ≡ true
      → (contains id v ≡ false) ⊎ (contains id w ≡ true)
      → (contains k ids ≡ false) ⊎ (contains k w ≡ true)
      → (contains k (id ∷ ids) ≡ false) ⊎ (contains k w ≡ true)
  unfolding contains
  within_cons id k ids v w h g l = ground (arith, eq_iff id k)

  root_known :
      (id : String) (ids : List String)
      → (contains id (id ∷ ids) ≡ false) ⊎ (contains id (names d) ≡ true)
      → contains id (names d) ≡ true
  unfolding contains
  root_known id ids h = ground (arith, eq_iff id id)

  pub visit_roots_lem :
      (ids : List String) (s : Search)
      → s.stack ≡ []
      → ((k : String) → (contains k ids ≡ false) ⊎ (contains k (names d) ≡ true))
      → IsSound d cfg s
      → (r : Returns s (visit_roots (length (names d)) d cfg ids s)) × Within ids r.out.visited
  unfolding visit_roots contains
  visit_roots_lem [] s st a v =
      (record { out = s; returns = refl; sound = v; goes = Goes-refl d cfg s }, λ k. inl refl)
  visit_roots_lem (id ∷ ids) s st a v =
      let others : (k : String) → (contains k ids ≡ false) ⊎ (contains k (names d) ≡ true) =
        (λ k. ground (arith, a k)) in
      elim (Bool-cases (contains id s.visited)) [
        | inl old ↦
            let (r, all') = visit_roots_lem ids s st others v in
            (
              record {
                out = r.out;
                returns = rw (old, visit_roots) r.returns;
                sound = r.sound;
                goes = r.goes;
              },
              λ k. within_cons id k ids s.visited r.out.visited old (r.goes.grows id) (all' k),
            )
        | inr new ↦
            let known = root_known id ids (a id) in
            let (x, seen) =
              dfs_lem (length (names d)) id s new known (rw st tt) v
                (fresh-le s.visited (names d)) in
            let (r, all') = visit_roots_lem ids x.out (x.goes.stack ∙ st) others x.sound in
            (
              record {
                out = r.out;
                returns = rw (new, x.returns, visit_roots) r.returns;
                sound = r.sound;
                goes = Goes-trans d cfg s x.out r.out x.goes r.goes;
              },
              λ k. within_cons id k ids x.out.visited r.out.visited seen (r.goes.grows id) (all' k),
            )
      ]
