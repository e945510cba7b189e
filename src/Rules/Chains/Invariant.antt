-- ===== src/Rules/Chains/Invariant.antt =====
-- What holds between the steps of the search of er_no_circular_chain.go and class_no_circular_inheritance.go.
use merm.Prelude.{
  ◌≡◌, ◌⊎◌, inl, inr, refl, sym, ◌∙◌, subst, String, Bool, true, false, some, List, [], ◌∷◌, ◌++◌,
  arith, Bool-cases, Option-cases, String-cases, str_eq, eq_iff, contains, contains-delete_self,
  contains-delete_ne, All,
}
use merm.Model.{Edge}
use merm.Rules.Keys.{contains-append}
use merm.Rules.State.Search.{HasEdge}
use merm.Rules.Cycles.Walks.{
  IsPath, Last, First, IsCycle, Ends, IsPath-append, Last-append, First-append, path_walk,
}
use merm.Rules.Chains.{Chain, path_from, close_chain, enter_node, leave_node}

-- there is a cycle among those found
abbrev pub any_found : List (List String) → Bool
any_found [] = false
any_found (ids ∷ more) = true

any_found-append :
    (xs : List (List String)) (ids : List String) → any_found (xs ++ (ids ∷ [])) ≡ true
any_found-append [] ids = refl
any_found-append (x ∷ xs) ids = refl

All-append :
    (P : List String → Type 0) (xs : List (List String)) (ids : List String)
    → All P xs
    → P ids
    → All P (xs ++ (ids ∷ []))
All-append P [] ids a p = (p, tt)
All-append P (x ∷ xs) ids a p = (a.0, All-append P xs ids a.1 p)

pub path_from-some :
    (k : String) (path : List String)
    → contains k path ≡ true
    → (ids : List String) × (path_from k path ≡ some ids)
unfolding contains path_from
path_from-some k [] h = absurd (ground arith)
path_from-some k (x ∷ xs) h = elim (Bool-cases (str_eq x k)) [
  | inl here ↦ (x ∷ xs, rw (here, path_from) refl)
  | inr further ↦
      let (ids, found) = path_from-some k xs (ground (arith, h, further)) in
      (ids, rw (further, path_from) found)
]

module _ (edges : List Edge) where
  -- the end of a path from a node on
  record IsTail (k n : String) (ids : List String) : Type 0 where
    path : IsPath edges ids
    first : First k ids
    last : Last n ids

  path_from-IsTail :
      (k n : String) (path ids : List String)
      → IsPath edges path
      → Last n path
      → path_from k path ≡ some ids
      → IsTail k n ids
  unfolding path_from
  path_from-IsTail k n [] ids p l h = absurd (ground arith)
  path_from-IsTail k n (x ∷ []) ids p l h =
      let here : str_eq x k ≡ true = ground (arith, h) in
      let same : x ∷ [] ≡ ids = ground (arith, here, h) in
      subst (IsTail k n) same (record { path = p; first = (eq_iff x k).0 here; last = l })
  path_from-IsTail k n (x ∷ y ∷ xs) ids p l h = elim (Bool-cases (str_eq x k)) [
    | inl here ↦
        let same : x ∷ y ∷ xs ≡ ids = ground (arith, here, h) in
        subst (IsTail k n) same (record { path = p; first = (eq_iff x k).0 here; last = l })
    | inr further ↦ path_from-IsTail k n (y ∷ xs) ids p.1 l (ground (arith, further, h))
  ]

  -- a path and the cycles found; `n` is the last node of the path
  pub close_chain-All :
      (k n : String) (path : List String) (s : Chain)
      → IsPath edges path
      → Last n path
      → HasEdge edges n k
      → All (IsCycle edges) s.cycles
      → All (IsCycle edges) (close_chain k path s).cycles
  unfolding close_chain
  close_chain-All k n path s p l e a = elim (Option-cases (path_from k path)) [
    | inl absent ↦ rw (absent, close_chain) a
    | inr (ids, found) ↦
        let t = path_from-IsTail k n path ids p l found in
        rw (found, close_chain)
          (All-append (IsCycle edges) s.cycles (ids ++ (k ∷ [])) a (record {
            path = IsPath-append edges ids n k t.path t.last e;
            node = k;
            first = First-append ids k (k ∷ []) t.first;
            last = Last-append ids k;
            edge = path_walk edges ids k n k t.path t.first t.last e;
          }))
  ]

  pub close_chain-found :
      (k : String) (path : List String) (s : Chain)
      → contains k path ≡ true
      → any_found (close_chain k path s).cycles ≡ true
  unfolding close_chain
  close_chain-found k path s h =
      let (ids, found) = path_from-some k path h in
      rw (found, close_chain) (any_found-append s.cycles (ids ++ (k ∷ [])))

  pub close_chain_keeps :
      (k : String) (path : List String) (s : Chain)
      → ((close_chain k path s).visited ≡ s.visited)
        × ((any_found s.cycles ≡ false) ⊎ (any_found (close_chain k path s).cycles ≡ true))
  unfolding close_chain
  close_chain_keeps k path s = elim (Option-cases (path_from k path)) [
    | inl absent ↦ rw (absent, close_chain) (refl, ground arith)
    | inr (ids, found) ↦
        rw (found, close_chain) (refl, inr (any_found-append s.cycles (ids ++ (k ∷ []))))
  ]

  -- While no cycle is found: `recStack` is the path, and from the other visited nodes walks end.
  pub record IsClean (path : List String) (s : Chain) : Type 0 where
    pub on : (k : String) → contains k s.rec_stack ≡ contains k path
    pub seen : (k : String) → (contains k path ≡ false) ⊎ (contains k s.visited ≡ true)
    pub done :
        (k : String) → (contains k s.visited ≡ false) ⊎ (contains k path ≡ true) ⊎ Ends edges k

  pub enter_node-IsClean :
      (node : String) (path : List String) (s : Chain)
      → IsClean path s
      → IsClean (path ++ (node ∷ [])) (enter_node node s)
  unfolding enter_node contains
  enter_node-IsClean node path s v = record {
    on = λ k. ground (arith, v.on k, contains-append k path (node ∷ []));
    seen = λ k. ground (arith, v.seen k, contains-append k path (node ∷ []));
    done = λ k. ground (arith, v.done k, contains-append k path (node ∷ []));
  }

  pub leave_node-IsClean :
      (node : String) (path : List String) (s : Chain)
      → contains node path ≡ false
      → Ends edges node
      → IsClean (path ++ (node ∷ [])) s
      → IsClean path (leave_node node s)
  unfolding leave_node contains
  leave_node-IsClean node path s off end v = record {
    on = λ k. elim (String-cases k node) [
      | inl same ↦ rw same (contains-delete_self node s.rec_stack ∙ sym off)
      | inr ne ↦ ground (
        arith,
        v.on k,
        contains-delete_ne k node s.rec_stack ne,
        contains-append k path (node ∷ []),
        eq_iff node k,
      )
    ];
    seen = λ k. ground (arith, v.seen k, contains-append k path (node ∷ []));
    done = λ k. elim (String-cases k node) [
      | inl same ↦ inr (inr (subst (Ends edges) (sym same) end))
      | inr ne ↦ ground (arith, v.done k, contains-append k path (node ∷ []), eq_iff node k)
    ];
  }
