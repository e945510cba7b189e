-- ===== src/Rules/Chains/Complete.antt =====
-- The search of er_no_circular_chain.go and class_no_circular_inheritance.go ends, and finds a cycle where
-- a walk comes back.
use merm.Prelude.{
  ℕ, zero, suc, ◌≤◌, ◌≡◌, ◌⊎◌, inl, inr, refl, sym, ◌∙◌, subst, String, Bool, true, false, Option,
  some, List, [], ◌∷◌, ◌++◌, arith, Bool-cases, String-cases, if◌then◌else◌, str_eq_refl, eq_iff,
  contains, map, All, length,
}
use merm.Model.{Edge}
use merm.Rules.Keys.{contains-append}
use merm.Rules.State.{successors}
use merm.Rules.State.Search.{HasEdge, successors_iff}
use merm.Rules.Cycles.Walks.{IsPath, Last, IsCycle, Ends, IsPath-append, Last-append}
use merm.Rules.Cycles.Invariant.{Within, fresh, fresh-le, fresh_mono, fresh_less}
use merm.Rules.Chains.{
  Chain, close_chain, scan_neighbors, enter_node, leave_node, dfs_chain, visit_nodes, ends_of,
}
use merm.Rules.Chains.Invariant.{
  any_found, close_chain-All, close_chain-found, close_chain_keeps, IsClean, enter_node-IsClean,
  leave_node-IsClean,
}

module _ (edges : List Edge) where
  abbrev Cyclic : Chain → Type 0
  Cyclic s = All (IsCycle edges) s.cycles

  -- A part of the search that ends, with `Goal` where it returns false.
  pub record Ran (path : List String) (Goal : Type 0) (s : Chain) (r : Option (Bool × Chain))
      : Type 0 where
    pub found : Bool
    pub out : Chain
    pub returns : r ≡ some (found, out)
    pub grows : Within s.visited out.visited
    pub cyclic : Cyclic s → Cyclic out
    pub keeps : (any_found s.cycles ≡ false) ⊎ (any_found out.cycles ≡ true)
    pub clean :
        IsClean edges path s
        → ((found ≡ true) × (any_found out.cycles ≡ true))
          ⊎ ((found ≡ false) × IsClean edges path out × Goal)

  -- a neighbor of a node
  abbrev Neighbor : String → String → Type 0
  Neighbor n k = HasEdge edges n k × (contains k (ends_of edges) ≡ true)

  -- the call of `dfs` on a neighbor, and the rest of the loop
  and_scan :
      (path : List String) (k : String) (ks : List String) (s : Chain)
      (call : Option (Bool × Chain)) (rest r : Option (Bool × Chain))
      (c : Ran path (Ends edges k) s call)
      → c.found ≡ false
      → r ≡ rest
      → Ran path (All (Ends edges) ks) c.out rest
      → Ran path (All (Ends edges) (k ∷ ks)) s r
  and_scan path k ks s call rest r c none' same t = record {
    found = t.found;
    out = t.out;
    returns = same ∙ t.returns;
    grows = λ j. ground (arith, c.grows j, t.grows j);
    cyclic = λ a. t.cyclic (c.cyclic a);
    keeps = ground (arith, c.keeps, t.keeps);
    clean = λ v. elim (c.clean v) [
      | inl (yes', found) ↦ absurd (ground (arith, yes', none'))
      | inr (no', v', end) ↦ elim (t.clean v') [
        | inl f ↦ inl f
        | inr (no'', v'', all) ↦ inr (no'', v'', (end, all))
      ]
    ];
  }

  -- the call finds a cycle
  found_in_call :
      (path : List String) (k : String) (ks : List String) (s : Chain)
      (call r : Option (Bool × Chain)) (c : Ran path (Ends edges k) s call)
      → c.found ≡ true
      → r ≡ some (true, c.out)
      → Ran path (All (Ends edges) (k ∷ ks)) s r
  found_in_call path k ks s call r c yes' same = record {
    found = true;
    out = c.out;
    returns = same;
    grows = c.grows;
    cyclic = c.cyclic;
    keeps = c.keeps;
    clean = λ v. elim (c.clean v) [
      | inl (t, found) ↦ inl (refl, found)
      | inr (no', rest, end) ↦ absurd (ground (arith, yes', no'))
    ];
  }

  -- a neighbor in `recStack`
  found_here :
      (path : List String) (n k : String) (ks : List String) (s : Chain) (r : Option (Bool × Chain))
      → IsPath edges path
      → Last n path
      → HasEdge edges n k
      → contains k s.rec_stack ≡ true
      → r ≡ some (true, close_chain k path s)
      → Ran path (All (Ends edges) (k ∷ ks)) s r
  found_here path n k ks s r p l e on same =
      let (visited, keeps) = close_chain_keeps edges k path s in
      record {
        found = true;
        out = close_chain k path s;
        returns = same;
        grows = λ j.
            rw visited
              (elim (Bool-cases (contains j s.visited)) [ inl y ↦ inr y | inr n' ↦ inl n' ]);
        cyclic = close_chain-All edges k n path s p l e;
        keeps = keeps;
        clean = λ v. inl (refl, close_chain-found edges k path s (ground (arith, v.on k, on)));
      }

  -- a visited neighbor that is not in `recStack`
  passed :
      (path : List String) (k : String) (ks : List String) (s : Chain)
      (rest r : Option (Bool × Chain))
      → contains k s.visited ≡ true
      → contains k s.rec_stack ≡ false
      → r ≡ rest
      → Ran path (All (Ends edges) ks) s rest
      → Ran path (All (Ends edges) (k ∷ ks)) s r
  passed path k ks s rest r seen off same t = record {
    found = t.found;
    out = t.out;
    returns = same ∙ t.returns;
    grows = t.grows;
    cyclic = t.cyclic;
    keeps = t.keeps;
    clean = λ v.
        let end : Ends edges k = ground (arith, v.done k, v.on k, seen, off) in
        elim (t.clean v) [ inl f ↦ inl f | inr (no', v', all) ↦ inr (no', v', (end, all)) ];
  }

  module _ (fuel : ℕ) (path : List String) (n : String) (is_path : IsPath edges path)
      (is_last : Last n path)
      (calls : (k : String) (s : Chain)
        → contains k s.visited ≡ false
        → Neighbor n k
        → fresh s.visited (ends_of edges) ≤ fuel
        → Ran path (Ends edges k) s (dfs_chain fuel edges path k s)) where
    scan_neighbors-Ran :
        (ks : List String) (s : Chain)
        → All (Neighbor n) ks
        → fresh s.visited (ends_of edges) ≤ fuel
        → Ran path (All (Ends edges) ks) s (scan_neighbors (dfs_chain fuel edges path) path ks s)
    unfolding scan_neighbors
    scan_neighbors-Ran [] s a f = record {
      found = false;
      out = s;
      returns = refl;
      grows = λ j. elim (Bool-cases (contains j s.visited)) [ inl y ↦ inr y | inr n' ↦ inl n' ];
      cyclic = λ c. c;
      keeps = ground arith;
      clean = λ v. inr (refl, v, tt);
    }
    scan_neighbors-Ran (k ∷ ks) s a f = elim (Bool-cases (contains k s.visited)) [
      | inl seen ↦ elim (Bool-cases (contains k s.rec_stack)) [
        | inl on ↦
            found_here path n k ks s _ is_path is_last a.0.0 on (rw (seen, on, scan_neighbors) refl)
        | inr off ↦
            passed path k ks s _ _ seen off (rw (seen, off, scan_neighbors) refl)
              (scan_neighbors-Ran ks s a.1 f)
      ]
      | inr new ↦
          let c = calls k s new a.0 f in
          elim (Bool-cases c.found) [
            | inl yes' ↦
                found_in_call path k ks s _ _ c yes'
                  (rw (new, c.returns, yes', scan_neighbors) refl)
            | inr no' ↦
                and_scan path k ks s _ _ _ c no' (rw (new, c.returns, no', scan_neighbors) refl) (
                  scan_neighbors-Ran ks c.out a.1 (
                    let less = fresh_mono s.visited c.out.visited (ends_of edges) c.grows in
                    omega (arith, less, f)))
          ]
    ]

  all_contains :
      (P : String → Type 0) (k : String) (ks : List String) → All P ks → contains k ks ≡ true → P k
  unfolding contains
  all_contains P k [] a h = absurd (ground arith)
  all_contains P k (x ∷ ks) a h = elim (String-cases x k) [
    | inl same ↦ subst P same a.0
    | inr ne ↦ all_contains P k ks a.1 (ground (arith, h, eq_iff x k))
  ]

  pub contains-All :
      (P : String → Type 0) (ks : List String)
      → ((k : String) → contains k ks ≡ true → P k)
      → All P ks
  unfolding contains
  contains-All P [] h = tt
  contains-All P (x ∷ ks) h =
      (h x (ground (arith, str_eq_refl x)), contains-All P ks (λ k c. h k (ground (arith, c))))

  Ends-neighbors : (n : String) → All (Ends edges) (successors edges n) → Ends edges n
  Ends-neighbors n a =
      Ends.ends
        (λ y e. all_contains (Ends edges) y (successors edges n) a ((successors_iff edges n y).1 e))

  edge_to :
      (es : List Edge) (x y : String) → HasEdge es x y → contains y (map (λ e. e.to) es) ≡ true
  unfolding contains
  edge_to [] x y h = absurd h
  edge_to (e ∷ es) x y (inl h) = ground (arith, h.1, eq_iff e.to y)
  edge_to (e ∷ es) x y (inr h) = ground (arith, edge_to es x y h)

  pub edge_start :
      (es : List Edge) (x y : String) → HasEdge es x y → contains x (map (λ e. e.from) es) ≡ true
  unfolding contains
  edge_start [] x y h = absurd h
  edge_start (e ∷ es) x y (inl h) = ground (arith, h.0, eq_iff e.from x)
  edge_start (e ∷ es) x y (inr h) = ground (arith, edge_start es x y h)

  neighbors : (n : String) → All (Neighbor n) (successors edges n)
  neighbors n = contains-All (Neighbor n) (successors edges n) (λ k c.
      let e = (successors_iff edges n k).0 c in
      (
        e,
        ground (
          arith,
          edge_to edges n k e,
          contains-append k (map (λ e. e.from) edges) (map (λ e. e.to) edges),
        ),
      ))

  -- `dfs`, from what its loop does
  leave_loop :
      (path : List String) (node : String) (s : Chain) (loop r : Option (Bool × Chain))
      (t : Ran
        (path ++ (node ∷ []))
        (All (Ends edges) (successors edges node))
        (enter_node node s)
        loop)
      → contains node s.visited ≡ false
      → (found : Bool) × (found ≡ t.found)
        × (r ≡ (if found then some (true, t.out) else some (false, leave_node node t.out)))
      → (x : Ran path (Ends edges node) s r) × (contains node x.out.visited ≡ true)
  unfolding enter_node leave_node contains
  leave_loop path node s loop r t new (true, yes', same) = (
    record {
      found = true;
      out = t.out;
      returns = same;
      grows = λ k. ground (arith, t.grows k);
      cyclic = t.cyclic;
      keeps = t.keeps;
      clean = λ v. elim (t.clean (enter_node-IsClean edges node path s v)) [
        | inl (y, f) ↦ inl (refl, f)
        | inr (no', v', all) ↦ absurd (ground (arith, yes', no'))
      ];
    },
    ground (arith, t.grows node, str_eq_refl node),
  )
  leave_loop path node s loop r t new (false, no', same) = (
    record {
      found = false;
      out = leave_node node t.out;
      returns = same;
      grows = λ k. ground (arith, t.grows k);
      cyclic = t.cyclic;
      keeps = t.keeps;
      clean = λ v. elim (t.clean (enter_node-IsClean edges node path s v)) [
        | inl (yes', f) ↦ absurd (ground (arith, yes', no'))
        | inr (n, v', all) ↦
            let off : contains node path ≡ false = ground (arith, v.seen node, new) in
            let end = Ends-neighbors node all in
            inr (refl, leave_node-IsClean edges node path t.out off end v', end)
      ];
    },
    ground (arith, t.grows node, str_eq_refl node),
  )

  pub dfs_chain-Ran :
      (fuel : ℕ) (path : List String) (node : String) (s : Chain)
      → IsPath edges (path ++ (node ∷ []))
      → contains node s.visited ≡ false
      → contains node (ends_of edges) ≡ true
      → fresh s.visited (ends_of edges) ≤ fuel
      → (x : Ran path (Ends edges node) s (dfs_chain fuel edges path node s)) × (contains node
            x.out.visited
          ≡ true)
  unfolding dfs_chain enter_node
  dfs_chain-Ran zero path node s p new named f =
      absurd (ground (arith, fresh_less node s.visited (ends_of edges) new named))
  dfs_chain-Ran (suc fuel) path node s p new named f =
      let path' = path ++ (node ∷ []) in
      let l = Last-append path node in
      let less = fresh_less node s.visited (ends_of edges) new named in
      let t =
        scan_neighbors-Ran fuel path' node p l
          (λ k u new' e f'.
            (dfs_chain-Ran fuel path' k u (IsPath-append edges path' node k p l e.0) new' e.1 f').0)
          (successors edges node) (enter_node node s) (neighbors node) (omega (arith, less, f)) in
      leave_loop path node s _ _ t new (elim (Bool-cases t.found) [
        | inl yes' ↦ (true, sym yes', rw (t.returns, yes', dfs_chain) refl)
        | inr no' ↦ (false, sym no', rw (t.returns, no', dfs_chain) refl)
      ])

  -- What the loop that calls `dfs` leaves.
  pub record Visits (ns : List String) (s : Chain) (r : Option Chain) : Type 0 where
    pub out : Chain
    pub returns : r ≡ some out
    pub grows : Within s.visited out.visited
    pub cyclic : Cyclic out
    pub clean : (any_found out.cycles ≡ true) ⊎ IsClean edges [] out
    pub seen : Within ns out.visited

  still-IsClean :
      {G : Type 0} {b : Bool} (s t : Chain)
      → (any_found s.cycles ≡ false) ⊎ (any_found t.cycles ≡ true)
      → (any_found s.cycles ≡ true) ⊎ IsClean edges [] s
      → (IsClean edges [] s
          → ((b ≡ true) × (any_found t.cycles ≡ true)) ⊎ ((b ≡ false) × IsClean edges [] t × G))
      → (any_found t.cycles ≡ true) ⊎ IsClean edges [] t
  still-IsClean s t keeps (inl found) h = ground (arith, keeps, found)
  still-IsClean s t keeps (inr v) h = elim (h v) [
    | inl (b', found) ↦ inl found
    | inr (b', clean, goal) ↦ inr clean
  ]

  pub visit_nodes-Visits :
      (fuel : ℕ) (ns : List String) (s : Chain)
      → All (λ n. contains n (ends_of edges) ≡ true) ns
      → length (ends_of edges) ≤ fuel
      → Cyclic s
      → (any_found s.cycles ≡ true) ⊎ IsClean edges [] s
      → Visits ns s (visit_nodes fuel edges ns s)
  unfolding visit_nodes contains
  visit_nodes-Visits fuel [] s a f c v = record {
    out = s;
    returns = refl;
    grows = λ k. ground arith;
    cyclic = c;
    clean = v;
    seen = λ k. inl refl;
  }
  visit_nodes-Visits fuel (n ∷ ns) s a f c v = elim (Bool-cases (contains n s.visited)) [
    | inl there ↦
        let t = visit_nodes-Visits fuel ns s a.1 f c v in
        record {
          out = t.out;
          returns = rw (there, visit_nodes) t.returns;
          grows = t.grows;
          cyclic = t.cyclic;
          clean = t.clean;
          seen = λ k. ground (arith, there, t.grows n, t.seen k, eq_iff n k);
        }
    | inr new ↦
        let (d, entered) =
          dfs_chain-Ran fuel [] n s tt new a.0
            (omega (arith, fresh-le s.visited (ends_of edges), f)) in
        let t =
          visit_nodes-Visits fuel ns d.out a.1 f (d.cyclic c)
            (still-IsClean s d.out d.keeps v d.clean) in
        record {
          out = t.out;
          returns = rw (new, d.returns, visit_nodes) t.returns;
          grows = λ k. ground (arith, d.grows k, t.grows k);
          cyclic = t.cyclic;
          clean = t.clean;
          seen = λ k. ground (arith, entered, t.grows n, t.seen k, eq_iff n k);
        }
  ]
