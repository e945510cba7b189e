-- ===== src/Rules/Cycles/Invariant.antt =====
-- internal/rules/no_cycles.go: what holds between the steps of the search.
use merm.Prelude.{
  ℕ, suc, ◌≤◌, ◌≡◌, ◌⊎◌, inl, inr, refl, sym, ◌∙◌, ◌≢◌, subst, String, Bool, true, false, not, List,
  [], ◌∷◌, ◌++◌, some, arith, if◌then◌else◌, str_eq, eq_iff, contains, contains-delete_self,
  contains-delete_ne, keep, length, All, Bool-cases, String-cases,
}
use merm.Model.{Issue, Edge, Diagram}
use merm.Rules.Config.{Config}
use merm.Rules.State.Search.{HasEdge}
use merm.Rules.Cycles.{
  Search, is_skipped, segment, cycle_issue, cycle_message, close_cycle, normalized_cycle_key, enter,
  leave, behind,
}
use merm.Rules.Cycles.Walks.{IsStack, IsCycle, Ends, segment-IsCycle}

abbrev pub is_empty : List Issue → Bool
is_empty [] = true
is_empty (i ∷ issues) = false

-- how many of the names have not been visited
pub fresh : List String → List String → ℕ
fresh visited [] = 0
fresh visited (k ∷ ks) =
    let rest = fresh visited ks in if contains k visited then rest else suc rest

pub fresh-le : (v ks : List String) → fresh v ks ≤ length ks
unfolding fresh
fresh-le v [] = omega arith
fresh-le v (k ∷ ks) = ground (arith, fresh-le v ks)

-- what one set of visited nodes holds, another does too
abbrev pub Within : List String → List String → Type 0
Within v w = (k : String) → (contains k v ≡ false) ⊎ (contains k w ≡ true)

pub fresh_mono : (v w ks : List String) → Within v w → fresh w ks ≤ fresh v ks
unfolding fresh
fresh_mono v w [] h = omega arith
fresh_mono v w (k ∷ ks) h = ground (arith, fresh_mono v w ks h, h k)

pub fresh_less :
    (k : String) (v ks : List String)
    → contains k v ≡ false
    → contains k ks ≡ true
    → suc (fresh (k ∷ v) ks) ≤ fresh v ks
unfolding fresh contains
fresh_less k v [] n m = ground arith
fresh_less k v (j ∷ ks) n m = ground (
  arith,
  eq_iff j k,
  eq_iff k j,
  fresh_less k v ks n,
  fresh_mono v (k ∷ v) ks (λ i. ground (arith, eq_iff k i)),
)

pub contains-segment :
    (k : String) (stack : List String)
    → contains k stack ≡ true
    → (ids : List String) × (segment k stack ≡ some ids)
unfolding contains segment
contains-segment k [] h = absurd (ground arith)
contains-segment k (x ∷ stack) h = elim (Bool-cases (str_eq x k)) [
  | inl here ↦ (x ∷ [], ground arith)
  | inr further ↦
      let (ids, found) = contains-segment k stack (ground arith) in (ids ++ (x ∷ []), ground arith)
]

module _ (d : Diagram) (cfg : Config) where
  -- the edges that the search follows
  abbrev pub followed : List Edge
  followed = keep (λ e. not (is_skipped cfg e)) d.edges

  -- A finding that shows a cycle.
  pub record Shows (i : Issue) : Type 0 where
    pub ids : List String
    pub cycle : IsCycle followed ids
    pub message : i.message ≡ cycle_message ids

  pub record IsSound (s : Search) : Type 0 where
    pub on : (k : String) → contains k s.on_stack ≡ contains k s.stack
    pub path : IsStack followed s.stack
    pub seen : Within s.stack s.visited
    pub genuine : All Shows s.issues
    pub quiet : (is_empty s.issues ≡ false) ⊎ (s.seen_cycles ≡ [])
    pub done :
        (k : String)
        → (is_empty s.issues ≡ false)
          ⊎ (contains k s.visited ≡ false)
          ⊎ (contains k s.stack ≡ true)
          ⊎ Ends followed k

  -- What a part of the search keeps.
  pub record Goes (s t : Search) : Type 0 where
    pub stack : t.stack ≡ s.stack
    pub grows : Within s.visited t.visited
    pub found : (is_empty s.issues ≡ true) ⊎ (is_empty t.issues ≡ false)

  All-Shows_append :
      (l : List Issue) (i : Issue) → All Shows l → Shows i → All Shows (l ++ (i ∷ []))
  All-Shows_append [] i a h = (h, tt)
  All-Shows_append (j ∷ l) i a h = (a.0, All-Shows_append l i a.1 h)

  append_nonempty : (l : List Issue) (i : Issue) → is_empty (l ++ (i ∷ [])) ≡ false
  append_nonempty [] i = refl
  append_nonempty (j ∷ l) i = refl

  pub Goes-refl : (s : Search) → Goes s s
  Goes-refl s = record {
    stack = refl;
    grows = λ k. ground (arith, Bool-cases (contains k s.visited));
    found = ground (arith, Bool-cases (is_empty s.issues));
  }

  pub Goes-trans : (s t u : Search) → Goes s t → Goes t u → Goes s u
  Goes-trans s t u g h = record {
    stack = ground (arith, g.stack, h.stack);
    grows = λ k. ground (arith, g.grows k, h.grows k);
    found = ground (arith, g.found, h.found);
  }

  pub enter-IsSound :
      (id : String) (s : Search)
      → contains id s.visited ≡ false
      → IsStack followed (id ∷ s.stack)
      → IsSound s
      → IsSound (enter id s)
  unfolding enter contains
  enter-IsSound id s n p v = record {
    on = λ k. ground (arith, v.on k);
    path = p;
    seen = λ k. ground (arith, v.seen k);
    genuine = v.genuine;
    quiet = v.quiet;
    done = λ k. ground (arith, v.done k);
  }

  known_nonempty :
      (s : Search) (key : String)
      → IsSound s
      → contains key s.seen_cycles ≡ true
      → is_empty s.issues ≡ false
  unfolding contains
  known_nonempty s key v h = ground (arith, v.quiet)

  add_issue-IsSound :
      (s : Search) (key : String) (i : Issue)
      → IsSound s
      → Shows i
      → IsSound (record s { seen_cycles = key ∷ s.seen_cycles; issues = s.issues ++ (i ∷ []) })
  add_issue-IsSound s key i v h = record {
    on = v.on;
    path = v.path;
    seen = v.seen;
    genuine = All-Shows_append s.issues i v.genuine h;
    quiet = inl (append_nonempty s.issues i);
    done = λ k. inl (append_nonempty s.issues i);
  }

  contains_behind :
      (k id : String) (rest : List String) → k ≢ id → contains k (id ∷ rest) ≡ contains k rest
  unfolding contains
  contains_behind k id rest ne = ground (arith, eq_iff id k)

  behind-IsStack :
      (edges : List Edge) (id : String) (rest : List String)
      → IsStack edges (id ∷ rest)
      → IsStack edges rest
  behind-IsStack edges id [] p = tt
  behind-IsStack edges id (x ∷ rest) p = p.1

  -- at an edge to a node on the stack a finding is there or is made
  pub close_cycle-IsSound :
      (e : Edge) (top : String) (rest : List String) (s : Search)
      → s.stack ≡ top ∷ rest
      → contains e.to s.on_stack ≡ true
      → HasEdge followed top e.to
      → IsSound s
      → IsSound (close_cycle d cfg e s)
        × Goes s (close_cycle d cfg e s)
        × (is_empty (close_cycle d cfg e s).issues ≡ false)
  unfolding close_cycle cycle_issue
  close_cycle-IsSound e top rest s st on h v =
      let (ids, found) = contains-segment e.to s.stack (ground (arith, on, v.on e.to)) in
      let nodes = ids ++ (e.to ∷ []) in
      let shows : Shows (cycle_issue d cfg e nodes) = record {
        ids = nodes;
        cycle =
            segment-IsCycle followed e.to top rest ids (subst (IsStack followed) st v.path)
              (subst (λ l. segment e.to l ≡ some ids) st found) h;
        message = refl;
      } in
      elim (Bool-cases (contains (normalized_cycle_key nodes) s.seen_cycles)) [
        | inl known ↦ rw (found, known, close_cycle) (v, Goes-refl s, known_nonempty s _ v known)
        | inr new ↦
            rw (found, new, close_cycle)
              (
                add_issue-IsSound s (normalized_cycle_key nodes) (cycle_issue d cfg e nodes) v
                    shows,
                record {
                  stack = refl;
                  grows = (Goes-refl s).grows;
                  found = inr (append_nonempty s.issues (cycle_issue d cfg e nodes));
                },
                append_nonempty s.issues (cycle_issue d cfg e nodes),
              )
      ]

  stack_behind :
      (k id : String) (rest : List String) (s : Search)
      → s.stack ≡ id ∷ rest
      → k ≢ id
      → contains k s.stack ≡ contains k (behind s.stack)
  stack_behind k id rest s st ne = rw st (contains_behind k id rest ne)

  pub leave-IsSound :
      (id : String) (rest : List String) (s : Search)
      → s.stack ≡ id ∷ rest
      → contains id rest ≡ false
      → (is_empty s.issues ≡ false) ⊎ Ends followed id
      → IsSound s
      → IsSound (leave id s)
  unfolding leave
  leave-IsSound id rest s st n h v = record {
    on = λ k. elim (String-cases k id) [
      | inl same ↦ rw (same, st) (contains-delete_self id s.on_stack ∙ sym n)
      | inr ne ↦
          contains-delete_ne k id s.on_stack ne ∙ v.on k ∙ rw st (contains_behind k id rest ne)
    ];
    path = rw st (behind-IsStack followed id rest (subst (IsStack followed) st v.path));
    seen = λ k. elim (String-cases k id) [
      | inl same ↦ inl (rw (same, st) n)
      | inr ne ↦ let moved = stack_behind k id rest s st ne in ground (arith, v.seen k, moved)
    ];
    genuine = v.genuine;
    quiet = v.quiet;
    done = λ k. elim (String-cases k id) [
      | inl same ↦ elim h [
        | inl made ↦ inl made
        | inr ending ↦ inr (inr (inr (subst (Ends followed) (sym same) ending)))
      ]
      | inr ne ↦ let moved = stack_behind k id rest s st ne in ground (arith, v.done k, moved)
    ];
  }
