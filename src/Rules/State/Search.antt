-- ===== src/Rules/State/Search.antt =====
-- internal/rules/state_no_unreachable.go: what the search reaches.
use merm.Prelude.{
  ℕ, zero, suc, ◌+◌, ◌≤◌, ◌≡◌, ◌↔◌, ◌&&◌, refl, sym, subst, String, true, false, not, ◌||◌, some,
  List, [], ◌∷◌, arith, if◌then◌else◌, str_eq, eq_iff, contains, length, length-append, Any,
  Bool-cases, String-cases, inl, inr,
}
use merm.Model.{Edge}
use merm.Rules.Keys.{contains-append}
use merm.Rules.State.{successors, targets, see, visit, drain_queue, fuel_for}

-- an edge between two states
abbrev pub HasEdge : List Edge → String → String → Type 0
HasEdge edges x y = Any (λ e. (e.from ≡ x) × (e.to ≡ y)) edges

-- The states that a path of edges leads to from an initial one.
pub data Reach (edges : List Edge) (starts : List String) : String → Type 0 where
  start : {x : String} → contains x starts ≡ true → Reach edges starts x
  step : {x y : String} → Reach edges starts x → HasEdge edges x y → Reach edges starts y

pub successors_iff :
    (edges : List Edge) (x y : String)
    → (contains y (successors edges x) ≡ true) ↔ HasEdge edges x y
unfolding successors contains
successors_iff [] x y = ground arith
successors_iff (e ∷ edges) x y =
    ground (arith, eq_iff e.from x, eq_iff e.to y, successors_iff edges x y)

see-reachable :
    (k n : String) (r q : List String) → contains k (see n (r, q)).0 ≡ (str_eq n k || contains k r)
unfolding see contains
see-reachable k n r q = ground (arith, eq_iff n k)

see-queue :
    (k n : String) (r q : List String)
    → contains k (see n (r, q)).1 ≡ (contains k q || str_eq n k && not (contains k r))
unfolding see contains
see-queue k n r q = ground (arith, eq_iff n k, contains-append k q (n ∷ []))

visit-reachable :
    (k : String) (ns r q : List String)
    → contains k (visit ns (r, q)).0 ≡ (contains k ns || contains k r)
unfolding visit contains
visit-reachable k [] r q = refl
visit-reachable k (n ∷ ns) r q =
    ground (arith, see-reachable k n r q, visit-reachable k ns (see n (r, q)).0 (see n (r, q)).1)

visit-queue :
    (k : String) (ns r q : List String)
    → contains k (visit ns (r, q)).1 ≡ (contains k q || contains k ns && not (contains k r))
unfolding visit contains
visit-queue k [] r q = ground arith
visit-queue k (n ∷ ns) r q = ground (
  arith,
  see-reachable k n r q,
  see-queue k n r q,
  visit-queue k ns (see n (r, q)).0 (see n (r, q)).1,
)

-- the edges to states that are not reachable yet
missing : List String → List Edge → ℕ
missing r [] = 0
missing r (e ∷ edges) = let rest = missing r edges in if contains e.to r then rest else suc rest

missing-le : (r : List String) (edges : List Edge) → missing r edges ≤ length edges
unfolding missing
missing-le r [] = omega arith
missing-le r (e ∷ edges) = ground (arith, missing-le r edges)

missing_mono :
    (n : String) (r : List String) (edges : List Edge) → missing (n ∷ r) edges ≤ missing r edges
unfolding missing contains
missing_mono n r [] = omega arith
missing_mono n r (e ∷ edges) = ground (arith, missing_mono n r edges)

missing_less :
    (n : String) (r : List String) (edges : List Edge)
    → contains n r ≡ false
    → contains n (targets edges) ≡ true
    → suc (missing (n ∷ r) edges) ≤ missing r edges
unfolding missing contains
missing_less n r [] h t = ground arith
missing_less n r (e ∷ edges) h t =
    ground (arith, missing_less n r edges h, missing_mono n r edges, eq_iff e.to n, eq_iff n e.to)

see_cost :
    (n : String) (r q : List String) (edges : List Edge)
    → contains n (targets edges) ≡ true
    → length (see n (r, q)).1 + missing (see n (r, q)).0 edges ≤ length q + missing r edges
unfolding see
see_cost n r q edges t = ground (arith, missing_less n r edges, length-append q (n ∷ []))

visit_cost :
    (ns r q : List String) (edges : List Edge)
    → ((k : String) → contains k ns ≡ true → contains k (targets edges) ≡ true)
    → length (visit ns (r, q)).1 + missing (visit ns (r, q)).0 edges ≤ length q + missing r edges
unfolding visit contains
visit_cost [] r q edges t = omega arith
visit_cost (n ∷ ns) r q edges t =
    let first = see_cost n r q edges (t n (ground (arith, eq_iff n n))) in
    let rest =
      visit_cost ns (see n (r, q)).0 (see n (r, q)).1 edges
        (λ k h. t k (ground (arith, eq_iff n k))) in
    ground (arith, first, rest)

successors-targets :
    (edges : List Edge) (x k : String)
    → contains k (successors edges x) ≡ true
    → contains k (targets edges) ≡ true
unfolding successors contains
successors-targets [] x k h = ground arith
successors-targets (e ∷ edges) x k h = ground (arith, successors-targets edges x k)

-- The search ends within the fuel.
drain_queue_total :
    (fuel : ℕ) (edges : List Edge) (q r : List String)
    → length q + missing r edges ≤ fuel
    → (l : List String) × (drain_queue fuel edges q r ≡ some l)
unfolding drain_queue
drain_queue_total fuel edges [] r h = (r, refl)
drain_queue_total zero edges (x ∷ q) r h = absurd (ground arith)
drain_queue_total (suc fuel) edges (x ∷ q) r h =
    let ns = successors edges x in
    let cost = visit_cost ns r q edges (successors-targets edges x) in
    drain_queue_total fuel edges (visit ns (r, q)).1 (visit ns (r, q)).0 (ground (arith, cost))

drain_queue-sound :
    (fuel : ℕ) (edges : List Edge) (starts q r l : List String)
    → ((k : String) → contains k q ≡ true → Reach edges starts k)
    → ((k : String) → contains k r ≡ true → Reach edges starts k)
    → drain_queue fuel edges q r ≡ some l
    → (k : String) → contains k l ≡ true
    → Reach edges starts k
unfolding drain_queue contains
drain_queue-sound fuel edges starts [] r l hq hr e k h = hr k (ground arith)
drain_queue-sound zero edges starts (x ∷ q) r l hq hr e k h = absurd (ground arith)
drain_queue-sound (suc fuel) edges starts (x ∷ q) r l hq hr e k h =
    let ns = successors edges x in
    let here : Reach edges starts x = hq x (ground (arith, eq_iff x x)) in
    let next : (j : String) → contains j ns ≡ true → Reach edges starts j =
      (λ j c. Reach.step here ((successors_iff edges x j).0 c)) in
    drain_queue-sound fuel edges starts (visit ns (r, q)).1 (visit ns (r, q)).0 l
      (λ j c. elim (Bool-cases (contains j ns)) [
        | inl yes' ↦ next j yes'
        | inr no' ↦ hq j (ground (arith, visit-queue j ns r q))
      ])
      (λ j c. elim (Bool-cases (contains j ns)) [
        | inl yes' ↦ next j yes'
        | inr no' ↦ hr j (ground (arith, visit-reachable j ns r q))
      ])
      e k h

-- what is reachable stays so, and its successors are reachable too in the end
drain_queue_complete :
    (fuel : ℕ) (edges : List Edge) (q r l : List String)
    → ((x y : String)
        → contains x r ≡ true
        → contains x q ≡ false
        → HasEdge edges x y
        → contains y r ≡ true)
    → drain_queue fuel edges q r ≡ some l
    → ((k : String) → contains k r ≡ true → contains k l ≡ true)
      × ((x y : String) → contains x l ≡ true → HasEdge edges x y → contains y l ≡ true)
unfolding drain_queue contains
drain_queue_complete fuel edges [] r l c e =
    (λ k h. ground arith, λ x y h s. let d = c x y (ground arith) refl s in ground arith)
drain_queue_complete zero edges (x ∷ q) r l c e = absurd (ground arith)
drain_queue_complete (suc fuel) edges (x ∷ q) r l c e =
    let ns = successors edges x in
    let later =
      drain_queue_complete fuel edges (visit ns (r, q)).1 (visit ns (r, q)).0 l
        (λ a b ha na s. elim (String-cases x a) [
          | inl same ↦
              let edge =
                (successors_iff edges x b).1 (subst (λ z. HasEdge edges z b) (sym same) s) in
              ground (arith, edge, visit-reachable b ns r q)
          | inr other ↦
              let old : contains a r ≡ true =
                ground (arith, ha, na, visit-reachable a ns r q, visit-queue a ns r q) in
              let unqueued : contains a (x ∷ q) ≡ false =
                ground (arith, eq_iff x a, na, visit-queue a ns r q) in
              let kept = c a b old unqueued s in ground (arith, kept, visit-reachable b ns r q)
        ])
        e in
    (λ k h. later.0 k (ground (arith, visit-reachable k ns r q)), later.1)

Reach-closed :
    (edges : List Edge) (starts l : List String)
    → ((k : String) → contains k starts ≡ true → contains k l ≡ true)
    → ((x y : String) → contains x l ≡ true → HasEdge edges x y → contains y l ≡ true)
    → (k : String) → Reach edges starts k
    → contains k l ≡ true
Reach-closed edges starts l more closed k (Reach.start h) = more k h
Reach-closed edges starts l more closed k (Reach.step {x} r s) =
    closed x k (Reach-closed edges starts l more closed x r) s

-- The search from the initial states ends within the fuel, with exactly the states that a path leads to
-- from one of them.
pub drain_queue_iff :
    (edges : List Edge) (starts : List String)
    → (l : List String) × (drain_queue (fuel_for starts edges) edges starts starts ≡ some l)
      × ((k : String) → (contains k l ≡ true) ↔ Reach edges starts k)
drain_queue_iff edges starts =
    let fuel = fuel_for starts edges in
    let (l, ends) =
      drain_queue_total fuel edges starts starts (ground (arith, missing-le starts edges)) in
    let (more, closed) =
      drain_queue_complete fuel edges starts starts l (λ x y h n s. absurd (ground arith)) ends in
    (
      l,
      ends,
      λ k. (
        drain_queue-sound fuel edges starts starts starts l (λ j. Reach.start) (λ j. Reach.start)
            ends k,
        Reach-closed edges starts l more closed k,
      ),
    )
