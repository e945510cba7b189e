-- ===== src/Parser/Pool/Clients.antt =====
-- internal/parser/worker_pool.go: what holds whatever the clients of the pool do and in whatever order
-- their sections run.
use mathlib.Core.Option.{some-injective}
use merm.Prelude.{
  ℕ, suc, ◌+◌, ◌≤◌, ◌<◌, ◌≡◌, subst, ◌⊎◌, inl, inr, refl, Bool, false, some, List, [], ◌∷◌, arith,
  if◌then◌else◌, length, ◌==◌, Option-cases,
}
use merm.Parser.Pool.{
  new_worker_pool, borrow, start_failed, started, release, aborted, close, System, Event, borrows,
  fails, makes, aborts, closes, releases, take_out, after_borrow, after_start, after_release, step,
  run, initial,
}

-- how often a worker occurs
unfoldable pub occurrences : ℕ → List ℕ → ℕ
occurrences w [] = 0
occurrences w (v ∷ vs) = let rest = occurrences w vs in if v == w then suc rest else rest

-- how often a worker is idle or lent
abbrev pub uses : ℕ → System → ℕ
uses w s = occurrences w s.pool.idle + occurrences w s.lent

-- The counter counts the workers that are idle, being made, lent or being aborted; there are at most
-- as many as the limit, none is idle when the pool is closing, and the numbers of those that are idle
-- or lent are of workers that have been made.
pub record IsSound (s : System) : Type 0 where
  pub total : s.pool.total ≡ s.starting + length s.lent + length s.pool.idle + s.aborting
  pub bound : s.pool.total ≤ s.pool.max_size
  pub closing : (s.pool.closing ≡ false) ⊎ (s.pool.idle ≡ [])
  pub made : (w : ℕ) → (uses w s ≡ 0) ⊎ (w < s.made)
  pub once : (w : ℕ) → uses w s ≤ 1

length-take_out :
    (w : ℕ) (vs left : List ℕ) → take_out w vs ≡ some left → length vs ≡ suc (length left)
unfolding take_out
length-take_out w [] left h = ground arith
length-take_out w (v ∷ vs) left h = elim (Option-cases (take_out w vs)) [
  | inl absent ↦ ground arith
  | inr (rest, found) ↦ ground (arith, length-take_out w vs rest found)
]

occurrences-take_out :
    (u w : ℕ) (vs left : List ℕ)
    → take_out w vs ≡ some left
    → occurrences u vs ≡ occurrences u left + (if w == u then 1 else 0)
unfolding take_out occurrences
occurrences-take_out u w [] left h = ground arith
occurrences-take_out u w (v ∷ vs) left h = elim (Option-cases (take_out w vs)) [
  | inl absent ↦ ground arith
  | inr (rest, found) ↦ ground (arith, occurrences-take_out u w vs rest found)
]

borrow-IsSound : (s : System) → IsSound s → IsSound (after_borrow s (borrow s.pool))
unfolding borrow after_borrow occurrences
borrow-IsSound s v = record {
  total = ground (arith, v.total);
  bound = ground (arith, v.bound);
  closing = ground (arith, v.closing);
  made = λ w. ground (arith, v.made w);
  once = λ w. ground (arith, v.once w);
}

fail-IsSound : (s t : System) → IsSound s → step fails s ≡ some t → IsSound t
unfolding step start_failed
fail-IsSound s t v h = record {
  total = ground (arith, v.total);
  bound = ground (arith, v.bound);
  closing = ground (arith, v.closing);
  made = λ w. ground (arith, v.made w);
  once = λ w. ground (arith, v.once w);
}

start-IsSound : (s t : System) → IsSound s → step makes s ≡ some t → IsSound t
unfolding step started after_start occurrences
start-IsSound s t v h = record {
  total = ground (arith, v.total);
  bound = ground (arith, v.bound);
  closing = ground (arith, v.closing);
  made = λ w. ground (arith, v.made w);
  once = λ w. ground (arith, v.once w, v.made w);
}

abort-IsSound : (s t : System) → IsSound s → step aborts s ≡ some t → IsSound t
unfolding step aborted
abort-IsSound s t v h = record {
  total = ground (arith, v.total);
  bound = ground (arith, v.bound);
  closing = ground (arith, v.closing);
  made = λ w. ground (arith, v.made w);
  once = λ w. ground (arith, v.once w);
}

release-IsSound :
    (w : ℕ) (healthy : Bool) (s t : System)
    → IsSound s
    → step (releases w healthy) s ≡ some t
    → IsSound t
unfolding step release after_release occurrences
release-IsSound w healthy s t v h = elim (Option-cases (take_out w s.lent)) [
  | inl absent ↦ absurd (ground arith)
  | inr (left, found) ↦
      let shorter = length-take_out w s.lent left found in
      record {
        total = ground (arith, v.total, shorter);
        bound = ground (arith, v.bound);
        closing = ground (arith, v.closing);
        made = λ u. ground (arith, v.made u, occurrences-take_out u w s.lent left found);
        once = λ u. ground (arith, v.once u, occurrences-take_out u w s.lent left found);
      }
]

close-IsSound : (s : System) → IsSound s → IsSound (record s { pool = (close s.pool).1 })
unfolding close occurrences
close-IsSound s v = record {
  total = ground (arith, v.total);
  bound = ground (arith, v.bound);
  closing = ground (arith, v.closing);
  made = λ w. ground (arith, v.made w);
  once = λ w. ground (arith, v.once w);
}

step-IsSound : (e : Event) (s t : System) → IsSound s → step e s ≡ some t → IsSound t
unfolding step
step-IsSound borrows s t v h = subst IsSound (some-injective _ _ h) (borrow-IsSound s v)
step-IsSound fails s t v h = fail-IsSound s t v h
step-IsSound makes s t v h = start-IsSound s t v h
step-IsSound (releases w healthy) s t v h = release-IsSound w healthy s t v h
step-IsSound aborts s t v h = abort-IsSound s t v h
step-IsSound closes s t v h = subst IsSound (some-injective _ _ h) (close-IsSound s v)

run-IsSound : (es : List Event) (s t : System) → IsSound s → run es s ≡ some t → IsSound t
unfolding run
run-IsSound [] s t v h = subst IsSound (some-injective _ _ h) v
run-IsSound (e ∷ es) s t v h = elim (Option-cases (step e s)) [
  | inl stuck ↦ absurd (ground arith)
  | inr (u, goes) ↦ run-IsSound es u t (step-IsSound e s u v goes) (ground arith)
]

initial-IsSound : (max_size : ℕ) → IsSound (initial max_size)
unfolding initial new_worker_pool occurrences
initial-IsSound max_size = record {
  total = refl;
  bound = omega arith;
  closing = inl refl;
  made = λ w. inl refl;
  once = λ w. omega arith;
}

-- Whatever the clients of a new pool do, in any interleaving: the counter counts the workers, there are
-- never more than the limit, no worker is lent twice or idle while it is lent, and none is idle once
-- the pool is closing.
pub run-initial-IsSound :
    (max_size : ℕ) (es : List Event) (t : System) → run es (initial max_size) ≡ some t → IsSound t
run-initial-IsSound max_size es t h =
    run-IsSound es (initial max_size) t (initial-IsSound max_size) h
