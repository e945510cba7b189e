-- ===== src/Parser/Pool.antt =====
-- internal/parser/worker_pool.go: the pool of parser processes. Each function on a `Pool` is what one
-- section under the mutex does. A `System` is a pool with its clients: the calls of `newFn` and `abort`
-- under way, and the workers that clients have borrowed. Workers are numbered in the order in which
-- `newFn` makes them. `total` is decremented only where it counts a worker, as the invariant shows.
pub mod Clients
mod Tests
use merm.Prelude.{
  ℕ, zero, suc, ◌+◌, ◌-◌, ◌≡◌, Bool, true, false, not, ◌||◌, Option, none, some, List, [], ◌∷◌,
  ◌++◌, if◌then◌else◌, length, ltb, ◌==◌,
}

-- `workerPool`; the last element of `idle` comes first here
pub record Pool : Type 0 where
  pub max_size : ℕ
  pub idle : List ℕ
  pub total : ℕ
  pub closing : Bool

-- `newWorkerPool`
unfoldable pub new_worker_pool : ℕ → Pool
new_worker_pool max_size = record {
  max_size = if ltb max_size 1 then 1 else max_size;
  idle = [];
  total = 0;
  closing = false;
}

-- what a round of the loop of `borrow` does: return an error, return a worker, call `newFn`, or wait
pub data Borrowed : Type 0 where
  refused starts waits : Borrowed
  lends : ℕ → Borrowed

-- a round of the loop of `borrow`
unfoldable pub borrow : Pool → Borrowed × Pool
borrow p =
    let make : Borrowed × Pool =
      if ltb p.total p.max_size then (starts, record p { total = p.total + 1 }) else (waits, p) in
    if p.closing
    then (refused, p)
    else elim p.idle [ [] ↦ make | w ∷ rest ↦ (lends w, record p { idle = rest }) ]

-- `borrow`, behind a call of `newFn` that fails
unfoldable pub start_failed : Pool → Pool
start_failed p = record p { total = p.total - 1 }

-- `borrow`, behind a call of `newFn` that makes a worker
unfoldable pub started : ℕ → Pool → Borrowed × Pool
started w p = if p.closing then (refused, record p { total = p.total - 1 }) else (lends w, p)

-- `release`, up to the call of `abort`: whether it is called
unfoldable pub release : ℕ → Bool → Pool → Bool × Pool
release w healthy p =
    if p.closing || not healthy then (true, p) else (false, record p { idle = w ∷ p.idle })

-- `release`, behind the call of `abort`
unfoldable pub aborted : Pool → Pool
aborted p = record p { total = p.total - 1 }

-- `close`: the workers that it closes
unfoldable pub close : Pool → List ℕ × Pool
close p =
    if p.closing
    then ([], p)
    else (p.idle, record p { idle = []; total = p.total - length p.idle; closing = true })

pub record System : Type 0 where
  pub pool : Pool
  pub starting : ℕ
  pub lent : List ℕ
  pub aborting : ℕ
  pub made : ℕ

pub data Event : Type 0 where
  borrows fails makes aborts closes : Event
  releases : ℕ → Bool → Event

-- a list without one occurrence of a worker
unfoldable pub take_out : ℕ → List ℕ → Option (List ℕ)
take_out w [] = none
take_out w (v ∷ vs) =
    let rest = take_out w vs in
    elim (v == w) [
      | true ↦ some vs
      | false ↦ elim rest [ none ↦ none | some left ↦ some (v ∷ left) ]
    ]

-- a client that has called `borrow`
unfoldable pub after_borrow : System → Borrowed × Pool → System
after_borrow s (refused, p) = record s { pool = p }
after_borrow s (waits, p) = record s { pool = p }
after_borrow s (starts, p) = record s { pool = p; starting = s.starting + 1 }
after_borrow s (lends w, p) = record s { pool = p; lent = w ∷ s.lent }

-- a client whose call of `newFn` has ended
unfoldable pub after_start : System → Borrowed × Pool → System
after_start s (lends w, p) = record s { pool = p; lent = w ∷ s.lent }
after_start s (_, p) = record s { pool = p }

-- a client that has called `release`
unfoldable pub after_release : System → Bool × Pool → System
after_release s (true, p) = record s { pool = p; aborting = s.aborting + 1 }
after_release s (false, p) = record s { pool = p }

-- one section of one client; `none` where no client is at that point
unfoldable pub step : Event → System → Option System
step borrows s = some (after_borrow s (borrow s.pool))
step fails s = elim s.starting [
  | zero ↦ none
  | suc n ↦ some (record s { pool = start_failed s.pool; starting = n })
]
step makes s = elim s.starting [
  | zero ↦ none
  | suc n ↦
      some (after_start (record s { starting = n; made = s.made + 1 }) (started s.made s.pool))
]
step (releases w healthy) s = elim (take_out w s.lent) [
  | none ↦ none
  | some lent ↦ some (after_release (record s { lent = lent }) (release w healthy s.pool))
]
step aborts s = elim s.aborting [
  | zero ↦ none
  | suc n ↦ some (record s { pool = aborted s.pool; aborting = n })
]
step closes s = some (record s { pool = (close s.pool).1 })

unfoldable pub run : List Event → System → Option System
run [] s = some s
run (e ∷ es) s = elim (step e s) [ none ↦ none | some t ↦ run es t ]

unfoldable pub initial : ℕ → System
initial max_size = record {
  pool = new_worker_pool max_size;
  starting = 0;
  lent = [];
  aborting = 0;
  made = 0;
}
