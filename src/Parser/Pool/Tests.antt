-- ===== src/Parser/Pool/Tests.antt =====
-- A run of the pool of internal/parser/worker_pool.go, and its theorems at concrete inputs.
use merm.Prelude.{◌≡◌, refl, false, true, some, List, [], ◌∷◌}
use merm.Parser.Pool.{
  borrow, start_failed, started, release, aborted, close, System, Event, borrows, makes, releases,
  take_out, after_borrow, after_start, after_release, step, run, initial, new_worker_pool,
}
use merm.Parser.Pool.Clients.{IsSound, run-initial-IsSound}

program : Unit {0}
unfolding borrow start_failed started release aborted close take_out after_borrow after_start
    after_release step run initial new_worker_pool
program = tt

-- one worker is made and lent
abbrev events : List Event
events = borrows ∷ makes ∷ []

abbrev busy : System
busy = record {
  pool = record { max_size = 1; idle = []; total = 1; closing = false };
  starting = 0;
  lent = 0 ∷ [];
  aborting = 0;
  made = 1;
}

run-busy : run events (initial 1) ≡ some busy
unfolding program
run-busy = refl

-- a released worker is lent again
run-again : run (borrows ∷ makes ∷ releases 0 true ∷ borrows ∷ []) (initial 1) ≡ some busy
unfolding program
run-again = refl

run-initial-IsSound_example : IsSound busy
run-initial-IsSound_example = run-initial-IsSound 1 events busy run-busy
