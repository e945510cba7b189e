-- ===== src/Parser/Cache/Tests.antt =====
-- Runs of the cache of internal/parser/cache.go, and its theorems at concrete inputs.
use merm.Prelude.{
  ℕ, ◌≡◌, refl, ◌≢◌, ◌≤◌, subst, String, none, some, List, [], arith, pos, eq_iff, contains, delete,
  keep, ◌+ℤ◌, ◌-ℤ◌, ◌+◌, ◌∷◌, ◌↔◌, pos_part,
}
use merm.Parser.Cache.{
  Cache, Entry, new, find, remove, back, element, remove_element, push, evict_record, evict_loop,
  evict_expired, get_live, get, update_entry, insert_entry, set_live, set_weighted, trim, drop_back,
  delete_key,
}
use merm.Parser.Cache.Entries.{prune, total}
use merm.Parser.Cache.Invariant.{IsValid}
use merm.Parser.Cache.Evict.{Evicted, evict_expired-Evicted}
use merm.Parser.Cache.Refine.{Gets, get-Gets}
use merm.Parser.Cache.Store.{entry, Sets, set_weighted-Sets}
use merm.Parser.Cache.Reads.{get-set_weighted, find-set_weighted_ne}
use merm.Parser.Cache.Bounds.{IsWithin, set_weighted-IsWithin, update_over}
use merm.Parser.Cache.Runs.{Call, sets, run, step, run-new-IsValid}

program : Unit {0}
unfolding new find remove back element remove_element push evict_record evict_loop evict_expired
    get_live get update_entry insert_entry set_live set_weighted trim drop_back delete_key run step
    contains delete keep prune ◌+ℤ◌ ◌-ℤ◌
program = tt

-- two entries of weight 5 under a byte limit of 10, stored at times 0 and 1 for 100
abbrev calls : List (Call ℕ)
calls = sets 0 "a" 1 (pos 5) ∷ sets 1 "b" 2 (pos 5) ∷ []

abbrev two : Cache ℕ
two = record {
  ttl = pos 100;
  max_size = pos 2;
  max_bytes = pos 10;
  bytes = pos 10;
  entries = "b" ∷ "a" ∷ [];
  order =
      record { key = "b"; value = 2; expires_at = 101; generation = 1; weight = 5 }
      ∷ record { key = "a"; value = 1; expires_at = 100; generation = 1; weight = 5 }
      ∷ [];
  expiry =
      record { key = "a"; expires_at = 100; generation = 1 }
      ∷ record { key = "b"; expires_at = 101; generation = 1 }
      ∷ [];
}

run-two : run (new (pos 2) (pos 100) (pos 10)) calls ≡ two
unfolding program
run-two = refl

-- at time 100 the first entry has expired, and the heap still tells
get_late : (get 100 "a" two).1 ≡ none
unfolding program
get_late = refl

get_late_count : (get 100 "a" two).2 ≡ 1
unfolding program
get_late_count = refl

-- a third key pushes out the least recently used one
set_third : (get 50 "a" (set_weighted 50 "c" 3 (pos 1) two).0).1 ≡ none
unfolding program
set_third = refl

-- a cached key does not: 15 bytes under a limit of 10
update_heavy : (set_weighted 50 "a" 3 (pos 10) two).0.bytes ≡ pos 15
unfolding program
update_heavy = refl

two-IsValid : IsValid two
two-IsValid = subst IsValid run-two (run-new-IsValid (pos 2) (pos 100) (pos 10) calls)

two-IsWithin : IsWithin two
two-IsWithin = refl

run-new-IsValid_example : IsValid (run (new (pos 2) (pos 100) (pos 10)) calls)
run-new-IsValid_example = run-new-IsValid (pos 2) (pos 100) (pos 10) calls

evict_expired-Evicted_example : Evicted 100 two (evict_expired 100 two).0 (evict_expired 100 two).1
evict_expired-Evicted_example = evict_expired-Evicted 100 two two-IsValid

get-Gets_example : Gets 50 "a" two (get 50 "a" two).0 (get 50 "a" two).1 (get 50 "a" two).2
get-Gets_example = get-Gets 50 "a" two two-IsValid refl

set_weighted-Sets_example :
    Sets 50 "c" 3 4 two (set_weighted 50 "c" 3 (pos 4) two).0 (set_weighted 50 "c" 3 (pos 4) two).1
set_weighted-Sets_example = set_weighted-Sets 50 "c" 3 (pos 4) two two-IsValid refl

get-set_weighted_example : (get 60 "c" (set_weighted 50 "c" 3 (pos 4) two).0).1 ≡ some 3
get-set_weighted_example =
    get-set_weighted 50 60 "c" 3 (pos 4) two two-IsValid refl refl (omega arith)

b_ne_c : ◌≢◌ {A = String} "b" "c"
b_ne_c = ground (arith, eq_iff "b" "c")

find-set_weighted_ne_example :
    find "b" (prune 50 two.order)
    ≡ some (record { key = "b"; value = 2; expires_at = 101; generation = 1; weight = 5 })
unfolding program
find-set_weighted_ne_example =
    find-set_weighted_ne 50 "b" "c" 3 (pos 4) two
      (record { key = "b"; value = 2; expires_at = 101; generation = 1; weight = 5 }) two-IsValid
      refl b_ne_c refl

no_c : (e : Entry ℕ) → find "c" (prune 50 two.order) ≡ some e → 4 ≤ e.weight
unfolding program
no_c e h = absurd (ground arith)

set_weighted-IsWithin_example : IsWithin (set_weighted 50 "c" 3 (pos 4) two).0
set_weighted-IsWithin_example =
    set_weighted-IsWithin 50 "c" 3 (pos 4) two two-IsValid refl two-IsWithin no_c

update_over_example :
    ((generation : ℕ) × ((set_weighted 50 "a" 3 (pos 10) two).0.order
        ≡ entry "a" 3 (50 + pos_part two.ttl) generation 10 ∷ remove "a" (prune 50 two.order)))
    × (IsWithin (set_weighted 50 "a" 3 (pos 10) two).0
        ↔ (10 + total (remove "a" (prune 50 two.order)) ≤ pos_part two.max_bytes))
unfolding program
update_over_example =
    update_over 50 "a" 3 (pos 10) two
      (record { key = "a"; value = 1; expires_at = 100; generation = 1; weight = 5 }) two-IsValid
      refl (omega arith) refl (omega arith)
