-- ===== src/Parser/Cache/Runs.antt =====
-- Any sequence of calls on a cache of cache.go.
use merm.Prelude.{
  ℕ, refl, inl, inr, String, List, [], ◌∷◌, arith, ℤ, Bool-cases, Option-cases, contains,
}
use merm.Parser.Cache.{Cache, new, is_disabled, find, get, set_weighted, delete_key}
use merm.Parser.Cache.Invariant.{IsValid, element-find, remove_element-IsValid}
use merm.Parser.Cache.Refine.{get-Gets}
use merm.Parser.Cache.Store.{set_weighted-Sets}

pub data Call (T : Type 0) : Type 0 where
  gets : ℕ → String → Call T
  sets : ℕ → String → T → ℤ → Call T
  deletes : String → Call T

module _ {T : Type 0} where
  unfoldable pub step : Cache T → Call T → Cache T
  step c (gets now k) = (get now k c).0
  step c (sets now k value weight) = (set_weighted now k value weight c).0
  step c (deletes k) = delete_key k c

  unfoldable pub run : Cache T → List (Call T) → Cache T
  run c [] = c
  run c (call ∷ calls) = run (step c call) calls

  pub new-IsValid : (size ttl bytes : ℤ) → IsValid (new {T = T} size ttl bytes)
  unfolding new contains find
  new-IsValid size ttl bytes = record {
    indexed = record {
      linked = record { linked = λ k. refl; distinct = tt; weighed = refl };
      tracked = λ k e h. absurd (ground arith);
      sorted = tt;
    };
    sized = omega arith;
  }

  pub get-IsValid : (now : ℕ) (k : String) (c : Cache T) → IsValid c → IsValid (get now k c).0
  unfolding get
  get-IsValid now k c v = elim (Bool-cases (is_disabled c)) [
    | inl off ↦ rw (off, get) v
    | inr on ↦ (get-Gets now k c v on).valid
  ]

  pub set_weighted-IsValid :
      (now : ℕ) (k : String) (value : T) (weight : ℤ) (c : Cache T)
      → IsValid c
      → IsValid (set_weighted now k value weight c).0
  unfolding set_weighted
  set_weighted-IsValid now k value weight c v = elim (Bool-cases (is_disabled c)) [
    | inl off ↦ rw (off, set_weighted) v
    | inr on ↦ (set_weighted-Sets now k value weight c v on).valid
  ]

  pub delete_key-IsValid : (k : String) (c : Cache T) → IsValid c → IsValid (delete_key k c)
  unfolding delete_key
  delete_key-IsValid k c v = elim (Option-cases (find k c.order)) [
    | inl absent ↦ rw (element-find c k v.indexed.linked, absent, delete_key) v
    | inr (e, found) ↦
        rw (element-find c k v.indexed.linked, found, delete_key)
          (remove_element-IsValid c k e found v)
  ]

  pub step-IsValid : (c : Cache T) (call : Call T) → IsValid c → IsValid (step c call)
  unfolding step
  step-IsValid c (gets now k) v = get-IsValid now k c v
  step-IsValid c (sets now k value weight) v = set_weighted-IsValid now k value weight c v
  step-IsValid c (deletes k) v = delete_key-IsValid k c v

  run-IsValid : (c : Cache T) (calls : List (Call T)) → IsValid c → IsValid (run c calls)
  unfolding run
  run-IsValid c [] v = v
  run-IsValid c (call ∷ calls) v = run-IsValid (step c call) calls (step-IsValid c call v)

  -- After any calls at any times, also if the clock runs backwards, a new cache satisfies the
  -- invariant: the map and the list hold the same keys, each once, the byte counter is the sum of
  -- the weights, each entry's expiry is in the heap, and there are at most `max_size` entries.
  pub run-new-IsValid :
      (size ttl bytes : ℤ) (calls : List (Call T)) → IsValid (run (new size ttl bytes) calls)
  run-new-IsValid size ttl bytes calls = run-IsValid _ calls (new-IsValid size ttl bytes)
