-- ===== src/Parser/Cache/Reads.antt =====
-- What a `Get` of cache.go reads after a `SetWeighted`.
use merm.Prelude.{
  ℕ, zero, suc, ◌+◌, ◌<◌, ◌≡◌, ◌≢◌, sym, ap, ◌∙◌, inl, inr, String, Bool, true, false, Option, some,
  List, [], ◌∷◌, arith, ℤ, pos_part, Option-cases, keep,
}
use merm.Parser.Cache.{Cache, Entry, find, remove, is_disabled, get, is_oversized, set_weighted}
use merm.Parser.Cache.Entries.{find_head, find_tail, find-remove_ne, prune}
use merm.Parser.Cache.Invariant.{IsValid}
use merm.Parser.Cache.Fit.{fit, fits}
use merm.Parser.Cache.Trim.{limit}
use merm.Parser.Cache.Refine.{value_of, get-Gets}
use merm.Parser.Cache.Store.{store, entry, set_weighted-Sets, disabled-limits}

module _ {T : Type 0} where
  fit_head :
      (n : ℕ) (lim : Option ℕ) (used : ℕ) (x : Entry T) (l : List (Entry T))
      → 0 < n
      → fits lim (used + x.weight) ≡ true
      → (rest : List (Entry T)) × (fit n lim used (x ∷ l) ≡ x ∷ rest)
  unfolding fit
  fit_head zero lim used x l h w = absurd (omega arith)
  fit_head (suc n) lim used x l h w = (fit n lim (used + x.weight) l, rw (w, fit))

  -- an entry that is light enough is the most recent one
  store_head :
      (size bytes : ℤ) (x : Entry T) (l : List (Entry T))
      → 0 < pos_part size
      → fits (limit bytes) (0 + x.weight) ≡ true
      → (rest : List (Entry T)) × (store size bytes false x l ≡ x ∷ rest)
  unfolding store
  store_head size bytes x l h w = elim (Option-cases (find x.key l)) [
    | inl absent ↦ rw absent (fit_head (pos_part size) (limit bytes) 0 x l h w)
    | inr (e, found) ↦ (remove x.key l, rw found)
  ]

  prune_head :
      (t : ℕ) (x : Entry T) (l : List (Entry T))
      → t < x.expires_at
      → prune t (x ∷ l) ≡ x ∷ prune t l
  unfolding prune keep
  prune_head t x l h = ground arith

  value_of-head : (x : Entry T) (l : List (Entry T)) → value_of x.key (x ∷ l) ≡ some x.value
  unfolding value_of
  value_of-head x l = rw (find_head x l, value_of)

  -- What was stored is read back by any `Get` before its time to live is over, unless its weight
  -- alone is over the byte limit.
  pub get-set_weighted :
      (now later : ℕ) (k : String) (value : T) (weight : ℤ) (c : Cache T)
      → IsValid c
      → is_disabled c ≡ false
      → is_oversized c (pos_part weight) ≡ false
      → later < now + pos_part c.ttl
      → (get later k (set_weighted now k value weight c).0).1 ≡ some value
  get-set_weighted now later k value weight c v on light soon =
      let d = (set_weighted now k value weight c).0 in
      let s = set_weighted-Sets now k value weight c v on in
      let x : Entry T = entry k value (now + pos_part c.ttl) s.generation (pos_part weight) in
      let (rest, head) =
        store_head c.max_size c.max_bytes x (prune now c.order) (ground arith) (ground arith) in
      let g = get-Gets later k d s.valid (disabled-limits c d s.limits ∙ on) in
      let order : d.order ≡ x ∷ rest = s.order ∙ (rw light head) in
      g.answered
      ∙ (ap (λ l. value_of k (prune later l)) order
          ∙ (ap (value_of k) (prune_head later x rest soon) ∙ value_of-head x (prune later rest)))

  find-fit :
      (j : String) (n : ℕ) (lim : Option ℕ) (used : ℕ) (l : List (Entry T)) (e : Entry T)
      → find j (fit n lim used l) ≡ some e
      → find j l ≡ some e
  unfolding fit find
  find-fit j zero lim used l e h = absurd (ground arith)
  find-fit j (suc n) lim used [] e h = absurd (ground arith)
  find-fit j (suc n) lim used (x ∷ l) e h = ground (arith, find-fit j n lim (used + x.weight) l e)

  find-store_ne :
      (j : String) (size bytes : ℤ) (heavy : Bool) (x : Entry T) (l : List (Entry T)) (e : Entry T)
      → j ≢ x.key
      → find j (store size bytes heavy x l) ≡ some e
      → find j l ≡ some e
  unfolding store
  find-store_ne j size bytes true x l e n h = sym (find-remove_ne j x.key l n) ∙ h
  find-store_ne j size bytes false x l e n h =
      let other : x.key ≢ j = λ p. n (sym p) in
      ground (
        arith,
        find-fit j (pos_part size) (limit bytes) 0 (x ∷ l) e,
        find_tail j x l other,
        find_tail j x (remove x.key l) other,
        find-remove_ne j x.key l n,
      )

  -- A `SetWeighted` writes no other key: what is cached under one afterwards was cached before,
  -- unchanged, and had not expired.
  pub find-set_weighted_ne :
      (now : ℕ) (j k : String) (value : T) (weight : ℤ) (c : Cache T) (e : Entry T)
      → IsValid c
      → is_disabled c ≡ false
      → j ≢ k
      → find j (set_weighted now k value weight c).0.order ≡ some e
      → find j (prune now c.order) ≡ some e
  find-set_weighted_ne now j k value weight c e v on n h =
      let s = set_weighted-Sets now k value weight c v on in
      let x : Entry T = entry k value (now + pos_part c.ttl) s.generation (pos_part weight) in
      find-store_ne j c.max_size c.max_bytes (is_oversized c (pos_part weight)) x
        (prune now c.order) e n (ap (find j) (sym s.order) ∙ h)
