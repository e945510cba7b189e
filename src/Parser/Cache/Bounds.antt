-- ===== src/Parser/Cache/Bounds.antt =====
-- The limits of cache.go: what `SetWeighted` keeps of them.
use merm.Prelude.{
  ℕ, ◌+◌, ◌≤◌, ◌<◌, ◌≡◌, ◌↔◌, refl, ap, ◌∙◌, ◌⊎◌, inl, inr, String, Bool, true, false, none, ◌&&◌,
  some, List, ◌∷◌, arith, ℤ, pos, pos_part, ltb_ℤ, Bool-cases, Option-cases,
}
use native.Mathlib.Decide.{dec_lt}
use merm.Parser.Cache.{Cache, Entry, find, remove, is_disabled, is_oversized, set_weighted}
use merm.Parser.Cache.Entries.{total, prune, total-prune, total-remove, remove_absent}
use merm.Parser.Cache.Invariant.{IsValid}
use merm.Parser.Cache.Fit.{fit, fit_within}
use merm.Parser.Cache.Trim.{limit}
use merm.Parser.Cache.Store.{store, entry, set_weighted-Sets}

module _ {T : Type 0} where
  -- The byte counter is within the byte limit, if there is one.
  abbrev pub IsWithin : Cache T → Type 0
  IsWithin c = (ltb_ℤ (pos 0) c.max_bytes && ltb_ℤ c.max_bytes c.bytes) ≡ false

  store_absent :
      (size bytes : ℤ) (x : Entry T) (l : List (Entry T))
      → find x.key l ≡ none
      → store size bytes false x l ≡ fit (pos_part size) (limit bytes) 0 (x ∷ l)
  unfolding store
  store_absent size bytes x l h = rw h

  store_present :
      (size bytes : ℤ) (x e : Entry T) (l : List (Entry T))
      → find x.key l ≡ some e
      → store size bytes false x l ≡ x ∷ remove x.key l
  unfolding store
  store_present size bytes x e l h = rw h

  store_heavy :
      (size bytes : ℤ) (x : Entry T) (l : List (Entry T))
      → store size bytes true x l ≡ remove x.key l
  unfolding store
  store_heavy size bytes x l = refl

  -- the byte counter is within the limit if the weights are
  IsWithin-of_total :
      (c : Cache T)
      → IsValid c
      → (pos_part c.max_bytes ≡ 0) ⊎ (total c.order ≤ pos_part c.max_bytes)
      → IsWithin c
  IsWithin-of_total c v h = ground (arith, v.indexed.linked.weighed)

  total-of_IsWithin :
      (c : Cache T)
      → IsValid c
      → IsWithin c
      → 0 < pos_part c.max_bytes
      → total c.order ≤ pos_part c.max_bytes
  total-of_IsWithin c v w limited = ground (arith, v.indexed.linked.weighed)

  total-store :
      (size bytes : ℤ) (heavy : Bool) (x : Entry T) (l : List (Entry T))
      → ltb_ℤ (pos 0) bytes ≡ true
      → total l ≤ pos_part bytes
      → ((e : Entry T) → find x.key l ≡ some e → x.weight ≤ e.weight)
      → total (store size bytes heavy x l) ≤ pos_part bytes
  total-store size bytes heavy x l limited h lighter = elim (Option-cases (find x.key l)) [
    | inl absent ↦ elim (Bool-cases heavy) [
      | inl t ↦ rw (t, store_heavy, remove_absent x.key l absent) h
      | inr f ↦
          rw (f, store_absent size bytes x l absent)
            (ground (arith, fit_within (pos_part size) (limit bytes) 0 (x ∷ l)))
    ]
    | inr (e, found) ↦ elim (Bool-cases heavy) [
      | inl t ↦ rw (t, store_heavy) (omega (arith, total-remove x.key l e found))
      | inr f ↦
          rw (f, store_present size bytes x e l found)
            (omega (arith, total-remove x.key l e found, lighter e found))
    ]
  ]

  -- A `SetWeighted` keeps the cache within its byte limit, if the key is not cached or its entry
  -- was at least as heavy.
  pub set_weighted-IsWithin :
      (now : ℕ) (k : String) (value : T) (weight : ℤ) (c : Cache T)
      → IsValid c
      → is_disabled c ≡ false
      → IsWithin c
      → ((e : Entry T) → find k (prune now c.order) ≡ some e → pos_part weight ≤ e.weight)
      → IsWithin (set_weighted now k value weight c).0
  set_weighted-IsWithin now k value weight c v on w lighter =
      let d = (set_weighted now k value weight c).0 in
      let s = set_weighted-Sets now k value weight c v on in
      let x : Entry T = entry k value (now + pos_part c.ttl) s.generation (pos_part weight) in
      IsWithin-of_total d s.valid (elim (dec_lt 0 (pos_part c.max_bytes)) [
        | no unlimited ↦ inl (omega (arith, ap pos_part s.limits.max_bytes))
        | yes limited ↦
            let before = total-of_IsWithin c v w limited in
            let after =
              total-store c.max_size c.max_bytes (is_oversized c (pos_part weight)) x
                (prune now c.order) (ground arith) (omega (arith, total-prune now c.order))
                lighter in
            inr (omega (arith, after, ap total s.order, ap pos_part s.limits.max_bytes))
      ])

  -- Storing under a cached key evicts nothing: the new entry comes first, and every other entry that has not
  -- expired is kept with its place in the order; and the cache is within its byte limit afterwards exactly
  -- when the other entries leave room for the new weight, if there is a byte limit and the weight is within it.
  pub update_over :
      (now : ℕ) (k : String) (value : T) (weight : ℤ) (c : Cache T) (e : Entry T)
      → IsValid c
      → is_disabled c ≡ false
      → 0 < pos_part c.max_bytes
      → find k (prune now c.order) ≡ some e
      → pos_part weight ≤ pos_part c.max_bytes
      → ((generation : ℕ) × ((set_weighted now k value weight c).0.order
            ≡ entry k value (now + pos_part c.ttl) generation (pos_part weight)
              ∷ remove k (prune now c.order)))
        × (IsWithin (set_weighted now k value weight c).0
            ↔ (pos_part weight + total (remove k (prune now c.order)) ≤ pos_part c.max_bytes))
  update_over now k value weight c e v on limited found light =
      let d = (set_weighted now k value weight c).0 in
      let s = set_weighted-Sets now k value weight c v on in
      let x : Entry T = entry k value (now + pos_part c.ttl) s.generation (pos_part weight) in
      let fits : is_oversized c (pos_part weight) ≡ false = ground arith in
      let order : d.order ≡ x ∷ remove k (prune now c.order) =
        s.order ∙ (rw fits (store_present c.max_size c.max_bytes x e (prune now c.order) found)) in
      let limited' : 0 < pos_part d.max_bytes = omega (arith, ap pos_part s.limits.max_bytes) in
      let same = ap pos_part s.limits.max_bytes in
      (
        (s.generation, order),
        (
          λ within.
              omega (arith, total-of_IsWithin d s.valid within limited', ap total order, same),
          λ room. IsWithin-of_total d s.valid (inr (omega (arith, room, ap total order, same))),
        ),
      )
