-- ===== src/Parser/ParseCache/Disjoint.antt =====
-- internal/parser/cache.go: which keys an operation of a cache can leave in it.
use merm.Prelude.{
  ℕ, zero, suc, ◌+◌, pos, ◌+ℤ◌, ◌≡◌, ◌≢◌, ◌⊎◌, inl, inr, refl, String, true, false, List, [], ◌∷◌,
  arith, eq_iff, contains, delete, contains-delete_self, Bool-cases, Option-cases, ℤ, pos_part,
  length,
}
use merm.Parser.Cache.{
  Cache, Entry, ExpirationRecord, element, find, remove_element, evict_record, evict_loop,
  evict_expired, get_live, get, drop_back, trim, back, push, record_of, is_oversized, insert_entry,
  update_entry, set_live, set_weighted, delete_key,
}
use merm.Parser.Cache.Entries.{find-key}
use merm.Parser.Cache.Invariant.{IsValid, element-find}

absent-delete :
    (j k : String) (xs : List String) → contains j xs ≡ false → contains j (delete k xs) ≡ false
unfolding contains delete
absent-delete j k [] h = refl
absent-delete j k (x ∷ xs) h = ground (arith, absent-delete j k xs)

module _ {T : Type 0} where
  -- a cache that holds no key that another does not
  abbrev pub IsLess : String → Cache T → Cache T → Type 0
  IsLess k c d = (contains k c.entries ≡ true) ⊎ (contains k d.entries ≡ false)

  remove_element-IsLess : (k : String) (e : Entry T) (c : Cache T) → IsLess k c (remove_element e c)
  unfolding remove_element
  remove_element-IsLess k e c = ground (arith, absent-delete k e.key c.entries)

  evict_record-IsLess :
      (k : String) (r : ExpirationRecord) (c : Cache T) (n : ℕ) → IsLess k c (evict_record r c n).0
  unfolding evict_record
  evict_record-IsLess k r c n = elim (Option-cases (element c r.key)) [
    | inl absent ↦ ground arith
    | inr (e, found) ↦ ground (arith, remove_element-IsLess k e c)
  ]

  evict_loop-IsLess :
      (k : String) (now : ℕ) (h : List ExpirationRecord) (c : Cache T) (n : ℕ)
      → IsLess k c (evict_loop now h c n).0
  unfolding evict_loop
  evict_loop-IsLess k now [] c n = ground arith
  evict_loop-IsLess k now (r ∷ h) c n =
      let c' = (evict_record r c n).0 in
      let n' = (evict_record r c n).1 in
      ground (arith, evict_record-IsLess k r c n, evict_loop-IsLess k now h c' n')

  get_live-IsLess :
      (k j : String) (now : ℕ) (c : Cache T) (n : ℕ) → IsLess k c (get_live now j c n).0
  unfolding get_live
  get_live-IsLess k j now c n = elim (Option-cases (element c j)) [
    | inl absent ↦ ground arith
    | inr (e, found) ↦ ground (arith, remove_element-IsLess k e c)
  ]

  pub get-IsLess : (k j : String) (now : ℕ) (c : Cache T) → IsLess k c (get now j c).0
  unfolding get evict_expired
  get-IsLess k j now c =
      let c' = (evict_expired now c).0 in
      let n = (evict_expired now c).1 in
      ground (arith, evict_loop-IsLess k now c.expiry c 0, get_live-IsLess k j now c' n)

  trim-IsLess : (k : String) (fuel : ℕ) (c : Cache T) (n : ℕ) → IsLess k c (trim fuel c n).0
  unfolding trim drop_back
  trim-IsLess k zero c n = ground arith
  trim-IsLess k (suc fuel) c n = elim (Option-cases (back c.order)) [
    | inl empty ↦ ground arith
    | inr (e, found) ↦
        ground (arith, remove_element-IsLess k e c, trim-IsLess k fuel (remove_element e c) (suc n))
  ]

  insert_entry-IsLess :
      (k j : String) (now : ℕ) (v : T) (w : ℕ) (c : Cache T) (n : ℕ)
      → k ≢ j
      → IsLess k c (insert_entry now j v w c n).0
  unfolding insert_entry contains
  insert_entry-IsLess k j now v w c n h =
      let e : Entry T = record {
        key = j;
        value = v;
        expires_at = now + pos_part c.ttl;
        generation = 1;
        weight = w;
      } in
      let c' = record c {
        entries = j ∷ c.entries;
        bytes = c.bytes +ℤ pos w;
        order = e ∷ c.order;
        expiry = push (record_of e) c.expiry;
      } in
      let trimmed = trim-IsLess k (length c'.order) c' n in
      elim (Bool-cases (is_oversized c w)) [
        | inl yes' ↦ rw (yes', insert_entry) (ground arith)
        | inr no' ↦ rw (no', insert_entry) (ground (arith, trimmed, eq_iff j k))
      ]

  update_entry-IsLess :
      (k : String) (now : ℕ) (e : Entry T) (v : T) (w : ℕ) (c : Cache T) (n : ℕ)
      → IsLess k c (update_entry now e v w c n).0
  unfolding update_entry
  update_entry-IsLess k now e v w c n = ground (arith, remove_element-IsLess k e c)

  set_live-IsLess :
      (k j : String) (now : ℕ) (v : T) (w : ℕ) (c : Cache T) (n : ℕ)
      → k ≢ j
      → IsLess k c (set_live now j v w c n).0
  unfolding set_live
  set_live-IsLess k j now v w c n h = elim (Option-cases (element c j)) [
    | inl absent ↦ ground (arith, insert_entry-IsLess k j now v w c n h)
    | inr (e, found) ↦ ground (arith, update_entry-IsLess k now e v w c n)
  ]

  pub set_weighted-IsLess :
      (k j : String) (now : ℕ) (v : T) (w : ℤ) (c : Cache T)
      → k ≢ j
      → IsLess k c (set_weighted now j v w c).0
  unfolding set_weighted evict_expired
  set_weighted-IsLess k j now v w c h =
      let c' = (evict_expired now c).0 in
      let n = (evict_expired now c).1 in
      ground
        (arith, evict_loop-IsLess k now c.expiry c 0, set_live-IsLess k j now v (pos_part w) c' n h)

  pub delete_key-IsLess : (k j : String) (c : Cache T) → IsLess k c (delete_key j c)
  unfolding delete_key
  delete_key-IsLess k j c = elim (Option-cases (element c j)) [
    | inl absent ↦ ground arith
    | inr (e, found) ↦ ground (arith, remove_element-IsLess k e c)
  ]

  -- a deleted key is gone
  pub delete_key_gone :
      (k : String) (c : Cache T) → IsValid c → contains k (delete_key k c).entries ≡ false
  unfolding delete_key remove_element
  delete_key_gone k c v =
      let linked = v.indexed.linked.linked k in
      elim (Option-cases (find k c.order)) [
        | inl absent ↦ ground (arith, element-find c k v.indexed.linked, linked)
        | inr (e, found) ↦ ground (
          arith,
          element-find c k v.indexed.linked,
          find-key k c.order found,
          contains-delete_self k c.entries,
        )
      ]
