-- ===== src/Parser/Cache/Refine.antt =====
-- `Get`, `SetWeighted` and `Delete` of cache.go against a list of entries, the most recently used
-- first, from which expired entries vanish by themselves.
use merm.Prelude.{
  ℕ, ◌+◌, ◌≡◌, sym, subst, ap, ◌∙◌, inl, inr, String, false, Option, none, some, List, ◌∷◌, arith,
  length, Option-cases,
}
use merm.Parser.Cache.{
  Cache, Entry, find, remove, element, is_disabled, evict_expired, get_live, get,
}
use merm.Parser.Cache.Entries.{find-key, find-prune_alive, prune, length-remove}
use merm.Parser.Cache.Invariant.{IsIndexed, IsValid, element-find}
use merm.Parser.Cache.Evict.{SameLimits, Evicted, evict_expired-Evicted}
use merm.Parser.Cache.Front.{touch-IsIndexed}

module _ {T : Type 0} where
  -- the entry of a key, if there is one, moved to the front
  unfoldable pub use_key : String → List (Entry T) → List (Entry T)
  use_key k l = elim (find k l) [ none ↦ l | some e ↦ e ∷ remove k l ]

  -- the value of a key
  unfoldable pub value_of : String → List (Entry T) → Option T
  value_of k l = elim (find k l) [ none ↦ none | some e ↦ some e.value ]

  -- What a successful `Get` leaves of `c`, its answer, and the number of entries it removed.
  pub record Gets (now : ℕ) (k : String) (c d : Cache T) (answer : Option T) (m : ℕ) : Type 0 where
    pub valid : IsValid d
    pub order : d.order ≡ use_key k (prune now c.order)
    pub answered : answer ≡ value_of k (prune now c.order)
    pub counted : length d.order + m ≡ length c.order
    pub limits : SameLimits c d

  element-prune :
      (now : ℕ) (k : String) (c d : Cache T) (n : ℕ)
      → Evicted now c d n
      → element d k ≡ find k (prune now c.order)
  element-prune now k c d n v = element-find d k v.valid.indexed.linked ∙ ap (find k) v.pruned

  get_live-Gets :
      (now : ℕ) (k : String) (c d : Cache T) (n : ℕ)
      → Evicted now c d n
      → Gets now k c (get_live now k d n).0 (get_live now k d n).1 (get_live now k d n).2
  unfolding get_live use_key value_of
  get_live-Gets now k c d n v = elim (Option-cases (find k (prune now c.order))) [
    | inl missing ↦
        rw (element-prune now k c d n v ∙ missing, get_live)
          (record {
            valid = v.valid;
            order = v.pruned ∙ rw (missing, use_key);
            answered = rw (missing, value_of);
            counted = v.counted;
            limits = v.limits;
          })
    | inr (e, found) ↦
        rw (element-prune now k c d n v ∙ found, get_live, find-prune_alive now k c.order e found)
          (hit e found)
  ]
    where
      hit :
          (e : Entry T)
          → find k (prune now c.order) ≡ some e
          → Gets now k c (record d { order = e ∷ remove k d.order }) (some e.value) n
      hit e found =
          let same = find-key k (prune now c.order) found in
          let here : find k d.order ≡ some e = ap (find k) v.pruned ∙ found in
          let at : find e.key d.order ≡ some e =
            subst (λ j. find j d.order ≡ some e) (sym same) here in
          record {
            valid = record {
              indexed =
                  subst (λ j. IsIndexed (record d { order = e ∷ remove j d.order })) same
                    (touch-IsIndexed d e at v.valid.indexed);
              sized = omega (arith, v.valid.sized, length-remove k d.order e here);
            };
            order = ap (λ l. e ∷ remove k l) v.pruned ∙ rw (found, use_key);
            answered = rw (found, value_of);
            counted = omega (arith, v.counted, length-remove k d.order e here);
            limits = record {
              ttl = v.limits.ttl;
              max_size = v.limits.max_size;
              max_bytes = v.limits.max_bytes;
            };
          }

  -- On an enabled cache `Get` answers with the value of the key if it has not expired, makes it
  -- the most recently used, drops every expired entry and counts those.
  pub get-Gets :
      (now : ℕ) (k : String) (c : Cache T)
      → IsValid c
      → is_disabled c ≡ false
      → Gets now k c (get now k c).0 (get now k c).1 (get now k c).2
  unfolding get
  get-Gets now k c v on =
      rw (on, get)
        (get_live-Gets now k c (evict_expired now c).0 (evict_expired now c).1
          (evict_expired-Evicted now c v))
