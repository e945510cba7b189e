-- ===== src/Parser/Cache/Store.antt =====
-- `SetWeighted` of cache.go against a list of entries, the most recently used first.
use merm.Prelude.{
  ℕ, ◌+◌, ◌%◌, ◌^◌, ◌≡◌, refl, sym, subst, ap, ◌∙◌, inl, inr, String, Bool, false, Option, none,
  ◌||◌, some, List, ◌∷◌, arith, length, if◌then◌else◌, ℤ, pos, pos_part, Option-cases, Bool-cases,
  is_some, ◌+ℤ◌,
}
use merm.Parser.Cache.{
  Cache, Entry, find, remove, remove_element, is_disabled, evict_expired, is_oversized,
  update_entry, insert_entry, set_live, set_weighted, trim, record_of, push,
}
use merm.Parser.Cache.Entries.{find-key, prune, length-remove, remove_absent}
use merm.Parser.Cache.Invariant.{IsValid, element-find, remove_element-IsValid}
use merm.Parser.Cache.Evict.{SameLimits, evict_expired-Evicted}
use merm.Parser.Cache.Fit.{fit, fit_within}
use merm.Parser.Cache.Trim.{limit, trim-Trims}
use merm.Parser.Cache.Front.{update-IsIndexed, insert-IsIndexed}

module _ {T : Type 0} where
  -- An entry that is alone too heavy displaces its key; one with a cached key takes its place at
  -- the front; a new one enters at the front and pushes out what no longer fits.
  unfoldable pub store : ℤ → ℤ → Bool → Entry T → List (Entry T) → List (Entry T)
  store max_size max_bytes oversized x l =
      if oversized then remove x.key l else elim (find x.key l) [
        | none ↦ fit (pos_part max_size) (limit max_bytes) 0 (x ∷ l)
        | some _ ↦ x ∷ remove x.key l
      ]

  -- the entries that a call adds to the list
  abbrev pub added : Bool → Option (Entry T) → ℕ
  added oversized old = if oversized || is_some old then 0 else 1

  abbrev pub entry : String → T → ℕ → ℕ → ℕ → Entry T
  entry key value expires_at generation weight = record {
    key = key;
    value = value;
    expires_at = expires_at;
    generation = generation;
    weight = weight;
  }

  -- What a `SetWeighted` leaves of `c`, with `m` entries removed.
  pub record Sets (now : ℕ) (k : String) (value : T) (w : ℕ) (c d : Cache T) (m : ℕ) : Type 0 where
    pub generation : ℕ
    pub valid : IsValid d
    pub order :
        d.order
        ≡ store c.max_size c.max_bytes
            (is_oversized c w)
            (entry k value (now + pos_part c.ttl) generation w)
            (prune now c.order)
    pub counted :
        length d.order + m ≡ length c.order + added (is_oversized c w) (find k (prune now c.order))
    pub limits : SameLimits c d

  -- the operation on a cache `c` with no expired entries, before they are put in again
  pub record Stores (now : ℕ) (k : String) (value : T) (w : ℕ) (c d : Cache T) (n m : ℕ)
      : Type 0 where
    pub generation : ℕ
    pub valid : IsValid d
    pub order :
        d.order
        ≡ store c.max_size c.max_bytes
            (is_oversized c w)
            (entry k value (now + pos_part c.ttl) generation w)
            c.order
    pub counted :
        length d.order + m ≡ length c.order + added (is_oversized c w) (find k c.order) + n
    pub limits : SameLimits c d

  insert_entry-Stores :
      (now : ℕ) (k : String) (value : T) (w : ℕ) (c : Cache T) (n : ℕ)
      → IsValid c
      → is_disabled c ≡ false
      → find k c.order ≡ none
      → Stores now k value w c
          (insert_entry now k value w c n).0
          n
          (insert_entry now k value w c n).1
  unfolding insert_entry store
  insert_entry-Stores now k value w c n v on absent = elim (Bool-cases (is_oversized c w)) [
    | inl heavy ↦
        rw (heavy, insert_entry)
          (record {
            generation = 1;
            valid = v;
            order = rw (heavy, store) (sym (remove_absent k c.order absent));
            counted = ground arith;
            limits = record { ttl = refl; max_size = refl; max_bytes = refl };
          })
    | inr light ↦ rw (light, insert_entry) (fresh light)
  ]
    where
      x : Entry T
      x = entry k value (now + pos_part c.ttl) 1 w

      c' : Cache T
      c' = record c {
        entries = k ∷ c.entries;
        bytes = c.bytes +ℤ pos w;
        order = x ∷ c.order;
        expiry = push (record_of x) c.expiry;
      }

      fresh :
          is_oversized c w ≡ false
          → Stores now k value w c (trim (length c'.order) c' n).0 n (trim (length c'.order) c' n).1
      fresh light =
          let t =
            trim-Trims (length c'.order) c' n (omega arith) (insert-IsIndexed c x absent v.indexed)
              on in
          record {
            generation = 1;
            valid = record {
              indexed = t.indexed;
              sized = ground (
                arith,
                t.fitted,
                t.max_size,
                fit_within (pos_part c.max_size) (limit c.max_bytes) 0 c'.order (ground arith),
              );
            };
            order = t.fitted ∙ rw (light, store, absent);
            counted = ground (arith, t.counted);
            limits = record { ttl = t.ttl; max_size = t.max_size; max_bytes = t.max_bytes };
          }

  update_entry-Stores :
      (now : ℕ) (k : String) (value : T) (w : ℕ) (c : Cache T) (n : ℕ) (e : Entry T)
      → IsValid c
      → find k c.order ≡ some e
      → Stores now k value w c
          (update_entry now e value w c n).0
          n
          (update_entry now e value w c n).1
  unfolding update_entry store
  update_entry-Stores now k value w c n e v found = elim (Bool-cases (is_oversized c w)) [
    | inl heavy ↦
        rw (heavy, update_entry)
          (record {
            generation = 0;
            valid = remove_element-IsValid c k e found v;
            order = unfold remove_element in (ap (λ j. remove j c.order) same ∙ rw (heavy, store));
            counted = unfold remove_element in ground (arith, length-remove e.key c.order e here);
            limits =
                unfold remove_element in record { ttl = refl; max_size = refl; max_bytes = refl };
          })
    | inr light ↦
        rw (light, update_entry)
          (record {
            generation = generation;
            valid = record {
              indexed =
                  update-IsIndexed c e (entry e.key value (now + pos_part c.ttl) generation w) refl
                    here v.indexed;
              sized = omega (arith, v.sized, length-remove e.key c.order e here);
            };
            order =
                ap (λ j. entry j value (now + pos_part c.ttl) generation w ∷ remove j c.order) same
                ∙ rw (light, store, found);
            counted = ground (arith, length-remove e.key c.order e here);
            limits = record { ttl = refl; max_size = refl; max_bytes = refl };
          })
  ]
    where
      same : e.key ≡ k
      same = find-key k c.order found

      here : find e.key c.order ≡ some e
      here = subst (λ j. find j c.order ≡ some e) (sym same) found

      generation : ℕ
      generation = (e.generation + 1) % 2 ^ 64

  set_live-Stores :
      (now : ℕ) (k : String) (value : T) (w : ℕ) (c : Cache T) (n : ℕ)
      → IsValid c
      → is_disabled c ≡ false
      → Stores now k value w c (set_live now k value w c n).0 n (set_live now k value w c n).1
  unfolding set_live
  set_live-Stores now k value w c n v on = elim (Option-cases (find k c.order)) [
    | inl absent ↦
        rw (element-find c k v.indexed.linked ∙ absent, set_live)
          (insert_entry-Stores now k value w c n v on absent)
    | inr (e, found) ↦
        rw (element-find c k v.indexed.linked ∙ found, set_live)
          (update_entry-Stores now k value w c n e v found)
  ]

  pub disabled-limits : (c d : Cache T) → SameLimits c d → is_disabled d ≡ is_disabled c
  disabled-limits c d s = rw (s.max_size, s.ttl)

  same_store :
      (k : String) (value : T) (now g w : ℕ) (c d : Cache T) (l : List (Entry T))
      → SameLimits c d
      → d.order ≡ l
      → store d.max_size d.max_bytes
          (is_oversized d w)
          (entry k value (now + pos_part d.ttl) g w)
          d.order
        ≡ store c.max_size c.max_bytes
            (is_oversized c w)
            (entry k value (now + pos_part c.ttl) g w)
            l
  same_store k value now g w c d l s p = rw (s.ttl, s.max_size, s.max_bytes, p)

  same_added :
      (k : String) (w : ℕ) (c d : Cache T) (l : List (Entry T))
      → SameLimits c d
      → d.order ≡ l
      → added (is_oversized d w) (find k d.order) ≡ added (is_oversized c w) (find k l)
  same_added k w c d l s p = rw (s.max_bytes, p)

  -- On an enabled cache `SetWeighted` first drops every expired entry, then stores the entry: the
  -- result is that of `store` on the list of the live entries, and it counts what it removed.
  pub set_weighted-Sets :
      (now : ℕ) (k : String) (value : T) (weight : ℤ) (c : Cache T)
      → IsValid c
      → is_disabled c ≡ false
      → Sets now k value
          (pos_part weight)
          c
          (set_weighted now k value weight c).0
          (set_weighted now k value weight c).1
  unfolding set_weighted
  set_weighted-Sets now k value weight c v on =
      let (d, n) = evict_expired now c in
      let ev = evict_expired-Evicted now c v in
      let w = pos_part weight in
      let st = set_live-Stores now k value w d n ev.valid (disabled-limits c d ev.limits ∙ on) in
      rw (on, set_weighted)
        (record {
          generation = st.generation;
          valid = st.valid;
          order =
              st.order
              ∙ same_store k value now st.generation w c d (prune now c.order) ev.limits ev.pruned;
          counted = omega (
            arith,
            st.counted,
            ev.counted,
            same_added k w c d (prune now c.order) ev.limits ev.pruned,
          );
          limits = record {
            ttl = st.limits.ttl ∙ ev.limits.ttl;
            max_size = st.limits.max_size ∙ ev.limits.max_size;
            max_bytes = st.limits.max_bytes ∙ ev.limits.max_bytes;
          };
        })
