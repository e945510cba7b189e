-- ===== src/Parser/Cache/Evict.antt =====
-- `evictExpiredLocked` of cache.go: working off the heap removes exactly the expired entries.
use merm.Prelude.{
  ℕ, suc, ◌+◌, ◌≡◌, refl, sym, inl, inr, ap, ◌∙◌, subst, String, false, some, List, [], ◌∷◌, arith,
  ltb, String-cases, Option-cases, Bool-cases, length, pos_part,
}
use merm.Parser.Cache.{
  Cache, Entry, ExpirationRecord, find, remove, element, remove_element, record_of, evict_record,
  evict_loop, evict_expired, is_stale,
}
use merm.Parser.Cache.Entries.{
  find-key, find-remove_ne, find-remove_self, length-remove, prune, prune-remove, prune_live,
  FoundLive,
}
use merm.Parser.Cache.Heap.{Held, Sorted, Held-Above}
use merm.Parser.Cache.Invariant.{IsLinked, IsValid, element-find, remove_element-IsLinked}

-- Each element's current expiry is in the part `h` of the heap that is left.
record IsCovered {T : Type 0} (now : ℕ) (h : List ExpirationRecord) (c : Cache T) : Type 0 where
  linked : IsLinked c
  covered : (k : String) (e : Entry T) → find k c.order ≡ some e → Held (record_of e) h

-- The part of a cache that eviction leaves alone.
pub record SameLimits {T : Type 0} (c d : Cache T) : Type 0 where
  pub ttl : d.ttl ≡ c.ttl
  pub max_size : d.max_size ≡ c.max_size
  pub max_bytes : d.max_bytes ≡ c.max_bytes

-- What eviction from `c`, with `n` entries removed before, leaves: `d`, and `m` removed in all.
pub record Evicts {T : Type 0} (now : ℕ) (c : Cache T) (n : ℕ) (d : Cache T) (m : ℕ) : Type 0 where
  pub pruned : prune now d.order ≡ prune now c.order
  pub counted : length d.order + m ≡ length c.order + n
  pub limits : SameLimits c d

module _ {T : Type 0} (now : ℕ) where
  -- the element that a popped record names is the one that it tracked
  tracked_key :
      (r : ExpirationRecord) (c : Cache T) (k : String) (e : Entry T)
      → find k c.order ≡ some e
      → record_of e ≡ r
      → find r.key c.order ≡ some e
  tracked_key r c k e h p =
      let same : k ≡ r.key = sym (find-key k c.order h) ∙ ap (λ s. s.key) p in
      subst (λ j. find j c.order ≡ some e) same h

  evict_record-IsCovered :
      (r : ExpirationRecord) (h : List ExpirationRecord) (c : Cache T) (n : ℕ)
      → IsCovered now (r ∷ h) c
      → IsCovered now h (evict_record r c n).0
  unfolding evict_record remove_element
  evict_record-IsCovered r h c n v = elim (Option-cases (element c r.key)) [
    | inl missing ↦
        rw (missing, evict_record)
          (record {
            linked = v.linked;
            covered = λ k e p.
                ground
                  (arith, v.covered k e p, tracked_key r c k e p, element-find c r.key v.linked);
          })
    | inr (x, found) ↦ elim (Bool-cases (is_stale x r)) [
      | inl stale ↦
          rw (found, evict_record, stale)
            (record {
              linked = v.linked;
              covered =
                  λ k e p. ground (arith, v.covered k e p, tracked_key r c k e p, at_key x found);
            })
      | inr fresh ↦
          rw (found, evict_record, fresh)
            (record {
              linked = remove_element-IsLinked c r.key x (at_key x found) v.linked;
              covered = λ k e p. others x found k e p;
            })
    ]
  ]
    where
      at_key : (x : Entry T) → element c r.key ≡ some x → find r.key c.order ≡ some x
      at_key x found = sym (element-find c r.key v.linked) ∙ found

      others :
          (x : Entry T)
          → element c r.key ≡ some x
          → (k : String) (e : Entry T) → find k (remove x.key c.order) ≡ some e
          → Held (record_of e) h
      others x found k e p = elim (String-cases k x.key) [
        | inl same ↦ absurd (
            ground (
              arith,
              same,
              ap (λ j. find j (remove x.key c.order)) same,
              find-remove_self x.key c.order v.linked.distinct,
            ))
        | inr n ↦
            let q = sym (find-remove_ne k x.key c.order n) ∙ p in
            ground (
              arith,
              v.covered k e q,
              find-key k c.order q,
              find-key r.key c.order (at_key x found),
              ap (λ (s : ExpirationRecord). s.key) {x = record_of e} {y = r},
            )
      ]

  Evicts-refl : (c : Cache T) (n : ℕ) → Evicts now c n c n
  Evicts-refl c n = record {
    pruned = refl;
    counted = refl;
    limits = record { ttl = refl; max_size = refl; max_bytes = refl };
  }

  Evicts-trans :
      (c d e : Cache T) (n m k : ℕ) → Evicts now c n d m → Evicts now d m e k → Evicts now c n e k
  Evicts-trans c d e n m k p q = record {
    pruned = q.pruned ∙ p.pruned;
    counted = q.counted ∙ p.counted;
    limits = record {
      ttl = q.limits.ttl ∙ p.limits.ttl;
      max_size = q.limits.max_size ∙ p.limits.max_size;
      max_bytes = q.limits.max_bytes ∙ p.limits.max_bytes;
    };
  }

  pub remove_element-Evicts :
      (k : String) (x : Entry T) (c : Cache T) (n : ℕ)
      → find k c.order ≡ some x
      → ltb now x.expires_at ≡ false
      → Evicts now c n (remove_element x c) (suc n)
  unfolding remove_element
  remove_element-Evicts k x c n found old =
      let at_key : find x.key c.order ≡ some x =
        subst (λ j. find j c.order ≡ some x) (sym (find-key k c.order found)) found in
      record {
        pruned = prune-remove now x.key c.order x at_key old;
        counted = omega (arith, length-remove x.key c.order x at_key);
        limits = record { ttl = refl; max_size = refl; max_bytes = refl };
      }

  evict_record-Evicts :
      (r : ExpirationRecord) (c : Cache T) (n : ℕ)
      → ltb now r.expires_at ≡ false
      → IsLinked c
      → Evicts now c n (evict_record r c n).0 (evict_record r c n).1
  unfolding evict_record
  evict_record-Evicts r c n old v = elim (Option-cases (element c r.key)) [
    | inl missing ↦ rw (missing, evict_record) (Evicts-refl c n)
    | inr (x, found) ↦ elim (Bool-cases (is_stale x r)) [
      | inl stale ↦ rw (found, evict_record, stale) (Evicts-refl c n)
      | inr fresh ↦
          rw (found, evict_record, fresh)
            (remove_element-Evicts r.key x c n (sym (element-find c r.key v) ∙ found)
              (ground arith))
    ]
  ]

  -- the elements left when the loop stops, their records still in the heap
  record Stops (c : Cache T) (n : ℕ) (d : Cache T) (m : ℕ) : Type 0 where
    linked : IsLinked d
    tracked : (k : String) (e : Entry T) → find k d.order ≡ some e → Held (record_of e) d.expiry
    sorted : Sorted d.expiry
    alive : FoundLive now d.order
    evicts : Evicts now c n d m

  then_Stops :
      (c d : Cache T) (n m : ℕ) {e : Cache T} {k : ℕ}
      → Evicts now c n d m
      → Stops d m e k
      → Stops c n e k
  then_Stops c d n m {e} {k} p q = record {
    linked = q.linked;
    tracked = q.tracked;
    sorted = q.sorted;
    alive = q.alive;
    evicts = Evicts-trans c d e n m k p q.evicts;
  }

  evict_loop-Stops :
      (h : List ExpirationRecord) (c : Cache T) (n : ℕ)
      → Sorted h
      → IsCovered now h c
      → Stops c n (evict_loop now h c n).0 (evict_loop now h c n).1
  unfolding evict_loop
  evict_loop-Stops [] c n s v = record {
    linked = record {
      linked = v.linked.linked;
      distinct = v.linked.distinct;
      weighed = v.linked.weighed;
    };
    tracked = v.covered;
    sorted = tt;
    alive = λ k e p. absurd (v.covered k e p);
    evicts = record {
      pruned = refl;
      counted = refl;
      limits = record { ttl = refl; max_size = refl; max_bytes = refl };
    };
  }
  evict_loop-Stops (r ∷ h) c n s v = elim (Bool-cases (ltb now r.expires_at)) [
    | inl later ↦
        rw (later, evict_loop)
          (record {
            linked = record {
              linked = v.linked.linked;
              distinct = v.linked.distinct;
              weighed = v.linked.weighed;
            };
            tracked = v.covered;
            sorted = s;
            alive =
                λ k e p. ground (arith, v.covered k e p, Held-Above r.expires_at (record_of e) h);
            evicts = record {
              pruned = refl;
              counted = refl;
              limits = record { ttl = refl; max_size = refl; max_bytes = refl };
            };
          })
    | inr due ↦
        rw (due, evict_loop)
          (then_Stops c (evict_record r c n).0 n (evict_record r c n).1
            (evict_record-Evicts r c n due v.linked)
            (evict_loop-Stops h (evict_record r c n).0 (evict_record r c n).1 s.1
              (evict_record-IsCovered r h c n v)))
  ]

-- What `evictExpiredLocked` leaves of a cache: the elements that have not expired, in their order;
-- it returns the number of the others.
pub record Evicted {T : Type 0} (now : ℕ) (c : Cache T) (d : Cache T) (m : ℕ) : Type 0 where
  pub valid : IsValid d
  pub pruned : d.order ≡ prune now c.order
  pub counted : length d.order + m ≡ length c.order
  pub limits : SameLimits c d

pub evict_expired-Evicted :
    {T : Type 0} (now : ℕ) (c : Cache T)
    → IsValid c
    → Evicted now c (evict_expired now c).0 (evict_expired now c).1
unfolding evict_expired
evict_expired-Evicted now c v =
    let covered : IsCovered now c.expiry c = record {
      linked = v.indexed.linked;
      covered = v.indexed.tracked;
    } in
    let s = evict_loop-Stops now c.expiry c 0 v.indexed.sorted covered in
    let d = (evict_loop now c.expiry c 0).0 in
    let pruned : d.order ≡ prune now c.order =
      sym (prune_live now d.order s.linked.distinct s.alive) ∙ s.evicts.pruned in
    record {
      valid = record {
        indexed = record { linked = s.linked; tracked = s.tracked; sorted = s.sorted };
        sized = omega (arith, v.sized, s.evicts.counted, ap pos_part s.evicts.limits.max_size);
      };
      pruned = pruned;
      counted = omega (arith, s.evicts.counted);
      limits = s.evicts.limits;
    }
