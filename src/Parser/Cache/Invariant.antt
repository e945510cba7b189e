-- ===== src/Parser/Cache/Invariant.antt =====
-- What holds of a cache between two operations, and the removal of one element.
use merm.Prelude.{
  ◌≤◌, ◌≡◌, sym, subst, inl, inr, ap, ◌∙◌, String, some, arith, contains, contains-delete_self,
  contains-delete_ne, String-cases, pos, pos_part, pos-sub, is_some, length,
}
use merm.Parser.Cache.{Cache, Entry, find, remove, element, remove_element, record_of}
use merm.Parser.Cache.Entries.{
  Distinct, total, find-key, find-remove_ne, find-remove_self, Distinct-remove, total-remove,
  length-remove,
}
use merm.Parser.Cache.Heap.{Held, Sorted}

-- The map and the list agree, no key is held twice, and the byte counter is the sum of the weights.
pub record IsLinked {T : Type 0} (c : Cache T) : Type 0 where
  pub linked : (k : String) → contains k c.entries ≡ is_some (find k c.order)
  pub distinct : Distinct c.order
  pub weighed : c.bytes ≡ pos (total c.order)

-- Moreover each element's current expiry is in the heap, and the heap hands out its records in
-- order.
pub record IsIndexed {T : Type 0} (c : Cache T) : Type 0 where
  pub linked : IsLinked c
  pub tracked : (k : String) (e : Entry T) → find k c.order ≡ some e → Held (record_of e) c.expiry
  pub sorted : Sorted c.expiry

-- Moreover the list is within its size.
pub record IsValid {T : Type 0} (c : Cache T) : Type 0 where
  pub indexed : IsIndexed c
  pub sized : length c.order ≤ pos_part c.max_size

module _ {T : Type 0} where
  pub element-find : (c : Cache T) (k : String) → IsLinked c → element c k ≡ find k c.order
  unfolding element
  element-find c k v = ground (arith, v.linked k)

  pub remove_element-IsLinked :
      (c : Cache T) (k : String) (e : Entry T)
      → find k c.order ≡ some e
      → IsLinked c
      → IsLinked (remove_element e c)
  unfolding remove_element
  remove_element-IsLinked c k e h v =
      let same = find-key k c.order h in
      record {
        linked = λ j. elim (String-cases j e.key) [
          | inl p ↦
              ground
                (arith, p, contains-delete_self j c.entries, find-remove_self j c.order v.distinct)
          | inr n ↦ ground (
            arith,
            contains-delete_ne j e.key c.entries n,
            find-remove_ne j e.key c.order n,
            v.linked j,
          )
        ];
        distinct = Distinct-remove e.key c.order v.distinct;
        weighed =
            ground (
              arith,
              v.weighed,
              total-remove k c.order e h,
              pos-sub (total c.order) e.weight,
              same,
            );
      }

  pub remove_element-IsIndexed :
      (c : Cache T) (k : String) (e : Entry T)
      → find k c.order ≡ some e
      → IsIndexed c
      → IsIndexed (remove_element e c)
  unfolding remove_element
  remove_element-IsIndexed c k e h v = record {
    linked = remove_element-IsLinked c k e h v.linked;
    tracked = λ j x p. elim (String-cases j e.key) [
      | inl same ↦ absurd (
          ground (
            arith,
            ap (λ i. find i (remove e.key c.order)) same,
            find-remove_self e.key c.order v.linked.distinct,
          ))
      | inr n ↦ v.tracked j x (sym (find-remove_ne j e.key c.order n) ∙ p)
    ];
    sorted = v.sorted;
  }

  pub remove_element-IsValid :
      (c : Cache T) (k : String) (e : Entry T)
      → find k c.order ≡ some e
      → IsValid c
      → IsValid (remove_element e c)
  unfolding remove_element
  remove_element-IsValid c k e h v =
      let at_key : find e.key c.order ≡ some e =
        subst (λ j. find j c.order ≡ some e) (sym (find-key k c.order h)) h in
      record {
        indexed = remove_element-IsIndexed c k e h v.indexed;
        sized = omega (arith, v.sized, length-remove e.key c.order e at_key);
      }
