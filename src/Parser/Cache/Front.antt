-- ===== src/Parser/Cache/Front.antt =====
-- Elements that an operation of cache.go puts at the front of the list.
use merm.Prelude.{
  ◌+◌, ◌-◌, ◌≡◌, sym, subst, ap, ◌∙◌, inl, inr, String, none, some, List, ◌∷◌, arith, contains,
  String-cases, str_eq, eq_iff, str_eq_ne, is_some, if◌then◌else◌, pos, pos-add, pos-sub, ◌+ℤ◌,
  ◌-ℤ◌,
}
use merm.Parser.Cache.{Cache, Entry, ExpirationRecord, find, remove, push, record_of}
use merm.Parser.Cache.Entries.{
  Distinct, total, find_head, find_tail, find-remove_ne, find-remove_self, Distinct-remove,
  total-remove, remove_absent,
}
use merm.Parser.Cache.Heap.{Held, Held-push, Held-push_self, push-Sorted}
use merm.Parser.Cache.Invariant.{IsIndexed}

module _ {T : Type 0} where
  -- a search of a list whose element with one key was replaced and moved to the front
  pub find-front :
      (j : String) (x : Entry T) (l : List (Entry T))
      → find j (x ∷ remove x.key l) ≡ (if str_eq x.key j then some x else find j l)
  find-front j x l = elim (String-cases x.key j) [
    | inl same ↦
        rw ((eq_iff x.key j).1 same)
          (subst (λ k. find k (x ∷ remove x.key l) ≡ some x) same (find_head x (remove x.key l)))
    | inr n ↦
        rw (str_eq_ne x.key j n)
          (find_tail j x (remove x.key l) n ∙ find-remove_ne j x.key l (λ e. n (sym e)))
  ]

  front-Distinct : (x : Entry T) (l : List (Entry T)) → Distinct l → Distinct (x ∷ remove x.key l)
  front-Distinct x l d = (find-remove_self x.key l d, Distinct-remove x.key l d)

  -- a search of the keys finds the replaced element
  front-linked :
      (k : String) (x e : Entry T) (l : List (Entry T))
      → find x.key l ≡ some e
      → is_some (find k (x ∷ remove x.key l)) ≡ is_some (find k l)
  front-linked k x e l h = elim (String-cases x.key k) [
    | inl same ↦ ground (arith, find-front k x l, eq_iff x.key k, ap (λ j. find j l) same)
    | inr n ↦ ground (arith, find-front k x l, str_eq_ne x.key k n)
  ]

  -- `MoveToFront`
  pub touch-IsIndexed :
      (c : Cache T) (e : Entry T)
      → find e.key c.order ≡ some e
      → IsIndexed c
      → IsIndexed (record c { order = e ∷ remove e.key c.order })
  touch-IsIndexed c e h v = record {
    linked = record {
      linked = λ k. v.linked.linked k ∙ sym (front-linked k e e c.order h);
      distinct = front-Distinct e c.order v.linked.distinct;
      weighed = ground (arith, v.linked.weighed, total-remove e.key c.order e h);
    };
    tracked = λ k x p. elim (String-cases e.key k) [
      | inl same ↦
          v.tracked k x
            (ground (arith, find-front k e c.order, eq_iff e.key k, ap (λ j. find j c.order) same))
      | inr n ↦ v.tracked k x (ground (arith, find-front k e c.order, str_eq_ne e.key k n))
    ];
    sorted = v.sorted;
  }

  -- with the expiry of a new front element pushed, every element is tracked
  push-tracked :
      (x : Entry T) (old l : List (Entry T)) (h : List ExpirationRecord)
      → ((k : String) → find k l ≡ (if str_eq x.key k then some x else find k old))
      → ((k : String) (e : Entry T) → find k old ≡ some e → Held (record_of e) h)
      → (k : String) (y : Entry T) → find k l ≡ some y
      → Held (record_of y) (push (record_of x) h)
  push-tracked x old l h front tracked k y p = elim (String-cases x.key k) [
    | inl same ↦
        let q : x ≡ y = ground (arith, front k, eq_iff x.key k) in
        subst (λ z. Held (record_of z) (push (record_of x) h)) q (Held-push_self (record_of x) h)
    | inr n ↦
        Held-push (record_of y) (record_of x) h
          (tracked k y (ground (arith, front k, str_eq_ne x.key k n)))
  ]

  -- the new version of a cached entry, at the front, with its expiry in the heap
  pub update-IsIndexed :
      (c : Cache T) (e x : Entry T)
      → x.key ≡ e.key
      → find x.key c.order ≡ some e
      → IsIndexed c
      → IsIndexed (record c {
        bytes = c.bytes -ℤ pos e.weight +ℤ pos x.weight;
        order = x ∷ remove x.key c.order;
        expiry = push (record_of x) c.expiry;
      })
  update-IsIndexed c e x same h v = record {
    linked = record {
      linked = λ k. v.linked.linked k ∙ sym (front-linked k x e c.order h);
      distinct = front-Distinct x c.order v.linked.distinct;
      weighed = weighed;
    };
    tracked =
        push-tracked x c.order (x ∷ remove x.key c.order) c.expiry (λ k. find-front k x c.order)
          v.tracked;
    sorted = push-Sorted (record_of x) c.expiry v.sorted;
  }
    where
      weighed :
          c.bytes -ℤ pos e.weight +ℤ pos x.weight ≡ pos (x.weight + total (remove x.key c.order))
      weighed =
          let sum = total-remove x.key c.order e h in
          ground (
            arith,
            v.linked.weighed,
            sum,
            pos-sub (total c.order) e.weight,
            pos-add (total c.order - e.weight) x.weight,
          )

  -- a new entry at the front, with its key in the map and its expiry in the heap
  pub insert-IsIndexed :
      (c : Cache T) (x : Entry T)
      → find x.key c.order ≡ none
      → IsIndexed c
      → IsIndexed (record c {
        entries = x.key ∷ c.entries;
        bytes = c.bytes +ℤ pos x.weight;
        order = x ∷ c.order;
        expiry = push (record_of x) c.expiry;
      })
  unfolding contains
  insert-IsIndexed c x h v = record {
    linked = record {
      linked = λ k. ground (arith, v.linked.linked k, front k, eq_iff x.key k);
      distinct = (h, v.linked.distinct);
      weighed = ground (arith, v.linked.weighed, pos-add (total c.order) x.weight);
    };
    tracked = push-tracked x c.order (x ∷ c.order) c.expiry front v.tracked;
    sorted = push-Sorted (record_of x) c.expiry v.sorted;
  }
    where
      front :
          (k : String) → find k (x ∷ c.order) ≡ (if str_eq x.key k then some x else find k c.order)
      front k =
          ap (λ l. find k (x ∷ l)) (sym (remove_absent x.key c.order h)) ∙ find-front k x c.order
