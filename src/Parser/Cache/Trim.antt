-- ===== src/Parser/Cache/Trim.antt =====
-- The loop of `SetWeighted` in cache.go that evicts from the back: it ends within its fuel, with
-- the elements that fit.
use merm.Prelude.{
  ℕ, zero, suc, ◌+◌, ◌≤◌, ◌≡◌, refl, sym, ap, ◌∙◌, inl, inr, true, false, Option, none, some, List,
  [], ◌∷◌, arith, Bool-cases, Option-cases, if◌then◌else◌, length, ℤ, pos, pos_part, ltb_ℤ,
}
use merm.Parser.Cache.{
  Cache, Entry, find, back, is_disabled, is_over, remove_element, drop_back, trim,
}
use merm.Parser.Cache.Entries.{total, length-remove}
use merm.Parser.Cache.Invariant.{IsIndexed, remove_element-IsIndexed}
use merm.Parser.Cache.Fit.{fit, fit_all, fit-drop_last, over, back-none, find-back, remove-back}

-- the byte limit, where there is one
abbrev pub limit : ℤ → Option ℕ
limit max_bytes = if ltb_ℤ (pos 0) max_bytes then some (pos_part max_bytes) else none

-- What the loop leaves of a cache `c` with `n` removed before.
pub record Trims {T : Type 0} (c : Cache T) (n : ℕ) (d : Cache T) (m : ℕ) : Type 0 where
  pub indexed : IsIndexed d
  pub fitted : d.order ≡ fit (pos_part c.max_size) (limit c.max_bytes) 0 c.order
  pub counted : length d.order + m ≡ length c.order + n
  pub ttl : d.ttl ≡ c.ttl
  pub max_size : d.max_size ≡ c.max_size
  pub max_bytes : d.max_bytes ≡ c.max_bytes

module _ {T : Type 0} where
  pub is_over-over :
      (c : Cache T)
      → c.bytes ≡ pos (total c.order)
      → is_disabled c ≡ false
      → is_over c ≡ over (pos_part c.max_size) (limit c.max_bytes) 0 c.order
  is_over-over c w e = ground arith

  trim_stops :
      (c : Cache T) (n : ℕ)
      → IsIndexed c
      → over (pos_part c.max_size) (limit c.max_bytes) 0 c.order ≡ false
      → Trims c n c n
  trim_stops c n v h = record {
    indexed = v;
    fitted = sym (fit_all (pos_part c.max_size) (limit c.max_bytes) 0 c.order h);
    counted = refl;
    ttl = refl;
    max_size = refl;
    max_bytes = refl;
  }

  over_empty :
      (c : Cache T)
      → c.order ≡ []
      → over (pos_part c.max_size) (limit c.max_bytes) 0 c.order ≡ false
  over_empty c e = rw e (ground arith)

  length-zero : (l : List (Entry T)) → length l ≤ 0 → l ≡ []
  length-zero [] h = refl
  length-zero (x ∷ l) h = absurd (omega arith)

  drop_back-Trims :
      (c : Cache T) (n : ℕ) (e : Entry T) (d : Cache T) (m : ℕ)
      → IsIndexed c
      → over (pos_part c.max_size) (limit c.max_bytes) 0 c.order ≡ true
      → back c.order ≡ some e
      → Trims (remove_element e c) (suc n) d m
      → Trims c n d m
  unfolding remove_element
  drop_back-Trims c n e d m v h last t =
      let found = find-back c.order e v.linked.distinct last in
      let front = remove-back c.order e v.linked.distinct last in
      record {
        indexed = t.indexed;
        fitted =
            t.fitted
            ∙ (ap (fit (pos_part c.max_size) (limit c.max_bytes) 0) front
                ∙ fit-drop_last (pos_part c.max_size) (limit c.max_bytes) 0 c.order h);
        counted = omega (arith, t.counted, length-remove e.key c.order e found);
        ttl = t.ttl;
        max_size = t.max_size;
        max_bytes = t.max_bytes;
      }

  drop_back-some :
      (c : Cache T) (e : Entry T) → back c.order ≡ some e → drop_back c ≡ some (remove_element e c)
  unfolding drop_back
  drop_back-some c e h = ground arith

  -- With fuel for each element the loop ends with its condition false, and what it leaves is what
  -- fits when the list is read from the front.
  pub trim-Trims :
      (fuel : ℕ) (c : Cache T) (n : ℕ)
      → length c.order ≤ fuel
      → IsIndexed c
      → is_disabled c ≡ false
      → Trims c n (trim fuel c n).0 (trim fuel c n).1
  unfolding trim
  trim-Trims zero c n h v e = trim_stops c n v (over_empty c (length-zero c.order h))
  trim-Trims (suc fuel) c n h v e =
      let same = is_over-over c v.linked.weighed e in
      elim (Bool-cases (is_over c)) [
        | inl full ↦ elim (Option-cases (back c.order)) [
          | inl none_left ↦
              absurd (ground (arith, same, over_empty c (back-none c.order none_left)))
          | inr (x, last) ↦
              let found = find-back c.order x v.linked.distinct last in
              rw (full, trim)
                (rw (drop_back-some c x last, trim)
                  (drop_back-Trims c n x _ _ v (sym same ∙ full) last (
                    trim-Trims fuel (remove_element x c) (suc n) (room x found)
                      (remove_element-IsIndexed c x.key x found v) (enabled x))))
        ]
        | inr within ↦ rw (within, trim) (trim_stops c n v (sym same ∙ within))
      ]
    where
      room : (x : Entry T) → find x.key c.order ≡ some x → length (remove_element x c).order ≤ fuel
      room x found = unfold remove_element in omega (arith, length-remove x.key c.order x found)

      enabled : (x : Entry T) → is_disabled (remove_element x c) ≡ false
      enabled x = unfold remove_element in e
