-- ===== src/Prelude/TextOrder.antt =====
-- The order of texts by their bytes, that of Go's `<` on strings and of `sort.Strings`.
use Prim.Native.Nat.{Ordering}
use Prim.Native.String.compare
use Prim.Native.String.{String, [], ◌∷◌, compare}
use mathlib.Core.Path.{◌≡◌, ap}
use mathlib.Core.Bool.{Bool, true, false}
use mathlib.Core.Logic.{◌≢◌}
use native.Mathlib.Omega.{arith}
use text.Mathlib.Text.{is_lt}
use text.Mathlib.TextEquality.{path_by_compare}
use merm.Prelude.Compare.{IsOrdering, flip}

abbrev pub str_ltb : String → String → Bool
str_ltb s t = is_lt (compare s t)

compare_self : (s : String) → compare s s ≡ Ordering.eq
compare_self [] = compare.nil-nil
compare_self (c ∷ s) = ground (arith, compare.cons-cons c c s s, compare_self s)

compare_nil : (t : String) → compare t [] ≢ Ordering.lt
compare_nil [] h = ground (arith, compare.nil-nil)
compare_nil (c ∷ t) h = ground (arith, compare.cons-nil c t)

compare_trans :
    (s t u : String)
    → compare s t ≡ Ordering.lt
    → compare t u ≡ Ordering.lt
    → compare s u ≡ Ordering.lt
compare_trans [] t [] h k = ground (arith, compare_nil t)
compare_trans [] t (e ∷ u) h k = compare.nil-cons e u
compare_trans (c ∷ s) [] u h k = ground (arith, compare.cons-nil c s)
compare_trans (c ∷ s) (d ∷ t) [] h k = ground (arith, compare.cons-nil d t)
compare_trans (c ∷ s) (d ∷ t) (e ∷ u) h k = ground (
  arith,
  compare.cons-cons c d s t,
  compare.cons-cons d e t u,
  compare.cons-cons c e s u,
  compare_trans s t u,
)

compare_flip : (s t : String) → compare s t ≡ Ordering.gt → compare t s ≡ Ordering.lt
compare_flip [] [] h = ground (arith, compare.nil-nil)
compare_flip [] (d ∷ t) h = ground (arith, compare.nil-cons d t)
compare_flip (c ∷ s) [] h = compare.nil-cons c s
compare_flip (c ∷ s) (d ∷ t) h =
    ground (arith, compare.cons-cons c d s t, compare.cons-cons d c t s, compare_flip s t)

pub str_ltb_irrefl : (s : String) → str_ltb s s ≡ false
str_ltb_irrefl s = ground (arith, compare_self s)

pub str_ltb_trans : (s t u : String) → str_ltb s t ≡ true → str_ltb t u ≡ true → str_ltb s u ≡ true
str_ltb_trans s t u h k = ground (arith, compare_trans s t u)

pub str_ltb_total : (s t : String) → str_ltb s t ≡ false → str_ltb t s ≡ false → s ≡ t
str_ltb_total s t h k = ground (arith, path_by_compare s t, compare_flip s t)

text_flips : (s t : String) → compare t s ≡ flip (compare s t)
text_flips s t = ground (
  arith,
  compare_flip s t,
  compare_flip t s,
  compare_trans s t s,
  compare_self s,
  path_by_compare s t,
  path_by_compare t s,
  ap (compare s) {x = s} {y = t},
  ap (compare t) {x = t} {y = s},
)

-- The comparison of texts is lawful.
pub compare_order : IsOrdering compare
compare_order = record {
  flips = λ s t. text_flips s t;
  lt_trans = compare_trans;
  eq_left = λ s t u h. ap (λ x. compare x u) (path_by_compare s t h);
}
