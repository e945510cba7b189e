-- ===== src/Prelude/Compare.antt =====
-- Comparisons that answer "less", "equal" or "greater", and their lexicographic combination.
use Prim.Native.Nat.{ℕ, Ordering, compare}
use Prim.Native.String.{then}
use mathlib.Core.Path.{◌≡◌}
use native.Mathlib.Omega.{arith}

abbrev pub flip : Ordering → Ordering
flip Ordering.lt = Ordering.gt
flip Ordering.eq = Ordering.eq
flip Ordering.gt = Ordering.lt

-- A weak order: elements that compare equal need not be equal.
pub record IsOrdering {ℓ} {A : Type ℓ} (cmp : A → A → Ordering) : Type ℓ where
  pub flips : (x y : A) → cmp y x ≡ flip (cmp x y)
  pub lt_trans : (x y z : A) → cmp x y ≡ Ordering.lt → cmp y z ≡ Ordering.lt → cmp x z ≡ Ordering.lt
  pub eq_left : (x y z : A) → cmp x y ≡ Ordering.eq → cmp x z ≡ cmp y z

pub ℕ_order : IsOrdering {A = ℕ} compare
ℕ_order = record {
  flips = λ x y. ground arith;
  lt_trans = λ x y z h k. ground arith;
  eq_left = λ x y z h. ground arith;
}

module _ {ℓ κ} {A : Type ℓ} {B : Type κ} (f : A → B) {cmp : B → B → Ordering} where
  -- a comparison of one field
  pub on-IsOrdering : IsOrdering cmp → IsOrdering (λ x y. cmp (f x) (f y))
  on-IsOrdering o = record {
    flips = λ x y. o.flips (f x) (f y);
    lt_trans = λ x y z. o.lt_trans (f x) (f y) (f z);
    eq_left = λ x y z. o.eq_left (f x) (f y) (f z);
  }

module _ {ℓ} {A : Type ℓ} {c d : A → A → Ordering} where
  pub then-IsOrdering : IsOrdering c → IsOrdering d → IsOrdering (λ x y. then (c x y) (d x y))
  then-IsOrdering o p = record {
    flips = λ x y. ground (arith, o.flips x y, p.flips x y);
    lt_trans = λ x y z h k. ground (
      arith,
      o.lt_trans x y z,
      p.lt_trans x y z,
      o.eq_left x y z,
      o.flips x y,
      o.flips y z,
      o.flips x z,
      o.eq_left z y x,
      o.eq_left y z x,
    );
    eq_left = λ x y z h. ground (arith, o.eq_left x y z, p.eq_left x y z);
  }
