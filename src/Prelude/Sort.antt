-- ===== src/Prelude/Sort.antt =====
-- A stable sort by a Boolean `less`, as Go's `sort.SliceStable`, and its laws where `less` is a
-- strict total order on the elements that satisfy a predicate.
use mathlib.Core.Path.{◌≡◌, refl, ap, ◌∙◌, subst}
use mathlib.Core.Bool.{Bool, true, false}
use mathlib.Core.List.{List, [], ◌∷◌, Permᴰ}
use native.Mathlib.Omega.{arith}
use mathlib.Core.Logic.{inl, inr, ◌⊎◌, ◌↔◌}
use merm.Prelude.Lists.{All, Any}
use merm.Prelude.Tests.{Bool-cases}

module _ {ℓ} {A : Type ℓ} (less : A → A → Bool) where
  -- before the first element that is not less
  unfoldable pub insert : A → List A → List A
  insert x [] = x ∷ []
  insert x (y ∷ l) =
      let rest = insert x l in elim (less y x) [ true ↦ y ∷ rest | false ↦ x ∷ y ∷ l ]

  unfoldable pub sort : List A → List A
  sort [] = []
  sort (x ∷ l) = insert x (sort l)

  pub insert-All {κ} : (Q : A → Type κ) (x : A) (l : List A) → Q x → All Q l → All Q (insert x l)
  unfolding insert
  insert-All Q x [] p q = (p, tt)
  insert-All Q x (y ∷ l) p q = ground (arith, insert-All Q x l p q.1)

  insert-Any : (Q : A → Type 0) (x : A) (l : List A) → Any Q (insert x l) ↔ (Q x ⊎ Any Q l)
  unfolding insert
  insert-Any Q x [] = (λ h. h, λ h. h)
  insert-Any Q x (y ∷ l) = ground (arith, insert-Any Q x l)

  pub sort-Any : (Q : A → Type 0) (l : List A) → Any Q (sort l) ↔ Any Q l
  unfolding sort
  sort-Any Q [] = (λ h. h, λ h. h)
  sort-Any Q (x ∷ l) = ground (arith, insert-Any Q x (sort l), sort-Any Q l)

  -- no later element is less than an earlier one
  abbrev pub IsSorted : List A → Type 0
  IsSorted [] = Unit
  IsSorted (x ∷ l) = All (λ y. less y x ≡ false) l × IsSorted l

-- The laws of a strict total order on the elements that satisfy `P`.
pub record IsTotal {ℓ} {A : Type ℓ} (less : A → A → Bool) (P : A → Type ℓ) : Type ℓ where
  pub irrefl : (x : A) → less x x ≡ false
  pub trans : (x y z : A) → less x y ≡ true → less y z ≡ true → less x z ≡ true
  pub total : (x y : A) → P x → P y → less x y ≡ false → less y x ≡ false → x ≡ y

module _ {ℓ} {A : Type ℓ} (less : A → A → Bool) (P : A → Type ℓ) (laws : IsTotal less P) where
  pub sort-All : (l : List A) → All P l → All P (sort less l)
  unfolding sort
  sort-All [] q = tt
  sort-All (x ∷ l) q = insert-All less P x (sort less l) q.0 (sort-All l q.1)

  insert_comm :
      (x y : A) (l : List A)
      → P x
      → P y
      → All P l
      → insert less x (insert less y l) ≡ insert less y (insert less x l)
  unfolding insert
  insert_comm x y [] p q r = ground (arith, laws.total x y p q, laws.trans x y x, laws.irrefl x)
  insert_comm x y (z ∷ l) p q r = ground (
    arith,
    insert_comm x y l p q r.1,
    laws.total x y p q,
    laws.total x z p r.0,
    laws.total y z q r.0,
    laws.trans x y x,
    laws.trans z x y,
    laws.trans z y x,
    laws.irrefl x,
  )

  perm-All : {l m : List A} → Permᴰ l m → All P l → All P m
  perm-All Permᴰ.nil q = tt
  perm-All (Permᴰ.cons e p) q = (subst P e q.0, perm-All p q.1)
  perm-All (Permᴰ.swap e f) q = (subst P f q.1.0, (subst P e q.0, q.1.1))
  perm-All (Permᴰ.trans p r) q = perm-All r (perm-All p q)

  -- the order of the elements before the sort does not matter
  pub sort-perm : {l m : List A} → Permᴰ l m → All P l → sort less l ≡ sort less m
  unfolding sort
  sort-perm Permᴰ.nil q = refl
  sort-perm (Permᴰ.cons {a} {b} {l₁ = l} {l₂ = m} e p) q =
      ap (λ x. insert less x (sort less l)) e ∙ ap (insert less b) (sort-perm p q.1)
  sort-perm (Permᴰ.swap {a} {b} {a'} {b'} {l} e f) q =
      insert_comm a b (sort less l) q.0 q.1.0 (sort-All l q.1.1)
      ∙ (ap (λ x. insert less x (insert less a (sort less l))) f
          ∙ ap (λ x. insert less a' (insert less x (sort less l))) e)
  sort-perm (Permᴰ.trans p r) q = sort-perm p q ∙ sort-perm r (perm-All p q)

  -- an element below which there is nothing up to `y` has nothing below it up to `x`, if `y` is
  -- not less than `x`
  not_less_trans : (x y z : A) → P y → P z → less y x ≡ false → less z y ≡ false → less z x ≡ false
  not_less_trans x y z p q h k = elim (Bool-cases (less y z)) [
    | inl up ↦ ground (arith, laws.trans y z x)
    | inr same ↦ subst (λ w. less w x ≡ false) (laws.total y z p q same k) h
  ]

  All-not_less :
      (x y : A) (l : List A)
      → P y
      → All P l
      → less y x ≡ false
      → All (λ z. less z y ≡ false) l
      → All (λ z. less z x ≡ false) l
  All-not_less x y [] p q h a = tt
  All-not_less x y (z ∷ l) p q h a =
      (not_less_trans x y z p q.0 h a.0, All-not_less x y l p q.1 h a.1)

  insert-IsSorted :
      (x : A) (l : List A) → P x → All P l → IsSorted less l → IsSorted less (insert less x l)
  unfolding insert
  insert-IsSorted x [] p q s = (tt, tt)
  insert-IsSorted x (y ∷ l) p q s = elim (Bool-cases (less y x)) [
    | inl below ↦
        rw (below, insert)
          (
            insert-All less (λ z. less z y ≡ false) x l
                (ground (arith, laws.trans y x y, laws.irrefl y)) s.0,
            insert-IsSorted x l p q.1 s.1,
          )
    | inr above ↦ rw (above, insert) ((above, All-not_less x y l q.0 q.1 above s.0), s)
  ]

  pub sort-IsSorted : (l : List A) → All P l → IsSorted less (sort less l)
  unfolding sort
  sort-IsSorted [] q = tt
  sort-IsSorted (x ∷ l) q =
      insert-IsSorted x (sort less l) q.0 (sort-All l q.1) (sort-IsSorted l q.1)
