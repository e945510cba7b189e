-- ===== src/Prelude/Text.antt =====
-- Texts compared as wholes: keys, identifiers, names.
use Prim.Native.String.{String}
use mathlib.Core.Path.{◌≡◌, refl}
use mathlib.Core.Logic.{◌≢◌, ◌⊎◌, inl, inr}
use mathlib.Core.List.{List, [], ◌∷◌}
use mathlib.Core.Bool.{Bool, true, false, ◌||◌}
use mathlib.Core.Option.{Option, none, some}
use native.Mathlib.Omega.{arith}
pub use text.Mathlib.Text.{◌==◌ as str_eq}
pub use text.Mathlib.TextEquality.{eq_iff}

pub str_eq_refl : (s : String) → str_eq s s ≡ true
str_eq_refl s = (eq_iff s s).1 refl

pub str_eq_ne : (s t : String) → s ≢ t → str_eq s t ≡ false
str_eq_ne s t h = ground (arith, eq_iff s t)

pub String-cases : (s t : String) → (s ≡ t) ⊎ (s ≢ t)
String-cases s t = go (str_eq s t) refl
  where
    go : (b : Bool) → str_eq s t ≡ b → (s ≡ t) ⊎ (s ≢ t)
    go true e = inl ((eq_iff s t).0 e)
    go false e = inr (λ h. ground (arith, eq_iff s t))

-- membership of a text in a list, the test of a Go `map[string]struct{}`
unfoldable pub contains : String → List String → Bool
contains k [] = false
contains k (x ∷ xs) = str_eq x k || contains k xs

-- `delete(m, k)` on the keys of a map
unfoldable pub delete : String → List String → List String
delete k [] = []
delete k (x ∷ xs) = let rest = delete k xs in elim (str_eq x k) [ true ↦ rest | false ↦ x ∷ rest ]

pub contains-delete_self : (k : String) (xs : List String) → contains k (delete k xs) ≡ false
unfolding contains delete
contains-delete_self k [] = refl
contains-delete_self k (x ∷ xs) = ground (arith, contains-delete_self k xs)

pub contains-delete_ne :
    (j k : String) (xs : List String) → j ≢ k → contains j (delete k xs) ≡ contains j xs
unfolding contains delete
contains-delete_ne j k [] h = refl
contains-delete_ne j k (x ∷ xs) h =
    ground (arith, contains-delete_ne j k xs h, eq_iff x k, eq_iff x j)

-- `m[k]` of a map kept as an association list
unfoldable pub lookup {ℓ} : {V : Type ℓ} → String → List (String × V) → Option V
lookup k [] = none
lookup k ((j, v) ∷ m) = let rest = lookup k m in elim (str_eq j k) [ true ↦ some v | false ↦ rest ]
