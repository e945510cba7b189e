-- ===== src/Api/Origins/Texts.antt =====
-- Prefixes, suffixes and slices of texts, as the matcher of origins in middleware.go uses them.
use Prim.Native.String.append
use Prim.Native.String
use text.Mathlib.TextEquality.{Char-path}
use mathlib.Core.Path.{ap₂}
use merm.Prelude.{
  ℕ, zero, suc, ◌+◌, ◌-◌, ◌≤◌, ◌≡◌, inl, inr, refl, sym, ap, ◌∙◌, String, true, some, arith,
  String-cases, str_eq_refl, eq_iff,
}
use merm.Strings.{strip_prefix, has_suffix}
use merm.Api.Origins.{size, take_chars, drop_chars}

pub strip_prefix-append : (p s : String) → strip_prefix p (String.◌++◌ p s) ≡ some s
unfolding strip_prefix
strip_prefix-append String.[] s = rw (append.nil s) refl
strip_prefix-append (String.◌∷◌ c p) s =
    rw (append.cons c p s) (ground (arith, strip_prefix-append p s))

pub append-strip_prefix : (p s t : String) → strip_prefix p s ≡ some t → String.◌++◌ p t ≡ s
unfolding strip_prefix
append-strip_prefix String.[] s t h = append.nil t ∙ ground (arith, h)
append-strip_prefix (String.◌∷◌ c p) String.[] t h = absurd (ground arith)
append-strip_prefix (String.◌∷◌ c p) (String.◌∷◌ d s) t h =
    let same : c ≡ d = Char-path c d (ground arith) in
    append.cons c p t ∙ ap₂ String.◌∷◌ same (append-strip_prefix p s t (ground (arith, h)))

pub has_suffix-append : (a s : String) → has_suffix s (String.◌++◌ a s) ≡ true
unfolding has_suffix
has_suffix-append String.[] String.[] = refl
has_suffix-append String.[] (String.◌∷◌ c s) =
    rw (append.nil (String.◌∷◌ c s)) (ground (arith, str_eq_refl (String.◌∷◌ c s)))
has_suffix-append (String.◌∷◌ c a) s =
    rw (append.cons c a s) (ground (arith, has_suffix-append a s))

pub append-has_suffix :
    (s x : String) → has_suffix s x ≡ true → (a : String) × (String.◌++◌ a s ≡ x)
unfolding has_suffix
append-has_suffix s String.[] h = ("", append.nil s ∙ ground (arith, eq_iff "" s))
append-has_suffix s (String.◌∷◌ c x) h = elim (String-cases (String.◌∷◌ c x) s) [
  | inl same ↦ ("", append.nil s ∙ sym same)
  | inr ne ↦
      let (a, e) = append-has_suffix s x (ground (arith, h, eq_iff (String.◌∷◌ c x) s)) in
      (String.◌∷◌ c a, append.cons c a s ∙ ap (String.◌∷◌ c) e)
]

pub size-append : (a b : String) → size (String.◌++◌ a b) ≡ size a + size b
unfolding size
size-append String.[] b = rw (append.nil b) (omega arith)
size-append (String.◌∷◌ c a) b = rw (append.cons c a b) (omega (arith, size-append a b))

pub take_chars-append : (a b : String) → take_chars (size a) (String.◌++◌ a b) ≡ a
unfolding size take_chars
take_chars-append String.[] b = refl
take_chars-append (String.◌∷◌ c a) b =
    rw (append.cons c a b) (ap (String.◌∷◌ c) (take_chars-append a b))

pub drop_chars-append :
    (n : ℕ) (a b : String)
    → n ≤ size a
    → drop_chars n (String.◌++◌ a b) ≡ String.◌++◌ (drop_chars n a) b
unfolding size drop_chars
drop_chars-append zero a b h = refl
drop_chars-append (suc n) String.[] b h = absurd (omega arith)
drop_chars-append (suc n) (String.◌∷◌ c a) b h =
    rw (append.cons c a b) (drop_chars-append n a b (omega (arith, h)))

pub size-drop_chars : (n : ℕ) (a : String) → size (drop_chars n a) ≡ size a - n
unfolding size drop_chars
size-drop_chars zero a = omega arith
size-drop_chars (suc n) String.[] = omega arith
size-drop_chars (suc n) (String.◌∷◌ c a) = omega (arith, size-drop_chars n a)

pub drop_chars_all : (a b : String) → drop_chars (size a) (String.◌++◌ a b) ≡ b
unfolding size drop_chars
drop_chars_all String.[] b = append.nil b
drop_chars_all (String.◌∷◌ c a) b = rw (append.cons c a b) (drop_chars_all a b)

pub append_assoc :
    (a b c : String) → String.◌++◌ (String.◌++◌ a b) c ≡ String.◌++◌ a (String.◌++◌ b c)
append_assoc String.[] b c =
    ap (λ x. String.◌++◌ x c) (append.nil b) ∙ sym (append.nil (String.◌++◌ b c))
append_assoc (String.◌∷◌ x a) b c =
    ap (λ y. String.◌++◌ y c) (append.cons x a b)
    ∙ (append.cons x (String.◌++◌ a b) c
        ∙ (ap (String.◌∷◌ x) (append_assoc a b c) ∙ sym (append.cons x a (String.◌++◌ b c))))
