-- ===== src/Strings/Laws.antt =====
-- Laws of cutting and prefixing texts.
use Prim.Native.Char.{Char, code}
use Prim.Native.String.append
use Prim.Native.String
use text.Mathlib.TextEquality.{Char-path}
use mathlib.Core.Path.{ap₂}
use merm.Prelude.{
  ℕ, ◌≡◌, refl, sym, ap, ◌∙◌, ◌++◌, List, [], ◌∷◌, String, false, some, arith, ◌==◌, Bool-cases,
  Option-cases, inl, inr,
}
use merm.Strings.{strip_prefix, cut, has_char, split}

-- a text cut at a character that its first part does not contain
pub cut-append :
    (sep : Char) (a b : String)
    → has_char (code sep) a ≡ false
    → cut (code sep) (String.◌++◌ a (String.◌∷◌ sep b)) ≡ some (a, b)
unfolding has_char cut
cut-append sep String.[] b h = rw (append.nil (String.◌∷◌ sep b)) (ground arith)
cut-append sep (String.◌∷◌ c a) b h =
    rw (append.cons c a (String.◌∷◌ sep b)) (ground (arith, cut-append sep a b))

-- the parts that a text was cut into make up the text
pub append-cut :
    (sep : Char) (s a b : String)
    → cut (code sep) s ≡ some (a, b)
    → String.◌++◌ a (String.◌∷◌ sep b) ≡ s
unfolding cut
append-cut sep String.[] a b h = absurd (ground arith)
append-cut sep (String.◌∷◌ c s) a b h = elim (Bool-cases (code c == code sep)) [
  | inl here ↦
      let same : c ≡ sep = Char-path c sep (ground arith) in
      let first : "" ≡ a = ground arith in
      let rest : s ≡ b = ground arith in
      ap₂ (λ x y. String.◌++◌ x (String.◌∷◌ sep y)) (sym first) (sym rest)
      ∙ (append.nil (String.◌∷◌ sep s) ∙ ap (λ x. String.◌∷◌ x s) (sym same))
  | inr later ↦ elim (Option-cases (cut (code sep) s)) [
    | inl missing ↦ absurd (ground arith)
    | inr ((x, y), found) ↦
        let first : String.◌∷◌ c x ≡ a = ground arith in
        let rest : y ≡ b = ground arith in
        ap₂ (λ u v. String.◌++◌ u (String.◌∷◌ sep v)) (sym first) (sym rest)
        ∙ (append.cons c x (String.◌∷◌ sep y) ∙ ap (String.◌∷◌ c) (append-cut sep s x y found))
  ]
]

-- a prefix that is stripped is put back by its characters
pub strip_prefix_head :
    (c : Char) (s t : String) → strip_prefix (String.◌∷◌ c "") s ≡ some t → String.◌∷◌ c t ≡ s
unfolding strip_prefix
strip_prefix_head c String.[] t h = absurd (ground arith)
strip_prefix_head c (String.◌∷◌ d s) t h =
    let same : c ≡ d = Char-path c d (ground arith) in
    let rest : t ≡ s = ground arith in ap₂ String.◌∷◌ same rest

split_some : (sep : ℕ) (s : String) → (t : String) × (ts : List String) × (split sep s ≡ t ∷ ts)
unfolding split
split_some sep String.[] = ("", [], refl)
split_some sep (String.◌∷◌ c s) =
    let (t, ts, e) = split_some sep s in
    elim (Bool-cases (code c == sep)) [
      | inl here ↦ ("", split sep s, rw (here, split) refl)
      | inr there ↦ (String.◌∷◌ c t, ts, rw (there, e, split) refl)
    ]

-- splitting a text that is joined from two at the separator
pub split-append :
    (sep : Char) (a b : String)
    → split (code sep) (String.◌++◌ a (String.◌∷◌ sep b)) ≡ split (code sep) a ++ split (code sep) b
unfolding split
split-append sep String.[] b = rw (append.nil (String.◌∷◌ sep b)) (ground arith)
split-append sep (String.◌∷◌ c a) b =
    rw (append.cons c a (String.◌∷◌ sep b))
      (let (t, ts, e) = split_some (code sep) a in ground (arith, split-append sep a b, e))
