-- ===== src/Api/Origins/Matches.antt =====
-- What the matcher of origins in middleware.go allows, and when it panics.
use Prim.Native.String
use merm.Prelude.{
  ◌+◌, ◌-◌, ◌≤◌, ◌<◌, ◌≡◌, ◌≢◌, ◌⊎◌, inl, inr, refl, sym, ap, ◌∙◌, subst, String, true, false, none,
  some, List, [], ◌∷◌, arith, Bool-cases, Option-cases, str_eq, eq_iff, leb,
}
use merm.Strings.{strip_prefix, has_suffix}
use merm.Api.Origins.{
  WildcardOriginPattern, has_prefix, size, drop_chars, slice, middle, matches_any,
}
use merm.Api.Origins.Texts.{
  strip_prefix-append, append-strip_prefix, has_suffix-append, append-has_suffix, size-append,
  take_chars-append, drop_chars-append, size-drop_chars, drop_chars_all, append_assoc,
}

-- the origin is the prefix, some text, and the suffix
abbrev pub Matches : WildcardOriginPattern → String → Type 0
Matches p origin =
    (text : String) × (text ≢ "") × (String.◌++◌ p.prefix (String.◌++◌ text p.suffix) ≡ origin)

-- the prefix and the suffix overlap in the origin
abbrev pub Overlaps : WildcardOriginPattern → String → Type 0
Overlaps p origin =
    (has_prefix p.prefix origin ≡ true)
    × (has_suffix p.suffix origin ≡ true)
    × (size origin < size p.prefix + size p.suffix)

-- a pattern matches, and none in front of it overlaps
abbrev pub AllowedBy : List WildcardOriginPattern → String → Type 0
AllowedBy [] origin = ⊥
AllowedBy (p ∷ ps) origin = Matches p origin ⊎ (¬ Overlaps p origin × AllowedBy ps origin)

-- a pattern overlaps, and none in front of it matches
abbrev pub PanicsBy : List WildcardOriginPattern → String → Type 0
PanicsBy [] origin = ⊥
PanicsBy (p ∷ ps) origin = Overlaps p origin ⊎ (¬ Matches p origin × PanicsBy ps origin)

-- the text in the middle of an origin with the prefix and the suffix
middle_cut :
    (p : WildcardOriginPattern) (origin : String)
    → has_prefix p.prefix origin ≡ true
    → has_suffix p.suffix origin ≡ true
    → size p.prefix + size p.suffix ≤ size origin
    → (text : String) × (middle p origin ≡ some text)
      × (String.◌++◌ p.prefix (String.◌++◌ text p.suffix) ≡ origin)
unfolding has_prefix middle slice
middle_cut p origin front back fits = elim (Option-cases (strip_prefix p.prefix origin)) [
  | inl bad ↦ absurd (ground (arith, bad, front))
  | inr (t, cut) ↦
      let (a, e) = append-has_suffix p.suffix origin back in
      let n = size p.prefix in
      let long : n ≤ size a = ground (arith, size-append a p.suffix, ap size e, fits) in
      let text = drop_chars n a in
      let joined : String.◌++◌ p.prefix t ≡ origin = append-strip_prefix p.prefix origin t cut in
      let tail : t ≡ String.◌++◌ text p.suffix =
        sym (drop_chars_all p.prefix t)
        ∙ (ap (drop_chars n) (joined ∙ sym e) ∙ drop_chars-append n a p.suffix long) in
      let width : size origin - size p.suffix - n ≡ size text =
        ground (arith, size-append a p.suffix, ap size e, size-drop_chars n a) in
      let behind : drop_chars n origin ≡ String.◌++◌ text p.suffix =
        ap (drop_chars n) (sym e) ∙ drop_chars-append n a p.suffix long in
      let inside : leb n (size origin - size p.suffix) ≡ true = ground (arith, fits) in
      (
        text,
        rw (inside, middle, slice, width, behind) (ap some (take_chars-append text p.suffix)),
        ap (String.◌++◌ p.prefix) (sym tail) ∙ joined,
      )
]

pub middle-Overlaps :
    (p : WildcardOriginPattern) (origin : String) → Overlaps p origin → middle p origin ≡ none
unfolding middle slice
middle-Overlaps p origin (front, back, short) =
    let (a, e) = append-has_suffix p.suffix origin back in
    ground (arith, size-append a p.suffix, ap size e, short)

size-zero : (s : String) → size s ≡ 0 → s ≡ ""
unfolding size
size-zero String.[] h = refl
size-zero (String.◌∷◌ c s) h = absurd (omega arith)

size-Matches :
    (p : WildcardOriginPattern) (origin text : String)
    → String.◌++◌ p.prefix (String.◌++◌ text p.suffix) ≡ origin
    → size origin ≡ size p.prefix + (size text + size p.suffix)
size-Matches p origin text e =
    omega (
      arith,
      ap size e,
      size-append p.prefix (String.◌++◌ text p.suffix),
      size-append text p.suffix,
    )

-- what `isAllowed` finds of an origin that matches
pub Matches-middle :
    (p : WildcardOriginPattern) (origin : String)
    → Matches p origin
    → (has_prefix p.prefix origin ≡ true)
      × (has_suffix p.suffix origin ≡ true)
      × (text : String) × (middle p origin ≡ some text)
      × (str_eq text "" ≡ false)
unfolding has_prefix size
Matches-middle p origin (text, full, e) =
    let front : has_prefix p.prefix origin ≡ true =
      subst (λ s. has_prefix p.prefix s ≡ true) e
        (rw (strip_prefix-append p.prefix (String.◌++◌ text p.suffix), has_prefix) refl) in
    let back : has_suffix p.suffix origin ≡ true =
      subst (λ s. has_suffix p.suffix s ≡ true) (append_assoc p.prefix text p.suffix ∙ e)
        (has_suffix-append (String.◌++◌ p.prefix text) p.suffix) in
    let width = size-Matches p origin text e in
    let (found, cut, e') = middle_cut p origin front back (omega (arith, width)) in
    let same : size found ≡ size text = omega (arith, width, size-Matches p origin found e') in
    (
      front,
      back,
      found,
      cut,
      elim (Bool-cases (str_eq found "")) [
        | inr good ↦ good
        | inl empty ↦
            absurd (full (size-zero text (sym same ∙ ap size ((eq_iff found "").0 empty))))
      ],
    )

Matches-Overlaps :
    (p : WildcardOriginPattern) (origin : String) → Matches p origin → ¬ Overlaps p origin
Matches-Overlaps p origin m o =
    let (front, back, text, cut, good) = Matches-middle p origin m in
    absurd (ground (arith, cut, middle-Overlaps p origin o))

-- The three ways that a pattern is met.
pub data Met (p : WildcardOriginPattern) (origin : String) : Type 0 where
  matched : Matches p origin → ¬ Overlaps p origin → Met p origin
  overlapped : Overlaps p origin → ¬ Matches p origin → Met p origin
  missed :
      ¬ Overlaps p origin
      → ¬ Matches p origin
      → ((ps : List WildcardOriginPattern) → matches_any (p ∷ ps) origin ≡ matches_any ps origin)
      → Met p origin

pub meet : (p : WildcardOriginPattern) (origin : String) → Met p origin
unfolding matches_any
meet p origin = elim (Bool-cases (has_prefix p.prefix origin)) [
  | inr no_front ↦
      missed (λ o. absurd (ground (arith, o.0, no_front)))
        (λ m. absurd (ground (arith, (Matches-middle p origin m).0, no_front)))
        (λ ps. rw (no_front, matches_any) refl)
  | inl front ↦ elim (Bool-cases (has_suffix p.suffix origin)) [
    | inr no_back ↦
        missed (λ o. absurd (ground (arith, o.1, no_back)))
          (λ m. absurd (ground (arith, (Matches-middle p origin m).1, no_back)))
          (λ ps. rw (front, no_back, matches_any) refl)
    | inl back ↦ elim (Bool-cases (leb (size p.prefix + size p.suffix) (size origin))) [
      | inr short ↦
          let o : Overlaps p origin = (front, back, ground (arith, short)) in
          overlapped o (λ m. Matches-Overlaps p origin m o)
      | inl fits ↦
          let (text, cut, e) = middle_cut p origin front back (ground (arith, fits)) in
          elim (Bool-cases (str_eq text "")) [
            | inr full ↦
                let m : Matches p origin =
                  (text, λ h. ground (arith, full, eq_iff text "", h), e) in
                matched m (Matches-Overlaps p origin m)
            | inl empty ↦
                missed (λ o. absurd (ground (arith, o.2, fits)))
                  (λ m.
                    let (front', back', t, cut', good) = Matches-middle p origin m in
                    absurd (ground (arith, cut, cut', good, empty)))
                  (λ ps. rw (front, back, cut, empty, matches_any) refl)
          ]
    ]
  ]
]
