-- ===== src/Api/Origins/Allowed.antt =====
-- What isAllowed of middleware.go answers, pattern by pattern.

use merm.Prelude.{
  ◌≡◌, ◌⊎◌, ◌↔◌, inl, inr, refl, sym, ◌∙◌, String, true, false, none, some, List, [], ◌∷◌, arith,
  Bool-cases, contains,
}
use merm.Api.Origins.{WildcardOriginPattern, CorsOriginMatcher, matches_any, is_allowed}
use merm.Api.Origins.Matches.{
  Matches, Overlaps, AllowedBy, PanicsBy, matched, overlapped, missed, Matches-middle,
  middle-Overlaps, meet,
}

match_found :
    (p : WildcardOriginPattern) (ps : List WildcardOriginPattern) (origin : String)
    → Matches p origin
    → matches_any (p ∷ ps) origin ≡ some true
unfolding matches_any
match_found p ps origin m =
    let (front, back, text, cut, good) = Matches-middle p origin m in
    rw (front, back, cut, good, matches_any) refl

overlap_panics :
    (p : WildcardOriginPattern) (ps : List WildcardOriginPattern) (origin : String)
    → Overlaps p origin
    → matches_any (p ∷ ps) origin ≡ none
unfolding matches_any
overlap_panics p ps origin o = rw (o.0, o.1, middle-Overlaps p origin o, matches_any) refl

matches_any_iff :
    (ps : List WildcardOriginPattern) (origin : String)
    → ((matches_any ps origin ≡ some true) ↔ AllowedBy ps origin)
      × ((matches_any ps origin ≡ none) ↔ PanicsBy ps origin)
unfolding matches_any
matches_any_iff [] origin =
    ((λ h. absurd (ground arith), λ h. absurd h), (λ h. absurd (ground arith), λ h. absurd h))
matches_any_iff (p ∷ ps) origin = elim (meet p origin) [
  | matched m no_overlap ↦
      let found = match_found p ps origin m in
      (
        (λ h. inl m, λ h. found),
        (
          λ h. absurd (ground (arith, h, found)),
          λ h. elim h [ inl o ↦ absurd (no_overlap o) | inr (n, rest) ↦ absurd (n m) ],
        ),
      )
  | overlapped o no_match ↦
      let panics = overlap_panics p ps origin o in
      (
        (
          λ h. absurd (ground (arith, h, panics)),
          λ h. elim h [ inl m ↦ absurd (no_match m) | inr (n, rest) ↦ absurd (n o) ],
        ),
        (λ h. inl o, λ h. panics),
      )
  | missed no_overlap no_match skips ↦
      let (allowed, panics) = matches_any_iff ps origin in
      (
        (
          λ h. inr (no_overlap, allowed.0 (sym (skips ps) ∙ h)),
          λ h. elim h [ inl m ↦ absurd (no_match m) | inr (n, rest) ↦ skips ps ∙ allowed.1 rest ],
        ),
        (
          λ h. inr (no_match, panics.0 (sym (skips ps) ∙ h)),
          λ h. elim h [ inl o ↦ absurd (no_overlap o) | inr (n, rest) ↦ skips ps ∙ panics.1 rest ],
        ),
      )
]

-- An origin is allowed exactly if it is listed, or is the prefix of a pattern, some text, and its suffix,
-- while the prefix and the suffix of no pattern in front overlap in it; and isAllowed panics exactly
-- if it is not listed, and the prefix and the suffix of a pattern overlap in it, while no pattern in
-- front matches.
pub is_allowed_iff :
    (m : CorsOriginMatcher) (origin : String)
    → ((is_allowed m origin ≡ some true)
        ↔ ((contains origin m.exact ≡ true) ⊎ AllowedBy m.wildcards origin))
      × ((is_allowed m origin ≡ none)
          ↔ ((contains origin m.exact ≡ false) × PanicsBy m.wildcards origin))
unfolding is_allowed
is_allowed_iff m origin =
    let (allowed, panics) = matches_any_iff m.wildcards origin in
    elim (Bool-cases (contains origin m.exact)) [
      | inl listed ↦ (
        (λ h. inl listed, λ h. rw (listed, is_allowed) refl),
        (λ h. absurd (ground (arith, listed, h)), λ h. absurd (ground (arith, listed, h.0))),
      )
      | inr unlisted ↦
          rw (unlisted, is_allowed)
            (
              (
                λ h. inr (allowed.0 h),
                λ h. elim h [
                  | inl listed ↦ absurd (ground (arith, listed))
                  | inr by ↦ allowed.1 by
                ],
              ),
              (λ h. (refl, panics.0 h), λ h. panics.1 h.1),
            )
    ]
