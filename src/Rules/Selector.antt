-- ===== src/Rules/Selector.antt =====
-- internal/rules/selector.go: suppression selectors. The regular expression is read as a cut at the
-- first colon: neither the optional `!` nor the three prefixes contain one, and `\S` may.
use Prim.Native.Char.{Char, code}
use Prim.Native.String
use Prim.Native.String.append
use merm.Prelude.{
  ◌≡◌, refl, String, Bool, true, false, not, ◌&&◌, ◌||◌, Option, none, some, List, [], ◌∷◌, arith,
  ◌==◌, if◌then◌else◌, str_eq, eq_iff, contains, inl, inr, ◌⊎◌, Option-cases,
}
use merm.Strings.{strip_prefix, cut, has_char, all_chars}
use merm.Strings.Laws.{cut-append, append-cut, strip_prefix_head}

-- `SuppressionSelector`
pub record SuppressionSelector : Type 0 where
  pub negated : Bool
  pub prefix : String
  pub value : String

-- `\S`
unfoldable pub is_nonspace : Char → Bool
is_nonspace c = not (code c == 9 || code c == 10 || code c == 12 || code c == 13 || code c == 32)

-- `node|subgraph|rule`
unfoldable pub is_selector_prefix : String → Bool
is_selector_prefix p = str_eq p "node" || str_eq p "subgraph" || str_eq p "rule"

-- `\S+`
unfoldable pub is_selector_value : String → Bool
is_selector_value v = not (str_eq v "") && all_chars is_nonspace v

-- the text behind an optional `!`, and whether there is one
unfoldable pub strip_bang : String → Bool × String
strip_bang raw = elim (strip_prefix "!" raw) [ none ↦ (false, raw) | some s ↦ (true, s) ]

-- `suppressionSelectorPatternRE.MatchString`
unfoldable pub matches_pattern : String → Bool
matches_pattern raw = elim (cut b':' (strip_bang raw).1) [
  | none ↦ false
  | some (prefix, value) ↦ is_selector_prefix prefix && is_selector_value value
]

-- `strings.Cut`, with the whole text first where there is no colon
unfoldable pub cut_or_all : String → String × String
cut_or_all s = elim (cut b':' s) [ none ↦ (s, "") | some (a, b) ↦ (a, b) ]

-- `ParseSuppressionSelector`
unfoldable pub parse_suppression_selector : String → Option SuppressionSelector
unfolding cut_or_all
parse_suppression_selector raw =
    let (negated, selector) = strip_bang raw in
    let (prefix, value) = cut_or_all selector in
    if not (matches_pattern raw)
    then none
    else some (record { negated = negated; prefix = prefix; value = value })

-- `ValidateSuppressionSelectors`
unfoldable pub validate_suppression_selectors : List String → List String → List String
validate_suppression_selectors [] known_rule_ids = []
validate_suppression_selectors (s ∷ selectors) known_rule_ids =
    let rest = validate_suppression_selectors selectors known_rule_ids in
    elim (parse_suppression_selector s) [
      | none ↦ rest
      | some parsed ↦
          if not (str_eq parsed.prefix "rule")
            || str_eq parsed.value "*"
            || contains parsed.value known_rule_ids
          then rest
          else String.◌++◌ "suppression selector references unknown rule: " parsed.value ∷ rest
    ]

-- the text of a selector
unfoldable pub print_selector : SuppressionSelector → String
print_selector s =
    let body = String.◌++◌ s.prefix (String.◌∷◌ ":" s.value) in
    if s.negated then String.◌∷◌ "!" body else body

-- A selector that the pattern admits.
pub record IsSelector (s : SuppressionSelector) : Type 0 where
  pub prefix : is_selector_prefix s.prefix ≡ true
  pub value : is_selector_value s.value ≡ true

prefix_cases :
    (p : String) → is_selector_prefix p ≡ true → (p ≡ "node") ⊎ (p ≡ "subgraph") ⊎ (p ≡ "rule")
unfolding is_selector_prefix
prefix_cases p h = ground (arith, eq_iff p "node", eq_iff p "subgraph", eq_iff p "rule")

prefix_no_colon : (p : String) → is_selector_prefix p ≡ true → has_char b':' p ≡ false
prefix_no_colon p h = elim (prefix_cases p h) [
  | inl e ↦ rw e (unfold has_char in refl)
  | inr (inl e) ↦ rw e (unfold has_char in refl)
  | inr (inr e) ↦ rw e (unfold has_char in refl)
]

prefix_no_bang :
    (p t : String) → is_selector_prefix p ≡ true → strip_prefix "!" (String.◌++◌ p t) ≡ none
unfolding strip_prefix
prefix_no_bang p t h = elim (prefix_cases p h) [
  | inl e ↦ rw (e, append.cons "n" "ode" t)
  | inr (inl e) ↦ rw (e, append.cons "s" "ubgraph" t)
  | inr (inr e) ↦ rw (e, append.cons "r" "ule" t)
]

strip_bang_plain : (t : String) → strip_prefix "!" t ≡ none → strip_bang t ≡ (false, t)
unfolding strip_bang
strip_bang_plain t h = rw (h, strip_bang)

strip_bang_negated : (t : String) → strip_bang (String.◌∷◌ "!" t) ≡ (true, t)
unfolding strip_bang strip_prefix
strip_bang_negated t = refl

strip_bang-print_selector :
    (s : SuppressionSelector)
    → IsSelector s
    → strip_bang (print_selector s) ≡ (s.negated, String.◌++◌ s.prefix (String.◌∷◌ ":" s.value))
unfolding print_selector
strip_bang-print_selector s v =
    let body = String.◌++◌ s.prefix (String.◌∷◌ ":" s.value) in
    ground (
      arith,
      strip_bang_plain body (prefix_no_bang s.prefix (String.◌∷◌ ":" s.value) v.prefix),
      strip_bang_negated body,
    )

-- A selector is read back from its text.
pub parse-print_selector :
    (s : SuppressionSelector)
    → IsSelector s
    → parse_suppression_selector (print_selector s) ≡ some s
unfolding parse_suppression_selector matches_pattern
parse-print_selector s v = ground (
  arith,
  strip_bang-print_selector s v,
  cut-append ":" s.prefix s.value (prefix_no_colon s.prefix v.prefix),
)

print-strip_bang :
    (raw : String)
    → (if (strip_bang raw).0 then String.◌∷◌ "!" (strip_bang raw).1 else (strip_bang raw).1) ≡ raw
unfolding strip_bang
print-strip_bang raw = elim (Option-cases (strip_prefix "!" raw)) [
  | inl absent ↦ ground arith
  | inr (s, found) ↦ ground (arith, strip_prefix_head "!" raw s found)
]

-- A text that is accepted as a selector is the text of the selector that it is read as, which the
-- pattern admits.
pub print-parse-IsSelector :
    (raw : String) (s : SuppressionSelector)
    → parse_suppression_selector raw ≡ some s
    → (print_selector s ≡ raw) × IsSelector s
unfolding parse_suppression_selector matches_pattern print_selector
print-parse-IsSelector raw s h = elim (Option-cases (cut b':' (strip_bang raw).1)) [
  | inl missing ↦ absurd (ground arith)
  | inr ((p, v), found) ↦
      let put_back = append-cut ":" (strip_bang raw).1 p v found in
      (
        ground (arith, put_back, print-strip_bang raw),
        record { prefix = ground arith; value = ground arith },
      )
]
