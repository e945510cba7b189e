-- ===== src/Strings.antt =====
-- Go's package `strings` as far as internal/ calls it, on texts of valid UTF-8. `to_lower` is
-- exact where the result is read as ASCII: it maps the letters A to Z, and the two other
-- characters whose lower case is an ASCII letter, and leaves the rest.
pub mod Laws
use Prim.Native.Char.{Char, code}
use Prim.Native.String
use merm.Prelude.{
  ℕ, zero, suc, ◌-◌, ◌+◌, String, Bool, true, false, ◌&&◌, ◌||◌, not, Option, none, some, List, [],
  ◌∷◌, leb, ◌==◌, if◌then◌else◌, str_eq,
}

-- `unicode.IsSpace`
unfoldable pub is_space : Char → Bool
is_space c =
    leb 9 (code c) && leb (code c) 13
    || code c == 32
    || code c == 0x85
    || code c == 0xA0
    || code c == 0x1680
    || leb 0x2000 (code c) && leb (code c) 0x200a
    || code c == 0x2028
    || code c == 0x2029
    || code c == 0x202f
    || code c == 0x205f
    || code c == 0x3000

unfoldable pub trim_left : String → String
trim_left String.[] = ""
trim_left (String.◌∷◌ c s) =
    let rest = trim_left s in elim (is_space c) [ true ↦ rest | false ↦ String.◌∷◌ c s ]

unfoldable pub trim_right : String → String
trim_right String.[] = ""
trim_right (String.◌∷◌ c s) = elim (trim_right s) [
  | String.[] ↦ if is_space c then "" else String.◌∷◌ c ""
  | String.◌∷◌ d rest ↦ String.◌∷◌ c (String.◌∷◌ d rest)
]

-- `strings.TrimSpace`
unfoldable pub trim_space : String → String
unfolding is_space trim_left trim_right
trim_space s = trim_right (trim_left s)

-- the character at a position of a text
pick : String → ℕ → Char → Char
pick String.[] n c = c
pick (String.◌∷◌ d s) zero c = d
pick (String.◌∷◌ d s) (suc n) c = pick s n c

unfoldable pub lower : Char → Char
unfolding pick
lower c =
    if leb 65 (code c) && leb (code c) 90
    then pick "abcdefghijklmnopqrstuvwxyz" (code c - 65) c
    else if code c == 0x212A
    then "k"
    else if code c == 0x130
    then "i"
    else c

-- `strings.ToLower`
unfoldable pub to_lower : String → String
unfolding lower
to_lower String.[] = ""
to_lower (String.◌∷◌ c s) = String.◌∷◌ (lower c) (to_lower s)

-- `strings.TrimPrefix` where `strings.HasPrefix` holds
unfoldable pub strip_prefix : String → String → Option String
strip_prefix String.[] s = some s
strip_prefix (String.◌∷◌ p ps) String.[] = none
strip_prefix (String.◌∷◌ p ps) (String.◌∷◌ c s) =
    let rest = strip_prefix ps s in elim (code p == code c) [ true ↦ rest | false ↦ none ]

-- the text before the first occurrence of a character, and the text behind it
unfoldable pub cut : ℕ → String → Option (String × String)
cut sep String.[] = none
cut sep (String.◌∷◌ c s) =
    let rest : Option (String × String) = elim (cut sep s) [
      | none ↦ none
      | some (a, b) ↦ some (String.◌∷◌ c a, b)
    ] in
    elim (code c == sep) [ true ↦ some ("", s) | false ↦ rest ]

-- `strings.Contains` of one character
unfoldable pub has_char : ℕ → String → Bool
has_char sep String.[] = false
has_char sep (String.◌∷◌ c s) = code c == sep || has_char sep s

-- every character passes a test
unfoldable pub all_chars : (Char → Bool) → String → Bool
all_chars p String.[] = true
all_chars p (String.◌∷◌ c s) = p c && all_chars p s

-- `strings.Split` at one character
unfoldable pub split : ℕ → String → List String
split sep String.[] = "" ∷ []
split sep (String.◌∷◌ c s) =
    let rest = split sep s in
    elim (code c == sep) [
      | true ↦ "" ∷ rest
      | false ↦ elim rest [ [] ↦ String.◌∷◌ c "" ∷ [] | t ∷ ts ↦ String.◌∷◌ c t ∷ ts ]
    ]

-- `strings.HasSuffix`
unfoldable pub has_suffix : String → String → Bool
has_suffix suffix String.[] = str_eq "" suffix
has_suffix suffix (String.◌∷◌ c s) = str_eq (String.◌∷◌ c s) suffix || has_suffix suffix s

-- `strings.Count` of one character
unfoldable pub count_char : ℕ → String → ℕ
count_char sep String.[] = 0
count_char sep (String.◌∷◌ c s) =
    let rest = count_char sep s in elim (code c == sep) [ true ↦ suc rest | false ↦ rest ]

-- the case folding of a character, as far as it meets ASCII letters
unfoldable pub fold : Char → Char
fold c = if code c == 0x17F then "s" else if code c == 0x130 then c else lower c

unfoldable pub fold_all : String → String
fold_all String.[] = ""
fold_all (String.◌∷◌ c s) = String.◌∷◌ (fold c) (fold_all s)

-- `strings.EqualFold` where one of the texts is of ASCII
unfoldable pub equal_fold : String → String → Bool
equal_fold s t = str_eq (fold_all s) (fold_all t)
