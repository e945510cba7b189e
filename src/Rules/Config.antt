-- ===== src/Rules/Config.antt =====
-- internal/rules/rule.go: the configuration of the rules. A Go map is an association list. A value
-- of type `interface{}` is told apart as far as the code's type switches do: a `float64` is
-- `fraction` unless it is an integer, and then `whole`, with what `int` makes of it where no `int` of 64
-- bits can hold it, which Go leaves open; an element of a `[]interface{}` is a
-- string or not, and all that no switch names is `other`.
use merm.Prelude.{ℤ, String, Bool, Option, List}

pub data Value : Type 0 where
  text : String → Value
  flag : Bool → Value
  int : ℤ → Value
  whole : ℤ → ℤ → Value
  fraction : Value
  texts : List String → Value
  array : List (Option String) → Value
  other : Value

abbrev pub RuleConfig : Type 0
RuleConfig = List (String × Value)

-- `Config`
abbrev pub Config : Type 0
Config = List (String × RuleConfig)
