-- ===== src/Parser/ParseCache/Calls.antt =====
-- internal/parser/cache.go: the calls of `parseCache` in any order.
use merm.Prelude.{
  Option, ℕ, ◌≡◌, ◌⊎◌, inl, inr, refl, String, false, List, [], ◌∷◌, arith, contains, Option-cases,
  String-cases,
}
use merm.Parser.Cache.{new, get}
use merm.Parser.Cache.Invariant.{IsValid}
use merm.Parser.Cache.Runs.{get-IsValid, set_weighted-IsValid, delete_key-IsValid, new-IsValid}
use merm.Parser.ParseCache.{
  CacheConfig, ParseCache, new_parse_cache, parse_get, put_success, put_syntax,
  estimated_entry_bytes,
}
use merm.Parser.ParseCache.Disjoint.{
  IsLess, get-IsLess, set_weighted-IsLess, delete_key-IsLess, delete_key_gone,
}

pub data Call (D S : Type 0) : Type 0 where
  gets : ℕ → ℕ → String → Call D S
  puts_success : ℕ → String → D → Option ℕ → Call D S
  puts_syntax : ℕ → String → S → Option ℕ → Call D S

module _ {D S : Type 0} where
  -- Both caches are valid, and no key is in both.
  pub record IsDisjoint (c : ParseCache D S) : Type 0 where
    pub success : IsValid c.success
    pub syntax : IsValid c.syntax
    pub apart :
        (k : String)
        → (contains k c.success.entries ≡ false) ⊎ (contains k c.syntax.entries ≡ false)

  unfoldable pub step : ParseCache D S → Call D S → ParseCache D S
  step c (gets now later key) = (parse_get now later key c).0
  step c (puts_success now key d size) = put_success now key d size c
  step c (puts_syntax now key s size) = put_syntax now key s size c

  unfoldable pub run : ParseCache D S → List (Call D S) → ParseCache D S
  run c [] = c
  run c (call ∷ calls) = run (step c call) calls

  parse_get-IsDisjoint :
      (now later : ℕ) (j : String) (c : ParseCache D S)
      → IsDisjoint c
      → IsDisjoint (parse_get now later j c).0
  unfolding parse_get
  parse_get-IsDisjoint now later j c v =
      let first = get-IsValid now j c.success v.success in
      let second = get-IsValid later j c.syntax v.syntax in
      let less : (k : String) → IsLess k c.success (get now j c.success).0 =
        (λ k. get-IsLess k j now c.success) in
      let less' : (k : String) → IsLess k c.syntax (get later j c.syntax).0 =
        (λ k. get-IsLess k j later c.syntax) in
      elim (Option-cases (get now j c.success).1) [
        | inr (d, hit) ↦
            rw (hit, parse_get)
              (record {
                success = first;
                syntax = v.syntax;
                apart = λ k. ground (arith, v.apart k, less k);
              })
        | inl miss ↦ elim (Option-cases (get later j c.syntax).1) [
          | inr (s, hit) ↦
              rw (miss, hit, parse_get)
                (record {
                  success = first;
                  syntax = second;
                  apart = λ k. ground (arith, v.apart k, less k, less' k);
                })
          | inl miss' ↦
              rw (miss, miss', parse_get)
                (record {
                  success = first;
                  syntax = second;
                  apart = λ k. ground (arith, v.apart k, less k, less' k);
                })
        ]
      ]

  put_success-IsDisjoint :
      (now : ℕ) (j : String) (d : D) (size : Option ℕ) (c : ParseCache D S)
      → IsDisjoint c
      → IsDisjoint (put_success now j d size c)
  unfolding put_success
  put_success-IsDisjoint now j d size c v = record {
    success = set_weighted-IsValid now j d (estimated_entry_bytes size) c.success v.success;
    syntax = delete_key-IsValid j c.syntax v.syntax;
    apart = λ k. elim (String-cases k j) [
      | inl same ↦ inr (rw same (delete_key_gone j c.syntax v.syntax))
      | inr ne ↦ ground (
        arith,
        v.apart k,
        set_weighted-IsLess k j now d (estimated_entry_bytes size) c.success ne,
        delete_key-IsLess k j c.syntax,
      )
    ];
  }

  put_syntax-IsDisjoint :
      (now : ℕ) (j : String) (s : S) (size : Option ℕ) (c : ParseCache D S)
      → IsDisjoint c
      → IsDisjoint (put_syntax now j s size c)
  unfolding put_syntax
  put_syntax-IsDisjoint now j s size c v = record {
    success = delete_key-IsValid j c.success v.success;
    syntax = set_weighted-IsValid now j s (estimated_entry_bytes size) c.syntax v.syntax;
    apart = λ k. elim (String-cases k j) [
      | inl same ↦ inl (rw same (delete_key_gone j c.success v.success))
      | inr ne ↦ ground (
        arith,
        v.apart k,
        set_weighted-IsLess k j now s (estimated_entry_bytes size) c.syntax ne,
        delete_key-IsLess k j c.success,
      )
    ];
  }

  run-IsDisjoint :
      (c : ParseCache D S) (calls : List (Call D S)) → IsDisjoint c → IsDisjoint (run c calls)
  unfolding run step
  run-IsDisjoint c [] v = v
  run-IsDisjoint c (gets now later j ∷ calls) v =
      run-IsDisjoint (parse_get now later j c).0 calls (parse_get-IsDisjoint now later j c v)
  run-IsDisjoint c (puts_success now j d size ∷ calls) v =
      run-IsDisjoint (put_success now j d size c) calls (put_success-IsDisjoint now j d size c v)
  run-IsDisjoint c (puts_syntax now j s size ∷ calls) v =
      run-IsDisjoint (put_syntax now j s size c) calls (put_syntax-IsDisjoint now j s size c v)

  -- After any gets and puts at any times on new caches with any configuration, both caches are valid
  -- and no text has both a diagram and a syntax error cached.
  pub run-new_parse_cache-IsDisjoint :
      (config : CacheConfig) (calls : List (Call D S))
      → IsDisjoint (run (new_parse_cache config) calls)
  unfolding new_parse_cache contains new
  run-new_parse_cache-IsDisjoint config calls =
      run-IsDisjoint (new_parse_cache config) calls
        (record { success = new-IsValid _ _ _; syntax = new-IsValid _ _ _; apart = λ k. inl refl })
