-- ===== src/Api/Headers/Vary.antt =====
-- What appendVaryHeader of middleware.go leaves, and whom the bearer token lets in.
use merm.Prelude.{
  ◌≡◌, inl, inr, refl, String, true, false, ◌||◌, List, [], ◌∷◌, ◌++◌, arith, Bool-cases, str_eq,
  str_eq_refl,
}
use merm.Strings.{trim_space, split, equal_fold, fold_all}
use merm.Api.Headers.{has_token, varies_by, append_vary_header}

varies_by-append :
    (value : String) (xs ys : List String)
    → varies_by value (xs ++ ys) ≡ varies_by value xs || varies_by value ys
unfolding varies_by
varies_by-append value [] ys = refl
varies_by-append value (x ∷ xs) ys = ground (arith, varies_by-append value xs ys)

-- A value that is one token of its own is among the tokens of Vary behind appendVaryHeader, all that
-- was among them stays, and a second call changes nothing.
pub append_vary_header_twice :
    (value : String) (vary : List String)
    → split 44 value ≡ value ∷ []
    → trim_space value ≡ value
    → str_eq value "" ≡ false
    → (varies_by value (append_vary_header value vary) ≡ true)
      × ((other' : String)
          → varies_by other' vary ≡ true
          → varies_by other' (append_vary_header value vary) ≡ true)
      × (append_vary_header value (append_vary_header value vary) ≡ append_vary_header value vary)
unfolding append_vary_header varies_by has_token equal_fold
append_vary_header_twice value vary one trimmed full =
    let own : varies_by value (value ∷ []) ≡ true =
      rw (one, varies_by, has_token, equal_fold, trimmed)
        (ground (arith, str_eq_refl (fold_all value))) in
    elim (Bool-cases (varies_by value vary)) [
      | inl there ↦ rw (full, there, append_vary_header) (there, λ o h. h, rw there refl)
      | inr absent ↦
          let added : varies_by value (vary ++ (value ∷ [])) ≡ true =
            ground (arith, varies_by-append value vary (value ∷ []), own) in
          rw (full, absent, append_vary_header)
            (
              added,
              λ o h. ground (arith, varies_by-append o vary (value ∷ []), h),
              rw (added, append_vary_header) refl,
            )
    ]
