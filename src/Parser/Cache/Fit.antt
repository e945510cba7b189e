-- ===== src/Parser/Cache/Fit.antt =====
-- What the eviction from the back in `SetWeighted` of cache.go leaves, described from the front:
-- elements are kept as long as there is room.
use merm.Prelude.{
  ℕ, zero, suc, ◌+◌, ◌≡◌, refl, Bool, true, false, not, ◌||◌, Option, none, some, List, [], ◌∷◌,
  arith, ltb, leb, length, ap, sym, subst, ◌∙◌, ◌≢◌, String, str_eq_ne, str_eq_refl,
}
use merm.Parser.Cache.{Entry, find, remove, back}
use merm.Parser.Cache.Entries.{Distinct, total, find_head, find_tail}

-- a weight is within the byte limit, if there is one
abbrev pub fits : Option ℕ → ℕ → Bool
fits none w = true
fits (some b) w = leb w b

module _ {T : Type 0} where
  -- the first elements, at most `n`, whose weights stay within the limit with what is used before
  unfoldable pub fit : ℕ → Option ℕ → ℕ → List (Entry T) → List (Entry T)
  fit zero limit used l = []
  fit (suc n) limit used [] = []
  fit (suc n) limit used (e ∷ l) =
      let rest = fit n limit (used + e.weight) l in
      elim (fits limit (used + e.weight)) [ true ↦ e ∷ rest | false ↦ [] ]

  abbrev pub over : ℕ → Option ℕ → ℕ → List (Entry T) → Bool
  over n limit used l = ltb n (length l) || not (fits limit (used + total l))

  -- the list without its last element
  unfoldable pub drop_last : List (Entry T) → List (Entry T)
  drop_last [] = []
  drop_last (e ∷ []) = []
  drop_last (e ∷ f ∷ l) = e ∷ drop_last (f ∷ l)

  pub fit_all :
      (n : ℕ) (limit : Option ℕ) (used : ℕ) (l : List (Entry T))
      → over n limit used l ≡ false
      → fit n limit used l ≡ l
  unfolding fit
  fit_all zero limit used [] h = refl
  fit_all zero limit used (e ∷ l) h = absurd (ground arith)
  fit_all (suc n) limit used [] h = refl
  fit_all (suc n) limit used (e ∷ l) h = ground (arith, fit_all n limit (used + e.weight) l)

  pub fit-drop_last :
      (n : ℕ) (limit : Option ℕ) (used : ℕ) (l : List (Entry T))
      → over n limit used l ≡ true
      → fit n limit used (drop_last l) ≡ fit n limit used l
  unfolding fit drop_last
  fit-drop_last zero limit used l h = refl
  fit-drop_last (suc n) limit used [] h = refl
  fit-drop_last (suc n) limit used (e ∷ []) h = ground arith
  fit-drop_last (suc n) limit used (e ∷ f ∷ l) h =
      ground (arith, fit-drop_last n limit (used + e.weight) (f ∷ l))

  -- the elements that fit are within both limits
  pub fit_within :
      (n : ℕ) (limit : Option ℕ) (used : ℕ) (l : List (Entry T))
      → fits limit used ≡ true
      → over n limit used (fit n limit used l) ≡ false
  unfolding fit
  fit_within zero limit used l h = ground arith
  fit_within (suc n) limit used [] h = ground arith
  fit_within (suc n) limit used (e ∷ l) h = ground (arith, fit_within n limit (used + e.weight) l)

  pub back-none : (l : List (Entry T)) → back l ≡ none → l ≡ []
  unfolding back
  back-none [] h = refl
  back-none (e ∷ l) h = absurd (ground arith)

  back_cons : (x y : Entry T) (l : List (Entry T)) → back (x ∷ y ∷ l) ≡ back (y ∷ l)
  unfolding back
  back_cons x y l = ground arith

  -- the last of several elements has another key than the first
  back-key_ne :
      (x : Entry T) (l : List (Entry T)) (e : Entry T)
      → find x.key l ≡ none
      → find e.key l ≡ some e
      → x.key ≢ e.key
  back-key_ne x l e absent found same = ground (arith, ap (λ k. find k l) same)

  pub find-back :
      (l : List (Entry T)) (e : Entry T) → Distinct l → back l ≡ some e → find e.key l ≡ some e
  find-back [] e d h = absurd (unfold back in ground arith)
  find-back (x ∷ []) e d h =
      let same : x ≡ e = unfold back in ground arith in
      subst (λ (y : Entry T). find y.key (x ∷ []) ≡ some y) same (find_head x [])
  find-back (x ∷ y ∷ l) e d h =
      let later = find-back (y ∷ l) e d.1 (sym (back_cons x y l) ∙ h) in
      find_tail e.key x (y ∷ l) (back-key_ne x (y ∷ l) e d.0 later) ∙ later

  remove_head : (e : Entry T) (l : List (Entry T)) → remove e.key (e ∷ l) ≡ l
  unfolding remove
  remove_head e l = ground (arith, str_eq_refl e.key)

  remove_tail :
      (k : String) (e : Entry T) (l : List (Entry T))
      → e.key ≢ k
      → remove k (e ∷ l) ≡ e ∷ remove k l
  unfolding remove
  remove_tail k e l h = ground (arith, str_eq_ne e.key k h)

  pub remove-back :
      (l : List (Entry T)) (e : Entry T)
      → Distinct l
      → back l ≡ some e
      → remove e.key l ≡ drop_last l
  unfolding drop_last
  remove-back [] e d h = absurd (unfold back in ground arith)
  remove-back (x ∷ []) e d h =
      let same : x ≡ e = unfold back in ground arith in
      subst (λ (y : Entry T). remove y.key (x ∷ []) ≡ []) same (remove_head x [])
  remove-back (x ∷ y ∷ l) e d h =
      let last = sym (back_cons x y l) ∙ h in
      let later = find-back (y ∷ l) e d.1 last in
      remove_tail e.key x (y ∷ l) (back-key_ne x (y ∷ l) e d.0 later)
      ∙ ap (◌∷◌ x) (remove-back (y ∷ l) e d.1 last)
