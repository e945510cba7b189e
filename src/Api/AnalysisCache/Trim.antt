-- ===== src/Api/AnalysisCache/Trim.antt =====
-- The loop of `Set` in analysis_cache.go that removes from the back: it ends within its fuel, and the new
-- entry at the front stays.
use merm.Prelude.{
  ℕ, zero, suc, ◌≡◌, ◌≤◌, refl, sym, inl, inr, ◌⊎◌, ap, subst, ◌∙◌, false, none, some, List, [],
  ◌∷◌, arith, Bool-cases, Option-cases, String-cases, eq_iff, length, pos, pos_part,
}
use merm.Api.AnalysisCache.{
  Json, AnalysisCacheEntry, AnalysisResultCache, element_of, without, oldest, weight, is_over,
  is_off, remove_locked, trim,
}
use merm.Api.AnalysisCache.View.{IsSound, remove_locked-IsSound, length-without, heft}
use merm.Api.AnalysisCache.Prune.{SameLimits, IsApart, Distinct-IsApart}

module _ {B : Type 0} where
  oldest-element :
      (l : List (AnalysisCacheEntry B)) (x : AnalysisCacheEntry B)
      → IsApart l
      → oldest l ≡ some x
      → element_of x.key l ≡ some x
  unfolding oldest element_of
  oldest-element [] x a h = absurd (ground arith)
  oldest-element (e ∷ l) x a h = elim (Option-cases (oldest l)) [
    | inl none' ↦
        let same : e ≡ x = ground (arith, none', h) in
        subst (λ y. element_of y.key (e ∷ l) ≡ some y) same (ground (arith, eq_iff e.key e.key))
    | inr (y, last) ↦
        let same : y ≡ x = ground (arith, last, h) in
        let found = oldest-element l x a.1 (last ∙ ap some same) in
        elim (String-cases e.key x.key) [
          | inl key ↦ absurd (ground (arith, ap (λ k. element_of k l) key, found, a.0))
          | inr ne ↦ ground (arith, eq_iff e.key x.key, found)
        ]
  ]

  oldest_some :
      (e : AnalysisCacheEntry B) (l : List (AnalysisCacheEntry B)) → oldest (e ∷ l) ≡ none → ⊥
  unfolding oldest
  oldest_some e l h = elim (Option-cases (oldest l)) [
    | inl none' ↦ absurd (ground (arith, none', h))
    | inr (y, last) ↦ absurd (ground (arith, last, h))
  ]

  -- the oldest of several entries is not the first one
  oldest_tail :
      (e x : AnalysisCacheEntry B) (l : List (AnalysisCacheEntry B))
      → IsApart (e ∷ l)
      → oldest (e ∷ l) ≡ some x
      → (l ≡ []) ⊎ (without x.key (e ∷ l) ≡ e ∷ without x.key l)
  unfolding oldest without
  oldest_tail e x [] a h = inl refl
  oldest_tail e x (r ∷ l) a h = elim (Option-cases (oldest (r ∷ l))) [
    | inl none' ↦ absurd (oldest_some r l none')
    | inr (y, last) ↦
        let same : y ≡ x = ground (arith, last, h) in
        let found = oldest-element (r ∷ l) x a.1 (last ∙ ap some same) in
        elim (String-cases e.key x.key) [
          | inl key ↦ absurd (ground (arith, ap (λ k. element_of k (r ∷ l)) key, found, a.0))
          | inr ne ↦ inr (ground (arith, eq_iff e.key x.key))
        ]
  ]

module _ {R B : Type 0} (json : Json R B) where
  -- What the loop leaves.
  pub record Trims (c d : AnalysisResultCache B) : Type 0 where
    pub limits : SameLimits c d
    pub sound : IsSound json d
    pub fits : is_over d ≡ false

  IsSound-IsApart : (c : AnalysisResultCache B) → IsSound json c → IsApart c.order
  unfolding IsSound
  IsSound-IsApart c v = Distinct-IsApart json c.order v.distinct

  IsSound-bytes : (c : AnalysisResultCache B) → IsSound json c → c.bytes ≡ pos (heft json c.order)
  unfolding IsSound
  IsSound-bytes c v = v.weighed

  empty_fits :
      (c : AnalysisResultCache B)
      → IsSound json c
      → is_off c ≡ false
      → c.order ≡ []
      → is_over c ≡ false
  empty_fits c v on e = ground (arith, IsSound-bytes c v, e)

  length-zero : (l : List (AnalysisCacheEntry B)) → length l ≤ 0 → l ≡ []
  length-zero [] h = refl
  length-zero (x ∷ l) h = absurd (omega arith)

  oldest-none : (l : List (AnalysisCacheEntry B)) → oldest l ≡ none → l ≡ []
  oldest-none [] h = refl
  oldest-none (x ∷ l) h = absurd (oldest_some x l h)

  unchanged-Trims : (c : AnalysisResultCache B) → IsSound json c → is_over c ≡ false → Trims c c
  unchanged-Trims c v fits = record {
    limits = record { max_entries = refl; max_bytes = refl; ttl = refl };
    sound = v;
    fits = fits;
  }

  pub remove_locked-limits :
      (x : AnalysisCacheEntry B) (c : AnalysisResultCache B) → SameLimits c (remove_locked json x c)
  unfolding remove_locked
  remove_locked-limits x c = record { max_entries = refl; max_bytes = refl; ttl = refl }

  pub SameLimits-trans :
      (c d e : AnalysisResultCache B) → SameLimits c d → SameLimits d e → SameLimits c e
  SameLimits-trans c d e s t = record {
    max_entries = t.max_entries ∙ s.max_entries;
    max_bytes = t.max_bytes ∙ s.max_bytes;
    ttl = t.ttl ∙ s.ttl;
  }

  pub is_off-limits : (c d : AnalysisResultCache B) → SameLimits c d → is_off d ≡ is_off c
  is_off-limits c d s = ground (arith, s.max_entries, s.max_bytes, s.ttl)

  pub trim-Trims :
      (fuel : ℕ) (c : AnalysisResultCache B) (removed : ℕ)
      → IsSound json c
      → is_off c ≡ false
      → length c.order ≤ fuel
      → Trims c (trim json fuel c removed).0
  unfolding trim remove_locked
  trim-Trims zero c removed v on h = unchanged-Trims c v (empty_fits c v on (length-zero c.order h))
  trim-Trims (suc fuel) c removed v on h = elim (Bool-cases (is_over c)) [
    | inr fits ↦ rw (fits, trim) (unchanged-Trims c v fits)
    | inl over ↦ elim (Option-cases (oldest c.order)) [
      | inl none' ↦
          rw (over, none', trim)
            (unchanged-Trims c v (empty_fits c v on (oldest-none c.order none')))
      | inr (x, last) ↦
          let found = oldest-element c.order x (IsSound-IsApart c v) last in
          let same = remove_locked-limits x c in
          let t =
            trim-Trims fuel (remove_locked json x c) (suc removed)
              (remove_locked-IsSound json c x.key x found v)
              (is_off-limits c (remove_locked json x c) same ∙ on)
              (omega (arith, length-without json x.key c.order x found)) in
          rw (over, last, trim)
            (record {
              limits = SameLimits-trans c (remove_locked json x c) _ same t.limits;
              sound = t.sound;
              fits = t.fits;
            })
    ]
  ]

  one_fits :
      (c : AnalysisResultCache B) (e : AnalysisCacheEntry B)
      → IsSound json c
      → is_off c ≡ false
      → c.order ≡ e ∷ []
      → weight json e ≤ pos_part c.max_bytes
      → is_over c ≡ false
  one_fits c e v on h light = ground (arith, IsSound-bytes c v, h, light)

  pub trim_front :
      (fuel : ℕ) (c : AnalysisResultCache B) (removed : ℕ) (e : AnalysisCacheEntry B)
      (l : List (AnalysisCacheEntry B))
      → IsSound json c
      → is_off c ≡ false
      → c.order ≡ e ∷ l
      → weight json e ≤ pos_part c.max_bytes
      → (l' : List (AnalysisCacheEntry B)) × ((trim json fuel c removed).0.order ≡ e ∷ l')
  unfolding trim remove_locked
  trim_front zero c removed e l v on h light = (l, h)
  trim_front (suc fuel) c removed e l v on h light = elim (Bool-cases (is_over c)) [
    | inr fits ↦ rw (fits, trim) (l, h)
    | inl over ↦ elim (Option-cases (oldest c.order)) [
      | inl none' ↦ rw (over, none', trim) (l, h)
      | inr (x, last) ↦
          let found = oldest-element c.order x (IsSound-IsApart c v) last in
          elim (oldest_tail e x l (subst IsApart h (IsSound-IsApart c v))
            (ap oldest (sym h) ∙ last)) [
              | inl alone ↦
                  absurd (ground (arith, over, one_fits c e v on (h ∙ ap (◌∷◌ e) alone) light))
              | inr stays ↦
                  rw (over, last, trim)
                    (trim_front fuel (remove_locked json x c) (suc removed) e (without x.key l)
                      (remove_locked-IsSound json c x.key x found v)
                      (is_off-limits c (remove_locked json x c) (remove_locked-limits x c) ∙ on)
                      (ap (without x.key) h ∙ stays) light)
            ]
    ]
  ]
