-- ===== src/Api/AnalysisCache/Sets.antt =====
-- `Set` of analysis_cache.go: it keeps both limits, and the new entry is at the front.
use merm.Prelude.{
  ℕ, ◌≡◌, ◌≤◌, refl, inl, inr, ◌∙◌, String, false, none, List, ◌∷◌, arith, Option-cases, eq_iff,
  length, contains, pos, pos_part, ltb_ℤ, pos-add,
}
use merm.Parser.Cache.{find}
use merm.Api.AnalysisCache.{
  Json, AnalysisCacheEntry, AnalysisResultCache, element_of, cached, weight, is_off, remove_locked,
  drop_key, push_front, set_pruned,
}
use merm.Api.AnalysisCache.View.{
  IsSound, find-element_of, element-key, cached-element_of, remove_locked-IsSound,
  element-without_self, heft,
}
use merm.Api.AnalysisCache.Prune.{SameLimits}
use merm.Api.AnalysisCache.Trim.{Trims, trim-Trims, trim_front, remove_locked-limits, is_off-limits}
use merm.Api.AnalysisCache.Valid.{IsValid}

module _ {R B : Type 0} (json : Json R B) where
  drop_key-limits : (key : String) (c : AnalysisResultCache B) → SameLimits c (drop_key json key c)
  unfolding drop_key
  drop_key-limits key c = elim (Option-cases (cached c key)) [
    | inl absent ↦
        rw (absent, drop_key) (record { max_entries = refl; max_bytes = refl; ttl = refl })
    | inr (old, found) ↦ rw (found, drop_key) (remove_locked-limits json old c)
  ]

  drop_key-IsSound :
      (key : String) (c : AnalysisResultCache B)
      → IsSound json c
      → IsSound json (drop_key json key c) × (element_of key (drop_key json key c).order ≡ none)
  unfolding drop_key remove_locked
  drop_key-IsSound key c v = elim (Option-cases (element_of key c.order)) [
    | inl absent ↦ rw (cached-element_of json c key v, absent, drop_key) (v, absent)
    | inr (old, found) ↦
        rw (cached-element_of json c key v, found, drop_key)
          (
            remove_locked-IsSound json c key old found v,
            rw (element-key json key c.order old found) (element-without_self json c key v),
          )
  ]

  push_front-IsSound :
      (c : AnalysisResultCache B) (e : AnalysisCacheEntry B)
      → IsSound json c
      → element_of e.key c.order ≡ none
      → IsSound json (push_front json e c)
  unfolding push_front IsSound contains find
  push_front-IsSound c e v absent = record {
    linked = λ k. ground (arith, v.linked k, eq_iff e.key k);
    distinct = (ground (arith, find-element_of json e.key c.order, absent), v.distinct);
    weighed = ground (arith, v.weighed, pos-add (heft json c.order) (weight json e));
  }

  -- What `Set` of an entry leaves.
  pub record Stores (e : AnalysisCacheEntry B) (d : AnalysisResultCache B) : Type 0 where
    pub valid : IsValid json d
    pub front : (l : List (AnalysisCacheEntry B)) × (d.order ≡ e ∷ l)

  Trims-IsValid : (c d : AnalysisResultCache B) → is_off c ≡ false → Trims json c d → IsValid json d
  unfolding IsSound
  Trims-IsValid c d on t = record {
    sound = t.sound;
    sized = ground (arith, t.fits, t.limits.max_entries, on);
    weighed = ground (arith, t.fits, t.sound.weighed, t.limits.max_bytes, on);
  }

  pub set_pruned-Stores :
      (e : AnalysisCacheEntry B) (c : AnalysisResultCache B) (removed : ℕ)
      → IsSound json c
      → is_off c ≡ false
      → ltb_ℤ c.max_bytes (pos (weight json e)) ≡ false
      → Stores e (set_pruned json e c removed).0
  unfolding set_pruned push_front
  set_pruned-Stores e c removed v on light =
      let (sound, absent) = drop_key-IsSound e.key c v in
      let same = drop_key-limits e.key c in
      let d = push_front json e (drop_key json e.key c) in
      let pushed = push_front-IsSound (drop_key json e.key c) e sound absent in
      let on' : is_off d ≡ false = is_off-limits json c (drop_key json e.key c) same ∙ on in
      let fits : weight json e ≤ pos_part d.max_bytes = ground (arith, light, same.max_bytes, on) in
      record {
        valid =
            Trims-IsValid d _ on'
              (trim-Trims json (length d.order) d removed pushed on' (omega arith));
        front =
            trim_front json (length d.order) d removed e (drop_key json e.key c).order pushed on'
              refl fits;
      }
