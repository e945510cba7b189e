-- ===== src/Api/AnalysisCache/Runs.antt =====
-- Any sequence of calls on the cache of analysis_cache.go, and a `Get` behind a `Set`.
use merm.Prelude.{
  ℕ, ◌+◌, ◌≡◌, refl, inl, inr, ◌∙◌, String, false, none, some, List, [], ◌∷◌, arith, Bool-cases,
  Option-cases, eq_iff, contains, if◌then◌else◌, ℤ, pos, pos_part, ltb, ltb_ℤ,
}
use merm.Parser.Cache.{find}
use merm.Api.AnalysisCache.{
  Json, AnalysisCacheEntry, AnalysisResultCache, new_analysis_result_cache, element_of, cached,
  weight, is_off, prune_locked, get_pruned, get, set,
}
use merm.Api.AnalysisCache.View.{IsSound, cached-element_of}
use merm.Api.AnalysisCache.Prune.{prune_locked-Prunes}
use merm.Api.AnalysisCache.Trim.{is_off-limits}
use merm.Api.AnalysisCache.Valid.{IsValid, get-IsValid}
use merm.Api.AnalysisCache.Sets.{Stores, set_pruned-Stores}

pub data Call (R : Type 0) : Type 0 where
  gets : ℕ → String → Call R
  sets : ℕ → ℕ → String → R → Call R

module _ {R B : Type 0} (json : Json R B) where
  -- the entry that `Set` makes
  abbrev entry : String → B → ℕ → AnalysisResultCache B → AnalysisCacheEntry B
  entry key value later c = record { key = key; value = value; expires_at = later + pos_part c.ttl }

  set-Stores :
      (now later : ℕ) (key : String) (result : R) (value : B) (c : AnalysisResultCache B)
      → IsValid json c
      → is_off c ≡ false
      → json.marshal result ≡ some value
      → ltb_ℤ c.max_bytes (pos (weight json (entry key value later c))) ≡ false
      → Stores json (entry key value later c) (set json now later key result c).0
  unfolding set
  set-Stores now later key result value c v on good light =
      let p = prune_locked-Prunes json now c v.sound in
      rw (on, good, light, set)
        (set_pruned-Stores json (entry key value later c) _ _ p.sound
          (is_off-limits json c _ p.limits ∙ on) (ground (arith, p.limits.max_bytes, light)))

  set-IsValid :
      (now later : ℕ) (key : String) (result : R) (c : AnalysisResultCache B)
      → IsValid json c
      → IsValid json (set json now later key result c).0
  unfolding set
  set-IsValid now later key result c v = elim (Bool-cases (is_off c)) [
    | inl off ↦ rw (off, set) v
    | inr on ↦ elim (Option-cases (json.marshal result)) [
      | inl bad ↦ rw (on, bad, set) v
      | inr (value, good) ↦
          elim (Bool-cases (ltb_ℤ c.max_bytes (pos (weight json (entry key value later c))))) [
            | inl heavy ↦ rw (on, good, heavy, set) v
            | inr light ↦ (set-Stores now later key result value c v on good light).valid
          ]
    ]
  ]

  unfoldable pub run : AnalysisResultCache B → List (Call R) → AnalysisResultCache B
  run c [] = c
  run c (gets now key ∷ calls) = run (get json now key c).0 calls
  run c (sets now later key result ∷ calls) = run (set json now later key result c).0 calls

  run-IsValid :
      (calls : List (Call R)) (c : AnalysisResultCache B)
      → IsValid json c
      → IsValid json (run c calls)
  unfolding run
  run-IsValid [] c v = v
  run-IsValid (gets now key ∷ calls) c v = run-IsValid calls _ (get-IsValid json now key c v)
  run-IsValid (sets now later key result ∷ calls) c v =
      run-IsValid calls _ (set-IsValid now later key result c v)

  -- After any calls of Get and Set at any times, whatever the JSON package does, a new cache has its map
  -- and its list in agreement, each key once, the byte counter equal to the sum of the weights, and
  -- keeps both limits.
  pub run-new_analysis_result_cache :
      (max_entries ttl max_bytes : ℤ) (calls : List (Call R))
      → IsValid json (run (new_analysis_result_cache max_entries ttl max_bytes) calls)
  unfolding new_analysis_result_cache IsSound contains find
  run-new_analysis_result_cache max_entries ttl max_bytes calls = run-IsValid calls _ (record {
    sound = record { linked = λ k. refl; distinct = tt; weighed = refl };
    sized = omega arith;
    weighed = omega arith;
  })

  -- On an enabled, valid cache a Get behind a Set of a result that the JSON package prints and reads back,
  -- and that is alone within the byte limit, gives that result until its time to live is over, and
  -- nothing from then on.
  pub get-set :
      (now later then' : ℕ) (key : String) (result : R) (value : B) (c : AnalysisResultCache B)
      → IsValid json c
      → is_off c ≡ false
      → json.marshal result ≡ some value
      → json.unmarshal value ≡ some result
      → ltb_ℤ c.max_bytes (pos (json.key_size key + json.size value)) ≡ false
      → (get json then' key (set json now later key result c).0).1
        ≡ (if ltb then' (later + pos_part c.ttl) then some result else none)
  unfolding get get_pruned element_of
  get-set now later then' key result value c v on good back light =
      let s = set-Stores now later key result value c v on good light in
      let d = (set json now later key result c).0 in
      let e = entry key value later c in
      let front : element_of key d.order ≡ some e =
        rw (s.front.1) (ground (arith, eq_iff key key)) in
      let p = prune_locked-Prunes json then' d s.valid.sound in
      let held = p.entries key e front in
      let here = cached-element_of json (prune_locked json then' d).0 key p.sound in
      elim (Bool-cases (ltb then' (later + pos_part c.ttl))) [
        | inl live ↦
            let found : cached (prune_locked json then' d).0 key ≡ some e =
              here ∙ (held ∙ ground (arith, live)) in
            rw (found, back, live, get_pruned) refl
        | inr over ↦
            let gone : cached (prune_locked json then' d).0 key ≡ none =
              here ∙ (held ∙ ground (arith, over)) in
            rw (gone, over, get_pruned) refl
      ]
