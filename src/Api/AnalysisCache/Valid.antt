-- ===== src/Api/AnalysisCache/Valid.antt =====
-- `Get` of analysis_cache.go keeps what holds of the cache.
use merm.Prelude.{
  ℕ, ◌≡◌, ◌≤◌, sym, inl, inr, ap, subst, ◌∙◌, String, none, some, ◌∷◌, arith, Option-cases,
  String-cases, eq_iff, length, map, pos_part,
}
use merm.Parser.Cache.{find}
use merm.Parser.Cache.Entries.{Distinct, Distinct-remove}
use merm.Api.AnalysisCache.{
  Json, AnalysisCacheEntry, AnalysisResultCache, element_of, without, remove_locked, prune_locked,
  get_pruned, get,
}
use merm.Api.AnalysisCache.View.{
  as_entry, IsSound, find-element_of, remove-without, element-key, cached-element_of,
  remove_locked-IsSound, element-without_self, element-without_ne, length-without, heft,
  heft-without,
}
use merm.Api.AnalysisCache.Prune.{prune_locked-Prunes}

module _ {R B : Type 0} (json : Json R B) where
  -- The map and the list agree, no key is held twice, the byte counter is the sum of the weights, and
  -- both limits are kept.
  pub record IsValid (c : AnalysisResultCache B) : Type 0 where
    pub sound : IsSound json c
    pub sized : length c.order ≤ pos_part c.max_entries
    pub weighed : heft json c.order ≤ pos_part c.max_bytes

  -- an entry that moves to the front
  front-IsSound :
      (c : AnalysisResultCache B) (k : String) (e : AnalysisCacheEntry B)
      → IsSound json c
      → element_of k c.order ≡ some e
      → IsSound json (record c { order = e ∷ without k c.order })
  unfolding IsSound find
  front-IsSound c k e v found =
      let key = element-key json k c.order e found in
      let gone : element_of e.key (without k c.order) ≡ none =
        rw key (element-without_self json c k v) in
      record {
        linked = λ j. elim (String-cases e.key j) [
          | inl same ↦ ground (
            arith,
            v.linked j,
            find-element_of json j c.order,
            found,
            eq_iff e.key j,
            ap (λ i. element_of i c.order) (sym key ∙ same),
          )
          | inr ne ↦ ground (
            arith,
            v.linked j,
            find-element_of json j c.order,
            find-element_of json j (without k c.order),
            element-without_ne json j k c.order,
            eq_iff e.key j,
            eq_iff k j,
            key,
          )
        ];
        distinct = (
          ground (arith, find-element_of json e.key (without k c.order), gone),
          subst Distinct (remove-without json k c.order)
              (Distinct-remove k (map (as_entry json) c.order) v.distinct),
        );
        weighed = ground (arith, v.weighed, heft-without json k c.order e found);
      }

  pub prune_locked-IsValid :
      (now : ℕ) (c : AnalysisResultCache B) → IsValid c → IsValid (prune_locked json now c).0
  prune_locked-IsValid now c v =
      let r = prune_locked-Prunes json now c v.sound in
      record {
        sound = r.sound;
        sized = ground (arith, v.sized, r.shorter, r.limits.max_entries);
        weighed = ground (arith, v.weighed, r.lighter, r.limits.max_bytes);
      }

  get_pruned-IsValid :
      (key : String) (c : AnalysisResultCache B) (removed : ℕ)
      → IsValid c
      → IsValid (get_pruned json key c removed).0
  unfolding get_pruned remove_locked element_of without
  get_pruned-IsValid key c removed v = elim (Option-cases (element_of key c.order)) [
    | inl absent ↦ rw (cached-element_of json c key v.sound, absent, get_pruned) v
    | inr (e, found) ↦
        let c' = record c { order = e ∷ without key c.order } in
        let s = front-IsSound c key e v.sound found in
        let shorter = length-without json key c.order e found in
        let lighter = heft-without json key c.order e found in
        let front : element_of e.key c'.order ≡ some e = ground (arith, eq_iff e.key e.key) in
        elim (Option-cases (json.unmarshal e.value)) [
          | inl bad ↦
              rw (cached-element_of json c key v.sound, found, bad, get_pruned)
                (record {
                  sound = remove_locked-IsSound json c' e.key e front s;
                  sized =
                      ground (arith, v.sized, shorter, length-without json e.key c'.order e front);
                  weighed =
                      ground (arith, v.weighed, lighter, heft-without json e.key c'.order e front);
                })
          | inr (result, good) ↦
              rw (cached-element_of json c key v.sound, found, good, get_pruned)
                (record {
                  sound = s;
                  sized = omega (arith, v.sized, shorter);
                  weighed = omega (arith, v.weighed, lighter);
                })
        ]
  ]

  pub get-IsValid :
      (now : ℕ) (key : String) (c : AnalysisResultCache B)
      → IsValid c
      → IsValid (get json now key c).0
  unfolding get
  get-IsValid now key c v = get_pruned-IsValid key _ _ (prune_locked-IsValid now c v)
