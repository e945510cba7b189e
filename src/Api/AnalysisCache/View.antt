-- ===== src/Api/AnalysisCache/View.antt =====
-- The list and the map of analysis_cache.go as those of a cache of internal/parser/cache.go, whose lemmas
-- then serve here: an entry has the weight that the byte counter counts it with.
use merm.Prelude.{
  ℕ, ◌+◌, ◌≡◌, refl, subst, String, false, Option, none, some, List, [], ◌∷◌, map, arith, str_eq,
  eq_iff, length,
}
use merm.Parser.Cache.{Cache, Entry, find, remove, remove_element}
use merm.Parser.Cache.Entries.{total, find-remove_self}
use merm.Parser.Cache.Invariant.{IsLinked, remove_element-IsLinked}
use merm.Api.AnalysisCache.{
  Json, AnalysisCacheEntry, AnalysisResultCache, element_of, without, cached, weight, remove_locked,
}

module _ {R B : Type 0} (json : Json R B) where
  abbrev pub as_entry : AnalysisCacheEntry B → Entry B
  as_entry e = record {
    key = e.key;
    value = e.value;
    expires_at = e.expires_at;
    generation = 0;
    weight = weight json e;
  }

  abbrev pub as_cache : AnalysisResultCache B → Cache B
  as_cache c = record {
    ttl = c.ttl;
    max_size = c.max_entries;
    max_bytes = c.max_bytes;
    bytes = c.bytes;
    entries = c.entries;
    order = map as_entry c.order;
    expiry = [];
  }

  abbrev as_found : Option (AnalysisCacheEntry B) → Option (Entry B)
  as_found none = none
  as_found (some e) = some (as_entry e)

  pub find-element_of :
      (k : String) (l : List (AnalysisCacheEntry B))
      → find k (map as_entry l) ≡ as_found (element_of k l)
  unfolding find element_of
  find-element_of k [] = refl
  find-element_of k (e ∷ l) = ground (arith, find-element_of k l)

  pub remove-without :
      (k : String) (l : List (AnalysisCacheEntry B))
      → remove k (map as_entry l) ≡ map as_entry (without k l)
  unfolding remove without
  remove-without k [] = refl
  remove-without k (e ∷ l) = ground (arith, remove-without k l)

  pub length-as_entry : (l : List (AnalysisCacheEntry B)) → length (map as_entry l) ≡ length l
  length-as_entry [] = refl
  length-as_entry (e ∷ l) = omega (arith, length-as_entry l)

  -- the map and the list agree, no key is held twice, and the byte counter is the sum of the weights
  unfoldable pub IsSound : AnalysisResultCache B → Type 0
  IsSound c = IsLinked (as_cache c)

  pub element-key :
      (k : String) (l : List (AnalysisCacheEntry B)) (e : AnalysisCacheEntry B)
      → element_of k l ≡ some e
      → e.key ≡ k
  unfolding element_of
  element-key k [] e h = absurd (ground arith)
  element-key k (x ∷ l) e h = ground (arith, element-key k l e, eq_iff x.key k)

  pub remove_locked-IsSound :
      (c : AnalysisResultCache B) (k : String) (e : AnalysisCacheEntry B)
      → element_of k c.order ≡ some e
      → IsSound c
      → IsSound (remove_locked json e c)
  unfolding IsSound remove_locked remove_element
  remove_locked-IsSound c k e h v =
      let found : find k (map as_entry c.order) ≡ some (as_entry e) =
        ground (arith, find-element_of k c.order, h) in
      subst (λ l. IsLinked (record (as_cache (remove_locked json e c)) { order = l }))
        (remove-without e.key c.order) (remove_element-IsLinked (as_cache c) k (as_entry e) found v)

  pub cached-element_of :
      (c : AnalysisResultCache B) (k : String) → IsSound c → cached c k ≡ element_of k c.order
  unfolding cached IsSound
  cached-element_of c k v = ground (arith, v.linked k, find-element_of k c.order)

  pub element-without_ne :
      (j k : String) (l : List (AnalysisCacheEntry B))
      → str_eq k j ≡ false
      → element_of j (without k l) ≡ element_of j l
  unfolding element_of without
  element-without_ne j k [] h = refl
  element-without_ne j k (x ∷ l) h =
      ground (arith, element-without_ne j k l h, eq_iff x.key k, eq_iff x.key j, eq_iff k j)

  pub element-without_self :
      (c : AnalysisResultCache B) (k : String) → IsSound c → element_of k (without k c.order) ≡ none
  unfolding IsSound
  element-without_self c k v = ground (
    arith,
    find-element_of k (without k c.order),
    remove-without k c.order,
    find-remove_self k (map as_entry c.order) v.distinct,
  )

  pub length-without :
      (k : String) (l : List (AnalysisCacheEntry B)) (e : AnalysisCacheEntry B)
      → element_of k l ≡ some e
      → length (without k l) + 1 ≡ length l
  unfolding element_of without
  length-without k [] e h = absurd (ground arith)
  length-without k (x ∷ l) e h = ground (arith, length-without k l e)

  -- the weight of all entries
  abbrev pub heft : List (AnalysisCacheEntry B) → ℕ
  heft l = total (map as_entry l)

  pub heft-without :
      (k : String) (l : List (AnalysisCacheEntry B)) (e : AnalysisCacheEntry B)
      → element_of k l ≡ some e
      → heft (without k l) + weight json e ≡ heft l
  unfolding element_of without
  heft-without k [] e h = absurd (ground arith)
  heft-without k (x ∷ l) e h = ground (arith, heft-without k l e)
