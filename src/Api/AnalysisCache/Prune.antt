-- ===== src/Api/AnalysisCache/Prune.antt =====
-- `pruneLocked` of analysis_cache.go: it removes the expired entries and no other.
use merm.Prelude.{
  ℕ, ◌≡◌, ◌≤◌, refl, inl, inr, String, true, false, Option, none, some, List, [], ◌∷◌, arith,
  Bool-cases, Option-cases, String-cases, if◌then◌else◌, str_eq, eq_iff, ltb, length, map, ap, ◌∙◌,
  subst,
}
use merm.Parser.Cache.Entries.{Distinct}
use merm.Api.AnalysisCache.{
  Json, AnalysisCacheEntry, AnalysisResultCache, element_of, without, remove_locked, prune_loop,
  prune_locked,
}
use merm.Api.AnalysisCache.View.{
  as_entry, IsSound, find-element_of, remove_locked-IsSound, element-without_ne,
  element-without_self, length-without, heft, heft-without,
}

-- The limits of a cache, which no operation changes.
pub record SameLimits {B : Type 0} (c d : AnalysisResultCache B) : Type 0 where
  pub max_entries : d.max_entries ≡ c.max_entries
  pub max_bytes : d.max_bytes ≡ c.max_bytes
  pub ttl : d.ttl ≡ c.ttl

-- what is left of an entry
abbrev pub unexpired :
    {B : Type 0} → ℕ → Option (AnalysisCacheEntry B) → Option (AnalysisCacheEntry B)
unexpired now none = none
unexpired now (some e) = if ltb now e.expires_at then some e else none

-- no two entries hold one key
abbrev pub IsApart : {B : Type 0} → List (AnalysisCacheEntry B) → Type 0
IsApart [] = Unit
IsApart (e ∷ l) = (element_of e.key l ≡ none) × IsApart l

module _ {R B : Type 0} (json : Json R B) where
  -- What the loop over a part `l` of the list of `c` leaves.
  pub record Prunes (now : ℕ) (l : List (AnalysisCacheEntry B)) (c d : AnalysisResultCache B)
      : Type 0 where
    pub limits : SameLimits c d
    pub sound : IsSound json d
    pub shorter : length d.order ≤ length c.order
    pub lighter : heft json d.order ≤ heft json c.order
    pub others : (k : String) → element_of k l ≡ none → element_of k d.order ≡ element_of k c.order
    pub entries :
        (k : String) (e : AnalysisCacheEntry B)
        → element_of k l ≡ some e
        → element_of k d.order ≡ (if ltb now e.expires_at then some e else none)

  -- each entry of `l` is the one that the list of `c` has under its key
  abbrev IsPart : List (AnalysisCacheEntry B) → AnalysisResultCache B → Type 0
  IsPart l c =
      (k : String) (e : AnalysisCacheEntry B)
      → element_of k l ≡ some e
      → element_of k c.order ≡ some e

  pub Distinct-IsApart :
      (l : List (AnalysisCacheEntry B)) → Distinct (map (as_entry json) l) → IsApart l
  Distinct-IsApart [] d = tt
  Distinct-IsApart (e ∷ l) d =
      (ground (arith, find-element_of json e.key l, d.0), Distinct-IsApart l d.1)

  tail-IsPart :
      (e : AnalysisCacheEntry B) (l : List (AnalysisCacheEntry B)) (c : AnalysisResultCache B)
      → element_of e.key l ≡ none
      → IsPart (e ∷ l) c
      → IsPart l c
  unfolding element_of
  tail-IsPart e l c alone p k x h = elim (String-cases e.key k) [
    | inl same ↦ absurd (ground (arith, ap (λ j. element_of j l) same, alone))
    | inr ne ↦ p k x (ground (arith, eq_iff e.key k))
  ]

  head_found :
      (e : AnalysisCacheEntry B) (l : List (AnalysisCacheEntry B)) (c d : AnalysisResultCache B)
      (now : ℕ)
      → element_of e.key l ≡ none
      → IsPart (e ∷ l) c
      → Prunes now l c d
      → element_of e.key d.order ≡ some e
  unfolding element_of
  head_found e l c d now alone p r =
      r.others e.key alone ∙ p e.key e (ground (arith, eq_iff e.key e.key))

  -- the round on a live entry
  live-Prunes :
      (now : ℕ) (e : AnalysisCacheEntry B) (l : List (AnalysisCacheEntry B))
      (c d : AnalysisResultCache B)
      → element_of e.key l ≡ none
      → IsPart (e ∷ l) c
      → ltb now e.expires_at ≡ true
      → Prunes now l c d
      → Prunes now (e ∷ l) c d
  unfolding element_of
  live-Prunes now e l c d alone p live r = record {
    limits = r.limits;
    sound = r.sound;
    shorter = r.shorter;
    lighter = r.lighter;
    others = λ k h. r.others k (ground (arith, h));
    entries = λ k x h. elim (String-cases e.key k) [
      | inl same ↦
          let at : element_of k d.order ≡ some e =
            subst (λ j. element_of j d.order ≡ some e) same (head_found e l c d now alone p r) in
          ground (arith, at, h, live, eq_iff e.key k)
      | inr ne ↦ r.entries k x (ground (arith, h, eq_iff e.key k))
    ];
  }

  -- the round on an expired entry
  expired-Prunes :
      (now : ℕ) (e : AnalysisCacheEntry B) (l : List (AnalysisCacheEntry B))
      (c d : AnalysisResultCache B)
      → element_of e.key l ≡ none
      → IsPart (e ∷ l) c
      → ltb now e.expires_at ≡ false
      → Prunes now l c d
      → Prunes now (e ∷ l) c (remove_locked json e d)
  unfolding element_of remove_locked
  expired-Prunes now e l c d alone p old r =
      let at = head_found e l c d now alone p r in
      record {
        limits = record {
          max_entries = r.limits.max_entries;
          max_bytes = r.limits.max_bytes;
          ttl = r.limits.ttl;
        };
        sound = remove_locked-IsSound json d e.key e at r.sound;
        shorter = omega (arith, r.shorter, length-without json e.key d.order e at);
        lighter = omega (arith, r.lighter, heft-without json e.key d.order e at);
        others = λ k h.
            let ne : str_eq e.key k ≡ false = ground (arith, h) in
            element-without_ne json k e.key d.order ne ∙ r.others k (ground (arith, h));
        entries = λ k x h. elim (String-cases e.key k) [
          | inl same ↦
              let gone : element_of k (without e.key d.order) ≡ none =
                subst (λ j. element_of j (without e.key d.order) ≡ none) same
                  (element-without_self json d e.key r.sound) in
              ground (arith, gone, h, old, eq_iff e.key k)
          | inr ne ↦
              let away : str_eq e.key k ≡ false = ground (arith, eq_iff e.key k) in
              element-without_ne json k e.key d.order away ∙ r.entries k x (ground (arith, h, away))
        ];
      }

  prune_loop-Prunes :
      (now : ℕ) (l : List (AnalysisCacheEntry B)) (c : AnalysisResultCache B)
      → IsSound json c
      → IsApart l
      → IsPart l c
      → Prunes now l c (prune_loop json now l c).0
  unfolding prune_loop element_of
  prune_loop-Prunes now [] c v apart p = record {
    limits = record { max_entries = refl; max_bytes = refl; ttl = refl };
    sound = v;
    shorter = omega arith;
    lighter = omega arith;
    others = λ k h. refl;
    entries = λ k e h. absurd (ground arith);
  }
  prune_loop-Prunes now (e ∷ l) c v apart p =
      let r = prune_loop-Prunes now l c v apart.1 (tail-IsPart e l c apart.0 p) in
      elim (Bool-cases (ltb now e.expires_at)) [
        | inl live ↦ rw (live, prune_loop) (live-Prunes now e l c _ apart.0 p live r)
        | inr old ↦ rw (old, prune_loop) (expired-Prunes now e l c _ apart.0 p old r)
      ]

  pub prune_locked-Prunes :
      (now : ℕ) (c : AnalysisResultCache B)
      → IsSound json c
      → Prunes now c.order c (prune_locked json now c).0
  unfolding prune_locked IsSound
  prune_locked-Prunes now c v =
      prune_loop-Prunes now c.order c v (Distinct-IsApart c.order v.distinct) (λ k e h. h)

  pub element-prune_locked :
      (now : ℕ) (c : AnalysisResultCache B) (k : String)
      → IsSound json c
      → element_of k (prune_locked json now c).0.order ≡ unexpired now (element_of k c.order)
  element-prune_locked now c k v =
      let r = prune_locked-Prunes now c v in
      elim (Option-cases (element_of k c.order)) [
        | inl absent ↦ ground (arith, absent, r.others k)
        | inr (e, found) ↦ rw found (r.entries k e found)
      ]
