-- ===== src/Parser/Cache/Entries.antt =====
-- The list of a cache's elements, as `find` and `remove` of cache.go see it.
use merm.Prelude.{
  ℕ, ◌+◌, ◌≤◌, ◌<◌, ◌≡◌, refl, ap, ◌≢◌, inl, inr, String, true, false, none, some, List, [], ◌∷◌,
  ◌∙◌, arith, ltb, length, keep, All, if◌then◌else◌, eq_iff, String-cases, str_eq_refl, str_eq_ne,
}
use merm.Parser.Cache.{Entry, find, remove}

module _ {T : Type 0} where
  -- no two elements hold one key
  abbrev pub Distinct : List (Entry T) → Type 0
  Distinct [] = Unit
  Distinct (e ∷ l) = (find e.key l ≡ none) × Distinct l

  -- the weight of all elements
  abbrev pub total : List (Entry T) → ℕ
  total [] = 0
  total (e ∷ l) = e.weight + total l

  -- the elements that have not expired
  unfoldable pub prune : ℕ → List (Entry T) → List (Entry T)
  prune now = keep (λ e. ltb now e.expires_at)

  pub find_head : (e : Entry T) (l : List (Entry T)) → find e.key (e ∷ l) ≡ some e
  unfolding find
  find_head e l = ground (arith, str_eq_refl e.key)

  pub find_tail :
      (k : String) (e : Entry T) (l : List (Entry T)) → e.key ≢ k → find k (e ∷ l) ≡ find k l
  unfolding find
  find_tail k e l h = ground (arith, str_eq_ne e.key k h)

  pub find-key : (k : String) (l : List (Entry T)) {e : Entry T} → find k l ≡ some e → e.key ≡ k
  unfolding find
  find-key k [] h = absurd (ground arith)
  find-key k (x ∷ l) {e} h = ground (arith, find-key k l {e = e}, eq_iff x.key k)

  pub find-remove_ne : (j k : String) (l : List (Entry T)) → j ≢ k → find j (remove k l) ≡ find j l
  unfolding find remove
  find-remove_ne j k [] h = refl
  find-remove_ne j k (x ∷ l) h =
      ground (arith, find-remove_ne j k l h, eq_iff x.key k, eq_iff x.key j)

  pub find-remove_self : (k : String) (l : List (Entry T)) → Distinct l → find k (remove k l) ≡ none
  unfolding find remove
  find-remove_self k [] d = refl
  find-remove_self k (x ∷ l) d = elim (String-cases x.key k) [
    | inl e ↦ ground (arith, eq_iff x.key k)
    | inr n ↦ ground (arith, str_eq_ne x.key k n, find-remove_self k l d.1)
  ]

  pub Distinct-remove : (k : String) (l : List (Entry T)) → Distinct l → Distinct (remove k l)
  unfolding remove
  Distinct-remove k [] d = tt
  Distinct-remove k (x ∷ l) d = elim (String-cases x.key k) [
    | inl e ↦ ground (arith, eq_iff x.key k)
    | inr n ↦
        ground (arith, str_eq_ne x.key k n, Distinct-remove k l d.1, find-remove_ne x.key k l n)
  ]

  pub remove_absent : (k : String) (l : List (Entry T)) → find k l ≡ none → remove k l ≡ l
  unfolding find remove
  remove_absent k [] h = refl
  remove_absent k (x ∷ l) h = ground (arith, remove_absent k l)

  pub total-remove :
      (k : String) (l : List (Entry T)) (e : Entry T)
      → find k l ≡ some e
      → total (remove k l) + e.weight ≡ total l
  unfolding find remove
  total-remove k [] e h = absurd (ground arith)
  total-remove k (x ∷ l) e h = ground (arith, total-remove k l e)

  pub length-remove :
      (k : String) (l : List (Entry T)) (e : Entry T)
      → find k l ≡ some e
      → length (remove k l) + 1 ≡ length l
  unfolding find remove
  length-remove k [] e h = absurd (ground arith)
  length-remove k (x ∷ l) e h = ground (arith, length-remove k l e)

  -- every element that `find` returns satisfies a test on its expiry
  abbrev pub FoundLive : ℕ → List (Entry T) → Type 0
  FoundLive now l = (k : String) (e : Entry T) → find k l ≡ some e → now < e.expires_at

  FoundLive-tail :
      (now : ℕ) (x : Entry T) (l : List (Entry T))
      → Distinct (x ∷ l)
      → FoundLive now (x ∷ l)
      → FoundLive now l
  FoundLive-tail now x l d h k e p = elim (String-cases x.key k) [
    | inl same ↦ absurd (ground (arith, ap (λ j. find j l) same, d.0))
    | inr n ↦ h k e (find_tail k x l n ∙ p)
  ]

  pub prune_live : (now : ℕ) (l : List (Entry T)) → Distinct l → FoundLive now l → prune now l ≡ l
  unfolding prune keep
  prune_live now [] d h = refl
  prune_live now (x ∷ l) d h =
      ground (arith, h x.key x (find_head x l), prune_live now l d.1 (FoundLive-tail now x l d h))

  pub prune-remove :
      (now : ℕ) (k : String) (l : List (Entry T)) (e : Entry T)
      → find k l ≡ some e
      → ltb now e.expires_at ≡ false
      → prune now (remove k l) ≡ prune now l
  unfolding prune keep find remove
  prune-remove now k [] e h x = refl
  prune-remove now k (y ∷ l) e h x = ground (arith, prune-remove now k l e)

  pub find-prune_absent :
      (now : ℕ) (k : String) (l : List (Entry T)) → find k l ≡ none → find k (prune now l) ≡ none
  unfolding prune keep find
  find-prune_absent now k [] h = refl
  find-prune_absent now k (y ∷ l) h = ground (arith, find-prune_absent now k l)

  pub Distinct-prune : (now : ℕ) (l : List (Entry T)) → Distinct l → Distinct (prune now l)
  unfolding prune keep
  Distinct-prune now [] d = tt
  Distinct-prune now (x ∷ l) d =
      ground (arith, Distinct-prune now l d.1, find-prune_absent now x.key l d.0)

  -- what `find` returns is among the elements with that key, if it has not expired
  pub find-prune :
      (now : ℕ) (k : String) (l : List (Entry T)) (e : Entry T)
      → find k l ≡ some e
      → Distinct l
      → find k (prune now l) ≡ (if ltb now e.expires_at then some e else none)
  unfolding prune keep find
  find-prune now k [] e h d = absurd (ground arith)
  find-prune now k (x ∷ l) e h d = elim (String-cases x.key k) [
    | inl same ↦ ground (arith, eq_iff x.key k, ap (λ j. find j l) same, find-prune_absent now k l)
    | inr n ↦ ground (arith, str_eq_ne x.key k n, find-prune now k l e)
  ]

  pub length-prune : (now : ℕ) (l : List (Entry T)) → length (prune now l) ≤ length l
  unfolding prune keep
  length-prune now [] = omega arith
  length-prune now (x ∷ l) = ground (arith, length-prune now l)

  pub total-prune : (now : ℕ) (l : List (Entry T)) → total (prune now l) ≤ total l
  unfolding prune keep
  total-prune now [] = omega arith
  total-prune now (x ∷ l) = ground (arith, total-prune now l)

  pub prune-All : (now : ℕ) (l : List (Entry T)) → All (λ e. now < e.expires_at) (prune now l)
  unfolding prune keep
  prune-All now [] = tt
  prune-All now (x ∷ l) = ground (arith, prune-All now l)

  pub find-prune_alive :
      (now : ℕ) (k : String) (l : List (Entry T)) (e : Entry T)
      → find k (prune now l) ≡ some e
      → ltb now e.expires_at ≡ true
  unfolding prune keep find
  find-prune_alive now k [] e h = absurd (ground arith)
  find-prune_alive now k (x ∷ l) e h = ground (arith, find-prune_alive now k l e)
