-- ===== src/Parser/Cache/Heap.antt =====
-- The expiration heap: its order, and what a push keeps.
use merm.Prelude.{ℕ, ◌≤◌, ◌≡◌, refl, ◌⊎◌, inl, List, [], ◌∷◌, arith, All}
use merm.Parser.Cache.{ExpirationRecord, push}

-- a record is in the heap
abbrev pub Held : ExpirationRecord → List ExpirationRecord → Type 0
Held r [] = ⊥
Held r (s ∷ h) = (r ≡ s) ⊎ Held r h

abbrev pub Above : ℕ → List ExpirationRecord → Type 0
Above t = All (λ s. t ≤ s.expires_at)

abbrev pub Sorted : List ExpirationRecord → Type 0
Sorted [] = Unit
Sorted (r ∷ h) = Above r.expires_at h × Sorted h

Above-trans : (t u : ℕ) (h : List ExpirationRecord) → t ≤ u → Above u h → Above t h
Above-trans t u [] le a = tt
Above-trans t u (s ∷ h) le a = (omega arith, Above-trans t u h le a.1)

Above-push :
    (t : ℕ) (r : ExpirationRecord) (h : List ExpirationRecord)
    → t ≤ r.expires_at
    → Above t h
    → Above t (push r h)
unfolding push
Above-push t r [] le a = (le, tt)
Above-push t r (s ∷ h) le a = ground (arith, Above-push t r h le a.1)

pub push-Sorted : (r : ExpirationRecord) (h : List ExpirationRecord) → Sorted h → Sorted (push r h)
unfolding push
push-Sorted r [] s = (tt, tt)
push-Sorted r (x ∷ h) s = ground (
  arith,
  push-Sorted r h s.1,
  Above-push x.expires_at r h,
  Above-trans r.expires_at x.expires_at h,
)

pub Held-push_self : (r : ExpirationRecord) (h : List ExpirationRecord) → Held r (push r h)
unfolding push
Held-push_self r [] = inl refl
Held-push_self r (x ∷ h) = ground (arith, Held-push_self r h)

pub Held-push : (q r : ExpirationRecord) (h : List ExpirationRecord) → Held q h → Held q (push r h)
unfolding push
Held-push q r [] m = absurd m
Held-push q r (x ∷ h) m = ground (arith, Held-push q r h)

pub Held-Above :
    (t : ℕ) (q : ExpirationRecord) (h : List ExpirationRecord)
    → Above t h
    → Held q h
    → t ≤ q.expires_at
Held-Above t q [] a m = absurd m
Held-Above t q (x ∷ h) a m = ground (arith, Held-Above t q h a.1)
