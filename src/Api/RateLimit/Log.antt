-- ===== src/Api/RateLimit/Log.antt =====
-- The times of the requests that the limiter of middleware.go allowed to one client, and what its
-- entry says of them.
use merm.Prelude.{
  ℕ, suc, ◌+◌, ◌-◌, ◌≤◌, ◌<◌, ◌≡◌, ◌⊎◌, inl, inr, true, false, ◌&&◌, Option, none, some, List, [],
  ◌∷◌, arith, Bool-cases, ltb, leb, pos_part,
}
use merm.Api.RateLimit.{ClientWindow, RateLimiter, current}

-- how many are not before a time
unfoldable pub since : ℕ → List ℕ → ℕ
since t [] = 0
since t (h ∷ log) = let rest = since t log in elim (leb t h) [ true ↦ suc rest | false ↦ rest ]

-- how many are in the span of length `w` that begins at a time
unfoldable pub within : ℕ → ℕ → List ℕ → ℕ
within t w [] = 0
within t w (h ∷ log) =
    let rest = within t w log in elim (leb t h && ltb h (t + w)) [ true ↦ suc rest | false ↦ rest ]

pub since_mono : (t u : ℕ) (log : List ℕ) → t ≤ u → since u log ≤ since t log
unfolding since
since_mono t u [] le = omega arith
since_mono t u (h ∷ log) le = ground (arith, since_mono t u log le)

pub within-since : (t w : ℕ) (log : List ℕ) → within t w log ≤ since t log
unfolding since within
within-since t w [] = omega arith
within-since t w (h ∷ log) = ground (arith, within-since t w log)

-- What the entry of a client says of its log, for a window `w`, a limit `q` and the time `clock`.
pub record IsEntry (w q clock : ℕ) (log : List ℕ) (e : ClientWindow) : Type 0 where
  pub started : e.window_start ≤ clock
  pub limited : e.count ≤ q
  pub counted : since e.window_start log ≤ e.count
  pub before : (t : ℕ) → (t + w ≤ e.window_start) ⊎ (since t log ≤ e.count + q)
  pub ended : since (e.window_start + w) log ≡ 0

-- The same for a client that may have none.
abbrev pub IsView : ℕ → ℕ → ℕ → List ℕ → Option ClientWindow → Type 0
IsView w q clock log none = (t : ℕ) → (t + w ≤ clock) ⊎ (since t log ≡ 0)
IsView w q clock log (some e) = IsEntry w q clock log e

module _ (w q clock now : ℕ) (log : List ℕ) (later : clock ≤ now) where
  -- a client that is not heard of
  pub IsView-later :
      (entry : Option ClientWindow) → IsView w q clock log entry → IsView w q now log entry
  IsView-later none v = λ t. ground (arith, v t)
  IsView-later (some e) v = record {
    started = omega (arith, v.started);
    limited = v.limited;
    counted = v.counted;
    before = v.before;
    ended = v.ended;
  }

  -- an entry that is deleted
  pub IsView-deleted :
      (e : ClientWindow)
      → IsEntry w q clock log e
      → e.window_start + w + w < now
      → IsView w q now log none
  IsView-deleted e v old t = ground (arith, v.ended, since_mono (e.window_start + w) t log)

  -- an entry whose window is over
  renewed-IsEntry :
      (e : ClientWindow)
      → e.window_start + w ≤ now
      → IsEntry w q clock log e
      → 0 < w
      → IsEntry w q now log (record { window_start = now; count = 0 }) × (now < now + w)
  renewed-IsEntry e over v p = (
    record {
      started = omega arith;
      limited = omega arith;
      counted = ground (arith, v.ended, since_mono (e.window_start + w) now log over);
      before = λ t. ground (arith, v.counted, v.limited, since_mono e.window_start t log);
      ended = ground (arith, v.ended, since_mono (e.window_start + w) (now + w) log);
    },
    omega arith,
  )

  -- the entry in the window of a request
  pub current-IsEntry :
      (rl : RateLimiter) (entry : Option ClientWindow)
      → pos_part rl.window ≡ w
      → 0 < w
      → IsView w q clock log entry
      → IsEntry w q now log (current now rl entry) × (now < (current now rl entry).window_start + w)
  unfolding current
  current-IsEntry rl none a p v = (
    record {
      started = omega arith;
      limited = omega arith;
      counted = ground (arith, v now);
      before = λ t. ground (arith, v t);
      ended = ground (arith, v (now + w));
    },
    omega arith,
  )
  current-IsEntry rl (some e) a p v =
      elim (Bool-cases (leb (pos_part rl.window) (now - e.window_start))) [
        | inl over ↦ rw over (renewed-IsEntry e (ground (arith, over, p)) v p)
        | inr running ↦ rw running (IsView-later (some e) v, ground (arith, running, v.started))
      ]

-- a request that is allowed
pub IsEntry-allowed :
    (w q now : ℕ) (log : List ℕ) (e : ClientWindow)
    → IsEntry w q now log e
    → now < e.window_start + w
    → e.count < q
    → IsEntry w q now (now ∷ log) (record e { count = suc e.count })
unfolding since
IsEntry-allowed w q now log e v in_time free = record {
  started = v.started;
  limited = free;
  counted = ground (arith, v.counted, v.started);
  before = λ t. ground (arith, v.before t);
  ended = ground (arith, v.ended);
}

-- the spans stay within twice the limit
pub within_allowed :
    (w q now : ℕ) (log : List ℕ) (e : ClientWindow) (t : ℕ)
    → IsEntry w q now log e
    → e.count < q
    → within t w log ≤ q + q
    → within t w (now ∷ log) ≤ q + q
unfolding within
within_allowed w q now log e t v free h =
    ground (arith, v.before t, v.started, within-since t w log)
