-- ===== src/Api/RateLimit/Quota.antt =====
-- `Check` against `Remaining` of the rate limiter of middleware.go.
use merm.Prelude.{
  ℕ, ◌-◌, ◌≡◌, ◌⊎◌, inl, inr, String, true, false, List, arith, Bool-cases, Option-cases,
  str_eq_refl, lookup, is_some, ltb, pos_part,
}
use merm.Api.RateLimit.{
  RateLimiter, Decision, current, is_disabled, is_full, admit, check, remaining,
}

-- What a decision says of the quota before and behind it.
pub record Spends (now : ℕ) (id : String) (rl : RateLimiter) (r : RateLimiter × Decision)
    : Type 0 where
  pub allowed : r.1.allowed ≡ ltb 0 (pos_part (remaining now id rl))
  pub spent : pos_part r.1.remaining ≡ pos_part (remaining now id rl) - 1
  pub agrees : remaining now id r.0 ≡ r.1.remaining

admit-Spends :
    (now : ℕ) (id : String) (rl : RateLimiter)
    → is_disabled rl ≡ false
    → Spends now id rl (admit now id (lookup id rl.clients) rl)
unfolding admit current remaining lookup
admit-Spends now id rl on = elim (Option-cases (lookup id rl.clients)) [
  | inl absent ↦ record {
    allowed = ground (arith, absent, on);
    spent = ground (arith, absent, on);
    agrees = ground (arith, absent, on, str_eq_refl id);
  }
  | inr (e, found) ↦ record {
    allowed = ground (arith, found, on);
    spent = ground (arith, found, on);
    agrees = ground (arith, found, on, str_eq_refl id);
  }
]

-- On an enabled limiter that has an entry of the client or room for one, Check allows a request
-- exactly if Remaining is positive, which it then lowers by one, and reports what Remaining is then.
pub check-remaining :
    (order : List String → List String) (now : ℕ) (id : String) (rl : RateLimiter)
    → is_disabled rl ≡ false
    → (is_some (lookup id rl.clients) ≡ true) ⊎ (is_full rl ≡ false)
    → Spends now id rl (check order now id rl)
unfolding check
check-remaining order now id rl on (inl here) = rw (on, here, check) (admit-Spends now id rl on)
check-remaining order now id rl on (inr free) = elim (Bool-cases (is_some (lookup id rl.clients))) [
  | inl here ↦ rw (on, here, check) (admit-Spends now id rl on)
  | inr absent ↦ rw (on, absent, free, check) (admit-Spends now id rl on)
]
