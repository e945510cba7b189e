-- ===== src/Api/RateLimit/Tests.antt =====
-- The theorems on the rate limiter of middleware.go at concrete inputs.
use merm.Prelude.{ℕ, ◌≤◌, inr, refl, String, List, [], ◌∷◌, arith, length, pos}
use merm.Api.RateLimit.{RateLimiter, new_rate_limiter, check}
use merm.Api.RateLimit.Log.{within}
use merm.Api.RateLimit.Fair.{serve, IsTimed, serve-new_rate_limiter}
use merm.Api.RateLimit.Quota.{Spends, check-remaining}

abbrev order : List String → List String
order ids = ids

-- three requests of one client, with one of another in between
abbrev calls : List (ℕ × String)
calls = (5, "a") ∷ (6, "b") ∷ (7, "a") ∷ (8, "a") ∷ []

calls-IsTimed : IsTimed 0 calls
unfolding IsTimed
calls-IsTimed = (omega arith, (omega arith, (omega arith, (omega arith, tt))))

serve-new_rate_limiter_example :
    (length (serve order "a" calls (new_rate_limiter (pos 2) (pos 60)) []).0.clients ≤ 10000)
    × (within 5 60 (serve order "a" calls (new_rate_limiter (pos 2) (pos 60)) []).1 ≤ 4)
serve-new_rate_limiter_example = serve-new_rate_limiter order "a" calls 1 59 5 calls-IsTimed

abbrev limiter : RateLimiter
limiter = record {
  window = pos 60;
  limit = pos 2;
  clients = ("a", record { window_start = 5; count = 1 }) ∷ [];
  max_clients = 10000;
  cleanup_batch_size = 128;
}

check-remaining_example : Spends 6 "b" limiter (check order 6 "b" limiter)
check-remaining_example = check-remaining order 6 "b" limiter refl (inr refl)
