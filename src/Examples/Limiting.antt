-- ===== src/Examples/Limiting.antt =====
-- Runs of lib/rate_limiting/limiter.py.
use concept_microservice.Prelude.{◌+◌, ◌*◌, ◌≤◌, pos, some, List, [], ◌∷◌, ◌≡◌, refl, arith}
use concept_microservice.Text.{codes}
use concept_microservice.Limiter.{
  RateLimiter, limit, second, Call, wait_at, delay_at, granted, init, calls_per_minute,
}
use concept_microservice.Limiter.Rate.{within, granted-per_minute}

-- two requests a minute, at one tick for half a second
abbrev two_per_minute : RateLimiter
two_per_minute = record { rpm = pos 2; resolution = 1; next_allowed_ts = 0 }

abbrev calls : List Call
calls =
    wait_at 5 0 1 ∷ wait_at 6 2 0 ∷ delay_at 70 (pos 100) 3 ∷ wait_at 71 0 0 ∷ wait_at 400 0 0 ∷ []

granted_run : granted calls two_per_minute ≡ 5 ∷ 68 ∷ 173 ∷ 400 ∷ []
unfolding granted
granted_run = refl

rate_example :
    within 5 (5 + 60 * second two_per_minute) (granted calls two_per_minute)
    ≤ limit two_per_minute.rpm
rate_example = granted-per_minute two_per_minute calls 5 (omega arith)

-- the environment decides, whatever the caller asks for
init_run : init 1 (some (codes "2")) (some (pos 500)) ≡ some two_per_minute
unfolding init
init_run = refl

-- one call an hour is taken for none a minute, and so for one a minute
hourly_run : limit (pos (calls_per_minute 1 3600)) ≡ 1
unfolding calls_per_minute
hourly_run = refl
