-- ===== src/Limiter.antt =====
-- graph-worker/graphrag-service/src/lib/rate_limiting/limiter.py: RateLimiter and the decorator
-- rate_limit. Times are numbers of ticks, of which `resolution * max(1, rpm)` go to a second, so
-- that the interval is a whole number of them. The readings of the clock, what a sleep takes
-- longer than asked, and the jitter drawn are inputs; the lock makes the calls a sequence.
pub mod Rate
use concept_microservice.Prelude.{
  ℕ, ◌+◌, ◌-◌, ◌*◌, ◌/◌, max, ℤ, pos, negsuc, Option, none, some, List, [], ◌∷◌,
}
use concept_microservice.Text.{Text, to_int}

-- `int(os.getenv(name, str(given or default)))`; none is the ValueError
unfoldable pub setting : Option Text → Option ℤ → ℤ → Option ℤ
setting (some text) given default = to_int text
setting none (some n) default = some n
setting none none default = some default

-- `max(1, rpm)`
abbrev pub limit : ℤ → ℕ
limit (pos n) = max 1 n
limit (negsuc n) = 1

-- `max(0, n)`
abbrev pub positive_part : ℤ → ℕ
positive_part (pos n) = n
positive_part (negsuc n) = 0

pub record RateLimiter : Type 0 where
  pub rpm : ℤ
  pub resolution : ℕ
  pub next_allowed_ts : ℕ

-- `min_interval_seconds`, which is 60 / max(1, rpm) seconds
abbrev pub min_interval : RateLimiter → ℕ
min_interval l = 60 * l.resolution

abbrev pub second : RateLimiter → ℕ
second l = l.resolution * limit l.rpm

abbrev limiter_of : ℕ → Option ℤ → Option RateLimiter
limiter_of resolution none = none
limiter_of resolution (some rpm) =
    some (record { rpm = rpm; resolution = resolution; next_allowed_ts = 0 })

-- `__init__`, with the text of RATE_LIMIT_RPM
unfoldable pub init : ℕ → Option Text → Option ℤ → Option RateLimiter
unfolding setting
init resolution env rpm = limiter_of resolution (setting env rpm (pos 20))

pub data Call : Type 0 where
  wait_at : (now overslept jitter : ℕ) → Call
  delay_at : (now : ℕ) → (ticks : ℤ) → (jitter : ℕ) → Call

-- `wait`: the time at which the request is let through, and the state then
unfoldable pub wait : ℕ → ℕ → ℕ → RateLimiter → ℕ × RateLimiter
wait now overslept jitter l =
    let sleep_for = l.next_allowed_ts - now in
    let woken = now + sleep_for + overslept in
    (woken, record l { next_allowed_ts = woken + min_interval l + jitter })

-- `delay`
unfoldable pub delay : ℕ → ℤ → ℕ → RateLimiter → RateLimiter
delay now ticks jitter l = record l {
  next_allowed_ts = max l.next_allowed_ts (now + positive_part ticks + jitter);
}

-- the times at which the calls of `wait` let a request through
unfoldable pub granted : List Call → RateLimiter → List ℕ
unfolding wait delay
granted [] l = []
granted (wait_at now overslept jitter ∷ calls) l =
    let (woken, l') = wait now overslept jitter l in woken ∷ granted calls l'
granted (delay_at now ticks jitter ∷ calls) l = granted calls (delay now ticks jitter l)

-- `int((max_calls / period) * 60)` for a period of whole seconds
unfoldable pub calls_per_minute : ℕ → ℕ → ℕ
calls_per_minute max_calls period = max_calls * 60 / period
