-- ===== src/Limiter/Rate.antt =====
-- How many requests are let through in a minute.
use native.Mathlib.Nat.{lt_of_mul-lt-mul_right}
use concept_microservice.Prelude.{
  ℕ, suc, ◌+◌, ◌-◌, ◌*◌, ◌≤◌, ◌<◌, max, List, [], ◌∷◌, arith, ltb, leb, ◌&&◌, if◌then◌else◌,
  Bool-cases, inl, inr,
}
use concept_microservice.Limiter.{
  RateLimiter, limit, min_interval, second, Call, wait_at, delay_at, wait, delay, granted,
}

-- the first is not before `earliest`, and each other at least `gap` after the one before
abbrev pub Spaced : ℕ → ℕ → List ℕ → Type 0
Spaced gap earliest [] = Unit
Spaced gap earliest (t ∷ ts) = (earliest ≤ t) × Spaced gap (t + gap) ts

-- how many lie from `start` on and before `end`
abbrev pub within : ℕ → ℕ → List ℕ → ℕ
within start end [] = 0
within start end (t ∷ ts) =
    let n = within start end ts in if leb start t && ltb t end then suc n else n

Spaced-sooner :
    (gap earliest later : ℕ) (ts : List ℕ)
    → earliest ≤ later
    → Spaced gap later ts
    → Spaced gap earliest ts
Spaced-sooner gap earliest later [] h s = tt
Spaced-sooner gap earliest later (t ∷ ts) h s = (omega (arith, h, s.0), s.1)

Spaced-granted :
    (calls : List Call) (l : RateLimiter)
    → Spaced (min_interval l) l.next_allowed_ts (granted calls l)
unfolding granted
Spaced-granted [] l = tt
Spaced-granted (wait_at now overslept jitter ∷ calls) l = (
  omega arith,
  Spaced-sooner (min_interval l) _ _ _ (omega arith)
      (Spaced-granted calls (wait now overslept jitter l).1),
)
Spaced-granted (delay_at now ticks jitter ∷ calls) l =
    Spaced-sooner (min_interval l) _ _ _ (omega arith)
      (Spaced-granted calls (delay now ticks jitter l))

both :
    (gap earliest start end t n : ℕ)
    → 1 ≤ gap
    → earliest ≤ t
    → n * gap ≤ end + gap - 1 - max (t + gap) start
    → start ≤ t
    → t < end
    → suc n * gap ≤ end + gap - 1 - max earliest start
both gap earliest start end t n g a b c d = omega (arith, g, a, b, c, d)

within-Spaced :
    (gap earliest start end : ℕ) (ts : List ℕ)
    → 1 ≤ gap
    → Spaced gap earliest ts
    → within start end ts * gap ≤ end + gap - 1 - max earliest start
within-Spaced gap earliest start end [] g s = omega arith
within-Spaced gap earliest start end (t ∷ ts) g s =
    let rest = within-Spaced gap (t + gap) start end ts g s.1 in
    elim (Bool-cases (leb start t && ltb t end)) [
      | inl e ↦ rw e (
          both gap earliest start end t (within start end ts) g s.0 rest (ground (arith, e))
            (ground (arith, e)))
      | inr e ↦ rw e (omega (arith, rest, s.0))
    ]

-- In any minute at most max(1, rpm) requests are let through, whatever the clock reads, the sleeps
-- take, the jitter is and the delays are.
pub granted-per_minute :
    (l : RateLimiter) (calls : List Call) (start : ℕ)
    → 1 ≤ l.resolution
    → within start (start + 60 * second l) (granted calls l) ≤ limit l.rpm
granted-per_minute l calls start h =
    let n = within start (start + 60 * second l) (granted calls l) in
    let bound : n * min_interval l < suc (limit l.rpm) * min_interval l = omega (
      arith,
      h,
      within-Spaced (min_interval l) l.next_allowed_ts start (start + 60 * second l)
          (granted calls l) (omega (arith, h)) (Spaced-granted calls l),
    ) in
    omega (arith, lt_of_mul-lt-mul_right (min_interval l) bound)
