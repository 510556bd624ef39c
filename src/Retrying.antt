-- ===== src/Retrying.antt =====
-- graph-worker/graphrag-service/src/lib/retry: the policies of policies.py and the wrapper of
-- `with_retry` of decorators.py. Delays are natural numbers, and the i-th call of the wrapped
-- function an argument. The classes of exceptions are tests on them.
pub mod Attempts
use concept_microservice.Prelude.{
  ℕ, zero, suc, ◌-◌, ◌*◌, ◌^◌, min, Bool, true, false, not, ◌&&◌, Option, none, some, List, [], ◌∷◌,
  ltb, String, str_eq, if◌then◌else◌,
}
use concept_microservice.Prelude.Effect.{Outcome, ok, raise}

pub data RetryPolicy : Type 0 where
  -- max_attempts, base_delay, max_delay, multiplier
  exponential : ℕ → ℕ → ℕ → ℕ → RetryPolicy
  -- max_attempts, delay
  fixed : ℕ → ℕ → RetryPolicy
  no_retry : RetryPolicy

unfoldable pub attempts_of : RetryPolicy → ℕ
attempts_of (exponential n base cap mult) = n
attempts_of (fixed n d) = n
attempts_of no_retry = 1

unfoldable pub should_retry : RetryPolicy → ℕ → Bool
unfolding attempts_of
should_retry no_retry attempt = false
should_retry policy attempt = ltb attempt (attempts_of policy)

unfoldable pub get_delay : RetryPolicy → ℕ → ℕ
get_delay (exponential n base cap mult) attempt = min (base * mult ^ (attempt - 1)) cap
get_delay (fixed n d) attempt = d
get_delay no_retry attempt = 0

-- the policy of `with_retry`, by its arguments; 60 and 2 are the defaults
unfoldable pub policy_of : Option RetryPolicy → String → ℕ → ℕ → ℕ → RetryPolicy
policy_of (some policy) backoff n base cap = policy
policy_of none backoff n base cap =
    if str_eq backoff "exponential"
    then exponential n base cap 2
    else if str_eq backoff "fixed"
    then fixed n base
    else exponential n 1 60 2

unfoldable pub retry_llm_policy : ℕ → RetryPolicy
unfolding policy_of
retry_llm_policy n = policy_of none "exponential" n 1 60

-- How a wrapped call ends, with the number of calls and the sleeps between them. `nothing` is the
-- return of None behind the loop.
pub data Ending (E A : Type 0) : Type 0 where
  returned : A → Ending E A
  raised : E → Ending E A
  nothing : Ending E A

pub record Attempted (E A : Type 0) : Type 0 where
  pub ending : Ending E A
  pub calls : ℕ
  pub sleeps : List ℕ

module _ {E A : Type 0} where
  abbrev pub at_once : Ending E A → Attempted E A
  at_once e = record { ending = e; calls = 1; sleeps = [] }

  abbrev pub after_sleep : ℕ → Attempted E A → Attempted E A
  after_sleep d r = record { ending = r.ending; calls = suc r.calls; sleeps = d ∷ r.sleeps }

  abbrev behind_loop : Option E → Ending E A
  behind_loop none = nothing
  behind_loop (some e) = raised e

  module _ (policy : RetryPolicy) (retry_on is_quota is_empty_entity : E → Bool)
      (call : ℕ → Outcome E A) where
    -- whether a failed attempt is followed by another
    unfoldable pub again : ℕ → E → Bool
    unfolding should_retry
    again attempt e =
        retry_on e && (not (is_quota e) && (not (is_empty_entity e) && should_retry policy attempt))

    -- the loop, with the attempts that are left
    unfoldable pub attempt_loop : ℕ → ℕ → Option E → Attempted E A
    unfolding again get_delay
    attempt_loop zero attempt last = record { ending = behind_loop last; calls = 0; sleeps = [] }
    attempt_loop (suc left) attempt last = elim (call (suc attempt)) [
      | ok a ↦ at_once (returned a)
      | raise e ↦
          let rest = attempt_loop left (suc attempt) (some e) in
          if again (suc attempt) e
          then after_sleep (get_delay policy (suc attempt)) rest
          else at_once (raised e)
    ]

    -- the wrapper
    unfoldable pub retrying : Attempted E A
    unfolding attempt_loop attempts_of
    retrying = attempt_loop (attempts_of policy) 0 none
