-- ===== src/Retrying/Attempts.antt =====
-- The calls and the sleeps of a wrapped function.
use concept_microservice.Prelude.{
  ℕ, zero, suc, ◌+◌, ◌≤◌, ◌<◌, ◌⊎◌, Bool, true, false, ◌≡◌, refl, ap, sym, ◌∙◌, Option, none, some,
  List, [], ◌∷◌, arith,
}
use mathlib.Core.Path.{subst}
use concept_microservice.Prelude.Effect.{Outcome, ok, raise}
use concept_microservice.Retrying.{
  RetryPolicy, exponential, fixed, no_retry, should_retry, attempts_of, get_delay, returned, raised,
  Attempted, again, attempt_loop, retrying,
}

should_retry-left :
    (policy : RetryPolicy) (attempt : ℕ)
    → suc attempt < attempts_of policy
    → should_retry policy (suc attempt) ≡ true
unfolding should_retry attempts_of
should_retry-left (exponential n base cap mult) attempt h = ground (arith, h)
should_retry-left (fixed n d) attempt h = ground (arith, h)
should_retry-left no_retry attempt h = absurd (omega (arith, h))

should_retry-none :
    (policy : RetryPolicy) (attempt : ℕ)
    → attempts_of policy ≤ suc attempt
    → should_retry policy (suc attempt) ≡ false
unfolding should_retry attempts_of
should_retry-none (exponential n base cap mult) attempt h = ground (arith, h)
should_retry-none (fixed n d) attempt h = ground (arith, h)
should_retry-none no_retry attempt h = refl

module _ {E A : Type 0} (policy : RetryPolicy) (retry_on is_quota is_empty_entity : E → Bool)
    (call : ℕ → Outcome E A) where
  -- The attempts from the one behind `attempt` on fail with an exception that may be retried.
  unfoldable pub FailsFor : ℕ → ℕ → Type 0
  FailsFor zero attempt = Unit
  FailsFor (suc k) attempt =
      ((e : E) × (call (suc attempt) ≡ raise e)
        × (retry_on e ≡ true)
        × (is_quota e ≡ false)
        × (is_empty_entity e ≡ false))
      × FailsFor k (suc attempt)

  -- the delays of `k` attempts
  unfoldable pub delays : ℕ → ℕ → List ℕ
  delays zero attempt = []
  delays (suc k) attempt = get_delay policy (suc attempt) ∷ delays k (suc attempt)

  -- why a failed attempt is the last: its exception is of no class that is retried, it is about the
  -- quota or an empty entity, or there are no attempts left
  abbrev pub IsLast : ℕ → E → Type 0
  IsLast attempt e =
      (retry_on e ≡ false)
      ⊎ (is_quota e ≡ true)
      ⊎ (is_empty_entity e ≡ true)
      ⊎ (attempts_of policy ≤ attempt)

  again-retries :
      (attempt : ℕ) (e : E)
      → retry_on e ≡ true
      → is_quota e ≡ false
      → is_empty_entity e ≡ false
      → suc attempt < attempts_of policy
      → again policy retry_on is_quota is_empty_entity call (suc attempt) e ≡ true
  unfolding again
  again-retries attempt e r q m left = rw (r, q, m) (should_retry-left policy attempt left)

  again-IsLast :
      (attempt : ℕ) (e : E)
      → IsLast (suc attempt) e
      → again policy retry_on is_quota is_empty_entity call (suc attempt) e ≡ false
  unfolding again
  again-IsLast attempt e h = ground (arith, h, should_retry-none policy attempt)

  abbrev Succeeds : ℕ → ℕ → A → Attempted E A → Type 0
  Succeeds k attempt a r =
      (r.ending ≡ returned a) × (r.calls ≡ suc k) × (r.sleeps ≡ delays k attempt)

  abbrev Fails : ℕ → ℕ → E → Attempted E A → Type 0
  Fails k attempt e r = (r.ending ≡ raised e) × (r.calls ≡ suc k) × (r.sleeps ≡ delays k attempt)

  loop_success :
      (k left attempt j : ℕ) (last : Option E) (a : A)
      → k + 1 ≤ left
      → attempt + left ≡ attempts_of policy
      → FailsFor k attempt
      → j ≡ suc (attempt + k)
      → call j ≡ ok a
      → Succeeds k attempt a
          (attempt_loop policy retry_on is_quota is_empty_entity call left attempt last)
  unfolding attempt_loop FailsFor delays
  loop_success k zero attempt j last a room all h e s = absurd (omega arith)
  loop_success zero (suc left) attempt j last a room all h e s =
      let here : j ≡ suc attempt = omega arith in
      let done : call (suc attempt) ≡ ok a = ap call (sym here) ∙ s in
      rw (done, attempt_loop) (refl, refl, refl)
  loop_success (suc k) (suc left) attempt j last a room all h e s =
      let (x, failed, r, q, m) = h.0 in
      let retried = again-retries attempt x r q m (omega (arith, room, all)) in
      let ih =
        loop_success k left (suc attempt) j (some x) a (omega arith) (omega (arith, all)) h.1
          (omega arith) s in
      rw (failed, attempt_loop)
        (rw retried (ih.0, ap suc ih.1, ap (◌∷◌ (get_delay policy (suc attempt))) ih.2))

  loop_failure :
      (k left attempt j : ℕ) (last : Option E) (e : E)
      → k + 1 ≤ left
      → attempt + left ≡ attempts_of policy
      → FailsFor k attempt
      → j ≡ suc (attempt + k)
      → call j ≡ raise e
      → IsLast j e
      → Fails k attempt e
          (attempt_loop policy retry_on is_quota is_empty_entity call left attempt last)
  unfolding attempt_loop FailsFor delays
  loop_failure k zero attempt j last e room all h at_j s given_up = absurd (omega arith)
  loop_failure zero (suc left) attempt j last e room all h at_j s given_up =
      let here : j ≡ suc attempt = omega arith in
      let done : call (suc attempt) ≡ raise e = ap call (sym here) ∙ s in
      let over : again policy retry_on is_quota is_empty_entity call (suc attempt) e ≡ false =
        again-IsLast attempt e (subst (λ i. IsLast i e) here given_up) in
      rw (done, attempt_loop) (rw over (refl, refl, refl))
  loop_failure (suc k) (suc left) attempt j last e room all h at_j s given_up =
      let (x, failed, r, q, m) = h.0 in
      let retried = again-retries attempt x r q m (omega (arith, room, all)) in
      let ih =
        loop_failure k left (suc attempt) j (some x) e (omega arith) (omega (arith, all)) h.1
          (omega arith) s given_up in
      rw (failed, attempt_loop)
        (rw retried (ih.0, ap suc ih.1, ap (◌∷◌ (get_delay policy (suc attempt))) ih.2))

  -- If the first `k` attempts fail with exceptions that may be retried, the next one succeeds, and
  -- the policy allows that many, the wrapper returns this answer after `k + 1` calls, and sleeps
  -- exactly the policy's delays of the attempts that failed.
  pub retrying-success :
      (k : ℕ) (a : A)
      → k + 1 ≤ attempts_of policy
      → FailsFor k 0
      → call (suc k) ≡ ok a
      → let r = retrying policy retry_on is_quota is_empty_entity call in
        (r.ending ≡ returned a) × (r.calls ≡ suc k) × (r.sleeps ≡ delays k 0)
  unfolding retrying
  retrying-success k a room h s =
      loop_success k (attempts_of policy) 0 (suc k) none a room (omega arith) h (omega arith) s

  -- If the first `k` attempts fail with exceptions that may be retried, and the next, which the
  -- policy still allows, fails with one of no class that is retried, or about the quota or an empty
  -- entity, or is the last allowed, the wrapper raises this exception after `k + 1` calls and the
  -- delays of the first `k`.
  pub retrying-failure :
      (k : ℕ) (e : E)
      → k + 1 ≤ attempts_of policy
      → FailsFor k 0
      → call (suc k) ≡ raise e
      → IsLast (suc k) e
      → let r = retrying policy retry_on is_quota is_empty_entity call in
        (r.ending ≡ raised e) × (r.calls ≡ suc k) × (r.sleeps ≡ delays k 0)
  unfolding retrying
  retrying-failure k e room h s given_up =
      loop_failure k (attempts_of policy) 0 (suc k) none e room (omega arith) h (omega arith) s
        given_up
