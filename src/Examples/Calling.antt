-- ===== src/Examples/Calling.antt =====
-- A call that fails twice, under lib/retry.
use concept_microservice.Prelude.{
  ℕ, String, Bool, true, false, ◌≡◌, refl, [], ◌∷◌, arith, ltb, str_eq, inl, inr, if◌then◌else◌,
}
use concept_microservice.Prelude.Effect.{Outcome, ok, raise}
use concept_microservice.Retrying.{exponential, attempts_of, get_delay, returned, raised, retrying}
use concept_microservice.Retrying.Attempts.{FailsFor, delays, retrying-success, retrying-failure}

abbrev flaky : ℕ → Outcome String ℕ
flaky i = if ltb i 3 then raise "timeout" else ok i

abbrev never : String → Bool
never e = false

abbrev always : String → Bool
always e = true

success_example :
    let r = retrying (exponential 5 1 60 2) always never never flaky in
    (r.ending ≡ returned 3) × (r.calls ≡ 3) × (r.sleeps ≡ 1 ∷ 2 ∷ [])
unfolding FailsFor delays attempts_of get_delay
success_example =
    retrying-success (exponential 5 1 60 2) always never never flaky 2 3 (omega arith)
      (("timeout", refl, refl, refl, refl), (("timeout", refl, refl, refl, refl), tt)) refl

abbrev out_of_quota : ℕ → Outcome String ℕ
out_of_quota i = raise (if ltb i 2 then "timeout" else "quota")

-- the second attempt is out of quota, where five are allowed
failure_example :
    let r = retrying (exponential 5 1 60 2) always (λ e. str_eq e "quota") never out_of_quota in
    (r.ending ≡ raised "quota") × (r.calls ≡ 2) × (r.sleeps ≡ 1 ∷ [])
unfolding FailsFor delays attempts_of get_delay
failure_example =
    retrying-failure (exponential 5 1 60 2) always (λ e. str_eq e "quota") never out_of_quota 1
      "quota" (omega arith) (("timeout", refl, refl, refl, refl), tt) refl (inr (inl refl))
