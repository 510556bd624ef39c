-- ===== src/Pipeline/Runner/Stops.antt =====
-- What a run returns, and where it stops.
use native.Mathlib.Nat.{add-zero, zero-add}
use concept_microservice.Prelude.{
  ℕ, zero, suc, ◌+◌, ℤ, pos, negsuc, Bool, true, false, List, [], ◌∷◌, ◌++◌, length, length-append,
  ◌≡◌, refl, arith, ◌↔◌, ◌∙◌, ap, sym,
}
use concept_microservice.Prelude.Effect.{ok, raise}
use concept_microservice.Pipeline.Runner.{
  StageSpec, Stages, Crash, Metrics, Progress, is_zero_code, run_stage, run_from, finish, begin,
  run, succeeded, exited, crashed, pipeline_error,
}
use concept_microservice.Pipeline.Runner.Totals.{
  zero_exit, bad_exit, crash, Step-of, run_from-zero_exit, run_from-bad_exit, run_from-crash,
}

is_zero_code_lem : (code : ℤ) → is_zero_code code ≡ true → code ≡ pos 0
is_zero_code_lem (pos zero) h = refl
is_zero_code_lem (pos (suc n)) h = cc
is_zero_code_lem (negsuc n) h = cc

is_zero_code_not : (code : ℤ) → is_zero_code code ≡ false → code ≡ pos 0 → ⊥
is_zero_code_not (pos zero) h k = cc
is_zero_code_not (pos (suc n)) h k = cc
is_zero_code_not (negsuc n) h k = cc

module _ {C : Type 0} (env : Stages C) where
  -- All stages from the i-th on exit with zero.
  abbrev pub AllSucceed : ℕ → List (StageSpec C) → Type 0
  AllSucceed i [] = Unit
  AllSucceed i (spec ∷ specs) = (run_stage env i spec ≡ ok (pos 0)) × AllSucceed (suc i) specs

  abbrev Clean : ℕ → List (StageSpec C) → Progress → Type 0
  Clean i specs p = (p.failed ≡ 0) × AllSucceed i specs

  Clean-cons :
      {R : Type 0} (i : ℕ) (spec : StageSpec C) (specs : List (StageSpec C)) (p : Progress)
      (code : ℤ)
      → run_stage env i spec ≡ ok code
      → is_zero_code code ≡ true
      → R ↔ Clean (suc i) specs (succeeded env code p)
      → R ↔ Clean i (spec ∷ specs) p
  Clean-cons i spec specs p code h z ih = (
    λ r. let c = ih.0 r in (c.0, (h ∙ ap ok (is_zero_code_lem code z), c.1)),
    λ c. ih.1 (c.0, c.1.1),
  )

  run_from-Clean :
      (stop : Bool) (total i : ℕ) (specs : List (StageSpec C)) (p : Progress)
      → ((run_from env stop total i specs p).0 ≡ ok (pos 0)) ↔ Clean i specs p
  unfolding run_from finish
  run_from-Clean stop total i [] p = ground arith
  run_from-Clean true total i (spec ∷ specs) p = elim (Step-of env i spec) [
    | zero_exit code h z ↦ rw (run_from-zero_exit env true total i spec specs p code h z) (
        Clean-cons i spec specs p code h z
          (run_from-Clean true total (suc i) specs (succeeded env code p)))
    | bad_exit code h z ↦
        rw (h, run_from)
          (rw z
            (λ r. absurd (is_zero_code_not code z cc), λ c. absurd (is_zero_code_not code z cc)))
    | crash e h ↦ rw (h, run_from) (λ r. cc, λ c. cc)
  ]
  run_from-Clean false total i (spec ∷ specs) p = elim (Step-of env i spec) [
    | zero_exit code h z ↦ rw (run_from-zero_exit env false total i spec specs p code h z) (
        Clean-cons i spec specs p code h z
          (run_from-Clean false total (suc i) specs (succeeded env code p)))
    | bad_exit code h z ↦
        let ih = run_from-Clean false total (suc i) specs (exited env spec code p) in
        rw (run_from-bad_exit env false total i spec specs p code h z)
          (λ r. absurd (omega (arith, (ih.0 r).0)), λ c. absurd (is_zero_code_not code z cc))
    | crash e h ↦
        let ih = run_from-Clean false total (suc i) specs (crashed env spec (pos 1 ∷ []) p) in
        rw (run_from-crash env false total i spec specs p e h)
          (λ r. absurd (omega (arith, (ih.0 r).0)), λ c. cc)
  ]

  run_from-stop :
      (total i j : ℕ) (before after : List (StageSpec C)) (spec : StageSpec C) (e : Crash)
      (p : Progress)
      → AllSucceed i before
      → j ≡ i + length before
      → run_stage env j spec ≡ raise e
      → (run_from env true total i (before ++ spec ∷ after) p).0
        ≡ raise (pipeline_error env j total spec (p.stages + length before) e)
  unfolding run_from
  run_from-stop total i j [] after spec e p h k r =
      let here : j ≡ i = omega arith in
      let r' : run_stage env i spec ≡ raise e = ap (λ k. run_stage env k spec) (sym here) ∙ r in
      rw (add-zero, here) (rw (r', run_from) refl)
  run_from-stop total i j (b ∷ before) after spec e p h k r =
      let ih =
        run_from-stop total (suc i) j before after spec e (succeeded env (pos 0) p) h.1
          (omega arith) r in
      let shift : p.stages + length (b ∷ before) ≡ suc p.stages + length before = omega arith in
      rw (run_from-zero_exit env true total i b (before ++ spec ∷ after) p (pos 0) h.0 refl, shift)
        ih

  -- A run returns 0 exactly when every stage exits with zero, whether it stops on errors or not.
  pub run-AllSucceed :
      (stop_on_error : Bool) (specs : List (StageSpec C)) (m : Metrics)
      → ((run env stop_on_error specs m).0 ≡ ok (pos 0)) ↔ AllSucceed 1 specs
  unfolding run
  run-AllSucceed stop specs m =
      let c = run_from-Clean stop (length specs) 1 specs (begin env m) in
      (λ r. (c.0 r).1, λ a. c.1 (refl, a))

  -- When the stages before the j-th exit with zero and the j-th raises, a run that stops on errors
  -- raises a PipelineError that names this stage, its index, the number of all stages and that of
  -- those completed, whatever the stages behind it.
  pub run-stops_at_crash :
      (before after : List (StageSpec C)) (spec : StageSpec C) (e : Crash) (m : Metrics)
      → AllSucceed 1 before
      → run_stage env (1 + length before) spec ≡ raise e
      → (run env true (before ++ spec ∷ after) m).0
        ≡ raise record {
          stage = spec.stage;
          stage_index = 1 + length before;
          total_stages = length before + 1 + length after;
          stages_completed = length before;
          cause = e;
        }
  unfolding run
  run-stops_at_crash before after spec e m h r =
      let total : length (before ++ spec ∷ after) ≡ length before + 1 + length after =
        omega (arith, length-append before (spec ∷ after)) in
      rw
        (
          run_from-stop (length (before ++ spec ∷ after)) 1 (1 + length before) before after spec e
              (begin env m) h refl r,
          total,
          zero-add,
        )
        refl
