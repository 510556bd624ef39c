-- ===== src/Pipeline/Runner/Totals.antt =====
-- The exit code, the counters and the last log line of a run.
use concept_microservice.Prelude.{
  ℕ, zero, suc, ◌+◌, ℤ, pos, negsuc, sub_ℕ, Bool, true, false, some, List, [], ◌∷◌, ◌++◌, length,
  length-append, Bool-cases, inl, inr, ◌≡◌, refl, ap, ◌∙◌, arith, ◌↔◌, if◌then◌else◌,
}
use concept_microservice.Prelude.Effect.{Outcome, ok, raise}
use concept_microservice.Pipeline.Runner.{
  StageSpec, Stages, Crash, PipelineError, Metrics, Progress, is_zero_code, run_stage, run_from,
  finish, succeeded, exited, crashed, fail_pipeline, fail_pipeline, begin, run,
}

sub_same : (a b c d n : ℕ) → a + d ≡ n → b + c ≡ n → sub_ℕ a b ≡ sub_ℕ c d
sub_same a b c d n h k = ground arith

module _ {C : Type 0} (env : Stages C) where
  -- the stages from the i-th on that exit with zero
  pub zeros : ℕ → List (StageSpec C) → ℕ
  zeros i [] = 0
  zeros i (spec ∷ specs) =
      let rest = zeros (suc i) specs in
      elim (run_stage env i spec) [
        | ok code ↦ if is_zero_code code then suc rest else rest
        | raise e ↦ rest
      ]

  -- those that raise
  pub crashes : ℕ → List (StageSpec C) → ℕ
  crashes i [] = 0
  crashes i (spec ∷ specs) =
      let rest = crashes (suc i) specs in
      elim (run_stage env i spec) [ ok code ↦ rest | raise e ↦ suc rest ]

  abbrev Ended : Metrics → Outcome PipelineError ℤ → Metrics → Type 0
  Ended m (ok (pos zero)) m' =
      (m'.runs ≡ m.runs)
      × (m'.completed ≡ suc m.completed)
      × (m'.failed ≡ m.failed)
      × (m'.durations ≡ suc m.durations)
  Ended m r m' =
      (m'.runs ≡ m.runs)
      × (m'.completed ≡ m.completed)
      × (m'.failed ≡ suc m.failed)
      × (m'.durations ≡ suc m.durations)

  -- How the next stage ends.
  pub data Step (i : ℕ) (spec : StageSpec C) : Type 0 where
    zero_exit : (code : ℤ) → run_stage env i spec ≡ ok code → is_zero_code code ≡ true → Step i spec
    bad_exit : (code : ℤ) → run_stage env i spec ≡ ok code → is_zero_code code ≡ false → Step i spec
    crash : (e : Crash) → run_stage env i spec ≡ raise e → Step i spec

  pub Step-of : (i : ℕ) (spec : StageSpec C) → Step i spec
  Step-of i spec = go (run_stage env i spec) refl
    where
      go : (r : Outcome Crash ℤ) → run_stage env i spec ≡ r → Step i spec
      go (ok code) h = elim (Bool-cases (is_zero_code code)) [
        | inl z ↦ zero_exit code h z
        | inr z ↦ bad_exit code h z
      ]
      go (raise e) h = crash e h

  module _ (stop : Bool) (total i : ℕ) (spec : StageSpec C) (specs : List (StageSpec C))
      (p : Progress) where
    pub run_from-zero_exit :
        (code : ℤ)
        → run_stage env i spec ≡ ok code
        → is_zero_code code ≡ true
        → run_from env stop total i (spec ∷ specs) p
          ≡ run_from env stop total (suc i) specs (succeeded env code p)
    unfolding run_from
    run_from-zero_exit code h z = rw (h, run_from) (rw z)

    pub run_from-bad_exit :
        (code : ℤ)
        → run_stage env i spec ≡ ok code
        → is_zero_code code ≡ false
        → run_from env false total i (spec ∷ specs) p
          ≡ run_from env false total (suc i) specs (exited env spec code p)
    unfolding run_from
    run_from-bad_exit code h z = rw (h, run_from) (rw z)

    pub run_from-crash :
        (e : Crash)
        → run_stage env i spec ≡ raise e
        → run_from env false total i (spec ∷ specs) p
          ≡ run_from env false total (suc i) specs (crashed env spec (pos 1 ∷ []) p)
    unfolding run_from
    run_from-crash e h = rw (h, run_from)

  bad_exit-Ended :
      (code : ℤ) (m m' : Metrics)
      → is_zero_code code ≡ false
      → (m'.runs ≡ m.runs)
        × (m'.completed ≡ m.completed)
        × (m'.failed ≡ suc m.failed)
        × (m'.durations ≡ suc m.durations)
      → Ended m (ok code) m'
  bad_exit-Ended (pos zero) m m' z h = cc
  bad_exit-Ended (pos (suc n)) m m' z h = h
  bad_exit-Ended (negsuc n) m m' z h = h

  run_from-metrics :
      (stop : Bool) (total i : ℕ) (specs : List (StageSpec C)) (p : Progress)
      → let r = run_from env stop total i specs p in Ended p.metrics r.0 r.1.metrics
  unfolding run_from finish
  run_from-metrics stop total i [] p = ground arith
  run_from-metrics true total i (spec ∷ specs) p = elim (Step-of i spec) [
    | zero_exit code h z ↦
        rw (run_from-zero_exit true total i spec specs p code h z)
          (run_from-metrics true total (suc i) specs (succeeded env code p))
    | bad_exit code h z ↦
        rw (h, run_from)
          (rw z (
            bad_exit-Ended code p.metrics (fail_pipeline env (exited env spec code p).metrics) z
              (refl, refl, refl, refl)))
    | crash e h ↦ rw (h, run_from) (refl, refl, refl, refl)
  ]
  run_from-metrics false total i (spec ∷ specs) p = elim (Step-of i spec) [
    | zero_exit code h z ↦
        rw (run_from-zero_exit false total i spec specs p code h z)
          (run_from-metrics false total (suc i) specs (succeeded env code p))
    | bad_exit code h z ↦
        rw (run_from-bad_exit false total i spec specs p code h z)
          (run_from-metrics false total (suc i) specs (exited env spec code p))
    | crash e h ↦
        rw (run_from-crash false total i spec specs p e h)
          (run_from-metrics false total (suc i) specs (crashed env spec (pos 1 ∷ []) p))
  ]

  Totals : ℕ → List (StageSpec C) → Progress → Progress → Type 0
  Totals i specs p q =
      (length q.exit_codes ≡ length p.exit_codes + length specs)
      × (q.stages + crashes i specs ≡ p.stages + length specs)
      × (q.failed + zeros i specs ≡ p.failed + length specs)
      × (q.report ≡ some (sub_ℕ q.stages q.failed, (q.stages, q.failed)))

  Totals-step :
      (i : ℕ) (spec : StageSpec C) (specs : List (StageSpec C)) (p q : Progress) (codes : ℤ)
      (b c : ℕ)
      → length q.exit_codes ≡ length (p.exit_codes ++ codes ∷ []) + length specs
      → q.stages + crashes (suc i) specs + b ≡ suc p.stages + length specs
      → q.failed + zeros (suc i) specs + c ≡ suc p.failed + length specs
      → q.report ≡ some (sub_ℕ q.stages q.failed, (q.stages, q.failed))
      → crashes i (spec ∷ specs) ≡ crashes (suc i) specs + b
      → zeros i (spec ∷ specs) ≡ zeros (suc i) specs + c
      → Totals i (spec ∷ specs) p q
  unfolding Totals
  Totals-step i spec specs p q code b c l s f r hc hz = (
    omega (arith, l, length-append p.exit_codes (code ∷ [])),
    omega (arith, s, hc),
    omega (arith, f, hz),
    r,
  )

  run_from-Totals :
      (total i : ℕ) (specs : List (StageSpec C)) (p : Progress)
      → Totals i specs p (run_from env false total i specs p).1
  unfolding run_from finish zeros crashes Totals
  run_from-Totals total i [] p = ground arith
  run_from-Totals total i (spec ∷ specs) p = elim (Step-of i spec) [
    | zero_exit code h z ↦
        let q = (run_from env false total (suc i) specs (succeeded env code p)).1 in
        let t = run_from-Totals total (suc i) specs (succeeded env code p) in
        rw (run_from-zero_exit false total i spec specs p code h z) (
          Totals-step i spec specs p q code 0 1 t.0 (omega (arith, t.1)) (omega (arith, t.2)) t.3
            (rw (h, crashes) (omega arith)) (rw (h, zeros) (rw z (omega arith))))
    | bad_exit code h z ↦
        let q = (run_from env false total (suc i) specs (exited env spec code p)).1 in
        let t = run_from-Totals total (suc i) specs (exited env spec code p) in
        rw (run_from-bad_exit false total i spec specs p code h z) (
          Totals-step i spec specs p q code 0 0 t.0 (omega (arith, t.1)) (omega (arith, t.2)) t.3
            (rw (h, crashes) (omega arith)) (rw (h, zeros) (rw z (omega arith))))
    | crash e h ↦
        let q = (run_from env false total (suc i) specs (crashed env spec (pos 1 ∷ []) p)).1 in
        let t = run_from-Totals total (suc i) specs (crashed env spec (pos 1 ∷ []) p) in
        rw (run_from-crash false total i spec specs p e h) (
          Totals-step i spec specs p q (pos 1) 1 0 t.0 (omega (arith, t.1)) (omega (arith, t.2)) t.3
            (rw (h, crashes) (omega arith)) (rw (h, zeros) (omega arith)))
  ]

  -- A run counts one run and one duration, and either one completion, when it returns 0, or one
  -- failure, when it returns another code or raises.
  pub run-metrics :
      (stop_on_error : Bool) (specs : List (StageSpec C)) (m : Metrics)
      → let r = run env stop_on_error specs m in
        (r.1.metrics.runs ≡ suc m.runs)
        × (r.1.metrics.durations ≡ suc m.durations)
        × (r.1.metrics.completed + r.1.metrics.failed ≡ suc (m.completed + m.failed))
        × ((r.0 ≡ ok (pos 0)) ↔ (r.1.metrics.completed ≡ suc m.completed))
  unfolding run
  run-metrics stop specs m =
      of_Ended (run env stop specs m).0 _
        (run_from-metrics stop (length specs) 1 specs (begin env m))
    where
      of_Ended :
          (r : Outcome PipelineError ℤ) (m' : Metrics)
          → Ended (begin env m).metrics r m'
          → (m'.runs ≡ suc m.runs)
            × (m'.durations ≡ suc m.durations)
            × (m'.completed + m'.failed ≡ suc (m.completed + m.failed))
            × ((r ≡ ok (pos 0)) ↔ (m'.completed ≡ suc m.completed))
      of_Ended (ok (pos zero)) m' h = ground arith
      of_Ended (ok (pos (suc n))) m' h = ground arith
      of_Ended (ok (negsuc n)) m' h = ground arith
      of_Ended (raise e) m' h = ground arith

  -- A run that does not stop on errors has one exit code for each stage, and the number that its
  -- last log line gives as succeeded is that of the stages that exit with zero less that of the
  -- stages that raise.
  pub run-understates :
      (specs : List (StageSpec C)) (m : Metrics)
      → let q = (run env false specs m).1 in
        (length q.exit_codes ≡ length specs)
        × (q.report ≡ some (sub_ℕ (zeros 1 specs) (crashes 1 specs), (q.stages, q.failed)))
  unfolding run Totals
  run-understates specs m =
      let q = (run env false specs m).1 in
      let t = run_from-Totals (length specs) 1 specs (begin env m) in
      (
        omega (arith, t.0),
        t.3
            ∙ ap (λ n. some (n, (q.stages, q.failed)))
                (sub_same q.stages q.failed _ _ (length specs) (omega (arith, t.1))
                  (omega (arith, t.2))),
      )
