-- ===== src/Api/Execution/Cancels.antt =====
-- A cancellation before the thread's first step is lost.
use concept_microservice.Prelude.{
  arith, ◌≢◌, ◌⊎◌, ℕ, ◌+◌, ◌*◌, ◌≤◌, String, true, false, Option, some, ◌≡◌, refl, sym, ap, ◌∙◌,
  inl, inr, List, [], ◌∷◌, ◌++◌, length, lookup,
}
use mathlib.Core.Path.{subst}
use mathlib.Core.List.{append-nil}
use mathlib.Core.Option.{some-injective}
use concept_microservice.Prelude.Effect.{Outcome}
use concept_microservice.Values.{Fields}
use concept_microservice.Api.Fields.{Metadata, ConfigClass}
use concept_microservice.Api.State.{completed, error, cancelled, PipelineState, World}
use concept_microservice.Api.Background.{Thread, built, StageRun, is_cancelled, Event, step, run}
use concept_microservice.Api.Background.Machine.{view}
use concept_microservice.Api.Background.Ending.{steps}
use concept_microservice.Api.Background.Outcomes.{succeeds, Ends}
use concept_microservice.Api.Background.Uncancelled.{Undisturbed, cancels, cancels-moves}
use concept_microservice.Api.Execution.{execute_pipeline}
use concept_microservice.Api.Execution.Started.{first_view}
use concept_microservice.Api.Execution.Lives.{
  run_order, shown, execute_pipeline-settles, execute_pipeline-outcome,
}

true_not_false : true ≢ false
true_not_false e = cc

module _ (field_metadata : List (String × Metadata)) (config_class : String → Option ConfigClass)
    (pipeline_id : String) (now : ℕ) (pipeline : String) (stages : List String)
    (config : List (String × Fields)) (filter : Outcome String (Option (List String))) (w : World)
    (run_stage : String → StageRun) (t : Thread)
    (accepts : (execute_pipeline field_metadata config_class pipeline_id now pipeline stages config
        filter w).2
      ≡ some t) where
  abbrev all_stages : List String
  all_stages = run_order field_metadata config_class pipeline_id now pipeline stages config filter w

  abbrev left_by : List (ℕ × Event) → Thread
  left_by es = run pipeline_id all_stages built run_stage es t

  steps-cancels : (times : List ℕ) (es : List (ℕ × Event)) → steps (cancels times ++ es) ≡ steps es
  steps-cancels [] es = refl
  steps-cancels (time ∷ times) es = steps-cancels times es

  -- how a thread of succeeding stages ends that nothing cancelled
  uncancelled_ending :
      (s : PipelineState) (u : Thread)
      → ((stage : String) → succeeds (run_stage stage) ≡ true)
      → is_cancelled s.status ≡ false
      → (s.status ≡ completed) ⊎ ((s.status ≡ error) ⊎ (s.status ≡ cancelled))
      → Ends all_stages built run_stage s.status (view s u)
      → (s.status ≡ completed) × (u.ran ≡ all_stages)
  uncancelled_ending s u good c (inl e) h = (
    e,
    sym (append-nil u.ran)
        ∙ (subst (λ x. Ends all_stages built run_stage x (view s u)) e h).all_ran,
  )
  uncancelled_ending s u good c (inr (inl e)) h =
      elim (subst (λ x. Ends all_stages built run_stage x (view s u)) e h) [
        | inl b ↦ absurd (true_not_false (sym (good b.stage) ∙ b.failure))
        | inr n ↦ absurd (n.1 refl)
      ]
  uncancelled_ending s u good c (inr (inr e)) h =
      absurd (true_not_false (ap is_cancelled (sym e) ∙ c))

  same :
      (k : String) (entries : List (String × PipelineState)) {s r : PipelineState}
      → lookup k entries ≡ some s
      → lookup k entries ≡ some r
      → s ≡ r
  same k entries {s = s} {r = r} p q = some-injective s r (sym p ∙ q)

  tidy : {A B C D E : Type 0} → ((A ⊎ B) × D) ⊎ (C × E) → A ⊎ (B ⊎ C)
  tidy (inl (inl a, d)) = inl a
  tidy (inl (inr b, d)) = inr (inl b)
  tidy (inr (c, e)) = inr (inr c)

  -- If all stages return 0 and the pipeline object is made, an accepted pipeline that is cancelled
  -- any number of times before the first step of its thread, and not later, runs all its stages and
  -- is completed.
  pub execute_pipeline-forgets_cancels :
      (times : List ℕ) (start : ℕ) (es : List (ℕ × Event))
      → Undisturbed es
      → 4 * length all_stages + 2 ≤ steps es
      → ((stage : String) → succeeds (run_stage stage) ≡ true)
      → (s : PipelineState) × (lookup pipeline_id
            (left_by (cancels times ++ (start, step) ∷ es)).world.active
          ≡ some s)
        × (s.status ≡ completed)
        × ((left_by (cancels times ++ (start, step) ∷ es)).ran ≡ all_stages)
  execute_pipeline-forgets_cancels times start es u enough good =
      let events = cancels times ++ (start, step) ∷ es in
      let settled =
        execute_pipeline-settles field_metadata config_class pipeline_id now pipeline stages config
          filter w built run_stage t accepts events
          (omega (arith, enough, steps-cancels times ((start, step) ∷ es))) in
      let ending =
        execute_pipeline-outcome field_metadata config_class pipeline_id now pipeline stages config
          filter w built run_stage t accepts events settled.0 in
      let seen =
        shown field_metadata config_class pipeline_id now pipeline stages config filter w built
          run_stage t accepts events in
      let live = cancels-moves all_stages built run_stage times start es (first_view w) refl u in
      let entries = (left_by events).world.active in
      let status =
        ap (λ x. x.status) (same pipeline_id entries ending.1 seen.1) ∙ ap (λ v. v.status) seen.2 in
      let well =
        uncancelled_ending ending.0 (left_by events) good (ap is_cancelled status ∙ live)
          (subst (λ x. (x.status ≡ completed) ⊎ ((x.status ≡ error) ⊎ (x.status ≡ cancelled)))
            (same pipeline_id entries settled.2 ending.1) (tidy settled.3))
          ending.2 in
      (ending.0, ending.1, well.0, well.1)
