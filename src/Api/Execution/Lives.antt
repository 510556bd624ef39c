-- ===== src/Api/Execution/Lives.antt =====
-- From a request to the end of its thread.
use concept_microservice.Prelude.{
  ℕ, ◌+◌, ◌*◌, ◌≤◌, ℤ, pos, negsuc, ◌+ℤ◌, +ℤ_parts, eq_of_parts, String, Option, some, ◌≡◌, refl,
  sym, ap, ◌∙◌, ◌⊎◌, inl, inr, List, length, lookup, arith,
}
use mathlib.Core.Option.{some-injective}
use mathlib.Core.Path.{subst}
use concept_microservice.Prelude.Effect.{Outcome}
use concept_microservice.Values.{Fields}
use concept_microservice.Api.Fields.{Metadata, ConfigClass}
use concept_microservice.Api.State.{completed, error, cancelled, PipelineState, World}
use concept_microservice.Api.Background.{Thread, Creation, StageRun, begin, ended, Event, run}
use concept_microservice.Api.Background.Updates.{less_one}
use concept_microservice.Api.Background.Machine.{View, view, moves}
use concept_microservice.Api.Background.Refines.{Shows, Shows-run}
use concept_microservice.Api.Background.Lifecycle.{
  Life, waiting, waiting_cancelled, working, stopping, done_completed, done_error, done_cancelled,
  ◌⟶*◌, here, Inside, IsIn, Reached-moves,
}
use concept_microservice.Api.Background.Ending.{steps, moves-ended}
use concept_microservice.Api.Background.Outcomes.{Ends, Ends-moves}
use concept_microservice.Api.Execution.{Answer, execute_pipeline}
use concept_microservice.Api.Execution.Started.{
  first_view, plan, Leaves, not_valid, bad_filter, without_videos, begun, Leaves-execute_pipeline,
}

abbrev counted : World → ℤ
counted w = w.tracker.active_pipelines +ℤ pos 1

uncounted : (n : ℤ) → less_one (n +ℤ pos 1) ≡ n
uncounted n =
    eq_of_parts (less_one (n +ℤ pos 1)) n
      (omega (arith, +ℤ_parts (n +ℤ pos 1) (negsuc 0), +ℤ_parts n (pos 1)))

not_begin : ¬ (begin ≡ ended)
not_begin e = cc

module _ (field_metadata : List (String × Metadata)) (config_class : String → Option ConfigClass)
    (pipeline_id : String) (now : ℕ) (pipeline : String) (stages : List String)
    (config : List (String × Fields)) (filter : Outcome String (Option (List String)))
    (w : World) where
  abbrev answer : Answer × World × Option Thread
  answer =
      execute_pipeline field_metadata config_class pipeline_id now pipeline stages config filter w

  -- the stages of the thread
  abbrev pub run_order : List String
  run_order = plan field_metadata config_class pipeline_id now pipeline stages config filter w

  module _ (creation : Creation) (run_stage : String → StageRun) where
    first :
        (r : Answer × World × Option Thread) (t : Thread)
        → Leaves field_metadata config_class pipeline_id now pipeline stages config filter w r
        → r.2 ≡ some t
        → Shows pipeline_id run_order creation run_stage t (first_view w)
    first _ t (not_valid n) e = absurd cc
    first _ t (bad_filter f r n) e = absurd cc
    first _ t (without_videos r n) e = absurd cc
    first _ t (begun b) e =
        subst (λ t. Shows pipeline_id run_order creation run_stage t (first_view w))
          (some-injective _ t e)
          (b.state, ap (λ v. lookup pipeline_id v.active) b.same_world ∙ b.stored, b.seen)

    module _ (t : Thread) (accepts : answer.2 ≡ some t) (es : List (ℕ × Event)) where
      abbrev pub last : Thread
      last = run pipeline_id run_order creation run_stage es t

      abbrev pub last_view : View
      last_view = moves run_order creation run_stage es (first_view w)

      pub shown : Shows pipeline_id run_order creation run_stage last last_view
      shown = Shows-run pipeline_id run_order creation run_stage es t (first_view w) (
          first answer t
            (Leaves-execute_pipeline field_metadata config_class pipeline_id now pipeline stages
              config filter w)
            accepts)

      -- Whatever the steps and cancellations so far, an accepted pipeline is in a state that the
      -- diagram of its life reaches from `waiting`: its status, the place of its thread and the
      -- counter of active pipelines agree with it.
      pub execute_pipeline-life :
          (s : PipelineState) × (l : Life) × (lookup pipeline_id last.world.active ≡ some s)
          × (waiting ⟶* l)
          × IsIn (counted w) l (view s last)
      execute_pipeline-life =
          let (s, present, seen) = shown in
          let (l, r, h) =
            Reached-moves run_order creation run_stage (counted w) es (first_view w)
              (waiting, here, (refl, refl, refl, refl)) in
          (s, l, present, r, subst (IsIn (counted w) l) (sym seen) h)

      -- Completed or failed, the pipeline is counted as active no more; cancelled, it still is.
      abbrev pub Settled : PipelineState → Type 0
      Settled s =
          (((s.status ≡ completed) ⊎ (s.status ≡ error))
            × (last.world.tracker.active_pipelines ≡ w.tracker.active_pipelines))
          ⊎ ((s.status ≡ cancelled) × (last.world.tracker.active_pipelines ≡ counted w))

      Settled-IsIn :
          (l : Life) (s : PipelineState)
          → last.point ≡ ended
          → IsIn (counted w) l (view s last)
          → Settled s
      Settled-IsIn waiting s e (x, p, g, c) = absurd (not_begin (sym p ∙ e))
      Settled-IsIn waiting_cancelled s e (x, p, g, c) = absurd (not_begin (sym p ∙ e))
      Settled-IsIn working s e (x, i, g) = absurd (subst (λ p. Inside p last.exit_code) e i)
      Settled-IsIn stopping s e (x, i, g) = absurd (subst (λ p. Inside p last.exit_code) e i)
      Settled-IsIn done_completed s e (x, p, g) =
          inl (inl x, g ∙ uncounted w.tracker.active_pipelines)
      Settled-IsIn done_error s e (x, p, g) = inl (inr x, g ∙ uncounted w.tracker.active_pipelines)
      Settled-IsIn done_cancelled s e (x, p, g) = inr (x, g)

      at_end : 4 * length run_order + 3 ≤ steps es → last.point ≡ ended
      at_end enough =
          ap (λ v. v.point) shown.2
          ∙ moves-ended run_order creation run_stage es (first_view w) refl enough

      -- The thread of an accepted pipeline is at its end after 4 n + 3 of its steps, n its number of
      -- stages, however many cancellations come between them. The status is then completed, error or
      -- cancelled, and the counter of active pipelines is as before the request, but one higher if
      -- the status is cancelled.
      pub execute_pipeline-settles :
          4 * length run_order + 3 ≤ steps es
          → (last.point ≡ ended)
            × (s : PipelineState) × (lookup pipeline_id last.world.active ≡ some s)
            × Settled s
      execute_pipeline-settles enough =
          let (s, l, present, r, h) = execute_pipeline-life in
          (at_end enough, s, present, Settled-IsIn l s (at_end enough) h)

      -- At its end, a completed pipeline has run all its stages, and they all returned 0; one in
      -- error has run a beginning of them of which only the last failed, or none for want of the
      -- pipeline object; any other has run a beginning of them, and all of it returned 0.
      pub execute_pipeline-outcome :
          last.point ≡ ended
          → (s : PipelineState) × (lookup pipeline_id last.world.active ≡ some s)
            × Ends run_order creation run_stage s.status (view s last)
      execute_pipeline-outcome e =
          let (s, present, seen) = shown in
          (
            s,
            present,
            subst (λ v. Ends run_order creation run_stage v.status v) (sym seen)
                (Ends-moves run_order creation run_stage es (first_view w) refl refl refl refl
                  (sym (ap (λ v. v.point) seen) ∙ e)),
          )
