-- ===== src/Api/Background.antt =====
-- graph-worker/graphrag-service/src/app/api/stages/execution.py: `cancel_pipeline`, and the thread
-- that runs a pipeline, as a machine of one step per section under the lock. A cancellation may
-- come between any two steps; the writes to the database are taken with the section before them.
-- The pipeline object, its stages and the database are arguments. `ran` records the stages that
-- were run, in order.
pub mod Updates
pub mod Machine
pub mod Refines
pub mod Lifecycle
pub mod Ending
pub mod Outcomes
pub mod Uncancelled
use concept_microservice.Prelude.{
  ℕ, suc, ◌*◌, ℤ, pos, sub_ℕ, String, Bool, true, false, not, Option, none, some, List, [], ◌∷◌,
  ◌++◌, lookup, insert, length, if◌then◌else◌,
}
use concept_microservice.Prelude.Effect.{Outcome, ok, raise}
use concept_microservice.Values.{Fields, is_zero}
use concept_microservice.Api.Fields.{Metadata, ConfigClass}
use concept_microservice.Api.Validation.{Validation, ExecutionPlan, validate_pipeline_config}
use concept_microservice.Api.Tracker.{pipeline_started}
use concept_microservice.Api.State.{
  Status, starting, running, completed, failed, error, cancelled, interrupted, Failure, not_created,
  stage_failed_with_code, exception, PipelineState, whole, World, sync_to_db,
  update_pipeline_status, update_pipeline_progress, update_pipeline_completion,
  update_pipeline_error,
}

-- what `_create_pipeline_object` does
pub data Creation : Type 0 where
  built : Creation
  unbuilt : Creation
  build_raises : String → Creation

-- what `run_stage` does
pub data StageRun : Type 0 where
  exits : ℤ → StageRun
  stage_raises : String → StageRun

-- where the thread is: before the status is set, before the object is made, before the test of the
-- cancellation, before the progress of a stage is written, before the stage, after it, before the
-- error is written, at its end
pub data Point : Type 0 where
  begin : Point
  create : Point
  check : ℕ → List String → Point
  enter : ℕ → String → List String → Point
  execute : ℕ → String → List String → Point
  advance : ℕ → String → List String → Point
  fail : Failure → Option String → Point
  ended : Point

pub record Thread : Type 0 where
  pub world : World
  pub point : Point
  pub completed_stages : List String
  pub exit_code : ℤ
  pub ran : List String

abbrev pub is_cancelled : Status → Bool
is_cancelled cancelled = true
is_cancelled status = false

-- `status in ["starting", "running"]`
abbrev pub is_live : Status → Bool
is_live starting = true
is_live running = true
is_live status = false

abbrev pub is_stopped : Option PipelineState → Bool
is_stopped none = false
is_stopped (some s) = is_cancelled s.status

pub data CancelAnswer : Type 0 where
  not_found : CancelAnswer
  not_running : Status → CancelAnswer
  only_in_history : Status → CancelAnswer
  cancellation_requested : CancelAnswer

abbrev stopped : PipelineState → ℕ → PipelineState
stopped s now = record s {
  status = cancelled;
  completed_timestamp = some now;
  duration_seconds = some (sub_ℕ now s.started_timestamp);
}

abbrev in_database : Option Status → CancelAnswer
in_database none = not_found
in_database (some status) = if is_live status then only_in_history status else not_running status

-- what follows the look into `_active_pipelines`
abbrev pub cancel_found :
    String → ℕ → Option Status → World → Option PipelineState → CancelAnswer × World
cancel_found pipeline_id now loaded w none = (in_database loaded, w)
cancel_found pipeline_id now loaded w (some s) =
    if is_live s.status
    then (
      cancellation_requested,
      sync_to_db pipeline_id (whole (stopped s now))
          (record w { active = insert pipeline_id (stopped s now) w.active }),
    )
    else (not_running s.status, w)

-- `cancel_pipeline`; `loaded` is the status in the database
unfoldable pub cancel_pipeline : String → ℕ → Option Status → World → CancelAnswer × World
cancel_pipeline pipeline_id now loaded w =
    cancel_found pipeline_id now loaded w (lookup pipeline_id w.active)

-- what may happen to the pipeline next
pub data Event : Type 0 where
  step : Event
  cancel : Event

module _ (pipeline_id : String) (stages : List String) (creation : Creation)
    (run_stage : String → StageRun) where
  abbrev pub created : Creation → Thread → Thread
  created built t = record t { point = check 0 stages }
  created unbuilt t = record t { point = fail not_created none }
  created (build_raises e) t = record t { point = fail (exception e) none }

  abbrev pub after_stage : StageRun → ℕ → String → List String → Thread → Thread
  after_stage (exits code) i stage rest t =
      let t' = record t { ran = t.ran ++ stage ∷ [] } in
      if is_zero code
      then record t' { point = advance i stage rest }
      else record t' { exit_code = code; point = fail (stage_failed_with_code stage) (some stage) }
  after_stage (stage_raises e) i stage rest t = record t {
    ran = t.ran ++ stage ∷ [];
    point = fail (exception e) (some stage);
  }

  -- one step of `_run_pipeline_background`
  unfoldable pub step_at : Point → ℕ → Thread → Thread
  unfolding update_pipeline_status update_pipeline_progress update_pipeline_completion
      update_pipeline_error
  step_at begin now t = record t {
    world = update_pipeline_status pipeline_id running t.world;
    point = create;
  }
  step_at create now t = created creation t
  step_at (check i []) now t = record t {
    world = update_pipeline_completion pipeline_id t.exit_code stages now t.world;
    point = ended;
  }
  step_at (check i (stage ∷ rest)) now t =
      if is_stopped (lookup pipeline_id t.world.active)
      then record t { point = ended }
      else record t { point = enter i stage rest }
  step_at (enter i stage rest) now t = record t {
    world = update_pipeline_progress pipeline_id (some stage) (some i) none none t.world;
    point = execute i stage rest;
  }
  step_at (execute i stage rest) now t = after_stage (run_stage stage) i stage rest t
  step_at (advance i stage rest) now t =
      let done_stages = t.completed_stages ++ stage ∷ [] in
      record t {
        completed_stages = done_stages;
        world =
            update_pipeline_progress pipeline_id none none (some done_stages)
              (some (suc i * 100, length stages)) t.world;
        point = check (suc i) rest;
      }
  step_at (fail failure stage) now t = record t {
    world = update_pipeline_error pipeline_id failure stage now t.world;
    point = ended;
  }
  step_at ended now t = t

  unfoldable pub happen : Event → ℕ → Thread → Thread
  unfolding step_at cancel_pipeline
  happen step now t = step_at t.point now t
  happen cancel now t = record t { world = (cancel_pipeline pipeline_id now none t.world).1 }

  unfoldable pub run : List (ℕ × Event) → Thread → Thread
  unfolding happen
  run [] t = t
  run ((now, e) ∷ es) t = run es (happen e now t)

abbrev pub new_thread : World → Thread
new_thread w = record {
  world = w;
  point = begin;
  completed_stages = [];
  exit_code = pos 0;
  ran = [];
}
