-- ===== src/Api/Execution.antt =====
-- graph-worker/graphrag-service/src/app/api/stages/execution.py: the calls of the API that start,
-- report and list pipelines. The filter of the request, the database and the new id are arguments.
pub mod Started
pub mod Lives
pub mod Cancels
use concept_microservice.Prelude.{
  ℕ, suc, ℤ, pos, sub_ℕ, String, not, Option, none, some, List, [], ◌∷◌, lookup, insert, length,
  if◌then◌else◌,
}
use concept_microservice.Prelude.Effect.{Outcome, ok, raise}
use concept_microservice.Values.{Fields}
use concept_microservice.Api.Fields.{Metadata, ConfigClass}
use concept_microservice.Api.Validation.{Validation, ExecutionPlan, validate_pipeline_config}
use concept_microservice.Api.Tracker.{pipeline_started}
use concept_microservice.Api.State.{starting, PipelineState, whole, World, sync_to_db}
use concept_microservice.Api.Background.{Thread, new_thread, is_live}

pub data Answer : Type 0 where
  invalid_configuration : Validation → Answer
  filter_failed : String → Answer
  no_videos : Answer
  accepted : String → List String → Answer

abbrev pub planned_stages : Option ExecutionPlan → List String
planned_stages none = []
planned_stages (some plan) = plan.stages

abbrev video_count : Option (List String) → Option ℕ
video_count none = none
video_count (some []) = none
video_count (some (v ∷ vs)) = some (suc (length vs))

abbrev pub initial_state : String → String → List String → Option (List String) → ℕ → PipelineState
initial_state pipeline_id pipeline stages videos now = record {
  pipeline_id = pipeline_id;
  pipeline = pipeline;
  status = starting;
  started_timestamp = now;
  stages = stages;
  current_stage = none;
  current_stage_index = 0;
  completed_stages = [];
  progress = record { total_stages = length stages; completed_stages = 0; percent = (0, 1) };
  error = none;
  error_stage = none;
  exit_code = none;
  completed_timestamp = none;
  duration_seconds = none;
  input_video_count = video_count videos;
}

abbrev pub register : String → PipelineState → World → World
register pipeline_id s w = sync_to_db pipeline_id (whole s) (record w {
  active = insert pipeline_id s w.active;
  tracker = pipeline_started s.pipeline w.tracker;
})

-- what follows the filter; `none` stands for a request without one
abbrev pub with_videos :
    String
    → ℕ
    → String
    → List String
    → Option (List String)
    → World
    → Answer × World × Option Thread
with_videos pipeline_id now pipeline stages (some []) w = (no_videos, w, none)
with_videos pipeline_id now pipeline stages videos w =
    let w' = register pipeline_id (initial_state pipeline_id pipeline stages videos now) w in
    (accepted pipeline_id stages, w', some (new_thread w'))

abbrev pub with_filter :
    String
    → ℕ
    → String
    → List String
    → Outcome String (Option (List String))
    → World
    → Answer × World × Option Thread
with_filter pipeline_id now pipeline stages (raise e) w = (filter_failed e, w, none)
with_filter pipeline_id now pipeline stages (ok videos) w =
    with_videos pipeline_id now pipeline stages videos w

-- `execute_pipeline`, with the thread that it starts
unfoldable pub execute_pipeline :
    List (String × Metadata)
    → (String → Option ConfigClass)
    → String
    → ℕ
    → String
    → List String
    → List (String × Fields)
    → Outcome String (Option (List String))
    → World
    → Answer × World × Option Thread
unfolding sync_to_db pipeline_started validate_pipeline_config
execute_pipeline field_metadata config_class pipeline_id now pipeline stages config filter w =
    let validation = validate_pipeline_config field_metadata config_class pipeline stages config in
    if not validation.valid
    then (invalid_configuration validation, w, none)
    else with_filter pipeline_id now pipeline (planned_stages validation.execution_plan) filter w

-- `get_pipeline_status`: the state and the elapsed seconds, from the memory or else the database
unfoldable pub get_pipeline_status :
    String → ℕ → Option PipelineState → World → Option (PipelineState × ℤ)
get_pipeline_status pipeline_id now loaded w = elim (lookup pipeline_id w.active) [
  | none ↦ elim loaded [ none ↦ none | some s ↦ some (s, elapsed s now) ]
  | some s ↦ some (s, elapsed s now)
]
  where
    or_zero : Option ℤ → ℤ
    or_zero none = pos 0
    or_zero (some d) = d

    elapsed : PipelineState → ℕ → ℤ
    elapsed s now =
        if is_live s.status then sub_ℕ now s.started_timestamp else or_zero s.duration_seconds

-- `list_active_pipelines`, the states it reports on
unfoldable pub list_active_pipelines : List (String × PipelineState) → List (String × PipelineState)
list_active_pipelines [] = []
list_active_pipelines ((pipeline_id, s) ∷ active) =
    let rest = list_active_pipelines active in
    if is_live s.status then (pipeline_id, s) ∷ rest else rest
