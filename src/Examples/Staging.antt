-- ===== src/Examples/Staging.antt =====
-- Requests to app/api/stages, and runs of their threads.
use concept_microservice.Prelude.{
  ℕ, pos, ◌+ℤ◌, String, true, ◌≡◌, refl, Option, none, some, List, [], ◌∷◌, ◌++◌, arith, str_eq,
  lookup, if◌then◌else◌,
}
use concept_microservice.Prelude.Effect.{ok}
use concept_microservice.Values.{int, Fields, end, field}
use concept_microservice.Api.Fields.{
  Metadata, ConfigClass, plain, optional, integer, string, validate_stage_config,
}
use concept_microservice.Api.Validation.{
  pipeline_groups, ExecutionPlan, validate_pipeline_config, stage_errors, config_errors,
  selected_in,
}
use concept_microservice.Api.Validation.Plan.{
  IsValidRequest, validate_pipeline_config-IsValidRequest,
}
use concept_microservice.Api.Validation.Prerequisites.{
  IsPlanned, validate_pipeline_config-IsPlanned,
}
use concept_microservice.Api.Tracker.{Tracker}
use concept_microservice.Api.State.{PipelineState, World, completed}
use concept_microservice.Api.Background.{
  Thread, new_thread, built, StageRun, exits, ended, Event, step, cancel, run,
}
use concept_microservice.Api.Background.Machine.{view}
use concept_microservice.Api.Background.Lifecycle.{Life, waiting, ◌⟶*◌, IsIn}
use concept_microservice.Api.Background.Outcomes.{Ends}
use concept_microservice.Api.Background.Uncancelled.{cancels}
use concept_microservice.Api.Execution.{initial_state, register, execute_pipeline}
use concept_microservice.Api.Execution.Started.{Leaves, Leaves-execute_pipeline}
use concept_microservice.Api.Execution.Lives.{
  Settled, execute_pipeline-life, execute_pipeline-settles, execute_pipeline-outcome,
}
use concept_microservice.Api.Execution.Cancels.{execute_pipeline-forgets_cancels}

abbrev field_metadata : List (String × Metadata)
field_metadata =
    (
      "max",
      record { minimum = some (pos 1, pos 0); maximum = some (pos 10000, pos 0); options = none },
    )
    ∷ []

abbrev extraction_class : ConfigClass
extraction_class = ("max", optional (integer ∷ [])) ∷ ("db_name", plain string) ∷ []

abbrev config_class : String → Option ConfigClass
config_class stage = if str_eq stage "graph_extraction" then some extraction_class else none

abbrev selection : List String
selection = "graph_construction" ∷ "graph_extraction" ∷ []

abbrev config : List (String × Fields)
config = ("graph_extraction", field "max" (int (pos 25)) end) ∷ []

abbrev no_calls : Tracker
no_calls = record {
  active_pipelines = pos 0;
  pipeline_executions = [];
  pipeline_durations = [];
  stage_executions = [];
  stage_durations = [];
  errors = [];
}

abbrev idle : World
idle = record { active = []; tracker = no_calls; synced = [] }

request_is_valid :
    (validate_pipeline_config field_metadata config_class "graphrag" selection config).valid ≡ true
unfolding validate_pipeline_config lookup stage_errors config_errors selected_in
    validate_stage_config
request_is_valid = refl

valid_example : IsValidRequest field_metadata config_class "graphrag" selection config
valid_example =
    (validate_pipeline_config-IsValidRequest field_metadata config_class "graphrag" selection
        config).0
      request_is_valid

planned_example :
    (group : List String) × (plan : ExecutionPlan) × (lookup "graphrag" pipeline_groups
      ≡ some group)
    × ((validate_pipeline_config field_metadata config_class "graphrag" selection
          config).execution_plan
        ≡ some plan)
    × IsPlanned field_metadata config_class "graphrag" selection group plan
planned_example =
    validate_pipeline_config-IsPlanned field_metadata config_class "graphrag" selection config
      request_is_valid

abbrev order : List String
order = "graph_extraction" ∷ "graph_construction" ∷ []

abbrev with_stranger : List String
with_stranger = "graph_extraction" ∷ "clean" ∷ []

-- a stage of the other pipeline
refusal_example :
    Leaves field_metadata config_class "p1" 100 "graphrag" with_stranger config (ok none) idle (
      execute_pipeline field_metadata config_class "p1" 100 "graphrag" with_stranger config
        (ok none)
        idle)
refusal_example =
    Leaves-execute_pipeline field_metadata config_class "p1" 100 "graphrag" with_stranger config
      (ok none) idle

refusal_run :
    (execute_pipeline field_metadata config_class "p1" 100 "graphrag" with_stranger config
      (ok none)
      idle).2
    ≡ none
unfolding execute_pipeline validate_pipeline_config lookup stage_errors selected_in
refusal_run = refl

abbrev new : Thread
new = new_thread (register "p1" (initial_state "p1" "graphrag" order none 100) idle)

request_is_accepted :
    (execute_pipeline field_metadata config_class "p1" 100 "graphrag" selection config
      (ok none)
      idle).2
    ≡ some new
unfolding execute_pipeline validate_pipeline_config lookup stage_errors config_errors selected_in
    validate_stage_config
request_is_accepted = refl

-- the second stage fails
abbrev exit_of : String → StageRun
exit_of stage = exits (if str_eq stage "graph_construction" then pos 1 else pos 0)

abbrev ten_steps : List (ℕ × Event)
ten_steps =
    (101, step)
    ∷ (102, step)
    ∷ (103, step)
    ∷ (104, step)
    ∷ (105, step)
    ∷ (106, step)
    ∷ (107, step)
    ∷ (108, step)
    ∷ (109, step)
    ∷ (110, step)
    ∷ []

-- cancelled after two steps
abbrev interrupted_run : List (ℕ × Event)
interrupted_run = (99, step) ∷ (99, step) ∷ (100, cancel) ∷ ten_steps

abbrev ran_by : (String → StageRun) → List (ℕ × Event) → Thread
ran_by run_stage es = run "p1" order built run_stage es new

life_example :
    (s : PipelineState) × (l : Life) × (lookup "p1" (ran_by exit_of interrupted_run).world.active
      ≡ some s)
    × (waiting ⟶* l)
    × IsIn (pos 0 +ℤ pos 1) l (view s (ran_by exit_of interrupted_run))
unfolding validate_pipeline_config lookup stage_errors selected_in
life_example =
    execute_pipeline-life field_metadata config_class "p1" 100 "graphrag" selection config (ok none)
      idle built exit_of new request_is_accepted interrupted_run

settles_example :
    ((ran_by exit_of interrupted_run).point ≡ ended)
    × (s : PipelineState) × (lookup "p1" (ran_by exit_of interrupted_run).world.active ≡ some s)
    × Settled field_metadata config_class "p1" 100 "graphrag" selection config
        (ok none)
        idle
        built
        exit_of
        new
        request_is_accepted
        interrupted_run
        s
unfolding validate_pipeline_config lookup stage_errors selected_in
settles_example =
    execute_pipeline-settles field_metadata config_class "p1" 100 "graphrag" selection config
      (ok none) idle built exit_of new request_is_accepted interrupted_run (omega arith)

outcome_example :
    (s : PipelineState) × (lookup "p1" (ran_by exit_of interrupted_run).world.active ≡ some s)
    × Ends order built exit_of s.status (view s (ran_by exit_of interrupted_run))
unfolding validate_pipeline_config lookup stage_errors selected_in
outcome_example =
    execute_pipeline-outcome field_metadata config_class "p1" 100 "graphrag" selection config
      (ok none) idle built exit_of new request_is_accepted interrupted_run settles_example.0

abbrev all_good : String → StageRun
all_good stage = exits (pos 0)

abbrev early : List (ℕ × Event)
early = cancels (100 ∷ 101 ∷ []) ++ (102, step) ∷ ten_steps

forgets_example :
    (s : PipelineState) × (lookup "p1" (ran_by all_good early).world.active ≡ some s)
    × (s.status ≡ completed)
    × ((ran_by all_good early).ran ≡ order)
unfolding validate_pipeline_config lookup stage_errors selected_in
forgets_example =
    execute_pipeline-forgets_cancels field_metadata config_class "p1" 100 "graphrag" selection
      config (ok none) idle all_good new request_is_accepted (100 ∷ 101 ∷ []) 102 ten_steps tt
      (omega arith) (λ stage. refl)
