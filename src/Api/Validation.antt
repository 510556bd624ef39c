-- ===== src/Api/Validation.antt =====
-- graph-worker/graphrag-service/src/app/api/stages/validation.py: the stages of a request, and the
-- groups of constants.py. The table of field metadata and the config classes are arguments, none
-- for a class without one.
use concept_microservice.Prelude.{
  ℕ, String, Bool, true, false, not, ◌&&◌, Option, none, some, List, [], ◌∷◌, ◌++◌, elem, lookup,
  length, str_eq, if◌then◌else◌,
}
pub mod Plan
pub mod Prerequisites
use concept_microservice.Values.{Fields, end}
use concept_microservice.Pipeline.Selection.{stage_order, deps_of, is_empty_list}
use concept_microservice.Pipeline.Runner.{stage_registry}
use concept_microservice.Api.Fields.{
  Metadata, ConfigClass, ConfigError, invalid_pipeline, unknown_stage, stage_pipeline_mismatch,
  no_config_class, validate_stage_config,
}

abbrev pub pipeline_groups : List (String × List String)
pipeline_groups =
    (
      "ingestion",
      "ingest" ∷ "clean" ∷ "chunk" ∷ "enrich" ∷ "embed" ∷ "redundancy" ∷ "trust" ∷ "compress"
          ∷ "backfill_transcript" ∷ [],
    )
    ∷ (
      "graphrag",
      "graph_extraction" ∷ "entity_resolution" ∷ "graph_construction" ∷ "community_detection" ∷ [],
    )
    ∷ []

pub record Warning : Type 0 where
  pub stage : String
  pub dependency : String

pub record ExecutionPlan : Type 0 where
  pub stages : List String
  pub stage_count : ℕ
  pub data_prerequisites_selected : Bool
  pub unselected_prerequisites : List String
  pub execution_order : List String

pub record Validation : Type 0 where
  pub valid : Bool
  pub errors : List ConfigError
  pub warnings : List Warning
  pub execution_plan : Option ExecutionPlan

abbrev pub no_errors : List ConfigError → Bool
no_errors [] = true
no_errors (e ∷ es) = false

-- `_get_stage_pipeline`
unfoldable pub get_stage_pipeline : List (String × List String) → String → String
get_stage_pipeline [] stage = "unknown"
get_stage_pipeline ((pipeline, stages) ∷ groups) stage =
    if elem stage stages then pipeline else get_stage_pipeline groups stage

-- the loop over the stages of step 2
unfoldable pub stage_errors : List String → List String → List ConfigError
unfolding get_stage_pipeline
stage_errors valid_stages [] = []
stage_errors valid_stages (stage ∷ stages) =
    let errors = stage_errors valid_stages stages in
    if not (elem stage stage_registry)
    then unknown_stage stage ∷ errors
    else if not (elem stage valid_stages)
    then stage_pipeline_mismatch stage (get_stage_pipeline pipeline_groups stage) ∷ errors
    else errors

-- The state of the loops of step 3: `missing_deps` and `warnings`.
abbrev pub Missing : Type 0
Missing = List String × List Warning

abbrev pub note : List String → String → String → Missing → Missing
note stages stage dep (missing, warnings) =
    if not (elem dep stages) && not (elem dep missing)
    then (missing ++ dep ∷ [], warnings ++ record { stage = stage; dependency = dep } ∷ [])
    else (missing, warnings)

unfoldable pub note_all : List String → String → List String → Missing → Missing
note_all stages stage [] found = found
note_all stages stage (dep ∷ deps) found = note_all stages stage deps (note stages stage dep found)

unfoldable pub prerequisites : List String → List String → Missing → Missing
unfolding note_all
prerequisites stages [] found = found
prerequisites stages (stage ∷ rest) found =
    prerequisites stages rest (note_all stages stage (deps_of stage) found)

-- `[s for s in order if s in stages]`
unfoldable pub selected_in : List String → List String → List String
selected_in stages [] = []
selected_in stages (s ∷ order) =
    let rest = selected_in stages order in if elem s stages then s ∷ rest else rest

abbrev pub config_of : String → List (String × Fields) → Fields
config_of stage config = elim (lookup stage config) [ none ↦ end | some fields ↦ fields ]

module _ (field_metadata : List (String × Metadata))
    (config_class : String → Option ConfigClass) where
  -- one round of the loop of step 4; a stage without a class is passed over
  abbrev pub planned_errors : List (String × Fields) → String → List ConfigError
  planned_errors config stage = elim (config_class stage) [
    | none ↦ []
    | some cls ↦ validate_stage_config field_metadata stage cls (config_of stage config)
  ]

  unfoldable pub config_errors : List (String × Fields) → List String → List ConfigError
  unfolding lookup
  config_errors config [] = []
  config_errors config (stage ∷ stages) = planned_errors config stage ++ config_errors config stages

  abbrev pub found_in : String → List String → Missing
  found_in pipeline stages =
      if str_eq pipeline "graphrag" then prerequisites stages stages ([], []) else ([], [])

  -- the stages of the plan; STAGE_ORDER belongs to the pipeline, the group to the API
  abbrev pub order_of : String → List String → List String
  order_of pipeline group = if str_eq pipeline "graphrag" then stage_order else group

  abbrev pub planned : List String → Missing → List (String × Fields) → Validation
  planned all_stages (missing_deps, warnings) config =
      let errors = config_errors config all_stages in
      record {
        valid = no_errors errors;
        errors = errors;
        warnings = warnings;
        execution_plan = some (record {
          stages = all_stages;
          stage_count = length all_stages;
          data_prerequisites_selected = is_empty_list missing_deps;
          unselected_prerequisites = missing_deps;
          execution_order = all_stages;
        });
      }

  abbrev pub refused : List ConfigError → Validation
  refused errors = record { valid = false; errors = errors; warnings = []; execution_plan = none }

  abbrev pub checked_in : String → List String → List (String × Fields) → List String → Validation
  checked_in pipeline stages config valid_stages =
      let errors = stage_errors valid_stages stages in
      if not (no_errors errors)
      then refused errors
      else planned (selected_in stages (order_of pipeline valid_stages)) (found_in pipeline stages)
          config

  abbrev pub validated :
      String → List String → List (String × Fields) → Option (List String) → Validation
  validated pipeline stages config none = refused (invalid_pipeline pipeline ∷ [])
  validated pipeline stages config (some valid_stages) =
      checked_in pipeline stages config valid_stages

  -- `validate_pipeline_config`
  unfoldable pub validate_pipeline_config :
      String → List String → List (String × Fields) → Validation
  validate_pipeline_config pipeline stages config =
      validated pipeline stages config (lookup pipeline pipeline_groups)

  abbrev checked_class : String → Fields → Option ConfigClass → List ConfigError
  checked_class stage config none = no_config_class stage ∷ []
  checked_class stage config (some cls) = validate_stage_config field_metadata stage cls config

  -- `validate_stage_config_only`
  unfoldable pub validate_stage_config_only : String → Fields → List ConfigError
  validate_stage_config_only stage config =
      if not (elem stage stage_registry)
      then unknown_stage stage ∷ []
      else checked_class stage config (config_class stage)
