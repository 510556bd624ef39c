-- ===== src/Pipeline/Runner.antt =====
-- graph-worker/graphrag-service/src/domain/shared/pipeline_runner.py: `PipelineRunner.run`, which
-- runs the stages of a pipeline in order. The classes of the stages are parameters, and a stage is
-- referred to by its registry key.
pub mod Totals
pub mod Stops
use concept_microservice.Prelude.{
  ℕ, zero, suc, ◌+◌, ℤ, pos, negsuc, sub_ℕ, String, Bool, true, false, Option, none, some, List, [],
  ◌∷◌, ◌++◌, length, if◌then◌else◌,
}
use concept_microservice.Prelude.Effect.{Outcome, ok, raise}
use concept_microservice.Text.{Text, codes, text_eq, lower, strip}

-- the keys of STAGE_REGISTRY
abbrev pub stage_registry : List String
stage_registry =
    "clean" ∷ "chunk" ∷ "enrich" ∷ "ingest" ∷ "embed" ∷ "redundancy" ∷ "trust" ∷ "compress"
    ∷ "backfill_transcript" ∷ "graph_extraction" ∷ "entity_resolution" ∷ "graph_construction"
    ∷ "community_detection" ∷ []

pub record StageSpec (C : Type 0) : Type 0 where
  pub stage : String
  pub config : Option C

-- the exceptions that the `try` around a stage catches
pub data Crash : Type 0 where
  unknown_stage : String → Crash
  missing_config_class : String → Crash
  config_mismatch : String → Crash
  other : String → Crash

-- The stage classes by their keys: what constructing one does, its `ConfigCls`, the default
-- config, `isinstance`, the stage's name, and its run as the i-th stage.
pub record Stages (C : Type 0) : Type 0 where
  pub start : String → Outcome Crash Unit
  pub config_class : String → Option String
  pub default_config : String → Outcome Crash C
  pub is_instance : C → String → Bool
  pub name : String → String
  pub run : ℕ → String → C → Outcome Crash ℤ

pub record PipelineError : Type 0 where
  pub stage : String
  pub stage_index : ℕ
  pub total_stages : ℕ
  pub stages_completed : ℕ
  pub cause : Crash

-- the counters of the pipeline's type; `stage_failures` has the label of each increment
pub record Metrics : Type 0 where
  pub runs : ℕ
  pub completed : ℕ
  pub failed : ℕ
  pub durations : ℕ
  pub stage_failures : List String

-- `exit_codes`, `totals`, the counters, and the numbers of the last log line: succeeded, stages
-- and failed
pub record Progress : Type 0 where
  pub exit_codes : List ℤ
  pub stages : ℕ
  pub failed : ℕ
  pub metrics : Metrics
  pub report : Option (ℤ × (ℕ × ℕ))

abbrev and_then : {A B : Type 0} → Outcome Crash A → (A → Outcome Crash B) → Outcome Crash B
and_then (ok a) f = f a
and_then (raise e) f = raise e

abbrev key_in : List String → Text → String → Outcome Crash String
key_in [] key ref = raise (unknown_stage ref)
key_in (k ∷ ks) key ref = if text_eq (codes k) key then ok k else key_in ks key ref

-- `_resolve_stage_class`
unfoldable pub resolve_stage_class : String → Outcome Crash String
resolve_stage_class ref = key_in stage_registry (lower (strip (codes ref))) ref

abbrev required : String → Option String → Outcome Crash String
required key none = raise (missing_config_class key)
required key (some cls) = ok cls

abbrev pub is_zero_code : ℤ → Bool
is_zero_code (pos zero) = true
is_zero_code n = false

module _ {C : Type 0} (env : Stages C) where
  abbrev config_of : String → String → Option C → Outcome Crash C
  config_of key cls none = env.default_config key
  config_of key cls (some c) = if env.is_instance c cls then ok c else raise (config_mismatch key)

  -- the body of the `try`, up to the exit code
  unfoldable pub run_stage : ℕ → StageSpec C → Outcome Crash ℤ
  unfolding resolve_stage_class
  run_stage i spec = and_then (resolve_stage_class spec.stage) λ key. and_then (env.start key) λ _.
      and_then (required key (env.config_class key))
        λ cls. and_then (config_of key cls spec.config) (env.run i key)

  -- `stage.name`; a stage that ran has a class
  abbrev label_of : Outcome Crash String → String
  label_of (ok key) = env.name key
  label_of (raise e) = ""

  abbrev pub succeeded : ℤ → Progress → Progress
  succeeded code p = record {
    exit_codes = p.exit_codes ++ code ∷ [];
    stages = suc p.stages;
    failed = p.failed;
    metrics = p.metrics;
    report = p.report;
  }

  abbrev pub stage_failure : String → Metrics → Metrics
  stage_failure label m = record {
    runs = m.runs;
    completed = m.completed;
    failed = m.failed;
    durations = m.durations;
    stage_failures = m.stage_failures ++ label ∷ [];
  }

  unfoldable pub ran_label : StageSpec C → String
  unfolding resolve_stage_class
  ran_label spec = label_of (resolve_stage_class spec.stage)

  abbrev pub exited : StageSpec C → ℤ → Progress → Progress
  exited spec code p = record {
    exit_codes = p.exit_codes ++ code ∷ [];
    stages = suc p.stages;
    failed = suc p.failed;
    metrics = stage_failure (ran_label spec) p.metrics;
    report = p.report;
  }

  abbrev pub crashed : StageSpec C → List ℤ → Progress → Progress
  crashed spec codes p = record {
    exit_codes = p.exit_codes ++ codes;
    stages = p.stages;
    failed = suc p.failed;
    metrics = stage_failure spec.stage p.metrics;
    report = p.report;
  }

  abbrev pub fail_pipeline : Metrics → Metrics
  fail_pipeline m = record {
    runs = m.runs;
    completed = m.completed;
    failed = suc m.failed;
    durations = suc m.durations;
    stage_failures = m.stage_failures;
  }

  abbrev pub complete_pipeline : Metrics → Metrics
  complete_pipeline m = record {
    runs = m.runs;
    completed = suc m.completed;
    failed = m.failed;
    durations = suc m.durations;
    stage_failures = m.stage_failures;
  }

  abbrev pub with_metrics : Metrics → Option (ℤ × (ℕ × ℕ)) → Progress → Progress
  with_metrics m report p = record {
    exit_codes = p.exit_codes;
    stages = p.stages;
    failed = p.failed;
    metrics = m;
    report = report;
  }

  -- what follows the loop
  unfoldable pub finish : Progress → Outcome PipelineError ℤ × Progress
  finish p =
      let report = some (sub_ℕ p.stages p.failed, (p.stages, p.failed)) in
      elim p.failed [
        | zero ↦ (ok (pos 0), with_metrics (complete_pipeline p.metrics) report p)
        | suc n ↦ (ok (pos 1), with_metrics (fail_pipeline p.metrics) report p)
      ]

  abbrev pub pipeline_error : ℕ → ℕ → StageSpec C → ℕ → Crash → PipelineError
  pipeline_error i total spec done e = record {
    stage = spec.stage;
    stage_index = i;
    total_stages = total;
    stages_completed = done;
    cause = e;
  }

  module _ (stop_on_error : Bool) (total : ℕ) where
    -- the loop from its i-th stage
    unfoldable pub run_from : ℕ → List (StageSpec C) → Progress → Outcome PipelineError ℤ × Progress
    unfolding finish
    run_from i [] p = finish p
    run_from i (spec ∷ specs) p = elim (run_stage i spec) [
      | ok code ↦ elim (is_zero_code code) [
        | true ↦ run_from (suc i) specs (succeeded code p)
        | false ↦ elim stop_on_error [
          | true ↦
              let q = exited spec code p in
              (ok code, with_metrics (fail_pipeline q.metrics) q.report q)
          | false ↦ run_from (suc i) specs (exited spec code p)
        ]
      ]
      | raise e ↦ elim stop_on_error [
        | true ↦
            let q = crashed spec [] p in
            (
              raise (pipeline_error i total spec q.stages e),
              with_metrics (fail_pipeline q.metrics) q.report q,
            )
        | false ↦ run_from (suc i) specs (crashed spec (pos 1 ∷ []) p)
      ]
    ]

  abbrev pub begin : Metrics → Progress
  begin m = record {
    exit_codes = [];
    stages = 0;
    failed = 0;
    metrics = record {
      runs = suc m.runs;
      completed = m.completed;
      failed = m.failed;
      durations = m.durations;
      stage_failures = m.stage_failures;
    };
    report = none;
  }

  -- `run`, on the metrics as they stand
  unfoldable pub run : Bool → List (StageSpec C) → Metrics → Outcome PipelineError ℤ × Progress
  unfolding run_from
  run stop_on_error specs m = run_from stop_on_error (length specs) 1 specs (begin m)
