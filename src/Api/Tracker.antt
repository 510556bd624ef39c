-- ===== src/Api/Tracker.antt =====
-- graph-worker/graphrag-service/src/app/api/stages/metrics.py: the counters of the stages API.
use concept_microservice.Prelude.{ℤ, pos, negsuc, ◌+ℤ◌, String, List, [], ◌∷◌}

-- each counter as its value or the labels of its increments
pub record Tracker : Type 0 where
  pub active_pipelines : ℤ
  pub pipeline_executions : List (String × String)
  pub pipeline_durations : List (String × ℤ)
  pub stage_executions : List (String × String)
  pub stage_durations : List (String × ℤ)
  pub errors : List (String × String)

unfoldable pub pipeline_started : String → Tracker → Tracker
pipeline_started pipeline t = record t {
  active_pipelines = t.active_pipelines +ℤ pos 1;
  pipeline_executions = (pipeline, "started") ∷ t.pipeline_executions;
}

unfoldable pub pipeline_completed : String → ℤ → Tracker → Tracker
pipeline_completed pipeline duration_seconds t = record t {
  active_pipelines = t.active_pipelines +ℤ negsuc 0;
  pipeline_executions = (pipeline, "completed") ∷ t.pipeline_executions;
  pipeline_durations = (pipeline, duration_seconds) ∷ t.pipeline_durations;
}

unfoldable pub pipeline_failed : String → String → Tracker → Tracker
pipeline_failed pipeline error_type t = record t {
  active_pipelines = t.active_pipelines +ℤ negsuc 0;
  pipeline_executions = (pipeline, "failed") ∷ t.pipeline_executions;
  errors = (error_type, "_pipeline") ∷ t.errors;
}

unfoldable pub stage_completed : String → ℤ → Tracker → Tracker
stage_completed stage duration_seconds t = record t {
  stage_executions = (stage, "completed") ∷ t.stage_executions;
  stage_durations = (stage, duration_seconds) ∷ t.stage_durations;
}

unfoldable pub stage_failed : String → String → Tracker → Tracker
stage_failed stage error_type t = record t {
  stage_executions = (stage, "failed") ∷ t.stage_executions;
  errors = (error_type, stage) ∷ t.errors;
}

abbrev pub all_completed : List String → Tracker → Tracker
all_completed [] t = t
all_completed (stage ∷ stages) t = all_completed stages (stage_completed stage (pos 0) t)
