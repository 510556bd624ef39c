-- ===== src/Api/State.antt =====
-- graph-worker/graphrag-service/src/app/api/stages: the state of a pipeline and the helpers of
-- execution.py that update it. `synced` holds the writes handed to
-- `_sync_to_db`, the newest first; what the database does with them is left out. Times are natural
-- numbers, and percentages fractions. The list `failed_stages`, which nothing writes to, the
-- config, the metadata, annotations and the history of executions are left out.
use concept_microservice.Prelude.{
  ℕ, ◌*◌, ℤ, pos, sub_ℕ, String, Bool, true, false, ◌||◌, Option, none, some, List, ◌∷◌, lookup,
  insert, length, ltb, str_eq, if◌then◌else◌,
}
use concept_microservice.Values.{is_zero}
use concept_microservice.Api.Tracker.{
  Tracker, pipeline_completed, pipeline_failed, stage_completed, stage_failed, all_completed,
}

pub data Status : Type 0 where
  starting running completed failed error cancelled interrupted : Status

-- the messages of `_run_pipeline_background`
pub data Failure : Type 0 where
  not_created : Failure
  stage_failed_with_code : String → Failure
  exception : String → Failure

pub record Progress : Type 0 where
  pub total_stages : ℕ
  pub completed_stages : ℕ
  pub percent : ℕ × ℕ

pub record PipelineState : Type 0 where
  pub pipeline_id : String
  pub pipeline : String
  pub status : Status
  pub started_timestamp : ℕ
  pub stages : List String
  pub current_stage : Option String
  pub current_stage_index : ℕ
  pub completed_stages : List String
  pub progress : Progress
  pub error : Option Failure
  pub error_stage : Option String
  pub exit_code : Option ℤ
  pub completed_timestamp : Option ℕ
  pub duration_seconds : Option ℤ
  pub input_video_count : Option ℕ

-- the dict `updates` of `_update_pipeline_progress`
pub record Updates : Type 0 where
  pub current_stage : Option String
  pub current_stage_index : Option ℕ
  pub completed_stages : Option (List String)
  pub progress : Option Progress

pub data Write : Type 0 where
  whole : PipelineState → Write
  only_status : Status → Write
  changes : Updates → Write

-- `_active_pipelines`, the tracker and the writes
pub record World : Type 0 where
  pub active : List (String × PipelineState)
  pub tracker : Tracker
  pub synced : List (String × Write)

unfoldable pub sync_to_db : String → Write → World → World
sync_to_db pipeline_id write w = record w { synced = (pipeline_id, write) ∷ w.synced }

abbrev put : String → PipelineState → World → World
put pipeline_id s w = record w { active = insert pipeline_id s w.active }

-- `if pipeline_id in _active_pipelines`
abbrev pub when_active : Option PipelineState → World → (PipelineState → World) → World
when_active none w f = w
when_active (some s) w f = f s

-- `_update_pipeline_status`
unfoldable pub update_pipeline_status : String → Status → World → World
unfolding sync_to_db
update_pipeline_status pipeline_id status w = sync_to_db pipeline_id (only_status status) (
    when_active (lookup pipeline_id w.active) w
      (λ s. put pipeline_id (record s { status = status }) w))

abbrev pub Change : Type 0
Change = PipelineState × Updates

abbrev pub on_stage : Option String → Change → Change
on_stage none c = c
on_stage (some stage) (s, u) =
    (record s { current_stage = some stage }, record u { current_stage = some stage })

abbrev pub on_percent : Option (ℕ × ℕ) → Change → Change
on_percent none c = c
on_percent (some percent) (s, u) =
    let progress = record s.progress { percent = percent } in
    (record s { progress = progress }, record u { progress = some progress })

abbrev pub on_index : Option ℕ → Change → Change
on_index none c = c
on_index (some i) (s, u) =
    let total = s.progress.total_stages in
    on_percent (if ltb 0 total then some (i * 100, total) else none)
      (record s { current_stage_index = i }, record u { current_stage_index = some i })

abbrev pub on_completed : Option (List String) → Change → Change
on_completed none c = c
on_completed (some stages) (s, u) =
    let progress = record s.progress { completed_stages = length stages } in
    (
      record s { completed_stages = stages; progress = progress },
      record u { completed_stages = some stages; progress = some progress },
    )

abbrev pub no_updates : Updates
no_updates = record {
  current_stage = none;
  current_stage_index = none;
  completed_stages = none;
  progress = none;
}

abbrev given {ℓ} : {A : Type ℓ} → Option A → Bool
given none = false
given (some a) = true

-- `if updates:`
abbrev pub any_update : Updates → Bool
any_update u =
    given u.current_stage
    || (given u.current_stage_index || (given u.completed_stages || given u.progress))

abbrev pub stored : String → Change → World → World
stored pipeline_id (s, u) w =
    let w' = put pipeline_id s w in
    if any_update u then sync_to_db pipeline_id (changes u) w' else w'

-- `_update_pipeline_progress`
unfoldable pub update_pipeline_progress :
    String → Option String → Option ℕ → Option (List String) → Option (ℕ × ℕ) → World → World
unfolding sync_to_db
update_pipeline_progress pipeline_id stage index done_stages percent w =
    when_active (lookup pipeline_id w.active) w (λ s.
      stored pipeline_id
        (on_percent percent
          (on_completed done_stages (on_index index (on_stage stage (s, no_updates)))))
        w)

abbrev closed : PipelineState → Status → ℕ → PipelineState
closed s status now = record s {
  status = status;
  completed_timestamp = some now;
  duration_seconds = some (sub_ℕ now s.started_timestamp);
}

abbrev succeeded : PipelineState → List String → ℕ → PipelineState
succeeded s stages now = record (closed s completed now) {
  exit_code = some (pos 0);
  completed_stages = stages;
  progress = record s.progress { completed_stages = length stages; percent = (100, 1) };
}

-- `_update_pipeline_completion`
unfoldable pub update_pipeline_completion : String → ℤ → List String → ℕ → World → World
unfolding sync_to_db pipeline_completed pipeline_failed stage_completed
update_pipeline_completion pipeline_id exit_code stages now w =
    when_active (lookup pipeline_id w.active) w (λ s.
      let duration = sub_ℕ now s.started_timestamp in
      if is_zero exit_code
      then sync_to_db pipeline_id (whole (succeeded s stages now))
          (record (put pipeline_id (succeeded s stages now) w) {
            tracker = all_completed stages (pipeline_completed s.pipeline duration w.tracker);
          })
      else let s' = record (closed s failed now) { exit_code = some exit_code } in
        sync_to_db pipeline_id (whole s') (record (put pipeline_id s' w) {
          tracker = pipeline_failed s.pipeline "exit_code_nonzero" w.tracker;
        }))

-- `if stage:`
abbrev failed_stage : Option String → Tracker → Tracker
failed_stage none t = t
failed_stage (some stage) t = if str_eq stage "" then t else stage_failed stage "str" t

-- `_update_pipeline_error`. The error is a `str` at every call, and so is the type that is counted.
unfoldable pub update_pipeline_error : String → Failure → Option String → ℕ → World → World
unfolding sync_to_db pipeline_failed stage_failed
update_pipeline_error pipeline_id failure stage now w =
    when_active (lookup pipeline_id w.active) w (λ s.
      let s' = record (closed s error now) { error = some failure; error_stage = stage } in
      sync_to_db pipeline_id (whole s') (record (put pipeline_id s' w) {
        tracker = failed_stage stage (pipeline_failed s.pipeline "str" w.tracker);
      }))
