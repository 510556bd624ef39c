-- ===== src/Api/Background/Machine.antt =====
-- The thread without its dict: what can be seen of a pipeline, and how it changes.
use concept_microservice.Prelude.{ℕ, suc, ℤ, String, none, some, List, [], ◌∷◌, ◌++◌, if◌then◌else◌}
use concept_microservice.Values.{is_zero}
use concept_microservice.Api.State.{
  Status, running, completed, failed, error, cancelled, not_created, stage_failed_with_code,
  exception, PipelineState,
}
use concept_microservice.Api.Background.{
  Creation, built, unbuilt, build_raises, StageRun, exits, stage_raises, Point, begin, create,
  check, enter, execute, advance, fail, ended, Thread, is_cancelled, is_live, Event, step, cancel,
}
use concept_microservice.Api.Background.Updates.{less_one}

-- `gauge` is the counter of active pipelines.
pub record View : Type 0 where
  pub status : Status
  pub point : Point
  pub completed_stages : List String
  pub exit_code : ℤ
  pub ran : List String
  pub gauge : ℤ

-- the view of a thread whose pipeline has the state `s`
abbrev pub view : PipelineState → Thread → View
view s t = record {
  status = s.status;
  point = t.point;
  completed_stages = t.completed_stages;
  exit_code = t.exit_code;
  ran = t.ran;
  gauge = t.world.tracker.active_pipelines;
}

module _ (stages : List String) (creation : Creation) (run_stage : String → StageRun) where
  abbrev pub made : Creation → View → View
  made built v = record v { point = check 0 stages }
  made unbuilt v = record v { point = fail not_created none }
  made (build_raises e) v = record v { point = fail (exception e) none }

  abbrev pub after : StageRun → ℕ → String → List String → View → View
  after (exits code) i stage rest v =
      let v' = record v { ran = v.ran ++ stage ∷ [] } in
      if is_zero code
      then record v' { point = advance i stage rest }
      else record v' { exit_code = code; point = fail (stage_failed_with_code stage) (some stage) }
  after (stage_raises e) i stage rest v = record v {
    ran = v.ran ++ stage ∷ [];
    point = fail (exception e) (some stage);
  }

  -- a step of the thread
  unfoldable pub move_at : Point → View → View
  move_at begin v = record v { status = running; point = create }
  move_at create v = made creation v
  move_at (check i []) v = record v {
    status = if is_zero v.exit_code then completed else failed;
    point = ended;
    gauge = less_one v.gauge;
  }
  move_at (check i (stage ∷ rest)) v =
      if is_cancelled v.status
      then record v { point = ended }
      else record v { point = enter i stage rest }
  move_at (enter i stage rest) v = record v { point = execute i stage rest }
  move_at (execute i stage rest) v = after (run_stage stage) i stage rest v
  move_at (advance i stage rest) v = record v {
    completed_stages = v.completed_stages ++ stage ∷ [];
    point = check (suc i) rest;
  }
  move_at (fail failure stage) v = record v {
    status = error;
    point = ended;
    gauge = less_one v.gauge;
  }
  move_at ended v = v

  unfoldable pub move : Event → View → View
  unfolding move_at
  move step v = move_at v.point v
  move cancel v = record v { status = if is_live v.status then cancelled else v.status }

  unfoldable pub moves : List (ℕ × Event) → View → View
  unfolding move
  moves [] v = v
  moves ((now, e) ∷ es) v = moves es (move e v)
