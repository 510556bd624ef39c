-- ===== src/Api/Execution/Started.antt =====
-- What `execute_pipeline` leaves.
use concept_microservice.Prelude.{
  ℕ, pos, ◌+ℤ◌, String, Bool, true, false, not, Option, none, some, ◌≡◌, refl, ◌≢◌, List, [], ◌∷◌,
  lookup, lookup-insert, eq_iff, arith, ◌∙◌, if◌then◌else◌,
}
use concept_microservice.Prelude.Effect.{Outcome, ok, raise}
use concept_microservice.Values.{Fields}
use concept_microservice.Api.Fields.{Metadata, ConfigClass}
use concept_microservice.Api.Validation.{validate_pipeline_config}
use concept_microservice.Api.Validation.Plan.{
  IsValidRequest, validate_pipeline_config-IsValidRequest,
}
use concept_microservice.Api.Tracker.{pipeline_started}
use concept_microservice.Api.State.{starting, PipelineState, World, sync_to_db}
use concept_microservice.Api.Background.{Thread, new_thread, begin}
use concept_microservice.Api.Background.Updates.{lookup-put}
use concept_microservice.Api.Background.Machine.{View, view}
use concept_microservice.Api.Execution.{
  Answer, invalid_configuration, filter_failed, no_videos, accepted, planned_stages, initial_state,
  register, with_filter, execute_pipeline,
}

abbrev pub first_view : World → View
first_view w = record {
  status = starting;
  point = begin;
  completed_stages = [];
  exit_code = pos 0;
  ran = [];
  gauge = w.tracker.active_pipelines +ℤ pos 1;
}

module _ (field_metadata : List (String × Metadata)) (config_class : String → Option ConfigClass)
    (pipeline_id : String) (now : ℕ) (pipeline : String) (stages : List String)
    (config : List (String × Fields)) (filter : Outcome String (Option (List String)))
    (w : World) where
  abbrev pub plan : List String
  plan =
      planned_stages
        (validate_pipeline_config field_metadata config_class pipeline stages config).execution_plan

  abbrev pub Requested : Type 0
  Requested = IsValidRequest field_metadata config_class pipeline stages config

  -- What an accepted request leaves: in the world `w'` that it answers with, its thread `t` starts;
  -- the pipeline is stored as starting with its stages, and the others are as they were.
  pub record Begun (w' : World) (t : Thread) : Type 0 where
    pub requested : Requested
    pub videos : Option (List String)
    pub selected : filter ≡ ok videos
    pub has_videos : videos ≢ some []
    pub same_world : t.world ≡ w'
    pub state : PipelineState
    pub stored : lookup pipeline_id w'.active ≡ some state
    pub seen : view state t ≡ first_view w
    pub its_stages : state.stages ≡ plan
    pub its_pipeline : state.pipeline ≡ pipeline
    pub others :
        (other : String) → other ≢ pipeline_id → lookup other w'.active ≡ lookup other w.active

  -- A request is refused and leaves everything as it was, for one of three reasons, or is begun.
  pub data Leaves : Answer × World × Option Thread → Type 0 where
    not_valid :
        ¬ Requested
        → Leaves (
          invalid_configuration
              (validate_pipeline_config field_metadata config_class pipeline stages config),
          w,
          none,
        )
    bad_filter : (e : String) → Requested → filter ≡ raise e → Leaves (filter_failed e, w, none)
    without_videos : Requested → filter ≡ ok (some []) → Leaves (no_videos, w, none)
    begun : {w' : World} {t : Thread} → Begun w' t → Leaves (accepted pipeline_id plan, w', some t)

  Begun-register :
      (videos : Option (List String))
      → Requested
      → filter ≡ ok videos
      → videos ≢ some []
      → let w' = register pipeline_id (initial_state pipeline_id pipeline plan videos now) w in
        Begun w' (new_thread w')
  unfolding sync_to_db pipeline_started
  Begun-register videos requested selected has_videos = record {
    requested = requested;
    videos = videos;
    selected = selected;
    has_videos = has_videos;
    same_world = refl;
    state = initial_state pipeline_id pipeline plan videos now;
    stored = lookup-put pipeline_id _ w.active;
    seen = refl;
    its_stages = refl;
    its_pipeline = refl;
    others = λ other differs.
        lookup-insert pipeline_id other (initial_state pipeline_id pipeline plan videos now)
          w.active
        ∙ ground (arith, differs, eq_iff pipeline_id other);
  }

  Leaves-with_filter :
      (answered : Outcome String (Option (List String)))
      → filter ≡ answered
      → Requested
      → Leaves (with_filter pipeline_id now pipeline plan answered w)
  unfolding sync_to_db pipeline_started
  Leaves-with_filter (raise e) f requested = bad_filter e requested f
  Leaves-with_filter (ok none) f requested = begun (Begun-register none requested f (λ e. cc))
  Leaves-with_filter (ok (some [])) f requested = without_videos requested f
  Leaves-with_filter (ok (some (v ∷ vs))) f requested =
      begun (Begun-register (some (v ∷ vs)) requested f (λ e. cc))

  -- A request is accepted exactly if it is valid and its filter gives no empty list of videos. It
  -- then stores its pipeline as starting, with the planned stages, counts it, leaves the other
  -- pipelines as they were, and starts a thread in the world that it leaves. Any other request is
  -- answered with the reason, leaves everything as it was, and starts no thread.
  pub Leaves-execute_pipeline :
      Leaves (
        execute_pipeline field_metadata config_class pipeline_id now pipeline stages config filter
          w)
  unfolding execute_pipeline
  Leaves-execute_pipeline =
      go (validate_pipeline_config field_metadata config_class pipeline stages config).valid refl
    where
      go :
          (b : Bool)
          → (validate_pipeline_config field_metadata config_class pipeline stages config).valid ≡ b
          → Leaves (
              if not b
              then (
                invalid_configuration
                    (validate_pipeline_config field_metadata config_class pipeline stages config),
                w,
                none,
              )
              else with_filter pipeline_id now pipeline plan filter w)
      go true e = Leaves-with_filter filter refl (
          (validate_pipeline_config-IsValidRequest field_metadata config_class pipeline stages
              config).0
            e)
      go false e = not_valid (λ r. absurd (
          ground (
            arith,
            e,
            (validate_pipeline_config-IsValidRequest field_metadata config_class pipeline stages
                  config).1
                r,
          )))
