-- ===== src/Examples/Running.antt =====
-- Runs of worker/consumer.py's reconnect loop and of domain/shared/pipeline_runner.py.
use concept_microservice.Prelude.{
  ◌+◌, ℤ, pos, String, true, false, ◌≡◌, ◌↔◌, refl, none, some, List, [], ◌∷◌, arith, str_eq,
  if◌then◌else◌,
}
use concept_microservice.Prelude.Effect.{Outcome, ok, raise}
use concept_microservice.Worker.Reconnect.{
  Round, refused, connected, shut_down, transient, consume, Recovers, consume_bounds, outage,
  consume-outage,
}
use concept_microservice.Pipeline.Runner.{
  StageSpec, Stages, Crash, other, Metrics, run, run_stage, resolve_stage_class,
}
use concept_microservice.Pipeline.Runner.Stops.{AllSucceed, run-AllSucceed, run-stops_at_crash}
use concept_microservice.Pipeline.Runner.Totals.{run-metrics}

abbrev rounds : List Round
rounds =
    refused transient false
    ∷ refused transient false
    ∷ connected transient false
    ∷ refused transient false
    ∷ shut_down
    ∷ []

bounds_example : Recovers rounds (consume 1 rounds)
bounds_example = consume_bounds 1 rounds (omega arith) (omega arith)

outage_example :
    (consume 1 (outage 7 (connected transient false ∷ shut_down ∷ []))).sleeps
    ≡ 1 ∷ 2 ∷ 4 ∷ 8 ∷ 16 ∷ 30 ∷ 30 ∷ 1 ∷ []
unfolding consume
outage_example = consume-outage 7 (shut_down ∷ [])

-- the second stage raises
abbrev exit_of : String → Outcome Crash ℤ
exit_of key = if str_eq key "chunk" then raise (other "timeout") else ok (pos 0)

abbrev stages : Stages String
stages = record {
  start = λ key. ok tt;
  config_class = λ key. some "Config";
  default_config = λ key. ok key;
  is_instance = λ c cls. true;
  name = λ key. key;
  run = λ i key c. exit_of key;
}

abbrev spec_of : String → StageSpec String
spec_of stage = record { stage = stage; config = none }

abbrev specs : List (StageSpec String)
specs = spec_of "clean" ∷ spec_of "chunk" ∷ spec_of "embed" ∷ []

abbrev no_metrics : Metrics
no_metrics = record { runs = 0; completed = 0; failed = 0; durations = 0; stage_failures = [] }

succeeds_example :
    ((run stages true (spec_of "clean" ∷ []) no_metrics).0 ≡ ok (pos 0))
    ↔ AllSucceed stages 1 (spec_of "clean" ∷ [])
succeeds_example = run-AllSucceed stages true (spec_of "clean" ∷ []) no_metrics

crash_example :
    (run stages true specs no_metrics).0
    ≡ raise record {
      stage = "chunk";
      stage_index = 2;
      total_stages = 3;
      stages_completed = 1;
      cause = other "timeout";
    }
unfolding run_stage resolve_stage_class
crash_example =
    run-stops_at_crash stages (spec_of "clean" ∷ []) (spec_of "embed" ∷ []) (spec_of "chunk")
      (other "timeout") no_metrics (refl, tt) refl

metrics_example :
    let r = run stages false specs no_metrics in
    (r.1.metrics.runs ≡ 1)
    × (r.1.metrics.durations ≡ 1)
    × (r.1.metrics.completed + r.1.metrics.failed ≡ 1)
    × ((r.0 ≡ ok (pos 0)) ↔ (r.1.metrics.completed ≡ 1))
metrics_example = run-metrics stages false specs no_metrics
