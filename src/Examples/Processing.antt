-- ===== src/Examples/Processing.antt =====
-- Runs of a stage, of core/base/stage.py.
use concept_microservice.Prelude.{
  ℕ, zero, suc, ◌+◌, ◌*◌, ◌≤◌, pos, String, true, Option, none, some, List, [], ◌∷◌, map, length,
  All, ◌≡◌, refl, arith, if◌then◌else◌, ◌==◌,
}
use concept_microservice.Prelude.Effect.{ok, raise, Exec}
use concept_microservice.Stage.Run.{Stats, StageState, StageConfig, Methods, run}
use concept_microservice.Stage.Run.Counts.{Verdict, run-Verdict, HandlesAll, run-all_handled}
use concept_microservice.Stage.Tpm.{Tracking, Done, Work, batches, run_concurrent_with_tpm}
use concept_microservice.Stage.Tpm.Batches.{
  IsSchedule, AllScheduled, all_docs, run_concurrent_with_tpm-stores,
}

-- the second document raises, the third is counted as updated
abbrev handle : ℕ → Exec Stats String Unit
handle d s = if d == 2 then (raise "no text", s) else (ok tt, record s { updated = suc s.updated })

abbrev stage : Methods ℕ String
stage = record {
  setup = ok tt;
  iter_docs = ok (1 ∷ 2 ∷ 3 ∷ 4 ∷ []);
  handle_doc = handle;
  finalize = ok tt;
  run_concurrent_with_tpm = λ docs. pos 0;
  run_concurrent = none;
}

abbrev three_at_most : StageConfig
three_at_most = record { maximum = some 3; concurrency = some 1 }

abbrev fresh : StageState
fresh = record {
  stats = record { processed = 0; skipped = 0; failed = 0; updated = 0 };
  metrics = record {
    stage_started = 0;
    stage_completed = 0;
    stage_failed = 0;
    stage_durations = 0;
    documents_processed = 0;
    documents_failed = 0;
  };
}

counted_run_example :
    let r = run stage three_at_most true fresh in
    (r.1.metrics.stage_started ≡ 1)
    × Verdict stage three_at_most true fresh.metrics (1 ∷ 2 ∷ 3 ∷ []) r.0 r.1.metrics
counted_run_example = run-Verdict stage three_at_most true fresh

leaves :
    (d : ℕ) (s : Stats)
    → ((handle d s).1.processed ≡ s.processed) × ((handle d s).1.failed ≡ s.failed)
leaves d s = ground arith

handled_example : HandlesAll stage three_at_most true fresh 3 (run stage three_at_most true fresh)
handled_example =
    run-all_handled stage three_at_most true fresh (1 ∷ 2 ∷ 3 ∷ 4 ∷ []) refl refl refl refl leaves

abbrev work : Work ℕ ℕ String
work = record {
  estimate_tokens = λ d. ok (d + 1000);
  process_doc_with_tracking = λ d. if d == 2 then raise "no text" else ok (some (d * 10));
  store_batch_results = λ results docs. ok tt;
}

abbrev done_at : ℕ → ℕ → Done
done_at i t = record { index = i; reserved_at = t; ended_at = t + 5 }

-- the second document of a batch is done before the first
abbrev backwards : ℕ → List Done
backwards i = done_at 1 100 ∷ done_at 0 101 ∷ []

covers_two : IsSchedule (backwards 0) 2
covers_two zero h = refl
covers_two (suc zero) h = refl
covers_two (suc (suc i)) h = absurd (omega (arith, h))

covers_one : IsSchedule (backwards 1) 1
covers_one zero h = refl
covers_one (suc i) h = absurd (omega (arith, h))

covers_all : AllScheduled {D = ℕ} backwards 0 (batches 3 2 (1 ∷ 2 ∷ 3 ∷ []))
unfolding batches
covers_all = (covers_two, (covers_one, tt))

stores_example :
    (calls : List (List (Option ℕ) × List ℕ)) × (s : Tracking) × (run_concurrent_with_tpm work
        950000
        (some 1)
        backwards
        (1 ∷ 2 ∷ 3 ∷ [])
        0
      ≡ (pos 0, some (calls, s)))
    × (all_docs (map (λ c. c.1) calls) ≡ 1 ∷ 2 ∷ 3 ∷ [])
    × (all_docs (map (λ c. c.0) calls) ≡ some 10 ∷ none ∷ some 30 ∷ [])
    × All (λ c. (1 ≤ length c.1) × (length c.1 ≤ 2)) calls
stores_example =
    run_concurrent_with_tpm-stores work 950000 (some 1) backwards (1 ∷ 2 ∷ 3 ∷ []) 0 covers_all
      (λ results docs. refl)
