-- ===== src/Stage/Run.antt =====
-- graph-worker/graphrag-service/src/core/base/stage.py: `BaseStage.run` with a config. What a
-- stage overrides and the concurrent modes are arguments; `handle_doc` may change the counts of
-- the stage. The maximum and the concurrency are natural numbers.
pub mod Loop
pub mod Counts
use concept_microservice.Prelude.{
  ℕ, zero, suc, ℤ, pos, Bool, true, false, Option, none, some, List, [], ◌∷◌, leb, ltb, take,
  if◌then◌else◌,
}
use concept_microservice.Prelude.Effect.{Outcome, ok, Exec, pure, lift, catch, ◌>>=◌, ◌>>◌}

-- `self.stats`
pub record Stats : Type 0 where
  pub processed : ℕ
  pub skipped : ℕ
  pub failed : ℕ
  pub updated : ℕ

-- the counters of the stage's label
pub record StageMetrics : Type 0 where
  pub stage_started : ℕ
  pub stage_completed : ℕ
  pub stage_failed : ℕ
  pub stage_durations : ℕ
  pub documents_processed : ℕ
  pub documents_failed : ℕ

pub record StageState : Type 0 where
  pub stats : Stats
  pub metrics : StageMetrics

pub record StageConfig : Type 0 where
  pub maximum : Option ℕ
  pub concurrency : Option ℕ

-- The methods of the stage, and `_run_concurrent`, which not every stage has.
pub record Methods (D E : Type 0) : Type 0 where
  pub setup : Outcome E Unit
  pub iter_docs : Outcome E (List D)
  pub handle_doc : D → Exec Stats E Unit
  pub finalize : Outcome E Unit
  pub run_concurrent_with_tpm : List D → ℤ
  pub run_concurrent : Option (List D → Outcome E ℤ)

abbrev pub M : Type 0 → Type 0 → Type 0
M E A = Exec StageState E A

-- `self.config.max and i >= int(self.config.max)`
abbrev pub beyond : Option ℕ → ℕ → Bool
beyond none i = false
beyond (some zero) i = false
beyond (some (suc n)) i = leb (suc n) i

abbrev pub use_concurrent : Option ℕ → Bool
use_concurrent none = false
use_concurrent (some n) = ltb 1 n

abbrev pub completed : StageMetrics → StageMetrics
completed m = record m {
  stage_completed = suc m.stage_completed;
  stage_durations = suc m.stage_durations;
}

abbrev pub stage_broke : StageMetrics → StageMetrics
stage_broke m = record m {
  stage_failed = suc m.stage_failed;
  stage_durations = suc m.stage_durations;
}

abbrev pub started : StageMetrics → StageMetrics
started m = record m { stage_started = suc m.stage_started }

abbrev pub limited : {D : Type 0} → Option ℕ → List D → List D
limited none docs = docs
limited (some n) docs = take n docs

module _ {E : Type 0} where
  abbrev pub counting : (StageMetrics → StageMetrics) → M E Unit
  counting f s = (ok tt, record s { metrics = f s.metrics })

  abbrev pub on_stats : Exec Stats E Unit → M E Unit
  on_stats m s = let (r, stats) = m s.stats in (r, record s { stats = stats })

  abbrev pub document_done : M E Unit
  document_done s = (
    ok tt,
    record s {
      stats = record s.stats { processed = suc s.stats.processed };
      metrics = record s.metrics { documents_processed = suc s.metrics.documents_processed };
    },
  )

  abbrev pub document_failed : E → M E Unit
  document_failed e s = (
    ok tt,
    record s {
      stats = record s.stats { failed = suc s.stats.failed };
      metrics = record s.metrics { documents_failed = suc s.metrics.documents_failed };
    },
  )

  abbrev pub fatal : E → M E ℤ
  fatal e = counting stage_broke >> pure (pos 1)

module _ {D E : Type 0} where
  -- one round of the loop: the `try` around `handle_doc`
  unfoldable pub process_doc : (D → Exec Stats E Unit) → D → M E Unit
  process_doc handle_doc d = catch (on_stats (handle_doc d) >> document_done) document_failed

  unfoldable pub process_docs : (D → Exec Stats E Unit) → Option ℕ → ℕ → List D → M E Unit
  unfolding process_doc
  process_docs handle_doc maximum i [] = pure tt
  process_docs handle_doc maximum i (d ∷ docs) =
      if beyond maximum i
      then pure tt
      else process_doc handle_doc d >> process_docs handle_doc maximum (suc i) docs

  abbrev pub concurrently : Methods D E → Bool → Option (List D → Outcome E ℤ) → List D → M E ℤ
  concurrently stage true custom docs = pure (stage.run_concurrent_with_tpm docs)
  concurrently stage false none docs = pure (stage.run_concurrent_with_tpm docs)
  concurrently stage false (some custom) docs = lift (custom docs)

  unfoldable pub sequentially : Methods D E → StageConfig → List D → M E ℤ
  unfolding process_docs
  sequentially stage config docs =
      process_docs stage.handle_doc config.maximum 0 docs
      >> lift stage.finalize
      >> counting completed
      >> pure (pos 0)

  -- what follows the slice by the maximum; `use_tpm` is the environment's switch
  unfoldable pub run_docs : Methods D E → StageConfig → Bool → List D → M E ℤ
  unfolding sequentially
  run_docs stage config use_tpm [] = pure (pos 0)
  run_docs stage config use_tpm (d ∷ docs) =
      if use_concurrent config.concurrency
      then concurrently stage use_tpm stage.run_concurrent (d ∷ docs)
      else sequentially stage config (d ∷ docs)

  -- `run`
  unfoldable pub run : Methods D E → StageConfig → Bool → M E ℤ
  unfolding run_docs
  run stage config use_tpm =
      counting started
      >> catch
          (lift stage.setup >> lift stage.iter_docs >>= λ docs.
            run_docs stage config use_tpm (limited config.maximum docs))
          fatal
