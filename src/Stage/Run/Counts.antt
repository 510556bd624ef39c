-- ===== src/Stage/Run/Counts.antt =====
-- What a run counts.
use concept_microservice.Prelude.{
  ℕ, ◌+◌, ℤ, pos, Bool, true, false, Option, none, some, List, [], ◌∷◌, length, length-take, ◌≡◌,
  refl, sym, ◌⊎◌, inl, inr, arith, Bool-cases,
}
use mathlib.Core.Path.{subst}
use concept_microservice.Prelude.Effect.{Outcome, ok, raise, pure, lift, catch, ◌>>=◌, ◌>>◌}
use concept_microservice.Stage.Run.{
  StageMetrics, StageState, StageConfig, Methods, counting, process_docs, limited, use_concurrent,
  concurrently, completed, sequentially, run_docs, fatal, started, run,
}
use concept_microservice.Stage.Run.Loop.{
  not_raised, LeavesCounts, Handled, Within, Handled-process_docs, Aside, Aside-process_docs,
}

module _ {D E : Type 0} (stage : Methods D E) (config : StageConfig) (use_tpm : Bool) where
  -- the run completed, it broke, or it is neither, with no documents or in a concurrent mode
  pub data Verdict (m : StageMetrics) (docs : List D) : Outcome E ℤ → StageMetrics → Type 0 where
    complete :
        {k : StageMetrics}
        → k.stage_completed ≡ m.stage_completed + 1
        → k.stage_failed ≡ m.stage_failed
        → k.stage_durations ≡ m.stage_durations + 1
        → Verdict m docs (ok (pos 0)) k
    broken :
        {k : StageMetrics}
        → k.stage_completed ≡ m.stage_completed
        → k.stage_failed ≡ m.stage_failed + 1
        → k.stage_durations ≡ m.stage_durations + 1
        → Verdict m docs (ok (pos 1)) k
    uncounted :
        {k : StageMetrics} {code : ℤ}
        → (docs ≡ []) ⊎ (use_concurrent config.concurrency ≡ true)
        → k.stage_completed ≡ m.stage_completed
        → k.stage_failed ≡ m.stage_failed
        → k.stage_durations ≡ m.stage_durations
        → Verdict m docs (ok code) k

  -- the documents to handle, none if the stage does not get that far
  abbrev pub to_handle : Outcome E Unit → Outcome E (List D) → List D
  to_handle (ok u) (ok docs) = limited config.maximum docs
  to_handle setup docs = []

  module _ (s : StageState) where
    abbrev begun : StageState
    begun = record s { metrics = started s.metrics }

    abbrev Accounts : List D → Outcome E ℤ × StageState → Type 0
    Accounts docs r =
        (r.1.metrics.stage_started ≡ s.metrics.stage_started + 1)
        × Verdict s.metrics docs r.0 r.1.metrics

    concurrently-Accounts :
        (docs : List D)
        → use_concurrent config.concurrency ≡ true
        → (b : Bool) (custom : Option (List D → Outcome E ℤ))
        → Accounts docs (catch (concurrently stage b custom docs) fatal begun)
    concurrently-Accounts docs c true custom = (omega arith, uncounted (inr c) refl refl refl)
    concurrently-Accounts docs c false none = (omega arith, uncounted (inr c) refl refl refl)
    concurrently-Accounts docs c false (some custom) = go (custom docs)
      where
        go : (r : Outcome E ℤ) → Accounts docs (catch (lift r) fatal begun)
        go (ok code) = (omega arith, uncounted (inr c) refl refl refl)
        go (raise e) = (omega arith, broken refl (omega arith) (omega arith))

    sequentially-Accounts :
        (docs : List D) → Accounts docs (catch (sequentially stage config docs) fatal begun)
    unfolding sequentially
    sequentially-Accounts docs =
        let p = process_docs stage.handle_doc config.maximum 0 docs begun in
        go p.0 p.1 (Aside-process_docs stage.handle_doc config.maximum 0 docs begun) stage.finalize
      where
        go :
            (r : Outcome E Unit) (t : StageState)
            → Aside stage.handle_doc begun (r, t)
            → (f : Outcome E Unit)
            → Accounts docs
                (catch ((λ w. (r, t)) >> lift f >> counting completed >> pure (pos 0)) fatal begun)
        go (raise e) t a f = absurd (not_raised e (raise e) refl a.returned)
        go (ok u) t a (ok f) = (
          omega (arith, a.same_stage.same_started),
          complete (omega (arith, a.same_stage.same_completed)) a.same_stage.same_failed
              (omega (arith, a.same_stage.same_durations)),
        )
        go (ok u) t a (raise e) = (
          omega (arith, a.same_stage.same_started),
          broken a.same_stage.same_completed (omega (arith, a.same_stage.same_failed))
              (omega (arith, a.same_stage.same_durations)),
        )

    run_docs-Accounts :
        (docs : List D) → Accounts docs (catch (run_docs stage config use_tpm docs) fatal begun)
    unfolding run_docs
    run_docs-Accounts [] = (omega arith, uncounted (inl refl) refl refl refl)
    run_docs-Accounts (d ∷ docs) = elim (Bool-cases (use_concurrent config.concurrency)) [
      | inl e ↦ rw e (concurrently-Accounts (d ∷ docs) e use_tpm stage.run_concurrent)
      | inr e ↦ rw e (sequentially-Accounts (d ∷ docs))
    ]

    -- A run counts one start. It then counts one completion and returns 0, or counts one failure and
    -- returns 1, each with one duration; or it counts none of these, and then it has no documents to
    -- handle or is configured with more than one worker.
    pub run-Verdict :
        let r = run stage config use_tpm s in
        (r.1.metrics.stage_started ≡ s.metrics.stage_started + 1)
        × Verdict s.metrics (to_handle stage.setup stage.iter_docs) r.0 r.1.metrics
    unfolding run
    run-Verdict = go stage.setup stage.iter_docs
      where
        go :
            (setup : Outcome E Unit) (docs : Outcome E (List D))
            → Accounts (to_handle setup docs) (
                catch
                  (lift setup >> lift docs >>= λ docs.
                    run_docs stage config use_tpm (limited config.maximum docs))
                  fatal
                  begun)
        go (raise e) docs = (omega arith, broken refl (omega arith) (omega arith))
        go (ok u) (raise e) = (omega arith, broken refl (omega arith) (omega arith))
        go (ok u) (ok docs) = run_docs-Accounts (limited config.maximum docs)

    abbrev pub HandlesAll : ℕ → Outcome E ℤ × StageState → Type 0
    HandlesAll n r =
        (r.0 ≡ ok (pos 0))
        × (r.1.stats.processed + r.1.stats.failed ≡ s.stats.processed + s.stats.failed + n)
        × (r.1.metrics.documents_processed + s.stats.processed
            ≡ s.metrics.documents_processed + r.1.stats.processed)
        × (r.1.metrics.documents_failed + s.stats.failed
            ≡ s.metrics.documents_failed + r.1.stats.failed)

    limited-Within :
        (maximum : Option ℕ) (docs : List D)
        → Within stage.handle_doc maximum (0 + length (limited maximum docs))
    limited-Within none docs = tt
    limited-Within (some n) docs = omega (arith, length-take n docs)

    sequentially-HandlesAll :
        (docs : List D)
        → stage.finalize ≡ ok tt
        → Handled stage.handle_doc
            (length docs)
            begun
            (process_docs stage.handle_doc config.maximum 0 docs begun)
        → HandlesAll (length docs) (catch (sequentially stage config docs) fatal begun)
    unfolding sequentially
    sequentially-HandlesAll docs f h =
        let p = process_docs stage.handle_doc config.maximum 0 docs begun in
        go p.0 p.1 h stage.finalize f
      where
        go :
            (r : Outcome E Unit) (t : StageState)
            → Handled stage.handle_doc (length docs) begun (r, t)
            → (f : Outcome E Unit) → f ≡ ok tt
            → HandlesAll
                (length docs)
                (catch ((λ w. (r, t)) >> lift f >> counting completed >> pure (pos 0)) fatal begun)
        go (raise e) t a f q = absurd (not_raised e (raise e) refl a.returned)
        go (ok u) t a (ok f) q = (refl, a.all_handled, a.processed_counted, a.failed_counted)
        go (ok u) t a (raise e) q = absurd (not_raised e (raise e) refl q)

    run_docs-HandlesAll :
        (docs : List D)
        → stage.finalize ≡ ok tt
        → use_concurrent config.concurrency ≡ false
        → Handled stage.handle_doc
            (length docs)
            begun
            (process_docs stage.handle_doc config.maximum 0 docs begun)
        → HandlesAll (length docs) (catch (run_docs stage config use_tpm docs) fatal begun)
    unfolding run_docs
    run_docs-HandlesAll [] f c h = (refl, omega arith, omega arith, omega arith)
    run_docs-HandlesAll (d ∷ docs) f c h = rw c (sequentially-HandlesAll (d ∷ docs) f h)

    abbrev answer : Outcome E Unit → Outcome E (List D) → Outcome E ℤ × StageState
    answer setup docs =
        catch
          (lift setup >> lift docs >>= λ docs.
            run_docs stage config use_tpm (limited config.maximum docs))
          fatal begun

    -- A sequential run whose set-up and finalization succeed, of a stage whose `handle_doc` leaves
    -- the two counts alone, returns 0 and handles each document up to the maximum: the numbers of
    -- processed and of failed documents grow together by their number, as do the two counters.
    pub run-all_handled :
        (docs : List D)
        → stage.setup ≡ ok tt
        → stage.iter_docs ≡ ok docs
        → stage.finalize ≡ ok tt
        → use_concurrent config.concurrency ≡ false
        → LeavesCounts stage.handle_doc
        → HandlesAll (length (limited config.maximum docs)) (run stage config use_tpm s)
    unfolding run
    run-all_handled docs a b f c leaves =
        let n = length (limited config.maximum docs) in
        subst (λ setup. HandlesAll n (answer setup stage.iter_docs)) (sym a)
          (subst (λ docs. HandlesAll n (answer (ok tt) docs)) (sym b)
            (run_docs-HandlesAll (limited config.maximum docs) f c (
              Handled-process_docs stage.handle_doc leaves config.maximum 0
                (limited config.maximum docs) begun (limited-Within config.maximum docs))))
