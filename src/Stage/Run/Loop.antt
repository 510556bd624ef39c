-- ===== src/Stage/Run/Loop.antt =====
-- The loop over the documents: what it counts, and what it leaves alone.
use concept_microservice.Prelude.{
  ℕ, zero, suc, ◌+◌, ◌≤◌, false, Option, none, some, List, [], ◌∷◌, length, ◌≡◌, refl, ◌∙◌, inl,
  inr, arith, Bool-cases,
}
use concept_microservice.Prelude.Effect.{Outcome, ok, raise, Exec, catch, ◌>>◌}
use concept_microservice.Stage.Run.{
  Stats, StageMetrics, StageState, document_done, document_failed, process_doc, process_docs,
  beyond,
}

pub not_raised : {E : Type 0} (e : E) → (r : Outcome E Unit) → r ≡ raise e → ¬ (r ≡ ok tt)
not_raised e r q h = cc

module _ {D E : Type 0} (handle_doc : D → Exec Stats E Unit) where
  -- `handle_doc` leaves the two counts to the loop
  abbrev pub LeavesCounts : Type 0
  LeavesCounts =
      (d : D) (s : Stats)
      → ((handle_doc d s).1.processed ≡ s.processed) × ((handle_doc d s).1.failed ≡ s.failed)

  -- the loop returns, and every document was processed or failed
  pub record Handled (n : ℕ) (s : StageState) (r : Outcome E Unit × StageState) : Type 0 where
    pub returned : r.0 ≡ ok tt
    pub all_handled :
        r.1.stats.processed + r.1.stats.failed ≡ s.stats.processed + s.stats.failed + n
    pub processed_counted :
        r.1.metrics.documents_processed + s.stats.processed
        ≡ s.metrics.documents_processed + r.1.stats.processed
    pub failed_counted :
        r.1.metrics.documents_failed + s.stats.failed
        ≡ s.metrics.documents_failed + r.1.stats.failed

  -- the counters of whole runs
  pub record SameStage (m k : StageMetrics) : Type 0 where
    pub same_started : m.stage_started ≡ k.stage_started
    pub same_completed : m.stage_completed ≡ k.stage_completed
    pub same_failed : m.stage_failed ≡ k.stage_failed
    pub same_durations : m.stage_durations ≡ k.stage_durations

  Handled-process_doc :
      LeavesCounts → (d : D) (s : StageState) → Handled 1 s (process_doc handle_doc d s)
  unfolding process_doc
  Handled-process_doc leaves d s =
      go (handle_doc d s.stats).0 (handle_doc d s.stats).1 (leaves d s.stats)
    where
      go :
          (r : Outcome E Unit) (t : Stats)
          → (t.processed ≡ s.stats.processed) × (t.failed ≡ s.stats.failed)
          → Handled 1 s
              (catch ((λ w. (r, record s { stats = t })) >> document_done) document_failed s)
      go (ok u) t h = record {
        returned = refl;
        all_handled = omega (arith, h.0, h.1);
        processed_counted = omega (arith, h.0);
        failed_counted = omega (arith, h.1);
      }
      go (raise e) t h = record {
        returned = refl;
        all_handled = omega (arith, h.0, h.1);
        processed_counted = omega (arith, h.0);
        failed_counted = omega (arith, h.1);
      }

  abbrev pub Within : Option ℕ → ℕ → Type 0
  Within none n = Unit
  Within (some m) n = n ≤ m

  not_beyond :
      (maximum : Option ℕ) (i n : ℕ) → Within maximum (i + suc n) → beyond maximum i ≡ false
  not_beyond none i n h = refl
  not_beyond (some zero) i n h = refl
  not_beyond (some (suc m)) i n h = ground arith

  Within-next :
      (maximum : Option ℕ) (i n : ℕ) → Within maximum (i + suc n) → Within maximum (suc i + n)
  Within-next none i n h = tt
  Within-next (some m) i n h = omega arith

  pub Handled-process_docs :
      LeavesCounts
      → (maximum : Option ℕ) (i : ℕ) (docs : List D) (s : StageState)
      → Within maximum (i + length docs)
      → Handled (length docs) s (process_docs handle_doc maximum i docs s)
  unfolding process_docs
  Handled-process_docs leaves maximum i [] s h = record {
    returned = refl;
    all_handled = omega arith;
    processed_counted = omega arith;
    failed_counted = omega arith;
  }
  Handled-process_docs leaves maximum i (d ∷ docs) s h = rw (not_beyond maximum i (length docs) h) (
      go (process_doc handle_doc d s).0 (process_doc handle_doc d s).1
        (Handled-process_doc leaves d s)
        (Handled-process_docs leaves maximum (suc i) docs (process_doc handle_doc d s).1
          (Within-next maximum i (length docs) h)))
    where
      go :
          (r : Outcome E Unit) (t : StageState)
          → Handled 1 s (r, t)
          → Handled (length docs) t (process_docs handle_doc maximum (suc i) docs t)
          → Handled
              (suc (length docs))
              s
              (((λ w. (r, t)) >> process_docs handle_doc maximum (suc i) docs) s)
      go (raise e) t a b = absurd (not_raised e (raise e) refl a.returned)
      go (ok u) t a b = record {
        returned = b.returned;
        all_handled = omega (arith, a.all_handled, b.all_handled);
        processed_counted = omega (arith, a.processed_counted, b.processed_counted);
        failed_counted = omega (arith, a.failed_counted, b.failed_counted);
      }

  -- whatever `handle_doc` does, the loop returns and leaves the counters of whole runs alone
  pub record Aside (s : StageState) (r : Outcome E Unit × StageState) : Type 0 where
    pub returned : r.0 ≡ ok tt
    pub same_stage : SameStage r.1.metrics s.metrics

  same_as_before : (m : StageMetrics) → SameStage m m
  same_as_before m = record {
    same_started = refl;
    same_completed = refl;
    same_failed = refl;
    same_durations = refl;
  }

  Aside-process_doc : (d : D) (s : StageState) → Aside s (process_doc handle_doc d s)
  unfolding process_doc
  Aside-process_doc d s = go (handle_doc d s.stats).0 (handle_doc d s.stats).1
    where
      go :
          (r : Outcome E Unit) (t : Stats)
          → Aside s (catch ((λ w. (r, record s { stats = t })) >> document_done) document_failed s)
      go (ok u) t = record {
        returned = refl;
        same_stage = record {
          same_started = refl;
          same_completed = refl;
          same_failed = refl;
          same_durations = refl;
        };
      }
      go (raise e) t = record {
        returned = refl;
        same_stage = record {
          same_started = refl;
          same_completed = refl;
          same_failed = refl;
          same_durations = refl;
        };
      }

  pub Aside-process_docs :
      (maximum : Option ℕ) (i : ℕ) (docs : List D) (s : StageState)
      → Aside s (process_docs handle_doc maximum i docs s)
  unfolding process_docs
  Aside-process_docs maximum i [] s = record {
    returned = refl;
    same_stage = same_as_before s.metrics;
  }
  Aside-process_docs maximum i (d ∷ docs) s = elim (Bool-cases (beyond maximum i)) [
    | inl e ↦ rw e (record { returned = refl; same_stage = same_as_before s.metrics })
    | inr e ↦ rw e (
        go (process_doc handle_doc d s).0 (process_doc handle_doc d s).1 (Aside-process_doc d s)
          (Aside-process_docs maximum (suc i) docs (process_doc handle_doc d s).1))
  ]
    where
      go :
          (r : Outcome E Unit) (t : StageState)
          → Aside s (r, t)
          → Aside t (process_docs handle_doc maximum (suc i) docs t)
          → Aside s (((λ w. (r, t)) >> process_docs handle_doc maximum (suc i) docs) s)
      go (raise e) t a b = absurd (not_raised e (raise e) refl a.returned)
      go (ok u) t a b = record {
        returned = b.returned;
        same_stage = record {
          same_started = b.same_stage.same_started ∙ a.same_stage.same_started;
          same_completed = b.same_stage.same_completed ∙ a.same_stage.same_completed;
          same_failed = b.same_stage.same_failed ∙ a.same_stage.same_failed;
          same_durations = b.same_stage.same_durations ∙ a.same_stage.same_durations;
        };
      }
