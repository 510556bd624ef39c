-- ===== src/Api/Background/Updates.antt =====
-- The status and the counter of active pipelines after each helper of execution.py.
use concept_microservice.Prelude.{
  ℕ, ℤ, pos, negsuc, ◌+ℤ◌, String, Option, none, some, ◌≡◌, refl, sym, ◌∙◌, inl, inr, List, [], ◌∷◌,
  lookup, insert, lookup-insert, if◌then◌else◌, eq_iff, str_eq, Bool-cases,
}
use mathlib.Core.Path.{subst}
use concept_microservice.Values.{is_zero}
use concept_microservice.Api.Tracker.{
  Tracker, pipeline_completed, pipeline_failed, stage_completed, stage_failed, all_completed,
}
use concept_microservice.Api.State.{
  Status, completed, failed, error, cancelled, Failure, PipelineState, World, sync_to_db,
  when_active, Change, on_stage, on_percent, on_index, on_completed, no_updates, any_update, stored,
  update_pipeline_status, update_pipeline_progress, update_pipeline_completion,
  update_pipeline_error,
}
use concept_microservice.Api.Background.{is_live, cancel_pipeline, cancel_found}

abbrev pub less_one : ℤ → ℤ
less_one n = n +ℤ negsuc 0

all_completed-gauge :
    (stages : List String) (t : Tracker)
    → (all_completed stages t).active_pipelines ≡ t.active_pipelines
unfolding stage_completed
all_completed-gauge [] t = refl
all_completed-gauge (stage ∷ stages) t =
    all_completed-gauge stages (stage_completed stage (pos 0) t)

pub lookup-put :
    (k : String) (s : PipelineState) (m : List (String × PipelineState))
    → lookup k (insert k s m) ≡ some s
lookup-put k s m = lookup-insert k k s m ∙ (rw ((eq_iff k k).1 refl) refl)

-- progress does not touch the status
on_stage-status : (o : Option String) (c : Change) → (on_stage o c).0.status ≡ c.0.status
on_stage-status none c = refl
on_stage-status (some stage) c = refl

on_percent-status : (o : Option (ℕ × ℕ)) (c : Change) → (on_percent o c).0.status ≡ c.0.status
on_percent-status none c = refl
on_percent-status (some percent) c = refl

on_index-status : (o : Option ℕ) (c : Change) → (on_index o c).0.status ≡ c.0.status
on_index-status none c = refl
on_index-status (some i) (s, u) =
    on_percent-status _
      (record s { current_stage_index = i }, record u { current_stage_index = some i })

on_completed-status :
    (o : Option (List String)) (c : Change) → (on_completed o c).0.status ≡ c.0.status
on_completed-status none c = refl
on_completed-status (some stages) c = refl

-- After an action the pipeline `k` has a state, with the status `status`, and `gauge` is counted.
abbrev pub Has : String → World → Status → ℤ → Type 0
Has k w status gauge =
    (s : PipelineState) × (lookup k w.active ≡ some s)
    × (s.status ≡ status)
    × (w.tracker.active_pipelines ≡ gauge)

module _ (k : String) (w : World) (s : PipelineState) (h : lookup k w.active ≡ some s) where
  abbrev gauge : ℤ
  gauge = w.tracker.active_pipelines

  pub Has-when_active :
      (f : PipelineState → World) {status : Status} {n : ℤ}
      → Has k (f s) status n
      → Has k (when_active (lookup k w.active) w f) status n
  Has-when_active f {status = status} {n = n} p =
      subst (λ found. Has k (when_active found w f) status n) (sym h) p

  pub Has-update_pipeline_status :
      (status : Status) → Has k (update_pipeline_status k status w) status gauge
  unfolding update_pipeline_status sync_to_db
  Has-update_pipeline_status status = Has-when_active _ (_, lookup-put k _ w.active, refl, refl)

  pub Has-update_pipeline_completion :
      (exit_code : ℤ) (stages : List String) (now : ℕ)
      → Has k
          (update_pipeline_completion k exit_code stages now w)
          (if is_zero exit_code then completed else failed)
          (less_one gauge)
  unfolding update_pipeline_completion sync_to_db pipeline_completed pipeline_failed
  Has-update_pipeline_completion exit_code stages now =
      Has-when_active _ (elim (Bool-cases (is_zero exit_code)) [
        | inl e ↦ rw e (_, lookup-put k _ w.active, refl, all_completed-gauge stages _)
        | inr e ↦ rw e (_, lookup-put k _ w.active, refl, refl)
      ])

  pub Has-update_pipeline_error :
      (failure : Failure) (stage : Option String) (now : ℕ)
      → Has k (update_pipeline_error k failure stage now w) error (less_one gauge)
  unfolding update_pipeline_error sync_to_db pipeline_failed stage_failed
  Has-update_pipeline_error failure none now =
      Has-when_active _ (_, lookup-put k _ w.active, refl, refl)
  Has-update_pipeline_error failure (some stage) now =
      Has-when_active _ (elim (Bool-cases (str_eq stage "")) [
        | inl e ↦ rw e (_, lookup-put k _ w.active, refl, refl)
        | inr e ↦ rw e (_, lookup-put k _ w.active, refl, refl)
      ])

  pub Has-cancel_pipeline :
      (now : ℕ)
      → Has k
          (cancel_pipeline k now none w).1
          (if is_live s.status then cancelled else s.status)
          gauge
  unfolding cancel_pipeline sync_to_db
  Has-cancel_pipeline now =
      subst
        (λ found.
          Has k (cancel_found k now none w found).1
            (if is_live s.status then cancelled else s.status) gauge)
        (sym h)
        (elim (Bool-cases (is_live s.status)) [
          | inl e ↦ rw e (_, lookup-put k _ w.active, refl, refl)
          | inr e ↦ rw e (s, h, refl, refl)
        ])

  pub Has-stored : (c : Change) → Has k (stored k c w) c.0.status gauge
  unfolding sync_to_db
  Has-stored c = elim (Bool-cases (any_update c.1)) [
    | inl e ↦ rw e (c.0, lookup-put k _ w.active, refl, refl)
    | inr e ↦ rw e (c.0, lookup-put k _ w.active, refl, refl)
  ]

  pub Has-update_pipeline_progress :
      (stage : Option String) (index : Option ℕ) (done_stages : Option (List String))
      (percent : Option (ℕ × ℕ))
      → Has k (update_pipeline_progress k stage index done_stages percent w) s.status gauge
  unfolding update_pipeline_progress sync_to_db
  Has-update_pipeline_progress stage index done_stages percent =
      Has-when_active _
        (subst (λ status. Has k (stored k change w) status gauge) same (Has-stored change))
    where
      change : Change
      change =
          on_percent percent
            (on_completed done_stages (on_index index (on_stage stage (s, no_updates))))

      same : change.0.status ≡ s.status
      same =
          on_percent-status percent _
          ∙ on_completed-status done_stages _
          ∙ on_index-status index _
          ∙ on_stage-status stage _
