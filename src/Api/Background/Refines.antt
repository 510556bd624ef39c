-- ===== src/Api/Background/Refines.antt =====
-- The thread follows the machine of views.
use concept_microservice.Prelude.{
  ℕ, suc, ◌*◌, ℤ, String, none, some, ◌≡◌, refl, sym, inl, inr, List, [], ◌∷◌, ◌++◌, lookup, length,
  if◌then◌else◌, Bool-cases,
}
use mathlib.Core.Path.{subst}
use concept_microservice.Values.{is_zero}
use concept_microservice.Api.State.{Status, running, PipelineState}
use concept_microservice.Api.Background.{
  Creation, built, unbuilt, build_raises, StageRun, exits, stage_raises, Point, begin, create,
  check, enter, execute, advance, fail, ended, Thread, is_cancelled, created, after_stage,
  is_stopped, step_at, Event, step, cancel, happen, run,
}
use concept_microservice.Api.Background.Updates.{
  Has, Has-update_pipeline_status, Has-update_pipeline_completion, Has-update_pipeline_error,
  Has-update_pipeline_progress, Has-cancel_pipeline,
}
use concept_microservice.Api.Background.Machine.{View, view, made, after, move_at, move, moves}

-- what the thread's own variables and the world's show
abbrev rebuilt : Thread → Status → ℤ → View
rebuilt t status gauge = record {
  status = status;
  point = t.point;
  completed_stages = t.completed_stages;
  exit_code = t.exit_code;
  ran = t.ran;
  gauge = gauge;
}

module _ (pipeline_id : String) (stages : List String) (creation : Creation)
    (run_stage : String → StageRun) where
  abbrev pub HasState : Thread → PipelineState → Type 0
  HasState t s = lookup pipeline_id t.world.active ≡ some s

  -- the pipeline has a state, and `v` is what is seen of it
  abbrev pub Shows : Thread → View → Type 0
  Shows t v = (s : PipelineState) × HasState t s × (view s t ≡ v)

  Shows-Has :
      (t : Thread) {status : Status} {n : ℤ}
      → Has pipeline_id t.world status n
      → Shows t (rebuilt t status n)
  Shows-Has t (s, present, e, g) = (s, present, λ i. rebuilt t (e i) (g i))

  abbrev next : Point → ℕ → Thread → Thread
  next = step_at pipeline_id stages creation run_stage

  Shows-step_at :
      (p : Point) (now : ℕ) (t : Thread) (s : PipelineState)
      → HasState t s
      → Shows
          (step_at pipeline_id stages creation run_stage p now t)
          (move_at stages creation run_stage p (view s t))
  unfolding step_at move_at
  Shows-step_at begin now t s h =
      Shows-Has (next begin now t) (Has-update_pipeline_status pipeline_id t.world s h running)
  Shows-step_at create now t s h = made-Shows creation
    where
      made-Shows :
          (c : Creation)
          → Shows
              (created pipeline_id stages creation run_stage c t)
              (made stages creation run_stage c (view s t))
      made-Shows built = (s, h, refl)
      made-Shows unbuilt = (s, h, refl)
      made-Shows (build_raises e) = (s, h, refl)
  Shows-step_at (check i []) now t s h =
      Shows-Has (next (check i []) now t)
        (Has-update_pipeline_completion pipeline_id t.world s h t.exit_code stages now)
  Shows-step_at (check i (stage ∷ rest)) now t s h =
      subst
        (λ found.
          Shows
            (if is_stopped found
              then record t { point = ended }
              else record t { point = enter i stage rest })
            (if is_cancelled s.status
              then record (view s t) { point = ended }
              else record (view s t) { point = enter i stage rest }))
        (sym h)
        (elim (Bool-cases (is_cancelled s.status)) [
          | inl e ↦ rw e (s, h, refl)
          | inr e ↦ rw e (s, h, refl)
        ])
  Shows-step_at (enter i stage rest) now t s h =
      Shows-Has (next (enter i stage rest) now t)
        (Has-update_pipeline_progress pipeline_id t.world s h (some stage) (some i) none none)
  Shows-step_at (execute i stage rest) now t s h = ran-Shows (run_stage stage)
    where
      ran-Shows :
          (r : StageRun)
          → Shows
              (after_stage pipeline_id stages creation run_stage r i stage rest t)
              (after stages creation run_stage r i stage rest (view s t))
      ran-Shows (exits code) = elim (Bool-cases (is_zero code)) [
        | inl e ↦ rw e (s, h, refl)
        | inr e ↦ rw e (s, h, refl)
      ]
      ran-Shows (stage_raises e) = (s, h, refl)
  Shows-step_at (advance i stage rest) now t s h = Shows-Has (next (advance i stage rest) now t) (
      Has-update_pipeline_progress pipeline_id t.world s h none none
        (some (t.completed_stages ++ stage ∷ [])) (some (suc i * 100, length stages)))
  Shows-step_at (fail failure stage) now t s h =
      Shows-Has (next (fail failure stage) now t)
        (Has-update_pipeline_error pipeline_id t.world s h failure stage now)
  Shows-step_at ended now t s h = (s, h, refl)

  Shows-happen :
      (e : Event) (now : ℕ) (t : Thread) (v : View)
      → Shows t v
      → Shows
          (happen pipeline_id stages creation run_stage e now t)
          (move stages creation run_stage e v)
  unfolding happen move
  Shows-happen e now t v (s, h, seen) =
      subst
        (λ v.
          Shows (happen pipeline_id stages creation run_stage e now t)
            (move stages creation run_stage e v))
        seen (here e)
    where
      here :
          (e : Event)
          → Shows
              (happen pipeline_id stages creation run_stage e now t)
              (move stages creation run_stage e (view s t))
      here step = Shows-step_at t.point now t s h
      here cancel =
          Shows-Has (happen pipeline_id stages creation run_stage cancel now t)
            (Has-cancel_pipeline pipeline_id t.world s h now)

  -- Whatever the order of the thread's steps and the cancellations, what is seen of the pipeline
  -- follows the machine of views.
  pub Shows-run :
      (es : List (ℕ × Event)) (t : Thread) (v : View)
      → Shows t v
      → Shows
          (run pipeline_id stages creation run_stage es t)
          (moves stages creation run_stage es v)
  unfolding run moves
  Shows-run [] t v h = h
  Shows-run ((now, e) ∷ es) t v h = Shows-run es _ _ (Shows-happen e now t v h)
