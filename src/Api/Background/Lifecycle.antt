-- ===== src/Api/Background/Lifecycle.antt =====
-- The life of a pipeline as a diagram, and that the thread and the cancellations keep to it.
use concept_microservice.Prelude.{
  ℕ, ℤ, pos, String, ◌≡◌, refl, sym, ap, ◌⊎◌, inl, inr, List, [], ◌∷◌, Bool-cases,
}
use mathlib.Core.Path.{subst}
use concept_microservice.Values.{is_zero}
use concept_microservice.Api.State.{Status, starting, running, completed, error, cancelled}
use concept_microservice.Api.Background.{
  Creation, built, unbuilt, build_raises, StageRun, exits, stage_raises, Point, begin, create,
  check, enter, execute, advance, fail, ended, Event, step, cancel,
}
use concept_microservice.Api.Background.Updates.{less_one}
use concept_microservice.Api.Background.Machine.{View, made, after, move_at, move, moves}

pub data Life : Type 0 where
  waiting waiting_cancelled working stopping done_completed done_error done_cancelled : Life

infix 40 ◌⟶◌ ◌⟶*◌
pub data ◌⟶◌ : Life → Life → Type 0 where
  start : waiting ⟶ working
  cancel_early : waiting ⟶ waiting_cancelled
  forget : waiting_cancelled ⟶ working
  cancel_late : working ⟶ stopping
  complete : working ⟶ done_completed
  break : working ⟶ done_error
  complete_anyway : stopping ⟶ done_completed
  break_anyway : stopping ⟶ done_error
  stop : stopping ⟶ done_cancelled

pub data ◌⟶*◌ : Life → Life → Type 0 where
  here : {l : Life} → l ⟶* l
  then : {l m n : Life} → l ⟶* m → m ⟶ n → l ⟶* n

-- between the start and the end of the thread; the exit code is 0 until a stage fails
abbrev pub Inside : Point → ℤ → Type 0
Inside begin code = ⊥
Inside ended code = ⊥
Inside (fail failure stage) code = Unit
Inside p code = code ≡ pos 0

-- `n` is the counter of active pipelines while the pipeline is counted
abbrev pub IsIn : ℤ → Life → View → Type 0
IsIn n waiting v = (v.status ≡ starting) × (v.point ≡ begin) × (v.gauge ≡ n) × (v.exit_code ≡ pos 0)
IsIn n waiting_cancelled v =
    (v.status ≡ cancelled) × (v.point ≡ begin) × (v.gauge ≡ n) × (v.exit_code ≡ pos 0)
IsIn n working v = (v.status ≡ running) × Inside v.point v.exit_code × (v.gauge ≡ n)
IsIn n stopping v = (v.status ≡ cancelled) × Inside v.point v.exit_code × (v.gauge ≡ n)
IsIn n done_completed v = (v.status ≡ completed) × (v.point ≡ ended) × (v.gauge ≡ less_one n)
IsIn n done_error v = (v.status ≡ error) × (v.point ≡ ended) × (v.gauge ≡ less_one n)
IsIn n done_cancelled v = (v.status ≡ cancelled) × (v.point ≡ ended) × (v.gauge ≡ n)

module _ (stages : List String) (creation : Creation) (run_stage : String → StageRun) (n : ℤ) where
  abbrev Goes : Life → View → Type 0
  Goes l v = (m : Life) × ((l ≡ m) ⊎ (l ⟶ m)) × IsIn n m v

  -- a step inside the thread, of a pipeline that runs or is cancelled
  module _ (l : Life) (status : Status)
      (stay : (v : View) → v.status ≡ status → Inside v.point v.exit_code → v.gauge ≡ n → Goes l v)
      (completes : l ⟶ done_completed) (breaks : l ⟶ done_error)
      (checks : (k : ℕ) (stage : String) (rest : List String) (v : View)
        → v.status ≡ status
        → v.exit_code ≡ pos 0
        → v.gauge ≡ n
        → Goes l (move_at stages creation run_stage (check k (stage ∷ rest)) v)) where
    Goes-move_at :
        (p : Point) (v : View)
        → v.status ≡ status
        → Inside p v.exit_code
        → v.gauge ≡ n
        → Goes l (move_at stages creation run_stage p v)
    unfolding move_at
    Goes-move_at begin v s i g = absurd i
    Goes-move_at ended v s i g = absurd i
    Goes-move_at create v s i g = go creation
      where
        go : (c : Creation) → Goes l (made stages creation run_stage c v)
        go built = stay _ s i g
        go unbuilt = stay _ s tt g
        go (build_raises e) = stay _ s tt g
    Goes-move_at (check k []) v s i g =
        (done_completed, inr completes, (rw i refl, refl, ap less_one g))
    Goes-move_at (check k (stage ∷ rest)) v s i g = checks k stage rest v s i g
    Goes-move_at (enter k stage rest) v s i g = stay _ s i g
    Goes-move_at (execute k stage rest) v s i g = go (run_stage stage)
      where
        go : (r : StageRun) → Goes l (after stages creation run_stage r k stage rest v)
        go (exits code) = elim (Bool-cases (is_zero code)) [
          | inl e ↦ rw e (stay _ s i g)
          | inr e ↦ rw e (stay _ s tt g)
        ]
        go (stage_raises e) = stay _ s tt g
    Goes-move_at (advance k stage rest) v s i g = stay _ s i g
    Goes-move_at (fail failure stage) v s i g =
        (done_error, inr breaks, (refl, refl, ap less_one g))

  at_point :
      {l : Life} {p : Point} (v : View)
      → v.point ≡ p
      → Goes l (move_at stages creation run_stage p v)
      → Goes l (move_at stages creation run_stage v.point v)
  at_point {l = l} v e h = subst (λ p. Goes l (move_at stages creation run_stage p v)) (sym e) h

  step-Goes : (l : Life) (v : View) → IsIn n l v → Goes l (move stages creation run_stage step v)
  unfolding move move_at
  step-Goes waiting v (s, p, g, c) = at_point v p (working, inr start, (refl, c, g))
  step-Goes waiting_cancelled v (s, p, g, c) = at_point v p (working, inr forget, (refl, c, g))
  step-Goes working v (s, i, g) =
      Goes-move_at working running (λ v s i g. (working, inl refl, (s, i, g))) complete break
        (λ k stage rest v s i g. rw s (working, inl refl, (refl, i, g))) v.point v s i g
  step-Goes stopping v (s, i, g) =
      Goes-move_at stopping cancelled (λ v s i g. (stopping, inl refl, (s, i, g))) complete_anyway
        break_anyway (λ k stage rest v s i g. rw s (done_cancelled, inr stop, (refl, refl, g)))
        v.point v s i g
  step-Goes done_completed v (s, p, g) = at_point v p (done_completed, inl refl, (s, p, g))
  step-Goes done_error v (s, p, g) = at_point v p (done_error, inl refl, (s, p, g))
  step-Goes done_cancelled v (s, p, g) = at_point v p (done_cancelled, inl refl, (s, p, g))

  cancel-Goes :
      (l : Life) (v : View) → IsIn n l v → Goes l (move stages creation run_stage cancel v)
  unfolding move
  cancel-Goes waiting v (s, p, g, c) = rw s (waiting_cancelled, inr cancel_early, (refl, p, g, c))
  cancel-Goes waiting_cancelled v (s, p, g, c) = rw s (waiting_cancelled, inl refl, (refl, p, g, c))
  cancel-Goes working v (s, i, g) = rw s (stopping, inr cancel_late, (refl, i, g))
  cancel-Goes stopping v (s, i, g) = rw s (stopping, inl refl, (refl, i, g))
  cancel-Goes done_completed v (s, p, g) = rw s (done_completed, inl refl, (refl, p, g))
  cancel-Goes done_error v (s, p, g) = rw s (done_error, inl refl, (refl, p, g))
  cancel-Goes done_cancelled v (s, p, g) = rw s (done_cancelled, inl refl, (refl, p, g))

  abbrev pub Reached : View → Type 0
  Reached v = (l : Life) × (waiting ⟶* l) × IsIn n l v

  extended : {l m : Life} → waiting ⟶* l → (l ≡ m) ⊎ (l ⟶ m) → waiting ⟶* m
  extended r (inl e) = subst (λ m. waiting ⟶* m) e r
  extended r (inr t) = then r t

  pub Reached-moves :
      (es : List (ℕ × Event)) (v : View)
      → Reached v
      → Reached (moves stages creation run_stage es v)
  unfolding moves
  Reached-moves [] v h = h
  Reached-moves ((now, step) ∷ es) v (l, r, h) =
      let (m, t, h') = step-Goes l v h in Reached-moves es _ (m, extended r t, h')
  Reached-moves ((now, cancel) ∷ es) v (l, r, h) =
      let (m, t, h') = cancel-Goes l v h in Reached-moves es _ (m, extended r t, h')
