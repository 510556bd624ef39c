-- ===== src/Api/Background/Uncancelled.antt =====
-- A cancellation that comes before the thread's first step does not show afterwards.
use concept_microservice.Prelude.{
  ℕ, String, false, ◌≡◌, refl, sym, inl, inr, List, [], ◌∷◌, ◌++◌, Bool-cases,
}
use mathlib.Core.Path.{subst}
use concept_microservice.Values.{is_zero}
use concept_microservice.Api.Background.{
  Creation, built, unbuilt, build_raises, StageRun, exits, stage_raises, Point, begin, create,
  check, enter, execute, advance, fail, ended, is_cancelled, Event, step, cancel,
}
use concept_microservice.Api.Background.Machine.{View, made, after, move_at, move, moves}

-- no cancellation is among the events
abbrev pub Undisturbed : List (ℕ × Event) → Type 0
Undisturbed [] = Unit
Undisturbed ((now, step) ∷ es) = Undisturbed es
Undisturbed ((now, cancel) ∷ es) = ⊥

-- cancellations at the given times
abbrev pub cancels : List ℕ → List (ℕ × Event)
cancels [] = []
cancels (now ∷ times) = (now, cancel) ∷ cancels times

module _ (stages : List String) (creation : Creation) (run_stage : String → StageRun) where
  running-move_at :
      (p : Point) (v : View)
      → is_cancelled v.status ≡ false
      → is_cancelled (move_at stages creation run_stage p v).status ≡ false
  unfolding move_at
  running-move_at begin v h = refl
  running-move_at create v h = go creation
    where
      go : (c : Creation) → is_cancelled (made stages creation run_stage c v).status ≡ false
      go built = h
      go unbuilt = h
      go (build_raises e) = h
  running-move_at (check i []) v h = elim (Bool-cases (is_zero v.exit_code)) [
    | inl e ↦ rw e refl
    | inr e ↦ rw e refl
  ]
  running-move_at (check i (stage ∷ rest)) v h = rw h h
  running-move_at (enter i stage rest) v h = h
  running-move_at (execute i stage rest) v h = go (run_stage stage)
    where
      go :
          (r : StageRun)
          → is_cancelled (after stages creation run_stage r i stage rest v).status ≡ false
      go (exits code) = elim (Bool-cases (is_zero code)) [ inl e ↦ rw e h | inr e ↦ rw e h ]
      go (stage_raises e) = h
  running-move_at (advance i stage rest) v h = h
  running-move_at (fail failure stage) v h = refl
  running-move_at ended v h = h

  running-moves :
      (es : List (ℕ × Event)) (v : View)
      → Undisturbed es
      → is_cancelled v.status ≡ false
      → is_cancelled (moves stages creation run_stage es v).status ≡ false
  unfolding moves move
  running-moves [] v u h = h
  running-moves ((now, step) ∷ es) v u h = running-moves es _ u (running-move_at v.point v h)
  running-moves ((now, cancel) ∷ es) v u h = absurd u

  pub cancels-moves :
      (times : List ℕ) (now : ℕ) (es : List (ℕ × Event)) (v : View)
      → v.point ≡ begin
      → Undisturbed es
      → is_cancelled (moves stages creation run_stage (cancels times ++ (now, step) ∷ es) v).status
        ≡ false
  unfolding moves move move_at
  cancels-moves [] now es v b u = running-moves es _ u (
      subst (λ p. is_cancelled (move_at stages creation run_stage p v).status ≡ false) (sym b) refl)
  cancels-moves (t ∷ times) now es v b u = cancels-moves times now es _ b u
