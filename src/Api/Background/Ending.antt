-- ===== src/Api/Background/Ending.antt =====
-- How many steps the thread takes.
use concept_microservice.Prelude.{
  ℕ, suc, ◌+◌, ◌-◌, ◌*◌, ◌≤◌, String, ◌≡◌, ap, inl, inr, List, [], ◌∷◌, length, Bool-cases, arith,
}
use concept_microservice.Values.{is_zero}
use concept_microservice.Api.Background.{
  Creation, built, unbuilt, build_raises, StageRun, exits, stage_raises, Point, begin, create,
  check, enter, execute, advance, fail, ended, is_cancelled, Event, step, cancel,
}
use concept_microservice.Api.Background.Machine.{View, made, after, move_at, move, moves}

-- the steps of the thread among the events
abbrev pub steps : List (ℕ × Event) → ℕ
steps [] = 0
steps ((now, step) ∷ es) = suc (steps es)
steps ((now, cancel) ∷ es) = steps es

module _ (stages : List String) (creation : Creation) (run_stage : String → StageRun) where
  -- at most so many steps are left
  abbrev left : Point → ℕ
  left begin = 4 * length stages + 3
  left create = 4 * length stages + 2
  left (check i rest) = 4 * length rest + 1
  left (enter i stage rest) = 4 * length rest + 4
  left (execute i stage rest) = 4 * length rest + 3
  left (advance i stage rest) = 4 * length rest + 2
  left (fail failure stage) = 1
  left ended = 0

  left-move_at :
      (p : Point) (v : View)
      → v.point ≡ p
      → left (move_at stages creation run_stage p v).point ≤ left p - 1
  unfolding move_at
  left-move_at begin v here = omega arith
  left-move_at create v here = omega (arith, go creation)
    where
      go : (c : Creation) → left (made stages creation run_stage c v).point ≤ 4 * length stages + 1
      go built = omega arith
      go unbuilt = omega arith
      go (build_raises e) = omega arith
  left-move_at (check i []) v here = omega arith
  left-move_at (check i (stage ∷ rest)) v here = elim (Bool-cases (is_cancelled v.status)) [
    | inl e ↦ rw e (omega arith)
    | inr e ↦ rw e (omega arith)
  ]
  left-move_at (enter i stage rest) v here = omega arith
  left-move_at (execute i stage rest) v here = omega (arith, go (run_stage stage))
    where
      go :
          (r : StageRun)
          → left (after stages creation run_stage r i stage rest v).point ≤ 4 * length rest + 2
      go (exits code) = elim (Bool-cases (is_zero code)) [
        | inl e ↦ rw e (omega arith)
        | inr e ↦ rw e (omega arith)
      ]
      go (stage_raises e) = omega arith
  left-move_at (advance i stage rest) v here = omega arith
  left-move_at (fail failure stage) v here = omega arith
  left-move_at ended v here = omega (arith, ap left here)

  left-moves :
      (es : List (ℕ × Event)) (v : View)
      → left (moves stages creation run_stage es v).point ≤ left v.point - steps es
  unfolding moves move
  left-moves [] v = omega arith
  left-moves ((now, step) ∷ es) v = omega (
    arith,
    left-moves es (move stages creation run_stage step v),
    left-move_at v.point v (λ i. v.point),
  )
  left-moves ((now, cancel) ∷ es) v = left-moves es (move stages creation run_stage cancel v)

  left-ended : (p : Point) → left p ≡ 0 → p ≡ ended
  left-ended p h = ground arith

  pub moves-ended :
      (es : List (ℕ × Event)) (v : View)
      → v.point ≡ begin
      → 4 * length stages + 3 ≤ steps es
      → (moves stages creation run_stage es v).point ≡ ended
  moves-ended es v b h = left-ended _ (omega (arith, left-moves es v, ap left b))
