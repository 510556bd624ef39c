-- ===== src/Api/Background/Outcomes.antt =====
-- Which stages were run when the thread is at its end.
use concept_microservice.Prelude.{
  ℕ, ℤ, pos, String, Bool, true, false, ◌≡◌, refl, sym, ap, ◌∙◌, ◌⊎◌, inl, inr, List, [], ◌∷◌, ◌++◌,
  Bool-cases,
}
use mathlib.Core.Path.{subst}
use mathlib.Core.List.{append_assoc}
use concept_microservice.Values.{is_zero}
use concept_microservice.Api.State.{Status, completed, error, cancelled}
use concept_microservice.Api.Background.{
  Creation, built, unbuilt, build_raises, StageRun, exits, stage_raises, Point, begin, create,
  check, enter, execute, advance, fail, ended, is_cancelled, is_live, Event, step, cancel,
}
use concept_microservice.Api.Background.Machine.{View, made, after, move_at, move, moves}

-- the stage returned 0
abbrev pub succeeds : StageRun → Bool
succeeds (exits code) = is_zero code
succeeds (stage_raises e) = false

module _ (stages : List String) (creation : Creation) (run_stage : String → StageRun) where
  abbrev pub Succeed : List String → Type 0
  Succeed [] = Unit
  Succeed (stage ∷ rest) = (succeeds (run_stage stage) ≡ true) × Succeed rest

  -- `ran` is the beginning of the stages up to `rest`, and all of it succeeded
  pub record PassedBy (ran listed : List String) (exit_code : ℤ) (rest : List String) : Type 0 where
    pub all_ran : ran ++ rest ≡ stages
    pub all_listed : listed ≡ ran
    pub all_succeed : Succeed ran
    pub clean : exit_code ≡ pos 0

  abbrev pub Passed : View → List String → Type 0
  Passed v rest = PassedBy v.ran v.completed_stages v.exit_code rest

  -- the last stage of `ran` failed, and all before it succeeded
  pub record BrokeBy (ran : List String) : Type 0 where
    pub before : List String
    pub stage : String
    pub rest : List String
    pub order : before ++ stage ∷ rest ≡ stages
    pub all_ran : ran ≡ before ++ stage ∷ []
    pub all_succeed : Succeed before
    pub failure : succeeds (run_stage stage) ≡ false

  abbrev pub Broke : View → Type 0
  Broke v = BrokeBy v.ran

  abbrev NotBuilt : View → Type 0
  NotBuilt v = (v.ran ≡ []) × ¬ (creation ≡ built)

  abbrev pub Ends : Status → View → Type 0
  Ends completed v = Passed v []
  Ends error v = Broke v ⊎ NotBuilt v
  Ends status v = (rest : List String) × Passed v rest

  abbrev Sound : Point → View → Type 0
  Sound begin v = Passed v stages × (v.ran ≡ [])
  Sound create v = Passed v stages × (v.ran ≡ [])
  Sound (check i rest) v = Passed v rest
  Sound (enter i stage rest) v = Passed v (stage ∷ rest)
  Sound (execute i stage rest) v = Passed v (stage ∷ rest)
  Sound (advance i stage rest) v =
      (v.ran ≡ v.completed_stages ++ stage ∷ [])
      × (v.ran ++ rest ≡ stages)
      × Succeed v.ran
      × (v.exit_code ≡ pos 0)
  Sound (fail failure stage) v = Broke v ⊎ NotBuilt v
  Sound ended v = (is_live v.status ≡ false) × Ends v.status v

  Succeed-append :
      (xs : List String) (stage : String)
      → Succeed xs
      → succeeds (run_stage stage) ≡ true
      → Succeed (xs ++ stage ∷ [])
  Succeed-append [] stage h e = (e, tt)
  Succeed-append (x ∷ xs) stage h e = (h.0, Succeed-append xs stage h.1 e)

  Sound-made :
      (c : Creation) (v : View)
      → creation ≡ c
      → v.ran ≡ []
      → Passed v stages
      → Sound (made stages creation run_stage c v).point (made stages creation run_stage c v)
  Sound-made built v e n h = h
  Sound-made unbuilt v e n h = inr (n, λ q. cc)
  Sound-made (build_raises x) v e n h = inr (n, λ q. cc)

  Sound-after :
      (r : StageRun) (i : ℕ) (stage : String) (rest : List String) (v : View)
      → run_stage stage ≡ r
      → Passed v (stage ∷ rest)
      → Sound
          (after stages creation run_stage r i stage rest v).point
          (after stages creation run_stage r i stage rest v)
  Sound-after (exits code) i stage rest v e h = elim (Bool-cases (is_zero code)) [
    | inl z ↦ rw z (
      ap (◌++ stage ∷ []) (sym h.all_listed),
      append_assoc v.ran (stage ∷ []) rest ∙ h.all_ran,
      Succeed-append v.ran stage h.all_succeed (ap succeeds e ∙ z),
      h.clean,
    )
    | inr z ↦ rw z (
        inl (record {
          before = v.ran;
          stage = stage;
          rest = rest;
          order = h.all_ran;
          all_ran = refl;
          all_succeed = h.all_succeed;
          failure = ap succeeds e ∙ z;
        }))
  ]
  Sound-after (stage_raises x) i stage rest v e h = inl (record {
    before = v.ran;
    stage = stage;
    rest = rest;
    order = h.all_ran;
    all_ran = refl;
    all_succeed = h.all_succeed;
    failure = ap succeeds e;
  })

  Sound-stopped :
      (status : Status) (v : View) (rest : List String)
      → is_cancelled status ≡ true
      → Passed v rest
      → (is_live status ≡ false) × Ends status v
  Sound-stopped cancelled v rest e h = (refl, (rest, h))
  Sound-stopped status v rest e h = absurd cc

  Sound-move_at :
      (p : Point) (v : View)
      → v.point ≡ p
      → Sound p v
      → Sound (move_at stages creation run_stage p v).point (move_at stages creation run_stage p v)
  unfolding move_at
  Sound-move_at begin v here (h, n) = (h, n)
  Sound-move_at create v here (h, n) = Sound-made creation v refl n h
  Sound-move_at (check i []) v here h = rw h.clean (
    refl,
    record {
      all_ran = h.all_ran;
      all_listed = h.all_listed;
      all_succeed = h.all_succeed;
      clean = refl;
    },
  )
  Sound-move_at (check i (stage ∷ rest)) v here h = elim (Bool-cases (is_cancelled v.status)) [
    | inl e ↦ rw e (Sound-stopped v.status _ (stage ∷ rest) e h)
    | inr e ↦ rw e h
  ]
  Sound-move_at (enter i stage rest) v here h = h
  Sound-move_at (execute i stage rest) v here h =
      Sound-after (run_stage stage) i stage rest v refl h
  Sound-move_at (advance i stage rest) v here (l, r, s, c) = record {
    all_ran = r;
    all_listed = sym l;
    all_succeed = s;
    clean = c;
  }
  Sound-move_at (fail failure stage) v here (inl h) = (refl, inl h)
  Sound-move_at (fail failure stage) v here (inr h) = (refl, inr h)
  Sound-move_at ended v here h = subst (λ p. Sound p v) (sym here) h

  Sound-cancel :
      (p : Point) (v : View) → Sound p v → Sound p (move stages creation run_stage cancel v)
  unfolding move
  Sound-cancel begin v h = h
  Sound-cancel create v h = h
  Sound-cancel (check i rest) v h = h
  Sound-cancel (enter i stage rest) v h = h
  Sound-cancel (execute i stage rest) v h = h
  Sound-cancel (advance i stage rest) v h = h
  Sound-cancel (fail failure stage) v h = h
  Sound-cancel ended v (l, h) = rw l (l, h)

  Sound-moves :
      (es : List (ℕ × Event)) (v : View)
      → Sound v.point v
      → Sound (moves stages creation run_stage es v).point (moves stages creation run_stage es v)
  unfolding moves move
  Sound-moves [] v h = h
  Sound-moves ((now, step) ∷ es) v h = Sound-moves es _ (Sound-move_at v.point v refl h)
  Sound-moves ((now, cancel) ∷ es) v h = Sound-moves es _ (Sound-cancel v.point v h)

  -- from a new thread to its end
  pub Ends-moves :
      (es : List (ℕ × Event)) (v : View)
      → v.point ≡ begin
      → v.ran ≡ []
      → v.completed_stages ≡ []
      → v.exit_code ≡ pos 0
      → (moves stages creation run_stage es v).point ≡ ended
      → Ends (moves stages creation run_stage es v).status (moves stages creation run_stage es v)
  Ends-moves es v b r c x e =
      (subst (λ p. Sound p (moves stages creation run_stage es v)) e
        (Sound-moves es v (
          subst (λ p. Sound p v) (sym b)
            (
              record {
                all_ran = ap (◌++ stages) r;
                all_listed = c ∙ sym r;
                all_succeed = subst Succeed (sym r) tt;
                clean = x;
              },
              r,
            )))).1
