-- ===== src/Agents/Entities/Types.antt =====
-- The type that a group of entities is given, and which types may be merged.
use concept_microservice.Prelude.{
  ℕ, ◌+◌, ◌-◌, ◌≤◌, Bool, true, false, List, [], ◌∷◌, ◌≡◌, refl, sym, length, ltb, some, none,
  Option, ◌&&◌, All, All-map, arith, inl, inr, Bool-cases, if◌then◌else◌,
}
use concept_microservice.Prelude.Effect.{ok, raise}
use mathlib.Core.Path.{subst}
use concept_microservice.Text.{Text, text_eq}
use concept_microservice.Agents.Groups.{Groups}
use concept_microservice.Agents.Groups.Members.{members, Separate, text_eq_iff}
use concept_microservice.Agents.Entities.{
  Entity, EntityType, attribute_error, value, entity_type_of, tally, greatest, sum, higher_score,
  tied_types, member, prefer, best_type, determine_entity_type, are_types_compatible,
}
use concept_microservice.Agents.Groups.Lookup.{Found, All-Found, All-members}
use concept_microservice.Agents.Entities.Choice.{
  confidences, members-tally, Separate-tally, greatest-All, greatest-top,
}

All-used : (groups : Groups ℕ) → Separate groups → All (λ g. 1 ≤ length g.1) groups
All-used [] h = tt
All-used (g ∷ groups) h = (h.1, All-used groups h.2)

-- a tied type is the type of some entity, less than 0.1 below the best
near-tied_types :
    (best : ℕ) (x : Text) (groups some_of : Groups ℕ)
    → All (Found groups) some_of
    → All (λ g. 1 ≤ length g.1) some_of
    → member x (tied_types best some_of) ≡ true
    → (best ≤ sum (members x groups) + 99999) × (1 ≤ length (members x groups))
near-tied_types best x groups [] f u h = cc
near-tied_types best x groups ((t, ns) ∷ rest) f u h =
    elim (Bool-cases (ltb (best - sum ns) 100000)) [
      | inl e ↦ elim (Bool-cases (text_eq t x)) [
        | inl d ↦
            subst (λ y. (best ≤ sum (members y groups) + 99999) × (1 ≤ length (members y groups)))
              ((text_eq_iff t x).0 d)
              (subst (λ ms. (best ≤ sum ms + 99999) × (1 ≤ length ms)) (sym f.0)
                (ground (arith, e), u.0))
        | inr d ↦ near-tied_types best x groups rest f.1 u.1 (ground (arith, h, e, d))
      ]
      | inr e ↦ near-tied_types best x groups rest f.1 u.1 (ground (arith, h, e))
    ]

-- how far below the best a type may be
abbrev pub tolerance : Option EntityType → ℕ
tolerance none = 0
tolerance (some t) = 99999

abbrev best_of : Text × List ℕ → Groups ℕ → Text × List ℕ
best_of g gs = greatest higher_score g gs

best_of-top :
    (g : Text × List ℕ) (gs : Groups ℕ) (other : Text)
    → sum (members other (g ∷ gs)) ≤ sum (best_of g gs).1
best_of-top g gs other =
    All-members (λ ns. sum ns ≤ sum (best_of g gs).1) (g ∷ gs) other (omega arith)
      (All-map (g ∷ gs) (λ x e. ground (arith, e))
        (greatest-top higher_score (λ x. ground arith) (λ x y e. ground (arith, e))
          (λ x y z d e. ground (arith, d, e)) g gs))

-- a label that a group has, and how far the scores of the others may be above its own
abbrev Prevails : (Text → List ℕ) → ℕ → Text → Type 0
Prevails found margin label =
    (1 ≤ length (found label)) × ((other : Text) → sum (found other) ≤ sum (found label) + margin)

Prevails-best :
    (g : Text × List ℕ) (gs : Groups ℕ) (margin : ℕ)
    → Separate (g ∷ gs)
    → Prevails (λ x. members x (g ∷ gs)) margin (best_of g gs).0
Prevails-best g gs margin h =
    subst
      (λ ns. (1 ≤ length ns) × ((other : Text) → sum (members other (g ∷ gs)) ≤ sum ns + margin))
      (sym (greatest-All (Found (g ∷ gs)) higher_score g gs (All-Found (g ∷ gs) h)))
      (
        greatest-All (λ x. 1 ≤ length x.1) higher_score g gs (All-used (g ∷ gs) h),
        λ other. omega (arith, best_of-top g gs other),
      )

Prevails-prefer :
    (existing : Option EntityType) (g : Text × List ℕ) (gs : Groups ℕ)
    → Separate (g ∷ gs)
    → Prevails
        (λ x. members x (g ∷ gs))
        (tolerance existing)
        (prefer existing (tied_types (sum (best_of g gs).1) (g ∷ gs)) (best_of g gs).0)
Prevails-prefer none g gs h = Prevails-best g gs 0 h
Prevails-prefer (some t) g gs h = picked (ltb 1 (length tied) && member (value t) tied) refl
  where
    tied : List Text
    tied = tied_types (sum (best_of g gs).1) (g ∷ gs)

    picked :
        (b : Bool)
        → (ltb 1 (length tied) && member (value t) tied) ≡ b
        → Prevails (λ x. members x (g ∷ gs)) 99999 (if b then value t else (best_of g gs).0)
    picked true e =
        let (close, used) =
          near-tied_types (sum (best_of g gs).1) (value t) (g ∷ gs) (g ∷ gs) (All-Found (g ∷ gs) h)
            (All-used (g ∷ gs) h) (ground (arith, e)) in
        (used, λ other. omega (arith, close, best_of-top g gs other))
    picked false e = Prevails-best g gs 99999 h

best_type-Prevails :
    (existing : Option EntityType) (groups : Groups ℕ) (key : Text)
    → Separate groups
    → 1 ≤ length (members key groups)
    → (label : Text) × (best_type existing groups ≡ entity_type_of label)
      × Prevails (λ x. members x groups) (tolerance existing) label
best_type-Prevails existing [] key h l = absurd (omega (arith, l))
best_type-Prevails existing (g ∷ gs) key h l = (
  prefer existing (tied_types (sum (best_of g gs).1) (g ∷ gs)) (best_of g gs).0,
  refl,
  Prevails-prefer existing g gs h,
)

-- the confidences of the entities with the type
abbrev pub labelled : List Entity → Text → List ℕ
labelled entity_group label = confidences (λ e. e.label) label entity_group

-- The type of a group that is not empty is the member of EntityType for the label of one of its
-- entities, or the ValueError that this label has no member. No label has a higher sum of
-- confidences; where there is an existing type, none has one 0.1 higher or more.
pub determine_entity_type-top :
    (e : Entity) (es : List Entity) (existing_type : Option EntityType)
    → (label : Text) × (determine_entity_type (e ∷ es) existing_type ≡ entity_type_of label)
      × (1 ≤ length (labelled (e ∷ es) label))
      × ((other : Text)
          → sum (labelled (e ∷ es) other) ≤ sum (labelled (e ∷ es) label) + tolerance existing_type)
unfolding determine_entity_type
determine_entity_type-top e es existing =
    let (label, chosen, (used, top)) = prevailing in (label, chosen, used, top)
  where
    groups : Groups ℕ
    groups = tally (λ x. x.label) (e ∷ es) []

    members_labelled : (λ label. members label groups) ≡ labelled (e ∷ es)
    members_labelled = λ i label. members-tally (λ x. x.label) label (e ∷ es) [] i

    prevailing :
        (label : Text) × (best_type existing groups ≡ entity_type_of label)
        × Prevails (labelled (e ∷ es)) (tolerance existing) label
    prevailing =
        subst
          (λ found.
            (label : Text) × (best_type existing groups ≡ entity_type_of label)
            × Prevails found (tolerance existing) label)
          members_labelled
          (best_type-Prevails existing groups e.label (Separate-tally (λ x. x.label) (e ∷ es) [] tt)
            (subst (λ found. 1 ≤ length (found e.label)) (sym members_labelled)
              (ground (arith, text_eq_iff e.label e.label))))

-- Two types are compatible if they are the same, and every other pair raises AttributeError.
pub are_types_compatible-raises :
    (t u : EntityType)
    → are_types_compatible t u
      ≡ (if text_eq (value t) (value u) then ok true else raise attribute_error)
unfolding are_types_compatible
are_types_compatible-raises t u = refl
