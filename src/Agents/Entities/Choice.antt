-- ===== src/Agents/Entities/Choice.antt =====
-- The first of the greatest of a list, and the entries of a tally of confidences.
use concept_microservice.Prelude.{
  ℕ, Bool, true, false, List, [], ◌∷◌, ◌++◌, ◌≡◌, refl, sym, ap, ◌∙◌, inl, inr, All, Bool-cases,
  if◌then◌else◌,
}
use mathlib.Core.List.{append_assoc, append-nil}
use concept_microservice.Text.{Text, text_eq}
use concept_microservice.Agents.Groups.{Groups, add_to_group}
use concept_microservice.Agents.Groups.Members.{
  members, Separate, members-add_to_group, Separate-add_to_group,
}
use concept_microservice.Agents.Entities.{Entity, tally, greatest}

module _ {ℓ} {A : Type ℓ} where
  -- what holds of all members holds of the greatest
  pub greatest-All {κ} :
      (P : A → Type κ) (above : A → A → Bool) (best : A) (xs : List A)
      → All P (best ∷ xs)
      → P (greatest above best xs)
  greatest-All P above best [] h = h.0
  greatest-All P above best (x ∷ xs) h = elim (Bool-cases (above x best)) [
    | inl e ↦ rw e (greatest-All P above x xs h.1)
    | inr e ↦ rw e (greatest-All P above best xs (h.0, h.1.1))
  ]

  module _ (above : A → A → Bool) (irrefl : (x : A) → above x x ≡ false)
      (asym : (x y : A) → above x y ≡ true → above y x ≡ false)
      (trans : (x y z : A) → above x y ≡ false → above y z ≡ false → above x z ≡ false) where
    -- what is not above the first is not above the greatest
    stays :
        (best : A) (xs : List A) (y : A)
        → above y best ≡ false
        → above y (greatest above best xs) ≡ false
    stays best [] y h = h
    stays best (x ∷ xs) y h = elim (Bool-cases (above x best)) [
      | inl e ↦ rw e (stays x xs y (trans y best x h (asym x best e)))
      | inr e ↦ rw e (stays best xs y h)
    ]

    abbrev Tops : A → List A → A → Type 0
    Tops best xs top = All (λ y. above y top ≡ false) (best ∷ xs)

    Tops-next :
        (b : Bool) (best x : A) (xs : List A)
        → above x best ≡ b
        → ((first : A) → Tops first xs (greatest above first xs))
        → Tops best (x ∷ xs) (greatest above (if b then x else best) xs)
    Tops-next true best x xs e rest = (stays x xs best (asym x best e), rest x)
    Tops-next false best x xs e rest = ((rest best).0, (stays best xs x e, (rest best).1))

    -- nothing is above the greatest
    pub greatest-top :
        (best : A) (xs : List A) → All (λ y. above y (greatest above best xs) ≡ false) (best ∷ xs)
    greatest-top best [] = (irrefl best, tt)
    greatest-top best (x ∷ xs) =
        Tops-next (above x best) best x xs refl (λ first. greatest-top first xs)

-- the confidences of the entities with the key, in their order
abbrev pub confidences : (Entity → Text) → Text → List Entity → List ℕ
confidences key asked [] = []
confidences key asked (e ∷ es) =
    if text_eq (key e) asked
    then e.confidence ∷ confidences key asked es
    else confidences key asked es

pub members-tally :
    (key : Entity → Text) (asked : Text) (es : List Entity) (groups : Groups ℕ)
    → members asked (tally key es groups) ≡ members asked groups ++ confidences key asked es
unfolding tally
members-tally key asked [] groups = sym (append-nil (members asked groups))
members-tally key asked (e ∷ es) groups =
    members-tally key asked es (add_to_group (key e) e.confidence groups)
    ∙ ap (◌++ confidences key asked es) (members-add_to_group (key e) asked e.confidence groups)
    ∙ both (text_eq (key e) asked)
  where
    both :
        (b : Bool)
        → (if b then members asked groups ++ e.confidence ∷ [] else members asked groups)
            ++ confidences key asked es
          ≡ members asked groups
            ++ (if b then e.confidence ∷ confidences key asked es else confidences key asked es)
    both true = append_assoc (members asked groups) (e.confidence ∷ []) (confidences key asked es)
    both false = refl

pub Separate-tally :
    (key : Entity → Text) (es : List Entity) (groups : Groups ℕ)
    → Separate groups
    → Separate (tally key es groups)
unfolding tally
Separate-tally key [] groups h = h
Separate-tally key (e ∷ es) groups h =
    Separate-tally key es _ (Separate-add_to_group (key e) e.confidence groups h)
