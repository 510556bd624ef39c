-- ===== src/Agents/Groups/Lookup.antt =====
-- What a key finds among the groups.
use concept_microservice.Prelude.{false, List, [], ◌∷◌, ◌≡◌, refl, inl, inr, All, arith, Bool-cases}
use concept_microservice.Text.{Text, text_eq}
use concept_microservice.Agents.Groups.{Groups}
use concept_microservice.Agents.Groups.Members.{members, has_key, Separate, text_eq_iff}

-- a group with its key is what the key finds
abbrev pub Found {ℓ} : {A : Type ℓ} → Groups A → Text × List A → Type ℓ
Found groups g = members g.0 groups ≡ g.1

module _ {ℓ} {A : Type ℓ} where
  elsewhere :
      (key : Text) (groups : Groups A)
      → has_key key groups ≡ false
      → All (λ g. text_eq key g.0 ≡ false) groups
  elsewhere key [] h = tt
  elsewhere key ((k, group) ∷ groups) h = (
    ground (arith, h, text_eq_iff k key, text_eq_iff key k),
    elsewhere key groups (ground (arith, h)),
  )

  Found-behind :
      (key : Text) (group : List A) (groups some_of : Groups A)
      → All (λ g. text_eq key g.0 ≡ false) some_of
      → All (Found groups) some_of
      → All (Found ((key, group) ∷ groups)) some_of
  Found-behind key group groups [] h f = tt
  Found-behind key group groups (g ∷ gs) h f =
      (rw (h.0) (f.0), Found-behind key group groups gs h.1 f.1)

  -- every group is what its key finds
  pub All-Found : (groups : Groups A) → Separate groups → All (Found groups) groups
  All-Found [] h = tt
  All-Found ((key, group) ∷ groups) h = (
    ground (arith, text_eq_iff key key),
    Found-behind key group groups groups (elsewhere key groups h.0) (All-Found groups h.2),
  )

  -- what holds of the empty group and of every group holds of what a key finds
  pub All-members {κ} :
      (P : List A → Type κ) (groups : Groups A) (key : Text)
      → P []
      → All (λ g. P g.1) groups
      → P (members key groups)
  All-members P [] key p h = p
  All-members P ((k, group) ∷ groups) key p h = elim (Bool-cases (text_eq k key)) [
    | inl e ↦ rw e h.0
    | inr e ↦ rw e (All-members P groups key p h.1)
  ]

  -- a key of no group finds none
  pub members-none :
      (key : Text) (groups : Groups A) → has_key key groups ≡ false → members key groups ≡ []
  members-none key [] h = refl
  members-none key ((k, group) ∷ groups) h = ground (arith, h, members-none key groups)
