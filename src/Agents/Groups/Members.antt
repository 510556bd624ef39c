-- ===== src/Agents/Groups/Members.antt =====
-- Which relationships stand in which group.
use concept_microservice.Prelude.{
  Bool, true, false, List, [], ◌∷◌, ◌++◌, ◌≡◌, refl, sym, ap, ◌∙◌, length, inl, inr, ◌↔◌, ◌||◌, ◌≤◌,
  length-append, arith, Bool-cases, if◌then◌else◌,
}
use mathlib.Core.List.{append_assoc, append-nil}
use concept_microservice.Text.{Text, text_eq}
use concept_microservice.Agents.Groups.{
  Relationship, Extraction, Instance, Groups, key_of, add_to_group, or_unknown, add_all,
  relationships_of, group_from, group_relationships_by_tuple,
}

pub text_eq_iff : (s t : Text) → (text_eq s t ≡ true) ↔ (s ≡ t)
text_eq_iff [] [] = ground arith
text_eq_iff [] (b ∷ t) = ((λ h. cc), λ h. cc)
text_eq_iff (a ∷ s) [] = ((λ h. cc), λ h. cc)
text_eq_iff (a ∷ s) (b ∷ t) = ground (arith, text_eq_iff s t)

-- the group of the key, empty if it has none
abbrev pub members {ℓ} : {A : Type ℓ} → Text → Groups A → List A
members key [] = []
members key ((k, group) ∷ groups) = if text_eq k key then group else members key groups

-- every relationship with its chunk, in the order of the extractions
abbrev pub located : Text → List Relationship → List Instance
located chunk [] = []
located chunk (r ∷ rs) = record { relationship = r; source_chunk = chunk } ∷ located chunk rs

abbrev pub instances : List Extraction → List Instance
instances [] = []
instances (x ∷ xs) =
    located (or_unknown x.chunk_id) (relationships_of x.relationships) ++ instances xs

-- those with the key
abbrev pub with_key : Text → List Instance → List Instance
with_key key [] = []
with_key key (x ∷ xs) =
    if text_eq (key_of x.relationship) key then x ∷ with_key key xs else with_key key xs

pub members-add_to_group {ℓ} :
    {A : Type ℓ} (key asked : Text) (x : A) (groups : Groups A)
    → members asked (add_to_group key x groups)
      ≡ (if text_eq key asked then members asked groups ++ x ∷ [] else members asked groups)
unfolding add_to_group
members-add_to_group key asked x [] = refl
members-add_to_group key asked x ((k, group) ∷ groups) = ground (
  arith,
  members-add_to_group key asked x groups,
  text_eq_iff k key,
  text_eq_iff k asked,
  text_eq_iff key asked,
)

with_key-append :
    (key : Text) (xs ys : List Instance)
    → with_key key (xs ++ ys) ≡ with_key key xs ++ with_key key ys
with_key-append key [] ys = refl
with_key-append key (x ∷ xs) ys = ground (arith, with_key-append key xs ys)

members-add_all :
    (chunk asked : Text) (rs : List Relationship) (groups : Groups Instance)
    → members asked (add_all chunk rs groups)
      ≡ members asked groups ++ with_key asked (located chunk rs)
unfolding add_all
members-add_all chunk asked [] groups = sym (append-nil (members asked groups))
members-add_all chunk asked (r ∷ rs) groups =
    members-add_all chunk asked rs (add_to_group (key_of r) x groups)
    ∙ ap (◌++ with_key asked (located chunk rs)) (members-add_to_group (key_of r) asked x groups)
    ∙ both (text_eq (key_of r) asked)
  where
    x : Instance
    x = record { relationship = r; source_chunk = chunk }

    both :
        (b : Bool)
        → (if b then members asked groups ++ x ∷ [] else members asked groups)
            ++ with_key asked (located chunk rs)
          ≡ members asked groups
            ++ (if b
                then x ∷ with_key asked (located chunk rs)
                else with_key asked (located chunk rs))
    both true = append_assoc (members asked groups) (x ∷ []) (with_key asked (located chunk rs))
    both false = refl

members-group_from :
    (asked : Text) (xs : List Extraction) (groups : Groups Instance)
    → members asked (group_from xs groups) ≡ members asked groups ++ with_key asked (instances xs)
unfolding group_from
members-group_from asked [] groups = sym (append-nil (members asked groups))
members-group_from asked (x ∷ xs) groups =
    let chunk = or_unknown x.chunk_id in
    let rs = relationships_of x.relationships in
    members-group_from asked xs (add_all chunk rs groups)
    ∙ ap (◌++ with_key asked (instances xs)) (members-add_all chunk asked rs groups)
    ∙ append_assoc (members asked groups) (with_key asked (located chunk rs))
        (with_key asked (instances xs))
    ∙ ap (members asked groups ++◌) (sym (with_key-append asked (located chunk rs) (instances xs)))

abbrev pub has_key {ℓ} : {A : Type ℓ} → Text → Groups A → Bool
has_key key [] = false
has_key key ((k, group) ∷ groups) = text_eq k key || has_key key groups

-- no key stands twice, and no group is empty
abbrev pub Separate {ℓ} : {A : Type ℓ} → Groups A → Type 0
Separate [] = Unit
Separate ((k, group) ∷ groups) = (has_key k groups ≡ false) × (1 ≤ length group) × Separate groups

pub has_key-add_to_group {ℓ} :
    {A : Type ℓ} (key asked : Text) (x : A) (groups : Groups A)
    → has_key asked (add_to_group key x groups) ≡ (has_key asked groups || text_eq key asked)
unfolding add_to_group
has_key-add_to_group key asked x [] = ground arith
has_key-add_to_group key asked x ((k, group) ∷ groups) = ground (
  arith,
  has_key-add_to_group key asked x groups,
  text_eq_iff k key,
  text_eq_iff k asked,
  text_eq_iff key asked,
)

pub Separate-add_to_group {ℓ} :
    {A : Type ℓ} (key : Text) (x : A) (groups : Groups A)
    → Separate groups
    → Separate (add_to_group key x groups)
unfolding add_to_group
Separate-add_to_group key x [] h = (refl, omega arith, tt)
Separate-add_to_group key x ((k, group) ∷ groups) h = elim (Bool-cases (text_eq k key)) [
  | inl e ↦ rw e (h.0, omega (arith, h.1, length-append group (x ∷ [])), h.2)
  | inr e ↦ rw e (
    has_key-add_to_group key k x groups
        ∙ ground (arith, h.0, e, text_eq_iff key k, text_eq_iff k key),
    h.1,
    Separate-add_to_group key x groups h.2,
  )
]

Separate-add_all :
    (chunk : Text) (rs : List Relationship) (groups : Groups Instance)
    → Separate groups
    → Separate (add_all chunk rs groups)
unfolding add_all
Separate-add_all chunk [] groups h = h
Separate-add_all chunk (r ∷ rs) groups h =
    Separate-add_all chunk rs _ (Separate-add_to_group (key_of r) _ groups h)

Separate-group_from :
    (xs : List Extraction) (groups : Groups Instance)
    → Separate groups
    → Separate (group_from xs groups)
unfolding group_from
Separate-group_from [] groups h = h
Separate-group_from (x ∷ xs) groups h =
    Separate-group_from xs _
      (Separate-add_all (or_unknown x.chunk_id) (relationships_of x.relationships) groups h)

-- Each key has at most one group, and it holds the relationships with that key, all of them, in
-- the order of the extractions; no group is empty.
pub group_relationships_by_tuple-members :
    (extracted_data : List Extraction)
    → ((key : Text)
        → members key (group_relationships_by_tuple extracted_data)
          ≡ with_key key (instances extracted_data))
      × Separate (group_relationships_by_tuple extracted_data)
unfolding group_relationships_by_tuple
group_relationships_by_tuple-members extracted_data =
    ((λ key. members-group_from key extracted_data []), Separate-group_from extracted_data [] tt)
