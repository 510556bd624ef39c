-- ===== src/Agents/Descriptions/Merged.antt =====
-- Which sentences are kept, and how long the merged description is.
use concept_microservice.Prelude.{
  IsSublist, nothing, skip, keep, ◌≤◌, List, [], ◌∷◌, ◌≡◌, refl, length, ltb, if◌then◌else◌, take,
  length-take, length-append, arith, Bool-cases, inl, inr,
}
use concept_microservice.Text.{Text, codes, text_eq, lower}
use concept_microservice.Agents.Groups.Members.{text_eq_iff}
use concept_microservice.Agents.Entities.{member}
use concept_microservice.Agents.Descriptions.{
  keep_new, sentences_of, join_sentences, stopped, shortened, merge_descriptions_locally,
}

-- the texts with the lower-case form
abbrev pub with_lower : Text → List Text → List Text
with_lower asked [] = []
with_lower asked (x ∷ xs) =
    if text_eq (lower x) asked then x ∷ with_lower asked xs else with_lower asked xs

abbrev pub first : List Text → List Text
first [] = []
first (x ∷ xs) = x ∷ []

with_lower-keep_new :
    (asked : Text) (seen xs : List Text)
    → with_lower asked (keep_new seen xs)
      ≡ (if member asked seen then [] else first (with_lower asked xs))
unfolding keep_new
with_lower-keep_new asked seen [] = ground arith
with_lower-keep_new asked seen (x ∷ xs) = elim (Bool-cases (member (lower x) seen)) [
  | inl e ↦ rw e (elim (Bool-cases (text_eq (lower x) asked)) [
    | inl d ↦
        ground (arith, d, e, (text_eq_iff (lower x) asked).0 d, with_lower-keep_new asked seen xs)
    | inr d ↦ rw d (with_lower-keep_new asked seen xs)
  ])
  | inr e ↦ rw e (elim (Bool-cases (text_eq (lower x) asked)) [
    | inl d ↦ ground (
      arith,
      d,
      e,
      (text_eq_iff (lower x) asked).0 d,
      with_lower-keep_new asked (lower x ∷ seen) xs,
    )
    | inr d ↦ ground (arith, d, with_lower-keep_new asked (lower x ∷ seen) xs)
  ])
]

length-shortened : (s : Text) → length (shortened s) ≤ 1200
length-shortened s = elim (Bool-cases (ltb 1200 (length s))) [
  | inl e ↦ rw e (omega (arith, length-append (take 1197 s) (codes "..."), length-take 1197 s))
  | inr e ↦ rw e (ground (arith, e))
]

IsSublist-keep_new : (seen xs : List Text) → IsSublist (keep_new seen xs) xs
unfolding keep_new
IsSublist-keep_new seen [] = nothing
IsSublist-keep_new seen (x ∷ xs) = elim (Bool-cases (member (lower x) seen)) [
  | inl e ↦ rw e (skip x (IsSublist-keep_new seen xs))
  | inr e ↦ rw e (keep x (IsSublist-keep_new (lower x ∷ seen) xs))
]

-- A merged description has at most 1200 characters. It is made of some of the sentences of the
-- descriptions, in their order: the first of each lower-case form and no other, joined by a stop
-- and a space, ended by a stop, and cut if that is longer.
pub merge_descriptions_locally-first :
    (descriptions : List Text)
    → (kept : List Text) × (merge_descriptions_locally descriptions
        ≡ shortened (stopped (join_sentences kept)))
      × IsSublist kept (sentences_of descriptions)
      × ((form : Text) → with_lower form kept ≡ first (with_lower form (sentences_of descriptions)))
      × (length (merge_descriptions_locally descriptions) ≤ 1200)
unfolding merge_descriptions_locally
merge_descriptions_locally-first descriptions =
    let sentences = sentences_of descriptions in
    (
      keep_new [] sentences,
      refl,
      IsSublist-keep_new [] sentences,
      λ form. with_lower-keep_new form [] sentences,
      length-shortened (stopped (join_sentences (keep_new [] sentences))),
    )
