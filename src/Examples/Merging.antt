-- ===== src/Examples/Merging.antt =====
-- Runs of domain/graphrag/agents/entity_resolution.py.
use concept_microservice.Prelude.{IsSublist, some, List, [], ◌∷◌, ◌≡◌, ◌≤◌, ◌+◌, refl, length}
use concept_microservice.Prelude.Effect.{ok, raise}
use concept_microservice.Text.{Text, codes}
use concept_microservice.Agents.Entities.{
  Entity, technology, concept, person, organization, attribute_error, entity_type_of,
  normalize_entity_name, determine_canonical_name, determine_entity_type, are_types_compatible, sum,
}
use concept_microservice.Agents.Entities.Names.{named, AtMost, determine_canonical_name-top}
use concept_microservice.Agents.Entities.Types.{labelled, tolerance, determine_entity_type-top}
use concept_microservice.Agents.Descriptions.{
  sentences_of, shortened, stopped, join_sentences, merge_descriptions_locally, estimate_tokens,
  split_sentences, truncate_descriptions_smartly,
}
use concept_microservice.Agents.Descriptions.Merged.{
  with_lower, first, merge_descriptions_locally-first,
}
use concept_microservice.Agents.Descriptions.Budget.{truncate_descriptions_smartly-bound}

abbrev python : Entity
python = record {
  name = codes "Python";
  label = codes "TECHNOLOGY";
  description = codes "A language. It is interpreted.";
  confidence = 800000;
}

abbrev the_python : Entity
the_python = record python {
  name = codes "the Python";
  label = codes "CONCEPT";
  confidence = 850000;
}

abbrev others : List Entity
others = the_python ∷ record python { confidence = 700000 } ∷ the_python ∷ []

canonical_name_example :
    (name : Text) × (determine_canonical_name (python ∷ others) ≡ some name)
    × (1 ≤ length (named (python ∷ others) name))
    × ((other : Text) → AtMost (named (python ∷ others) name) (named (python ∷ others) other))
canonical_name_example = determine_canonical_name-top python others

canonical_name_run : determine_canonical_name (python ∷ others) ≡ some (codes "the Python")
unfolding determine_canonical_name
canonical_name_run = refl

entity_type_example :
    (label : Text) × (determine_entity_type (python ∷ others) (some technology)
      ≡ entity_type_of label)
    × (1 ≤ length (labelled (python ∷ others) label))
    × ((other : Text)
        → sum (labelled (python ∷ others) other)
          ≤ sum (labelled (python ∷ others) label) + tolerance (some technology))
entity_type_example = determine_entity_type-top python others (some technology)

entity_type_run : determine_entity_type (python ∷ others) (some technology) ≡ ok concept
unfolding determine_entity_type
entity_type_run = refl

prefixes_run : normalize_entity_name (codes "The Dr. No") ≡ codes "dr. no"
unfolding normalize_entity_name
prefixes_run = refl

types_run : are_types_compatible person organization ≡ raise attribute_error
unfolding are_types_compatible
types_run = refl

abbrev two_descriptions : List Text
two_descriptions =
    codes "A language. It is interpreted!" ∷ codes "It is Interpreted. A LANGUAGE" ∷ []

merged_example :
    (kept : List Text) × (merge_descriptions_locally two_descriptions
      ≡ shortened (stopped (join_sentences kept)))
    × IsSublist kept (sentences_of two_descriptions)
    × ((form : Text)
        → with_lower form kept ≡ first (with_lower form (sentences_of two_descriptions)))
    × (length (merge_descriptions_locally two_descriptions) ≤ 1200)
merged_example = merge_descriptions_locally-first two_descriptions

merged_run : merge_descriptions_locally two_descriptions ≡ codes "A language. It is interpreted."
unfolding merge_descriptions_locally
merged_run = refl

abbrev short_sentences : Text
short_sentences = codes "a. b. c. d."

budget_example :
    estimate_tokens (truncate_descriptions_smartly short_sentences 0)
    ≤ 0 + length (split_sentences short_sentences)
budget_example = truncate_descriptions_smartly-bound short_sentences 0

-- two tokens for a budget of none
budget_run : estimate_tokens (truncate_descriptions_smartly short_sentences 0) ≡ 2
unfolding truncate_descriptions_smartly
budget_run = refl
