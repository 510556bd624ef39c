-- ===== src/Examples/Resolving.antt =====
-- Runs of domain/graphrag/agents/relationship_resolution.py.
use concept_microservice.Prelude.{map, none, some, List, [], ◌∷◌, ◌≡◌, refl}
use concept_microservice.Prelude.Effect.{ok}
use concept_microservice.Text.{Text, codes}
use concept_microservice.Agents.Groups.{
  Relationship, Extraction, key_of, group_relationships_by_tuple,
}
use concept_microservice.Agents.Groups.Members.{
  members, with_key, instances, Separate, group_relationships_by_tuple-members,
}
use concept_microservice.Agents.Relationships.{parse_key, Services, resolve_relationships}
use concept_microservice.Agents.Relationships.Keys.{parse_key-key_of}

abbrev uses : Relationship
uses = record {
  source_name = codes "Python ";
  target_name = codes "C";
  relation = codes "uses";
  description = codes "Python uses C extensions.";
  confidence = 900000;
}

abbrev colon_inside : Relationship
colon_inside = record uses { target_name = codes "std::vector" }

abbrev extracted : List Extraction
extracted =
    record { chunk_id = some (codes "c1"); relationships = some (uses ∷ colon_inside ∷ []) }
    ∷ record { chunk_id = none; relationships = some (uses ∷ []) }
    ∷ record { chunk_id = some (codes "c3"); relationships = none }
    ∷ []

grouped_example :
    ((key : Text)
      → members key (group_relationships_by_tuple extracted) ≡ with_key key (instances extracted))
    × Separate (group_relationships_by_tuple extracted)
grouped_example = group_relationships_by_tuple-members extracted

colon_example : parse_key (key_of colon_inside) ≡ none
colon_example = parse_key-key_of colon_inside

-- a hash that is one number in hexadecimal digits, and an answer that repeats the question
abbrev services : Services
services = record {
  md5 = λ s. codes "0123456789abcdef0123456789abcdef";
  resolve_with_llm = λ s t p descriptions. ok (codes "Python calls extensions in C.");
}

sources_run : map (λ r. r.source_count) (resolve_relationships services extracted []) ≡ 2 ∷ []
unfolding resolve_relationships
sources_run = refl
