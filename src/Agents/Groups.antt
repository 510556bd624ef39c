-- ===== src/Agents/Groups.antt =====
-- graph-worker/graphrag-service/src/domain/graphrag/agents/relationship_resolution.py: the grouping
-- of the extracted relationships by their keys. An extracted relationship has all its fields; a
-- confidence is a number of millionths.
pub mod Members
pub mod Lookup
use concept_microservice.Prelude.{
  ℕ, zero, suc, ◌+◌, ◌*◌, Bool, true, false, not, ◌&&◌, ◌||◌, Option, none, some, List, [], ◌∷◌,
  ◌++◌, length, map, leb, ltb, ◌==◌, if◌then◌else◌,
}
use concept_microservice.Prelude.Effect.{Outcome, ok, raise}
use concept_microservice.Text.{Text, codes, text_eq, is_empty, strip, lower, split}

pub record Relationship : Type 0 where
  pub source_name : Text
  pub target_name : Text
  pub relation : Text
  pub description : Text
  pub confidence : ℕ

-- an extraction result; `none` where it has no relationships
pub record Extraction : Type 0 where
  pub chunk_id : Option Text
  pub relationships : Option (List Relationship)

-- `relationship_with_source`
pub record Instance : Type 0 where
  pub relationship : Relationship
  pub source_chunk : Text

-- a dictionary of lists, in the order of the first use of each key
abbrev pub Groups {ℓ} : Type ℓ → Type ℓ
Groups A = List (Text × List A)

abbrev pub normalized : Text → Text
normalized name = strip (lower name)

-- `relationship_key`
abbrev pub key_of : Relationship → Text
key_of r =
    normalized r.source_name ++ b':' ∷ (normalized r.target_name ++ b':' ∷ normalized r.relation)

-- `groups[key].append(x)` on a defaultdict
unfoldable pub add_to_group {ℓ} : {A : Type ℓ} → Text → A → Groups A → Groups A
add_to_group key x [] = (key, x ∷ []) ∷ []
add_to_group key x ((k, group) ∷ groups) =
    if text_eq k key then (k, group ++ x ∷ []) ∷ groups else (k, group) ∷ add_to_group key x groups

abbrev pub or_unknown : Option Text → Text
or_unknown none = codes "unknown"
or_unknown (some chunk_id) = chunk_id

unfoldable pub add_all : Text → List Relationship → Groups Instance → Groups Instance
unfolding add_to_group
add_all chunk [] groups = groups
add_all chunk (r ∷ rs) groups =
    add_all chunk rs
      (add_to_group (key_of r) (record { relationship = r; source_chunk = chunk }) groups)

abbrev pub relationships_of : Option (List Relationship) → List Relationship
relationships_of none = []
relationships_of (some rs) = rs

unfoldable pub group_from : List Extraction → Groups Instance → Groups Instance
unfolding add_all
group_from [] groups = groups
group_from (x ∷ extractions) groups =
    group_from extractions
      (add_all (or_unknown x.chunk_id) (relationships_of x.relationships) groups)

-- `_group_relationships_by_tuple`
unfoldable pub group_relationships_by_tuple : List Extraction → Groups Instance
unfolding group_from
group_relationships_by_tuple extracted_data = group_from extracted_data []
