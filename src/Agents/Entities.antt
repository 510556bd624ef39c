-- ===== src/Agents/Entities.antt =====
-- graph-worker/graphrag-service/src/domain/graphrag/agents/entity_resolution.py: the normalized
-- names, the groups, and the choice of the name and type of a group; and EntityType of
-- core/models/graphrag.py. An extracted entity has all its fields; a confidence is a number of
-- millionths, so a sum has no rounding error.
pub mod Choice
pub mod Names
pub mod Types
use concept_microservice.Prelude.{
  ℕ, zero, suc, ◌+◌, ◌-◌, ◌*◌, Bool, true, false, not, ◌&&◌, ◌||◌, Option, none, some, List, [],
  ◌∷◌, ◌++◌, length, map, leb, ltb, ◌==◌, if◌then◌else◌, take, drop,
}
use concept_microservice.Prelude.Effect.{Outcome, ok, raise}
use concept_microservice.Text.{Text, codes, text_eq, is_empty, strip, lower, starts_with, ends_with}
use concept_microservice.Agents.Groups.{Groups, add_to_group, or_unknown}

pub data EntityType : Type 0 where
  person : EntityType
  organization : EntityType
  technology : EntityType
  concept : EntityType
  location : EntityType
  event : EntityType
  other : EntityType

abbrev pub value : EntityType → Text
value person = codes "PERSON"
value organization = codes "ORGANIZATION"
value technology = codes "TECHNOLOGY"
value concept = codes "CONCEPT"
value location = codes "LOCATION"
value event = codes "EVENT"
value other = codes "OTHER"

abbrev pub entity_types : List EntityType
entity_types = person ∷ organization ∷ technology ∷ concept ∷ location ∷ event ∷ other ∷ []

pub data EntityError : Type 0 where
  value_error : EntityError
  attribute_error : EntityError

abbrev pub with_value : EntityError → Text → List EntityType → Outcome EntityError EntityType
with_value e s [] = raise e
with_value e s (t ∷ ts) = if text_eq (value t) s then ok t else with_value e s ts

-- `EntityType(s)`
abbrev pub entity_type_of : Text → Outcome EntityError EntityType
entity_type_of s = with_value value_error s entity_types

-- `EntityType.NAME`, where each member has its name as its value
abbrev pub attribute : Text → Outcome EntityError EntityType
attribute name = with_value attribute_error name entity_types

pub record Entity : Type 0 where
  pub name : Text
  pub label : Text
  pub description : Text
  pub confidence : ℕ

-- an extraction result; `none` where it has no entities
pub record EntityExtraction : Type 0 where
  pub chunk_id : Option Text
  pub entities : Option (List Entity)

-- `entity_with_source`
pub record EntityInstance : Type 0 where
  pub entity : Entity
  pub source_chunk : Text

abbrev prefixes_to_remove : List Text
prefixes_to_remove = codes "mr." ∷ codes "ms." ∷ codes "dr." ∷ codes "prof." ∷ codes "the " ∷ []

abbrev suffixes_to_remove : List Text
suffixes_to_remove =
    codes " inc." ∷ codes " corp." ∷ codes " ltd." ∷ codes " llc." ∷ codes " co." ∷ []

abbrev pub remove_prefixes : List Text → Text → Text
remove_prefixes [] s = s
remove_prefixes (p ∷ ps) s =
    remove_prefixes ps (if starts_with s p then strip (drop (length p) s) else s)

abbrev pub remove_suffixes : List Text → Text → Text
remove_suffixes [] s = s
remove_suffixes (p ∷ ps) s =
    remove_suffixes ps (if ends_with s p then strip (take (length s - length p) s) else s)

-- `_normalize_entity_name`
unfoldable pub normalize_entity_name : Text → Text
normalize_entity_name name =
    remove_suffixes suffixes_to_remove (remove_prefixes prefixes_to_remove (strip (lower name)))

unfoldable pub add_entities : Text → List Entity → Groups EntityInstance → Groups EntityInstance
unfolding add_to_group normalize_entity_name
add_entities chunk [] groups = groups
add_entities chunk (e ∷ es) groups = add_entities chunk es (
    add_to_group (normalize_entity_name e.name) (record { entity = e; source_chunk = chunk })
      groups)

abbrev pub entities_of : Option (List Entity) → List Entity
entities_of none = []
entities_of (some es) = es

unfoldable pub entity_groups_from :
    List EntityExtraction → Groups EntityInstance → Groups EntityInstance
unfolding add_entities
entity_groups_from [] groups = groups
entity_groups_from (x ∷ xs) groups =
    entity_groups_from xs (add_entities (or_unknown x.chunk_id) (entities_of x.entities) groups)

-- `_group_entities_by_name`
unfoldable pub group_entities_by_name : List EntityExtraction → Groups EntityInstance
unfolding entity_groups_from
group_entities_by_name extracted_data = entity_groups_from extracted_data []

-- `confidences[key(entity)].append(confidence)` for each entity; a count is the length of such a
-- list, and a score its sum
unfoldable pub tally : (Entity → Text) → List Entity → Groups ℕ → Groups ℕ
unfolding add_to_group
tally key [] groups = groups
tally key (e ∷ es) groups = tally key es (add_to_group (key e) e.confidence groups)

abbrev pub sum : List ℕ → ℕ
sum [] = 0
sum (n ∷ ns) = n + sum ns

-- `max(keys, key=...)`: the first of the greatest, where the test says that the first argument is
-- strictly greater
abbrev pub greatest {ℓ} : {A : Type ℓ} → (A → A → Bool) → A → List A → A
greatest above best [] = best
greatest above best (x ∷ xs) = greatest above (if above x best then x else best) xs

-- a higher count, or the same count and a higher average
abbrev pub more_used : Text × List ℕ → Text × List ℕ → Bool
more_used (x, ns) (y, ms) =
    ltb (length ms) (length ns)
    || length ns == length ms && ltb (sum ms * length ns) (sum ns * length ms)

abbrev pub best_name : Groups ℕ → Option Text
best_name [] = none
best_name (g ∷ gs) = some ((greatest more_used g gs).0)

-- `_determine_canonical_name`; none is the ValueError of an empty group
unfoldable pub determine_canonical_name : List Entity → Option Text
unfolding tally
determine_canonical_name entity_group = best_name (tally (λ e. e.name) entity_group [])

abbrev pub higher_score : Text × List ℕ → Text × List ℕ → Bool
higher_score (x, ns) (y, ms) = ltb (sum ms) (sum ns)

-- `tied_types`: the types less than 0.1 below the best score
abbrev pub tied_types : ℕ → Groups ℕ → List Text
tied_types best [] = []
tied_types best ((t, ns) ∷ groups) =
    if ltb (best - sum ns) 100000 then t ∷ tied_types best groups else tied_types best groups

abbrev pub member : Text → List Text → Bool
member x [] = false
member x (y ∷ ys) = text_eq y x || member x ys

abbrev pub prefer : Option EntityType → List Text → Text → Text
prefer none tied best = best
prefer (some t) tied best = if ltb 1 (length tied) && member (value t) tied then value t else best

abbrev pub best_type : Option EntityType → Groups ℕ → Outcome EntityError EntityType
best_type existing [] = ok other
best_type existing (g ∷ gs) =
    let best = greatest higher_score g gs in
    entity_type_of (prefer existing (tied_types (sum best.1) (g ∷ gs)) best.0)

-- `_determine_entity_type`
unfoldable pub determine_entity_type :
    List Entity → Option EntityType → Outcome EntityError EntityType
unfolding tally
determine_entity_type entity_group existing_type =
    best_type existing_type (tally (λ e. e.label) entity_group [])

abbrev pub pairs_of :
    Outcome EntityError EntityType
    → Outcome EntityError EntityType
    → Outcome EntityError EntityType
    → Outcome EntityError (List (EntityType × EntityType))
pairs_of (raise e) o t = raise e
pairs_of (ok p) (raise e) t = raise e
pairs_of (ok p) (ok o) (raise e) = raise e
pairs_of (ok p) (ok o) (ok t) = ok ((p, o) ∷ (p, t) ∷ (o, p) ∷ (t, p) ∷ [])

-- `incompatible_pairs`, whose attributes are looked up when the list is made
abbrev pub incompatible_pairs : Outcome EntityError (List (EntityType × EntityType))
incompatible_pairs =
    pairs_of (attribute (codes "PERSON")) (attribute (codes "ORG")) (attribute (codes "TECHNOLOGY"))

abbrev pub type_eq : EntityType → EntityType → Bool
type_eq t u = text_eq (value t) (value u)

abbrev pub has_pair : EntityType → EntityType → List (EntityType × EntityType) → Bool
has_pair t u [] = false
has_pair t u ((a, b) ∷ pairs) = type_eq a t && type_eq b u || has_pair t u pairs

abbrev pub not_in :
    EntityType
    → EntityType
    → Outcome EntityError (List (EntityType × EntityType))
    → Outcome EntityError Bool
not_in t u (raise e) = raise e
not_in t u (ok pairs) = ok (not (has_pair t u pairs))

-- `_are_types_compatible` on two members
unfoldable pub are_types_compatible : EntityType → EntityType → Outcome EntityError Bool
are_types_compatible t u = if type_eq t u then ok true else not_in t u incompatible_pairs
