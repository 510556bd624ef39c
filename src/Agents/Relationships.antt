-- ===== src/Agents/Relationships.antt =====
-- graph-worker/graphrag-service/src/domain/graphrag/agents/relationship_resolution.py: the
-- resolution of the groups, and the model ResolvedRelationship of core/models/graphrag.py. The
-- language model, with its retries, and MD5 are arguments. An overall confidence is a sum of
-- millionths with the number of its terms.
pub mod Keys
pub mod Sources
use concept_microservice.Prelude.{
  ℕ, zero, suc, ◌+◌, ◌*◌, Bool, true, false, not, ◌&&◌, ◌||◌, Option, none, some, List, [], ◌∷◌,
  ◌++◌, length, map, leb, ltb, ◌==◌, if◌then◌else◌,
}
use concept_microservice.Prelude.Effect.{Outcome, ok, raise}
use concept_microservice.Text.{Text, codes, text_eq, is_empty, strip, lower, split}
use concept_microservice.Agents.Groups.{
  Relationship, Extraction, Instance, Groups, normalized, group_relationships_by_tuple,
}

pub record ResolvedRelationship : Type 0 where
  pub relationship_id : Text
  pub subject_id : Text
  pub object_id : Text
  pub predicate : Text
  pub description : Text
  pub confidence : ℕ × ℕ
  pub source_count : ℕ

-- the exceptions that leave a group out
pub data GroupError : Type 0 where
  bad_key : GroupError
  bad_field : GroupError

abbrev pub hex_digit : ℕ → Bool
hex_digit c = leb b'0' c && leb c b'9' || leb b'a' c && leb c b'f'

abbrev pub all_hex : Text → Bool
all_hex [] = true
all_hex (c ∷ s) = hex_digit c && all_hex s

abbrev pub between : ℕ → ℕ → Text → Bool
between least most s = leb least (length s) && leb (length s) most

abbrev pub entity_id : Text → Bool
entity_id s = length s == 32 && all_hex (lower s)

-- the bounds and the validator of the model; a confidence is at most 1
abbrev pub is_valid : ResolvedRelationship → Bool
is_valid r =
    length r.relationship_id == 32
    && (entity_id r.subject_id
        && (entity_id r.object_id
            && (between 1 100 r.predicate
                && (between 10 1000 r.description
                    && (leb r.confidence.0 (r.confidence.1 * 1000000) && leb 1 r.source_count)))))

-- `ResolvedRelationship(...)`, which turns the entity ids to lower case
unfoldable pub construct : ResolvedRelationship → Outcome GroupError (Option ResolvedRelationship)
construct r =
    if is_valid r
    then ok (some (record r { subject_id = lower r.subject_id; object_id = lower r.object_id }))
    else raise bad_field

abbrev pub three_parts : List Text → Option (Text × Text × Text)
three_parts (s ∷ o ∷ p ∷ []) = some (s, o, p)
three_parts parts = none

-- `relationship_key.split(":")` into three names; none is the ValueError
unfoldable pub parse_key : Text → Option (Text × Text × Text)
parse_key key = three_parts (split b':' key)

unfoldable pub sum_confidences : List Instance → ℕ
sum_confidences [] = 0
sum_confidences (x ∷ xs) = x.relationship.confidence + sum_confidences xs

-- `_calculate_overall_confidence`
unfoldable pub calculate_overall_confidence : List Instance → ℕ × ℕ
unfolding sum_confidences
calculate_overall_confidence group = (sum_confidences group, length group)

abbrev exact : Text → List (Text × Text) → Option Text
exact name [] = none
exact name ((k, id) ∷ entries) = if text_eq k name then some id else exact name entries

abbrev ignoring_case : Text → List (Text × Text) → Option Text
ignoring_case name [] = none
ignoring_case name ((k, id) ∷ entries) =
    if text_eq (lower k) name then some id else ignoring_case name entries

abbrev first_of : Option Text → Option Text → Option Text
first_of (some id) other = some id
first_of none other = other

-- What the agent calls: MD5 in hexadecimal digits, and the language model behind its retries, on
-- two names, the predicate and the descriptions.
pub record Services : Type 0 where
  pub md5 : Text → Text
  pub resolve_with_llm : Text → Text → Text → List Text → Outcome Unit Text

module _ (services : Services) where
  -- `_lookup_entity_id`; an empty mapping is as none
  unfoldable pub lookup_entity_id : Text → List (Text × Text) → Option Text
  lookup_entity_id name [] = some (services.md5 (normalized name))
  lookup_entity_id name (e ∷ es) =
      first_of (exact (normalized name) (e ∷ es)) (ignoring_case (normalized name) (e ∷ es))

  abbrev pub relationship_id : Text → Text → Text → Text
  relationship_id subject_id object_id predicate =
      services.md5 (lower (subject_id ++ b':' ∷ (object_id ++ b':' ∷ predicate)))

  abbrev long_enough : Outcome Unit Text → Option Text
  long_enough (raise e) = none
  long_enough (ok text) = if ltb (length text) 10 then none else some text

  -- `_resolve_descriptions`
  unfoldable pub resolve_descriptions : Text → Text → Text → List Text → Option Text
  resolve_descriptions subject object predicate (description ∷ []) = some description
  resolve_descriptions subject object predicate descriptions =
      long_enough (services.resolve_with_llm subject object predicate descriptions)

  abbrev pub resolved_as :
      Option Text
      → List Instance
      → Text
      → Text
      → Text
      → Outcome GroupError (Option ResolvedRelationship)
  resolved_as none group subject_id object_id predicate = ok none
  resolved_as (some description) group subject_id object_id predicate =
      if is_empty description
      then ok none
      else construct (record {
        relationship_id = relationship_id subject_id object_id predicate;
        subject_id = subject_id;
        object_id = object_id;
        predicate = predicate;
        description = description;
        confidence = calculate_overall_confidence group;
        source_count = length group;
      })

  -- `_resolve_multiple_relationships`, named by the first of the group
  unfoldable pub resolve_multiple_relationships :
      Instance
      → List Instance
      → Text
      → Text
      → Text
      → Outcome GroupError (Option ResolvedRelationship)
  unfolding construct resolve_descriptions calculate_overall_confidence
  resolve_multiple_relationships x xs subject_id object_id predicate =
      resolved_as
        (resolve_descriptions x.relationship.source_name x.relationship.target_name predicate
          (map (λ i. i.relationship.description) (x ∷ xs)))
        (x ∷ xs) subject_id object_id predicate

  abbrev pub single_of : Relationship → Text → Text → Text → ResolvedRelationship
  single_of r subject_id object_id predicate = record {
    relationship_id = relationship_id subject_id object_id predicate;
    subject_id = subject_id;
    object_id = object_id;
    predicate = predicate;
    description = r.description;
    confidence = (r.confidence, 1);
    source_count = 1;
  }

  -- `_create_resolved_relationship_from_single`
  unfoldable pub create_resolved_relationship_from_single :
      Relationship → Text → Text → Text → Outcome GroupError (Option ResolvedRelationship)
  unfolding construct
  create_resolved_relationship_from_single r subject_id object_id predicate =
      construct (single_of r subject_id object_id predicate)

  -- one relationship is used as it is, and several are merged
  abbrev pub from_group :
      Instance
      → List Instance
      → Text
      → Text
      → Text
      → Outcome GroupError (Option ResolvedRelationship)
  from_group x [] subject_id object_id predicate =
      create_resolved_relationship_from_single x.relationship subject_id object_id predicate
  from_group x (y ∷ ys) subject_id object_id predicate =
      resolve_multiple_relationships x (y ∷ ys) subject_id object_id predicate

  abbrev pub with_ids :
      Option Text
      → Option Text
      → Text
      → Instance
      → List Instance
      → Outcome GroupError (Option ResolvedRelationship)
  with_ids (some subject_id) (some object_id) predicate x xs =
      if is_empty subject_id || is_empty object_id
      then ok none
      else from_group x xs subject_id object_id predicate
  with_ids subject_id object_id predicate x xs = ok none

  abbrev pub with_names :
      Option (Text × Text × Text)
      → Instance
      → List Instance
      → List (Text × Text)
      → Outcome GroupError (Option ResolvedRelationship)
  with_names none x xs ids = raise bad_key
  with_names (some (subject, object, predicate)) x xs ids =
      with_ids (lookup_entity_id subject ids) (lookup_entity_id object ids) predicate x xs

  -- `_resolve_relationship_group`
  unfoldable pub resolve_relationship_group :
      Text → List Instance → List (Text × Text) → Outcome GroupError (Option ResolvedRelationship)
  unfolding parse_key lookup_entity_id create_resolved_relationship_from_single
      resolve_multiple_relationships
  resolve_relationship_group key [] ids = ok none
  resolve_relationship_group key (x ∷ xs) ids = with_names (parse_key key) x xs ids

  abbrev pub keep :
      Outcome GroupError (Option ResolvedRelationship)
      → List ResolvedRelationship
      → List ResolvedRelationship
  keep (ok (some r)) rest = r ∷ rest
  keep (ok none) rest = rest
  keep (raise e) rest = rest

  unfoldable pub resolve_groups : Groups Instance → List (Text × Text) → List ResolvedRelationship
  unfolding resolve_relationship_group
  resolve_groups [] ids = []
  resolve_groups ((key, group) ∷ groups) ids =
      keep (resolve_relationship_group key group ids) (resolve_groups groups ids)

  -- `resolve_relationships`
  unfoldable pub resolve_relationships :
      List Extraction → List (Text × Text) → List ResolvedRelationship
  unfolding resolve_groups group_relationships_by_tuple
  resolve_relationships extracted_data ids =
      resolve_groups (group_relationships_by_tuple extracted_data) ids

abbrev pub member : Text → List Text → Bool
member x [] = false
member x (y ∷ ys) = text_eq y x || member x ys

-- `validate_entity_existence`
unfoldable pub validate_entity_existence :
    List ResolvedRelationship → List Text → List ResolvedRelationship
validate_entity_existence [] entity_ids = []
validate_entity_existence (r ∷ rs) entity_ids =
    let rest = validate_entity_existence rs entity_ids in
    if member r.subject_id entity_ids && member r.object_id entity_ids then r ∷ rest else rest
