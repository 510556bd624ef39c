-- ===== src/Agents/Relationships/Sources.antt =====
-- Which group each result comes from, and what it has of it.
use concept_microservice.Prelude.{
  Bool, true, ◌&&◌, false, ℕ, ◌+◌, Option, some, List, [], ◌∷◌, ◌≡◌, length,
}
use concept_microservice.Prelude.Effect.{Outcome, ok}
use concept_microservice.Text.{Text, lower}
use concept_microservice.Agents.Groups.{Instance, Groups}
use concept_microservice.Agents.Groups.Members.{members, has_key}
use concept_microservice.Agents.Relationships.{
  GroupError, ResolvedRelationship, member, Services, parse_key, lookup_entity_id,
  resolve_relationship_group,
}

-- the sum of the confidences
abbrev pub confidence_sum : List Instance → ℕ
confidence_sum [] = 0
confidence_sum (x ∷ xs) = x.relationship.confidence + confidence_sum xs

-- whether a group has a result
abbrev pub is_resolved : Outcome GroupError (Option ResolvedRelationship) → Bool
is_resolved (ok (some r)) = true
is_resolved o = false

-- no text stands twice
abbrev pub Unrepeated : List Text → Type 0
Unrepeated [] = Unit
Unrepeated (key ∷ keys) = (member key keys ≡ false) × Unrepeated keys

module _ (services : Services) (ids : List (Text × Text)) where
  -- What a result has of its key and of its group: the ids of the entities that the key names, its
  -- predicate, as many sources as the group has members, and the mean of their confidences.
  pub record Resolves (key : Text) (group : List Instance) (r : ResolvedRelationship) : Type 0 where
    pub subject : Text
    pub object : Text
    pub names : parse_key key ≡ some (subject, object, r.predicate)
    pub subject_found :
        (id : Text) × (lookup_entity_id services subject ids ≡ some id) × (r.subject_id ≡ lower id)
    pub object_found :
        (id : Text) × (lookup_entity_id services object ids ≡ some id) × (r.object_id ≡ lower id)
    pub counted : r.source_count ≡ length group
    pub mean : r.confidence ≡ (confidence_sum group, length group)

  abbrev Outcomes : Text → List Instance → Outcome GroupError (Option ResolvedRelationship) → Type 0
  Outcomes key group (ok (some r)) = Resolves key group r
  Outcomes key group o = Unit

  -- the results and their keys, one for one
  abbrev pub Each : (Text → List Instance) → List Text → List ResolvedRelationship → Type 0
  Each group_of [] [] = Unit
  Each group_of (key ∷ keys) (r ∷ rs) = Resolves key (group_of key) r × Each group_of keys rs
  Each group_of keys rs = ⊥

  -- whether the group that a key finds has a result
  abbrev pub resolved_by : (Text → List Instance) → Text → Bool
  resolved_by group_of key =
      is_resolved (resolve_relationship_group services key (group_of key) ids)

  -- the keys of the results of some of the groups
  record Keyed (groups some_of : Groups Instance) (rs : List ResolvedRelationship) : Type 0 where
    keys : List Text
    unrepeated : Unrepeated keys
    each : Each (λ key. members key groups) keys rs
    exact :
        (key : Text)
        → member key keys ≡ (has_key key some_of && resolved_by (λ k. members k groups) key)
