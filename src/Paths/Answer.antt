-- ===== src/Paths/Answer.antt =====
-- The answer of graph-worker/graphrag-service/src/app/api/graph/handlers/path_finding.py: the paths
-- with the details of their entities, and the response around them.
use concept_microservice.Prelude.{
  ℕ, suc, ◌≤◌, min, max, pos, String, ◌≡◌, ◌≢◌, refl, ap, Option, none, some, List, [], ◌∷◌, map,
  length, arith, All, str_eq, eq_iff, if◌then◌else◌,
}
use concept_microservice.Values.{Value, Fields, int, str, end, truthy, get}
use concept_microservice.Paths.{
  Hop, FoundPath, Adjacency, get_or, build_adjacency_list, bfs_find_paths,
}
use concept_microservice.Paths.Walks.{IsPath, target_of, bfs_find_paths-IsPath}

-- a node of a path with the entity's details
pub record Node : Type 0 where
  pub entity_id : String
  pub name : Value
  pub type : Value
  pub description : Value
  pub confidence : Value

pub record EnrichedPath : Type 0 where
  pub nodes : List Node
  pub edges : List Hop
  pub path_length : ℕ

abbrev or_value : Value → Value → Value
or_value v w = if truthy v then v else w

abbrev or_end : Option Fields → Fields
or_end none = end
or_end (some fs) = fs

-- the details of a node; `docs` is `entity_map`
unfoldable pub enrich_node : (String → Option Fields) → String → Node
enrich_node docs id =
    let doc = or_end (docs id) in
    record {
      entity_id = id;
      name = or_value (get "name" doc) (or_value (get "canonical_name" doc) (str id));
      type = get_or "type" (str "OTHER") doc;
      description = get_or "description" (str "") doc;
      confidence = get_or "confidence" (int (pos 0)) doc;
    }

-- `_enrich_paths`
unfoldable pub enrich_paths : (String → Option Fields) → List FoundPath → List EnrichedPath
unfolding enrich_node
enrich_paths docs [] = []
enrich_paths docs (p ∷ ps) =
    record { nodes = map (enrich_node docs) p.node_ids; edges = p.edge_info; path_length = p.hops }
    ∷ enrich_paths docs ps

-- min(..., default=None)
abbrev least : ℕ → Option ℕ → ℕ
least n none = n
least n (some m) = min n m

unfoldable pub shortest_length : List EnrichedPath → Option ℕ
shortest_length [] = none
shortest_length (p ∷ ps) = some (least p.path_length (shortest_length ps))

-- `_format_entity`
pub record Entity : Type 0 where
  pub entity_key : Value
  pub entity_name : Value
  pub entity_type : Value

unfoldable pub format_entity : Fields → Entity
format_entity doc = record {
  entity_key = get "entity_id" doc;
  entity_name =
      or_value (get "name" doc) (or_value (get "canonical_name" doc) (get "entity_id" doc));
  entity_type = get_or "type" (str "OTHER") doc;
}

-- the dict that is returned: an error, the one node of equal source and target, or the paths
pub data Response : Type 0 where
  source_not_found : String → Response
  target_not_found : String → Response
  same_entity : Entity → Entity → ℕ → ℕ → Response
  answered : List EnrichedPath → Entity → Entity → ℕ → Option ℕ → ℕ → ℕ → Response

-- `find_shortest_paths`: `entity` is `find_one` for an id, `rels` the relations, `docs` the details
unfoldable pub find_shortest_paths :
    (String → Option Fields)
    → List Fields
    → (String → Option Fields)
    → String
    → String
    → ℕ
    → ℕ
    → Option Response
unfolding build_adjacency_list bfs_find_paths enrich_paths shortest_length format_entity
find_shortest_paths entity rels docs source_id target_id max_hops max_paths =
    elim (entity source_id) [
      | none ↦ some (source_not_found source_id)
      | some source ↦ elim (entity target_id) [
        | none ↦ some (target_not_found target_id)
        | some target ↦
            if str_eq source_id target_id
            then some (same_entity (format_entity source) (format_entity target) max_hops max_paths)
            else elim (bfs_find_paths (build_adjacency_list rels) source_id target_id max_hops
                max_paths) [
                  | none ↦ none
                  | some raw_paths ↦
                      let paths = enrich_paths docs raw_paths in
                      some (
                        answered paths (format_entity source) (format_entity target) (length paths)
                          (shortest_length paths) max_hops max_paths)
                ]
      ]
    ]

length-enrich_paths :
    (docs : String → Option Fields) (ps : List FoundPath)
    → length (enrich_paths docs ps) ≡ length ps
unfolding enrich_paths
length-enrich_paths docs [] = refl
length-enrich_paths docs (p ∷ ps) = ap suc (length-enrich_paths docs ps)

length-map : {A B : Type 0} (f : A → B) (xs : List A) → length (map f xs) ≡ length xs
length-map f [] = refl
length-map f (x ∷ xs) = ap suc (length-map f xs)

-- A path with one node more than edges, as many edges as its length says, within the hop limit.
pub IsShaped : ℕ → EnrichedPath → Type 0
IsShaped max_hops p =
    (length p.nodes ≡ suc p.path_length)
    × (length p.edges ≡ p.path_length)
    × (p.path_length ≤ max_hops)

enrich_paths-IsShaped :
    (adjacency : Adjacency) (source_id target_id : String) (max_hops max_paths : ℕ)
    (docs : String → Option Fields) (ps : List FoundPath)
    → All (IsPath adjacency source_id target_id max_hops max_paths) ps
    → All (IsShaped max_hops) (enrich_paths docs ps)
unfolding enrich_paths IsShaped
enrich_paths-IsShaped adjacency source_id target_id max_hops max_paths docs [] h = tt
enrich_paths-IsShaped adjacency source_id target_id max_hops max_paths docs (p ∷ ps) h = (
  (
    omega (
      arith,
      length-map (enrich_node docs) p.node_ids,
      ap length h.0.nodes,
      length-map target_of p.edge_info,
      h.0.counted,
    ),
    omega (arith, h.0.counted),
    h.0.within,
  ),
  enrich_paths-IsShaped adjacency source_id target_id max_hops max_paths docs ps h.1,
)

-- For two different entities of the database the response always comes, with at most `max_paths`
-- paths, or at most one where none are asked for; each has one node more than edges, the length
-- that is the number of its edges, and this length is within the hop limit.
pub find_shortest_paths-IsShaped :
    (entity : String → Option Fields) (rels : List Fields) (docs : String → Option Fields)
    (source_id target_id : String) (max_hops max_paths : ℕ) (source target : Fields)
    → entity source_id ≡ some source
    → entity target_id ≡ some target
    → source_id ≢ target_id
    → (paths : List EnrichedPath) × (find_shortest_paths entity rels docs source_id target_id
          max_hops max_paths
        ≡ some (
            answered paths
              (format_entity source)
              (format_entity target)
              (length paths)
              (shortest_length paths)
              max_hops
              max_paths))
      × (length paths ≤ max 1 max_paths)
      × All (IsShaped max_hops) paths
unfolding find_shortest_paths
find_shortest_paths-IsShaped entity rels docs source_id target_id max_hops max_paths source target s
      t differ =
    let (ps, e, walks, few) =
      bfs_find_paths-IsPath (build_adjacency_list rels) source_id target_id max_hops max_paths in
    (
      enrich_paths docs ps,
      ground (arith, s, t, e, eq_iff source_id target_id),
      omega (arith, few, length-enrich_paths docs ps),
      enrich_paths-IsShaped (build_adjacency_list rels) source_id target_id max_hops max_paths docs
          ps walks,
    )
