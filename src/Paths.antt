-- ===== src/Paths.antt =====
-- graph-worker/graphrag-service/src/app/api/graph/handlers/path_finding.py: paths between two
-- entities of the graph. A document of the database is a dict, and an entity's id a text; the
-- answers of the database are arguments.
pub mod Loop
pub mod Fuel
pub mod Walks
pub mod Lengths
pub mod Answer
use concept_microservice.Prelude.{
  ℕ, zero, suc, ◌+◌, ◌-◌, ◌*◌, ◌≤◌, min, pos, String, Bool, true, false, ◌||◌, Option, none, some,
  List, [], ◌∷◌, ◌++◌, map, length, lookup, insert, ltb, leb, str_eq, if◌then◌else◌,
}
use concept_microservice.Values.{Value, Fields, int, str, end, truthy, find, get}

pub data Direction : Type 0 where
  outgoing incoming : Direction

-- an entry of the adjacency list
pub record Neighbor : Type 0 where
  pub target : String
  pub relationship_id : Value
  pub predicate : Value
  pub confidence : Value
  pub direction : Direction

abbrev pub Adjacency : Type 0
Adjacency = List (String × List Neighbor)

-- adjacency.get(id, [])
unfoldable pub neighbors : Adjacency → String → List Neighbor
neighbors adjacency id = elim (lookup id adjacency) [ none ↦ [] | some ns ↦ ns ]

-- adjacency[id].append(n)
unfoldable pub add_neighbor : String → Neighbor → Adjacency → Adjacency
unfolding neighbors
add_neighbor id n adjacency = insert id (neighbors adjacency id ++ n ∷ []) adjacency

-- d.get(k, default)
abbrev get_or : String → Value → Fields → Value
get_or k default fs = elim (find k fs) [ none ↦ default | some v ↦ v ]

-- what the test `not id` lets through
abbrev id_of : Value → Option String
id_of (str s) = if str_eq s "" then none else some s
id_of v = none

abbrev edge_to : String → Direction → Fields → Neighbor
edge_to id direction rel = record {
  target = id;
  relationship_id = get "relationship_id" rel;
  predicate = get_or "predicate" (str "related_to") rel;
  confidence = get_or "confidence" (int (pos 0)) rel;
  direction = direction;
}

abbrev add_edges : Option String → Option String → Fields → Adjacency → Adjacency
add_edges none object rel adjacency = adjacency
add_edges (some s) none rel adjacency = adjacency
add_edges (some s) (some o) rel adjacency =
    add_neighbor o (edge_to s incoming rel) (add_neighbor s (edge_to o outgoing rel) adjacency)

-- the loop of `_build_adjacency_list`
unfoldable pub add_relations : List Fields → Adjacency → Adjacency
unfolding add_neighbor
add_relations [] adjacency = adjacency
add_relations (rel ∷ rels) adjacency =
    add_relations rels
      (add_edges (id_of (get "subject_id" rel)) (id_of (get "object_id" rel)) rel adjacency)

unfoldable pub build_adjacency_list : List Fields → Adjacency
unfolding add_relations
build_adjacency_list rels = add_relations rels []

-- an edge of a path
pub record Hop : Type 0 where
  pub source : String
  pub neighbor : Neighbor

pub record FoundPath : Type 0 where
  pub node_ids : List String
  pub edge_info : List Hop
  pub hops : ℕ

-- an element of the queue
pub record Item : Type 0 where
  pub current : String
  pub path_nodes : List String
  pub path_edges : List Hop

pub record Search : Type 0 where
  pub queue : List Item
  pub visited : List (String × ℕ)
  pub paths : List FoundPath
  pub shortest_found : Option ℕ

abbrev pub distance : Item → ℕ
distance item = length item.path_nodes - 1

-- `neighbor_id in visited and visited[neighbor_id] < next_distance`
abbrev pub seen_closer : Option ℕ → ℕ → Bool
seen_closer none next = false
seen_closer (some d) next = ltb d next

abbrev pub beyond : Option ℕ → ℕ → Bool
beyond none d = false
beyond (some s) d = ltb s d

abbrev pub first_length : Option ℕ → ℕ → Option ℕ
first_length none d = some d
first_length (some s) d = some s

abbrev pub extended : Item → Neighbor → Item
extended item n = record {
  current = n.target;
  path_nodes = item.path_nodes ++ n.target ∷ [];
  path_edges = item.path_edges ++ record { source = item.current; neighbor = n } ∷ [];
}

abbrev pub found : Item → Neighbor → FoundPath
found item n =
    let next = extended item n in
    record { node_ids = next.path_nodes; edge_info = next.path_edges; hops = distance item + 1 }

module _ (adjacency : Adjacency) (target_id : String) (max_hops max_paths : ℕ) where
  -- the body of the loop over the neighbors; the flag tells of the `return` inside it
  unfoldable pub visit : Item → Neighbor → Search → Search × Bool
  visit item n s =
      if seen_closer (lookup n.target s.visited) (distance item + 1)
      then (s, false)
      else if str_eq n.target target_id
      then (
        record s {
          paths = s.paths ++ found item n ∷ [];
          shortest_found = first_length s.shortest_found (distance item + 1);
        },
        leb max_paths (length s.paths + 1),
      )
      else (
        record s {
          visited = insert n.target (distance item + 1) s.visited;
          queue = s.queue ++ extended item n ∷ [];
        },
        false,
      )

  unfoldable pub explore : Item → List Neighbor → Search → Search × Bool
  unfolding visit
  explore item [] s = (s, false)
  explore item (n ∷ ns) s =
      let (s', returned) = visit item n s in
      elim returned [ true ↦ (s', true) | false ↦ explore item ns s' ]

  -- one element of the queue
  unfoldable pub step : Item → Search → Search × Bool
  unfolding explore neighbors
  step item s =
      if beyond s.shortest_found (distance item) || leb max_hops (distance item)
      then (s, false)
      else explore item (neighbors adjacency item.current) s

  abbrev popped : Search → List Item → Search
  popped s rest = record s { queue = rest }

  -- `while queue`, on fuel
  unfoldable pub bfs : ℕ → List Item → Search → Option (List FoundPath)
  unfolding step
  bfs fuel [] s = some s.paths
  bfs zero (item ∷ rest) s = none
  bfs (suc fuel) (item ∷ rest) s =
      let (s', returned) = step item (popped s rest) in
      elim returned [ true ↦ some s'.paths | false ↦ bfs fuel s'.queue s' ]

-- The fuel: an element with `r` hops left stands for itself and for what its neighbors bring.
unfoldable pub weight : ℕ → ℕ → ℕ
weight b zero = 1
weight b (suc r) = 1 + b * weight b r

unfoldable pub degree_bound : Adjacency → ℕ
degree_bound [] = 0
degree_bound ((id, ns) ∷ rest) = length ns + degree_bound rest

unfoldable pub start : String → Search
start source_id = record {
  queue = record { current = source_id; path_nodes = source_id ∷ []; path_edges = [] } ∷ [];
  visited = (source_id, 0) ∷ [];
  paths = [];
  shortest_found = none;
}

-- `_bfs_find_paths`; `none` would be a search that runs out of fuel
unfoldable pub bfs_find_paths : Adjacency → String → String → ℕ → ℕ → Option (List FoundPath)
unfolding bfs weight degree_bound start
bfs_find_paths adjacency source_id target_id max_hops max_paths =
    elim (lookup source_id adjacency) [
      | none ↦ some []
      | some ns ↦
          let s = start source_id in
          bfs adjacency target_id max_hops max_paths (weight (degree_bound adjacency) max_hops)
            s.queue s
    ]
