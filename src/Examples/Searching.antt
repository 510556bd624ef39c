-- ===== src/Examples/Searching.antt =====
-- A triangle of three entities, as app/api/graph/handlers/path_finding.py searches it.
use concept_microservice.Prelude.{
  arith, eq_iff, ◌≢◌, ℕ, ◌≤◌, max, String, ◌≡◌, refl, Option, none, some, List, [], ◌∷◌, All,
  length, lookup, insert, map,
}
use concept_microservice.Values.{Fields, str, end, field, find, get}
use concept_microservice.Paths.{
  FoundPath, build_adjacency_list, add_relations, add_neighbor, neighbors, bfs_find_paths, bfs,
  step, explore, visit, weight, degree_bound, start,
}
use concept_microservice.Paths.Answer.{
  EnrichedPath, answered, format_entity, shortest_length, find_shortest_paths, IsShaped,
  find_shortest_paths-IsShaped,
}
use concept_microservice.Paths.Lengths.{Near, bfs_find_paths-Near}
use concept_microservice.Paths.Walks.{IsPath, bfs_find_paths-IsPath}

abbrev relation : String → String → Fields
relation s o = field "subject_id" (str s) (field "object_id" (str o) end)

abbrev triangle : List Fields
triangle = relation "a" "b" ∷ relation "a" "c" ∷ relation "c" "b" ∷ []

paths_example :
    (ps : List FoundPath) × (bfs_find_paths (build_adjacency_list triangle) "a" "b" 3 10 ≡ some ps)
    × All (IsPath (build_adjacency_list triangle) "a" "b" 3 10) ps
    × (length ps ≤ max 1 10)
paths_example = bfs_find_paths-IsPath (build_adjacency_list triangle) "a" "b" 3 10

lengths_example :
    (ps : List FoundPath) × (bfs_find_paths (build_adjacency_list triangle) "a" "b" 3 10 ≡ some ps)
    × Near ps
lengths_example = bfs_find_paths-Near (build_adjacency_list triangle) "a" "b" 3 10

abbrev lengths : Option (List FoundPath) → List ℕ
lengths found = elim found [ some ps ↦ map (λ p. p.hops) ps | none ↦ [] ]

-- beside the path of one edge, the path of two edges is returned
triangle-lengths :
    lengths (bfs_find_paths (build_adjacency_list triangle) "a" "b" 3 10) ≡ 1 ∷ 2 ∷ []
unfolding build_adjacency_list add_relations add_neighbor neighbors bfs_find_paths bfs step explore
    visit weight degree_bound start lookup insert find get
triangle-lengths = refl

-- one path is returned where none are asked for
none_asked-lengths : lengths (bfs_find_paths (build_adjacency_list triangle) "a" "b" 3 0) ≡ 1 ∷ []
unfolding build_adjacency_list add_relations add_neighbor neighbors bfs_find_paths bfs step explore
    visit weight degree_bound start lookup insert find get
none_asked-lengths = refl

abbrev entity : String → Option Fields
entity id = some (field "entity_id" (str id) end)

a_not_b : ◌≢◌ {A = String} "a" "b"
a_not_b = ground (arith, eq_iff "a" "b")

answer_example :
    (paths : List EnrichedPath) × (find_shortest_paths entity triangle entity "a" "b" 3 10
      ≡ some (
          answered paths
            (format_entity (field "entity_id" (str "a") end))
            (format_entity (field "entity_id" (str "b") end))
            (length paths)
            (shortest_length paths)
            3
            10))
    × (length paths ≤ max 1 10)
    × All (IsShaped 3) paths
answer_example =
    find_shortest_paths-IsShaped entity triangle entity "a" "b" 3 10
      (field "entity_id" (str "a") end) (field "entity_id" (str "b") end) refl refl a_not_b
