-- ===== src/Paths/Walks.antt =====
-- The paths that the search returns, as walks of the graph.
use concept_microservice.Prelude.{
  All-append, ℕ, suc, ◌+◌, ◌≤◌, max, String, true, false, ◌≡◌, refl, sym, ap, ◌∙◌, some, List, [],
  ◌∷◌, ◌++◌, arith, All, map, length, length-append, lookup, leb, str_eq, eq_iff, Bool-cases,
  Option-cases, inl, inr,
}
use concept_microservice.Paths.{
  Adjacency, Neighbor, Hop, Item, Search, FoundPath, distance, extended, found, visit,
  bfs_find_paths, seen_closer, start, weight, degree_bound,
}
use concept_microservice.Paths.Loop.{Edge, Loop, bfs_lem}
use concept_microservice.Paths.Fuel.{start-ends}

abbrev pub target_of : Hop → String
target_of h = h.neighbor.target

-- Each edge starts where the one before it ends, and is an edge of the graph.
abbrev pub Walk : Adjacency → String → List Hop → String → Type 0
Walk adjacency a [] b = a ≡ b
Walk adjacency a (h ∷ hs) b =
    (h.source ≡ a) × Edge adjacency a h.neighbor × Walk adjacency (target_of h) hs b

Walk-append :
    (adjacency : Adjacency) (a b : String) (hs : List Hop) (n : Neighbor)
    → Walk adjacency a hs b
    → Edge adjacency b n
    → Walk adjacency a (hs ++ record { source = b; neighbor = n } ∷ []) n.target
Walk-append adjacency a b [] n w e = (sym w, rw w e, refl)
Walk-append adjacency a b (h ∷ hs) n w e = (w.0, w.1, Walk-append adjacency _ b hs n w.2 e)

map-append :
    (hs : List Hop) (h : Hop) → map target_of (hs ++ h ∷ []) ≡ map target_of hs ++ target_of h ∷ []
map-append [] h = refl
map-append (x ∷ hs) h = ap (◌∷◌ (target_of x)) (map-append hs h)

length-map : (hs : List Hop) → length (map target_of hs) ≡ length hs
length-map [] = refl
length-map (h ∷ hs) = ap suc (length-map hs)

module _ (adjacency : Adjacency) (source_id target_id : String) (max_hops max_paths : ℕ) where
  -- A path of the answer: a walk from the source to the target, with its nodes and its length.
  pub record IsPath (p : FoundPath) : Type 0 where
    pub nodes : p.node_ids ≡ source_id ∷ map target_of p.edge_info
    pub walk : Walk adjacency source_id p.edge_info target_id
    pub counted : p.hops ≡ length p.edge_info
    pub within : p.hops ≤ max_hops

  record IsItem (item : Item) : Type 0 where
    nodes_of : item.path_nodes ≡ source_id ∷ map target_of item.path_edges
    walk_of : Walk adjacency source_id item.path_edges item.current

  record Sound (q : List Item) (s : Search) : Type 0 where
    items : All IsItem q
    answers : All IsPath s.paths
    room : length s.paths + 1 ≤ max 1 max_paths

  record Exploring (item : Item) (s : Search) : Type 0 where
    self : IsItem item
    reach : distance item + 1 ≤ max_hops
    sound : Sound s.queue s

  abbrev pub Answer : List FoundPath → Type 0
  Answer ps = All IsPath ps × (length ps ≤ max 1 max_paths)

  distance_lem : (item : Item) → IsItem item → distance item ≡ length item.path_edges
  distance_lem item i = omega (arith, ap length i.nodes_of, length-map item.path_edges)

  extended-IsItem :
      (item : Item) (n : Neighbor)
      → IsItem item
      → Edge adjacency item.current n
      → IsItem (extended item n)
  extended-IsItem item n i edge = record {
    nodes_of =
        ap (λ ns. ns ++ n.target ∷ []) i.nodes_of
        ∙ ap (◌∷◌ source_id) (sym (map-append item.path_edges _));
    walk_of = Walk-append adjacency source_id item.current item.path_edges n i.walk_of edge;
  }

  found-IsPath :
      (item : Item) (n : Neighbor)
      → IsItem item
      → Edge adjacency item.current n
      → distance item + 1 ≤ max_hops
      → n.target ≡ target_id
      → IsPath (found item n)
  found-IsPath item n i edge reach here =
      let next = extended-IsItem item n i edge in
      record {
        nodes = next.nodes_of;
        walk = rw (← here) next.walk_of;
        counted = omega (
          arith,
          distance_lem item i,
          length-append item.path_edges (record { source = item.current; neighbor = n } ∷ []),
        );
        within = reach;
      }

  visit-Exploring :
      (item : Item) (n : Neighbor) (s : Search)
      → Edge adjacency item.current n
      → Exploring item s
      → ((visit adjacency target_id max_hops max_paths item n s).1 ≡ false
          → Exploring item (visit adjacency target_id max_hops max_paths item n s).0)
        × ((visit adjacency target_id max_hops max_paths item n s).1 ≡ true
            → Answer (visit adjacency target_id max_hops max_paths item n s).0.paths)
  unfolding visit
  visit-Exploring item n s edge d =
      elim (Bool-cases (seen_closer (lookup n.target s.visited) (distance item + 1))) [
        | inl closer ↦ rw (closer, visit) (λ e. d, λ e. cc)
        | inr fresh ↦ elim (Bool-cases (str_eq n.target target_id)) [
          | inl here ↦
              let new =
                All-append IsPath s.paths (found item n ∷ []) d.sound.answers
                  (found-IsPath item n d.self edge d.reach ((eq_iff _ _).0 here), tt) in
              rw (fresh, visit)
                (rw here (
                  λ more. record {
                    self = d.self;
                    reach = d.reach;
                    sound = record {
                      items = d.sound.items;
                      answers = new;
                      room =
                          room_left (length s.paths) (length (s.paths ++ found item n ∷ []))
                            (length-append s.paths _) more;
                    };
                  },
                  λ full.
                      (new, omega (arith, d.sound.room, length-append s.paths (found item n ∷ []))),
                ))
          | inr there ↦
              rw (fresh, visit)
                (rw there (
                  λ e. record {
                    self = d.self;
                    reach = d.reach;
                    sound = record {
                      items =
                          All-append IsItem s.queue (extended item n ∷ []) d.sound.items
                            (extended-IsItem item n d.self edge, tt);
                      answers = d.sound.answers;
                      room = d.sound.room;
                    };
                  },
                  λ e. cc,
                ))
        ]
      ]
    where
      room_left : (l m : ℕ) → m ≡ l + 1 → leb max_paths (l + 1) ≡ false → m + 1 ≤ max 1 max_paths
      room_left l m e h = ground arith

  Sound-loop : Loop adjacency target_id max_hops max_paths Sound Exploring Answer
  Sound-loop = record {
    enter = λ item rest s inv reach near. record {
      self = inv.items.0;
      reach = reach;
      sound = record { items = inv.items.1; answers = inv.answers; room = inv.room };
    };
    skip =
        λ item rest s inv. record { items = inv.items.1; answers = inv.answers; room = inv.room };
    leave = λ item s d. d.sound;
    visits = visit-Exploring;
    finish = λ s inv. (inv.answers, omega (arith, inv.room));
  }

  -- The search never runs out of fuel. It answers with at most `max_paths` paths, or with at most
  -- one where none are asked for; each is a walk along edges of the graph from the source to the
  -- target, of at most `max_hops` edges, and gives its own nodes and its own length.
  pub bfs_find_paths-IsPath :
      (ps : List FoundPath) × (bfs_find_paths adjacency source_id target_id max_hops max_paths
        ≡ some ps)
      × All IsPath ps
      × (length ps ≤ max 1 max_paths)
  unfolding bfs_find_paths start
  bfs_find_paths-IsPath = elim (Option-cases (lookup source_id adjacency)) [
    | inl absent ↦ ([], rw (absent, bfs_find_paths) refl, tt, omega arith)
    | inr (ns, there) ↦
        let s = start source_id in
        let fuel = weight (degree_bound adjacency) max_hops in
        let (ps, e) = start-ends adjacency target_id max_hops max_paths source_id in
        let answer = bfs_lem Sound-loop fuel s.queue s ps started e in
        (ps, rw (there, bfs_find_paths) e, answer.0, answer.1)
  ]
    where
      started : Sound (start source_id).queue (start source_id)
      started = record {
        items = (record { nodes_of = refl; walk_of = refl }, tt);
        answers = tt;
        room = omega arith;
      }
