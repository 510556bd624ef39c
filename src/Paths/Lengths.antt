-- ===== src/Paths/Lengths.antt =====
-- The lengths of the paths that the search returns, one against another.
use concept_microservice.Prelude.{
  All-append, All-map, ℕ, ◌+◌, ◌≤◌, String, true, false, ◌≡◌, refl, sym, ◌∙◌, Option, none, some,
  List, [], ◌∷◌, ◌++◌, arith, All, length, length-append, lookup, str_eq, Bool-cases, inl, inr,
  Option-cases,
}
use concept_microservice.Paths.{
  Adjacency, Neighbor, Item, Search, FoundPath, distance, extended, found, visit, bfs_find_paths,
  seen_closer, beyond, first_length, start, weight, degree_bound, bfs,
}
use concept_microservice.Paths.Loop.{Edge, Loop, bfs_lem}
use concept_microservice.Paths.Walks.{bfs_find_paths-IsPath}

-- the length of a path is `h` or one more
abbrev pub Within : ℕ → FoundPath → Type 0
Within h p = (h ≤ p.hops) × (p.hops ≤ h + 1)

abbrev pub Near : List FoundPath → Type 0
Near ps = (h : ℕ) × All (Within h) ps

-- the distances in the queue do not go down, from `lo` on
abbrev Monotone : ℕ → List Item → Type 0
Monotone lo [] = Unit
Monotone lo (item ∷ rest) = (lo ≤ distance item) × Monotone (distance item) rest

abbrev Close : ℕ → Item → Type 0
Close lo item = (1 ≤ length item.path_nodes) × (distance item ≤ lo + 1)

abbrev Kept : Option ℕ → ℕ → List FoundPath → Type 0
Kept none d ps = ps ≡ []
Kept (some h) d ps = (h ≤ d + 1) × All (Within h) ps

abbrev Below : Option ℕ → ℕ → Type 0
Below none d = Unit
Below (some h) d = d ≤ h

record Ordered (q : List Item) (s : Search) : Type 0 where
  lo : ℕ
  monotone : Monotone lo q
  close : All (Close lo) q
  kept : Kept s.shortest_found lo s.paths

record Ordering (item : Item) (s : Search) : Type 0 where
  begun : 1 ≤ length item.path_nodes
  monotone_from : Monotone (distance item) s.queue
  close_to : All (Close (distance item)) s.queue
  kept_at : Kept s.shortest_found (distance item) s.paths
  below : Below s.shortest_found (distance item)

Kept-later : (o : Option ℕ) (d e : ℕ) (ps : List FoundPath) → d ≤ e → Kept o d ps → Kept o e ps
Kept-later none d e ps l k = k
Kept-later (some h) d e ps l k = (omega (arith, k.0), k.1)

Below-near : (o : Option ℕ) (d : ℕ) → beyond o d ≡ false → Below o d
Below-near none d h = tt
Below-near (some s) d h = ground arith

Monotone-append :
    (lo : ℕ) (q : List Item) (item : Item)
    → Monotone lo q
    → All (λ i. distance i ≤ distance item) q
    → lo ≤ distance item
    → Monotone lo (q ++ item ∷ [])
Monotone-append lo [] item m c l = (l, tt)
Monotone-append lo (x ∷ q) item m c l = (m.0, Monotone-append (distance x) q item m.1 c.1 c.0)

Kept-found :
    (o : Option ℕ) (d : ℕ) (ps : List FoundPath) (p : FoundPath)
    → Kept o d ps
    → Below o d
    → p.hops ≡ d + 1
    → Kept (first_length o (d + 1)) d (ps ++ p ∷ []) × Below (first_length o (d + 1)) d
Kept-found none d ps p k b e = (
  (
    omega arith,
    All-append (Within (d + 1)) ps (p ∷ []) (rw k tt) ((omega (arith, e), omega (arith, e)), tt),
  ),
  omega arith,
)
Kept-found (some h) d ps p k b e = (
  (k.0, All-append (Within h) ps (p ∷ []) k.1 ((omega (arith, e, k.0), omega (arith, e, b)), tt)),
  b,
)

Kept-Near : (o : Option ℕ) (d : ℕ) (ps : List FoundPath) → Kept o d ps → Near ps
Kept-Near none d ps k = (0, rw k tt)
Kept-Near (some h) d ps k = (h, k.1)

extended-distance :
    (item : Item) (n : Neighbor)
    → 1 ≤ length item.path_nodes
    → distance (extended item n) ≡ distance item + 1
extended-distance item n h = omega (arith, h, length-append item.path_nodes (n.target ∷ []))

module _ (adjacency : Adjacency) (source_id target_id : String) (max_hops max_paths : ℕ) where
  visit-Ordering :
      (item : Item) (n : Neighbor) (s : Search)
      → Edge adjacency item.current n
      → Ordering item s
      → ((visit adjacency target_id max_hops max_paths item n s).1 ≡ false
          → Ordering item (visit adjacency target_id max_hops max_paths item n s).0)
        × ((visit adjacency target_id max_hops max_paths item n s).1 ≡ true
            → Near (visit adjacency target_id max_hops max_paths item n s).0.paths)
  unfolding visit
  visit-Ordering item n s edge d =
      elim (Bool-cases (seen_closer (lookup n.target s.visited) (distance item + 1))) [
        | inl closer ↦ rw (closer, visit) (λ e. d, λ e. cc)
        | inr fresh ↦ elim (Bool-cases (str_eq n.target target_id)) [
          | inl here ↦
              let k =
                Kept-found s.shortest_found (distance item) s.paths (found item n) d.kept_at d.below
                  refl in
              rw (fresh, visit)
                (rw here (
                  λ more. record {
                    begun = d.begun;
                    monotone_from = d.monotone_from;
                    close_to = d.close_to;
                    kept_at = k.0;
                    below = k.1;
                  },
                  λ full.
                      Kept-Near (first_length s.shortest_found (distance item + 1)) (distance item)
                        _ k.0,
                ))
          | inr there ↦
              let far = extended-distance item n d.begun in
              rw (fresh, visit)
                (rw there (
                  λ e. record {
                    begun = d.begun;
                    monotone_from =
                        Monotone-append (distance item) s.queue (extended item n) d.monotone_from
                          (All-map s.queue (λ i c. omega (arith, c.1, far)) d.close_to)
                          (omega (arith, far));
                    close_to =
                        All-append (Close (distance item)) s.queue (extended item n ∷ []) d.close_to
                          (
                            (
                              omega (arith, length-append item.path_nodes (n.target ∷ [])),
                              omega (arith, far),
                            ),
                            tt,
                          );
                    kept_at = d.kept_at;
                    below = d.below;
                  },
                  λ e. cc,
                ))
        ]
      ]

  Ordered-loop : Loop adjacency target_id max_hops max_paths Ordered Ordering Near
  Ordered-loop = record {
    enter = λ item rest s inv reach near. record {
      begun = inv.close.0.0;
      monotone_from = inv.monotone.1;
      close_to = All-map rest (λ i c. (c.0, omega (arith, c.1, inv.monotone.0))) inv.close.1;
      kept_at = Kept-later s.shortest_found inv.lo (distance item) s.paths inv.monotone.0 inv.kept;
      below = Below-near s.shortest_found (distance item) near;
    };
    skip = λ item rest s inv. record {
      lo = distance item;
      monotone = inv.monotone.1;
      close = All-map rest (λ i c. (c.0, omega (arith, c.1, inv.monotone.0))) inv.close.1;
      kept = Kept-later s.shortest_found inv.lo (distance item) s.paths inv.monotone.0 inv.kept;
    };
    leave = λ item s d. record {
      lo = distance item;
      monotone = d.monotone_from;
      close = d.close_to;
      kept = d.kept_at;
    };
    visits = visit-Ordering;
    finish = λ s inv. Kept-Near s.shortest_found inv.lo s.paths inv.kept;
  }

  answer-Near :
      (ps : List FoundPath)
      → bfs_find_paths adjacency source_id target_id max_hops max_paths ≡ some ps
      → Near ps
  unfolding bfs_find_paths start
  answer-Near ps e = elim (Option-cases (lookup source_id adjacency)) [
    | inl absent ↦
        let empty : bfs_find_paths adjacency source_id target_id max_hops max_paths ≡ some [] =
          rw (absent, bfs_find_paths) refl in
        let none_found : ps ≡ [] = cc in (0, rw none_found tt)
    | inr (ns, there) ↦
        let s = start source_id in
        let fuel = weight (degree_bound adjacency) max_hops in
        let searched : bfs_find_paths adjacency source_id target_id max_hops max_paths
            ≡ bfs adjacency target_id max_hops max_paths fuel s.queue s =
          rw (there, bfs_find_paths) refl in
        bfs_lem Ordered-loop fuel s.queue s ps begin (sym searched ∙ e)
  ]
    where
      begin : Ordered (start source_id).queue (start source_id)
      begin = record {
        lo = 0;
        monotone = (omega arith, tt);
        close = ((omega arith, omega arith), tt);
        kept = refl;
      }

  -- The search answers, and the lengths of the paths in its answer differ by one at most: for some
  -- length each path has this length or one edge more.
  pub bfs_find_paths-Near :
      (ps : List FoundPath) × (bfs_find_paths adjacency source_id target_id max_hops max_paths
        ≡ some ps)
      × Near ps
  bfs_find_paths-Near =
      let (ps, e, walks, few) =
        bfs_find_paths-IsPath adjacency source_id target_id max_hops max_paths in
      (ps, e, answer-Near ps e)
