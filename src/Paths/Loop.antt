-- ===== src/Paths/Loop.antt =====
-- How a fact is carried through the search.
use concept_microservice.Prelude.{
  ℕ, zero, suc, ◌+◌, ◌≤◌, Bool, true, false, ◌≡◌, refl, some, List, [], ◌∷◌, arith, All, All-map,
  leb, inl, inr, ◌||◌, ◌⊎◌, String, if◌then◌else◌,
}
use concept_microservice.Paths.{
  Adjacency, Neighbor, neighbors, Item, Search, FoundPath, distance, beyond, visit, explore, step,
  bfs,
}

abbrev pub Among : Neighbor → List Neighbor → Type 0
Among n [] = ⊥
Among n (m ∷ ms) = (n ≡ m) ⊎ Among n ms

-- `n` is one of the edges at `id`.
abbrev pub Edge : Adjacency → String → Neighbor → Type 0
Edge adjacency id n = Among n (neighbors adjacency id)

All-Among : (ns : List Neighbor) → All (λ n. Among n ns) ns
All-Among [] = tt
All-Among (n ∷ ns) = (inl refl, All-map ns (λ m h. inr h) (All-Among ns))

-- `During item` holds while the neighbors of `item` are explored, `Inv queue` between elements.
pub record Loop (adjacency : Adjacency) (target_id : String) (max_hops max_paths : ℕ)
    (Inv : List Item → Search → Type 0) (During : Item → Search → Type 0)
    (Result : List FoundPath → Type 0) : Type 0 where
  pub enter :
      (item : Item) (rest : List Item) (s : Search)
      → Inv (item ∷ rest) s
      → distance item + 1 ≤ max_hops
      → beyond s.shortest_found (distance item) ≡ false
      → During item (record s { queue = rest })
  pub skip :
      (item : Item) (rest : List Item) (s : Search)
      → Inv (item ∷ rest) s
      → Inv rest (record s { queue = rest })
  pub leave : (item : Item) (s : Search) → During item s → Inv s.queue s
  pub visits :
      (item : Item) (n : Neighbor) (s : Search)
      → Edge adjacency item.current n
      → During item s
      → ((visit adjacency target_id max_hops max_paths item n s).1 ≡ false
          → During item (visit adjacency target_id max_hops max_paths item n s).0)
        × ((visit adjacency target_id max_hops max_paths item n s).1 ≡ true
            → Result (visit adjacency target_id max_hops max_paths item n s).0.paths)
  pub finish : (s : Search) → Inv [] s → Result s.paths

module _ {adjacency : Adjacency} {target_id : String} {max_hops max_paths : ℕ}
    {Inv : List Item → Search → Type 0} {During : Item → Search → Type 0}
    {Result : List FoundPath → Type 0}
    (loop : Loop adjacency target_id max_hops max_paths Inv During Result) where
  -- what an exploration leaves, by its flag
  abbrev Explored : Item → Search → Bool → Type 0
  Explored item s false = During item s
  Explored item s true = Result s.paths

  visit_lem :
      (item : Item) (n : Neighbor) (s : Search)
      → Edge adjacency item.current n
      → During item s
      → let r = visit adjacency target_id max_hops max_paths item n s in Explored item r.0 r.1
  visit_lem item n s edge d = go _ (loop.visits item n s edge d).0 (loop.visits item n s edge d).1
    where
      go :
          (b : Bool) {s' : Search}
          → (b ≡ false → During item s')
          → (b ≡ true → Result s'.paths)
          → Explored item s' b
      go false f g = f refl
      go true f g = g refl

  explore_lem :
      (item : Item) (ns : List Neighbor) (s : Search)
      → All (Edge adjacency item.current) ns
      → During item s
      → let r = explore adjacency target_id max_hops max_paths item ns s in Explored item r.0 r.1
  unfolding explore
  explore_lem item [] s edges d = d
  explore_lem item (n ∷ ns) s edges d =
      go (λ s' d'. explore_lem item ns s' edges.1 d') _ _ (visit_lem item n s edges.0 d)
    where
      go :
          ((s' : Search)
            → During item s'
            → let r = explore adjacency target_id max_hops max_paths item ns s' in
              Explored item r.0 r.1)
          → (s' : Search) (b : Bool) → Explored item s' b
          → let r : Search × Bool = elim b [
            | true ↦ (s', true)
            | false ↦ explore adjacency target_id max_hops max_paths item ns s'
          ] in
            Explored item r.0 r.1
      go f s' true e = e
      go f s' false e = f s' e

  abbrev Stepped : Search → Bool → Type 0
  Stepped s false = Inv s.queue s
  Stepped s true = Result s.paths

  step_lem :
      (item : Item) (rest : List Item) (s : Search)
      → Inv (item ∷ rest) s
      → let r = step adjacency target_id max_hops max_paths item (record s { queue = rest }) in
        Stepped r.0 r.1
  unfolding step
  step_lem item rest s inv = guarded _ refl
    where
      explored : (s' : Search) (b : Bool) → Explored item s' b → Stepped s' b
      explored s' false d = loop.leave item s' d
      explored s' true r = r

      guarded :
          (b : Bool)
          → (beyond s.shortest_found (distance item) || leb max_hops (distance item)) ≡ b
          → let r : Search × Bool =
              if b
              then (record s { queue = rest }, false)
              else explore adjacency target_id max_hops max_paths item
                  (neighbors adjacency item.current)
                  (record s { queue = rest }) in
            Stepped r.0 r.1
      guarded true h = loop.skip item rest s inv
      guarded false h = explored _ _ (
          explore_lem item _ _ (All-Among (neighbors adjacency item.current))
            (loop.enter item rest s inv (ground arith) (ground arith)))

  -- what a search answers when it ends
  pub bfs_lem :
      (fuel : ℕ) (q : List Item) (s : Search) (ps : List FoundPath)
      → Inv q s
      → bfs adjacency target_id max_hops max_paths fuel q s ≡ some ps
      → Result ps
  unfolding bfs
  bfs_lem fuel [] s ps inv h = let e : s.paths ≡ ps = cc in rw (← e) (loop.finish s inv)
  bfs_lem zero (item ∷ rest) s ps inv h = cc
  bfs_lem (suc fuel) (item ∷ rest) s ps inv h =
      go (λ s' inv' e. bfs_lem fuel s'.queue s' ps inv' e) _ _ (step_lem item rest s inv) h
    where
      go :
          ((s' : Search)
            → Inv s'.queue s'
            → bfs adjacency target_id max_hops max_paths fuel s'.queue s' ≡ some ps
            → Result ps)
          → (s' : Search) (b : Bool) → Stepped s' b
          → elim b [
            | true ↦ some s'.paths
            | false ↦ bfs adjacency target_id max_hops max_paths fuel s'.queue s'
          ]
            ≡ some ps
          → Result ps
      go f s' true r e = let e' : s'.paths ≡ ps = cc in rw (← e') r
      go f s' false i e = f s' i e
