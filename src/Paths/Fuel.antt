-- ===== src/Paths/Fuel.antt =====
-- The fuel of the search: what the elements of the queue are worth.
use native.Mathlib.Nat.{mul-le-mul_right, suc-mul}
use concept_microservice.Prelude.{
  All-append, ℕ, zero, suc, ◌+◌, ◌-◌, ◌*◌, ◌≤◌, String, Bool, true, false, ◌≡◌, refl, ap, ◌∙◌, some,
  List, [], ◌∷◌, ◌++◌, arith, All, length, length-append, lookup, leb, str_eq, ◌||◌, Bool-cases,
  inl, inr,
}
use concept_microservice.Paths.{
  Adjacency, Neighbor, neighbors, Item, Search, FoundPath, distance, extended, visit, explore, step,
  bfs, weight, degree_bound, seen_closer, beyond, start,
}

neighbors_bound :
    (adjacency : Adjacency) (id : String) → length (neighbors adjacency id) ≤ degree_bound adjacency
unfolding neighbors lookup degree_bound
neighbors_bound [] id = omega arith
neighbors_bound ((j, ns) ∷ rest) id = ground (arith, neighbors_bound rest id)

scaled : (k b w : ℕ) → k ≤ b → k * w ≤ b * w
scaled k b w h = mul-le-mul_right w h

grow : (w x y k : ℕ) → x ≤ y + w → x ≤ y + suc k * w
grow w x y k h = omega (arith, h, suc-mul k w)

both : (w x y z k : ℕ) → y ≤ z + w → x ≤ y + k * w → x ≤ z + suc k * w
both w x y z k h l = omega (arith, h, l, suc-mul k w)

weight_pos : (b r : ℕ) → 1 ≤ weight b r
unfolding weight
weight_pos b zero = omega arith
weight_pos b (suc r) = omega arith

weight_step : (b m d : ℕ) → d + 1 ≤ m → weight b (m - d) ≡ 1 + b * weight b (m - (d + 1))
unfolding weight
weight_step b m d h = ap (weight b) (shape m d h)
  where
    shape : (m d : ℕ) → d + 1 ≤ m → m - d ≡ suc (m - (d + 1))
    shape m d h = omega arith

module _ (adjacency : Adjacency) (target_id : String) (max_hops max_paths : ℕ) where
  abbrev b : ℕ
  b = degree_bound adjacency

  total : List Item → ℕ
  total [] = 0
  total (item ∷ rest) = weight b (max_hops - distance item) + total rest

  total-append : (q r : List Item) → total (q ++ r) ≡ total q + total r
  unfolding total
  total-append [] r = omega arith
  total-append (item ∷ q) r = omega (arith, total-append q r)

  abbrev Started : Item → Type 0
  Started item = 1 ≤ length item.path_nodes

  -- At most `w` was added to the queue.
  Added : ℕ → Search → Search → Type 0
  Added w s s' = All Started s'.queue × (total s'.queue ≤ total s.queue + w)

  visit-Added :
      (item : Item) (n : Neighbor) (s : Search)
      → Started item
      → All Started s.queue
      → Added
          (weight b (max_hops - (distance item + 1)))
          s
          (visit adjacency target_id max_hops max_paths item n s).0
  unfolding visit Added total
  visit-Added item n s i q =
      elim (Bool-cases (seen_closer (lookup n.target s.visited) (distance item + 1))) [
        | inl closer ↦ rw (closer, visit) (q, omega arith)
        | inr fresh ↦ elim (Bool-cases (str_eq n.target target_id)) [
          | inl here ↦ rw (fresh, visit) (rw here (q, omega arith))
          | inr there ↦
              rw (fresh, visit)
                (rw there (
                  All-append Started s.queue (extended item n ∷ []) q (started, tt),
                  omega (arith, total-append s.queue (extended item n ∷ []), one),
                ))
        ]
      ]
    where
      started : 1 ≤ length (item.path_nodes ++ n.target ∷ [])
      started = omega (arith, length-append item.path_nodes (n.target ∷ []))

      same_distance : distance (extended item n) ≡ distance item + 1
      same_distance = omega (arith, i, length-append item.path_nodes (n.target ∷ []))

      one : total (extended item n ∷ []) ≡ weight b (max_hops - (distance item + 1))
      one = ap (λ d. weight b (max_hops - d) + 0) same_distance ∙ omega arith

  explore-Added :
      (item : Item) (ns : List Neighbor) (s : Search)
      → Started item
      → All Started s.queue
      → Added
          (length ns * weight b (max_hops - (distance item + 1)))
          s
          (explore adjacency target_id max_hops max_paths item ns s).0
  unfolding explore Added
  explore-Added item [] s i q = (q, omega arith)
  explore-Added item (n ∷ ns) s i q =
      go _ _ (visit-Added item n s i q) (λ s' q'. explore-Added item ns s' i q')
    where
      go :
          (s' : Search) (flag : Bool)
          → Added (weight b (max_hops - (distance item + 1))) s s'
          → ((s' : Search)
              → All Started s'.queue
              → Added
                  (length ns * weight b (max_hops - (distance item + 1)))
                  s'
                  (explore adjacency target_id max_hops max_paths item ns s').0)
          → let r : Search × Bool = elim flag [
            | true ↦ (s', true)
            | false ↦ explore adjacency target_id max_hops max_paths item ns s'
          ] in
            Added (suc (length ns) * weight b (max_hops - (distance item + 1))) s r.0
      go s' true a f = (
        a.0,
        grow (weight b (max_hops - (distance item + 1))) (total s'.queue) (total s.queue)
            (length ns) a.1,
      )
      go s' false a f = (
        (f s' a.0).0,
        both (weight b (max_hops - (distance item + 1))) _ (total s'.queue) (total s.queue)
            (length ns) a.1 (f s' a.0).1,
      )

  step-total :
      (item : Item) (rest : List Item) (s : Search)
      → All Started (item ∷ rest)
      → let s' = (step adjacency target_id max_hops max_paths item (record s { queue = rest })).0 in
        All Started s'.queue × (total s'.queue + 1 ≤ total (item ∷ rest))
  unfolding step Added total
  step-total item rest s started =
      elim (Bool-cases (beyond s.shortest_found (distance item) || leb max_hops (distance item))) [
        | inl stop ↦
            rw (stop, step) (started.1, omega (arith, weight_pos b (max_hops - distance item)))
        | inr go_on ↦
            let ns = neighbors adjacency item.current in
            let a = explore-Added item ns (record s { queue = rest }) started.0 started.1 in
            rw (go_on, step)
              (
                a.0,
                omega (
                  arith,
                  a.1,
                  scaled (length ns) b (weight b (max_hops - (distance item + 1)))
                      (neighbors_bound adjacency item.current),
                  weight_step b max_hops (distance item) (within item s go_on),
                ),
              )
      ]
    where
      within :
          (item : Item) (s : Search)
          → (beyond s.shortest_found (distance item) || leb max_hops (distance item)) ≡ false
          → distance item + 1 ≤ max_hops
      within item s h = ground arith

  bfs-ends :
      (fuel : ℕ) (q : List Item) (s : Search)
      → All Started q
      → total q ≤ fuel
      → (ps : List FoundPath) × (bfs adjacency target_id max_hops max_paths fuel q s ≡ some ps)
  unfolding bfs total
  bfs-ends fuel [] s h l = (s.paths, refl)
  bfs-ends zero (item ∷ rest) s h l =
      absurd (omega (arith, weight_pos b (max_hops - distance item)))
  bfs-ends (suc fuel) (item ∷ rest) s h l =
      let t = step-total item rest s h in go _ (bfs-ends fuel _ _ t.0 (omega (arith, t.1))) _
    where
      go :
          (s' : Search)
          → ((ps : List FoundPath) × (bfs adjacency target_id max_hops max_paths fuel s'.queue s'
                ≡ some ps))
          → (flag : Bool)
          → (ps : List FoundPath) × (elim flag [
            | true ↦ some s'.paths
            | false ↦ bfs adjacency target_id max_hops max_paths fuel s'.queue s'
          ]
              ≡ some ps)
      go s' f true = (_, refl)
      go s' f false = f

  -- the fuel of `bfs_find_paths` is enough
  pub start-ends :
      (source_id : String)
      → (ps : List FoundPath) × (bfs adjacency target_id max_hops max_paths
            (weight b max_hops)
            (start source_id).queue
            (start source_id)
          ≡ some ps)
  unfolding start total
  start-ends source_id =
      bfs-ends (weight b max_hops) (start source_id).queue (start source_id) (omega arith, tt)
        (of_zero (weight b) max_hops)
    where
      of_zero : (f : ℕ → ℕ) (m : ℕ) → f (m - 0) + 0 ≤ f m
      of_zero f m = let e : m - 0 ≡ m = omega arith in rw e (omega arith)
