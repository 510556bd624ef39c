-- ===== src/Stage/Tpm/Batches.antt =====
-- What is stored, whatever the order in which the documents of a batch are done.
use concept_microservice.Prelude.{
  ℕ, zero, suc, ◌+◌, ◌*◌, ◌≤◌, ◌<◌, min, pos, Bool, true, false, ◌||◌, Option, none, some, List, [],
  ◌∷◌, ◌++◌, length, get_elem?, take, drop, take-append-drop, length-take, length-drop, map, All,
  ◌==◌, if◌then◌else◌, ◌≡◌, refl, sym, ap, ◌∙◌, arith, inl, inr, Bool-cases,
}
use mathlib.Core.Path.{subst}
use mathlib.Core.List.{append_assoc, append-nil}
use mathlib.Core.Option.{some-injective, none-ne-some}
use concept_microservice.Prelude.Effect.{Outcome, ok, raise}
use concept_microservice.Stage.Tpm.{
  Tracking, Done, Work, find_result, ordered, batches, workers, batch_size_of, TpmState,
  process_with_tracking, estimated_for, collect, run_batch, stored, kept, followed, exit_of,
  store_batch, run_batches, run_concurrent_with_tpm,
}

-- the schedule has the index
abbrev pub mentions : ℕ → List Done → Bool
mentions i [] = false
mentions i (done ∷ schedule) = done.index == i || mentions i schedule

-- every document of a batch of `n` is done
abbrev pub IsSchedule : List Done → ℕ → Type 0
IsSchedule schedule n = (i : ℕ) → i < n → mentions i schedule ≡ true

abbrev pub AllScheduled : {D : Type 0} → (ℕ → List Done) → ℕ → List (List D) → Type 0
AllScheduled schedules i [] = Unit
AllScheduled schedules i (docs ∷ rest) =
    IsSchedule (schedules i) (length docs) × AllScheduled schedules (suc i) rest

eq_true : (a b : ℕ) → (a == b) ≡ true → a ≡ b
eq_true a b h = ground arith

get_elem?-bound :
    {A : Type 0} (xs : List A) (i : ℕ) (a : A) → get_elem? xs i ≡ some a → i < length xs
get_elem?-bound [] i a h = cc
get_elem?-bound (x ∷ xs) zero a h = omega arith
get_elem?-bound (x ∷ xs) (suc i) a h = omega (arith, get_elem?-bound xs i a h)

module _ {D R E : Type 0} (work : Work D R E) (target_tpm : ℕ) where
  abbrev processed : Outcome E (Option R) → Option R
  processed (raise e) = none
  processed (ok result) = result

  abbrev estimated : Outcome E ℕ → Option R → Option R
  estimated (raise e) result = none
  estimated (ok n) result = result

  -- the result of one document on its own, None if its estimate or its processing raises
  abbrev pub result_of : D → Option R
  result_of d = estimated (work.estimate_tokens d) (processed (work.process_doc_with_tracking d))

  process_with_tracking-result_of :
      (done : Done) (d : D) (s : Tracking)
      → (process_with_tracking work target_tpm done d s).0 ≡ result_of d
  unfolding process_with_tracking
  process_with_tracking-result_of done d s =
      go (work.estimate_tokens d) (work.process_doc_with_tracking d) refl
    where
      go :
          (n : Outcome E ℕ) (r : Outcome E (Option R))
          → work.process_doc_with_tracking d ≡ r
          → (estimated_for work target_tpm n done d s).0 ≡ estimated n (processed r)
      go (raise e) r q = refl
      go (ok n) (raise e) q = rw q refl
      go (ok n) (ok result) q = rw q refl

  find_result-collect :
      (done : Done) (docs : List D) (found : List (ℕ × Option R) × Tracking) (i : ℕ) (d : D)
      → get_elem? docs i ≡ some d
      → find_result i (collect work target_tpm (get_elem? docs done.index) done found).0
        ≡ (if done.index == i then some (result_of d) else find_result i found.0)
  find_result-collect done docs (results, s) i d h = go (get_elem? docs done.index) refl
    where
      go :
          (o : Option D)
          → get_elem? docs done.index ≡ o
          → find_result i (collect work target_tpm o done (results, s)).0
            ≡ (if done.index == i then some (result_of d) else find_result i results)
      go none q = elim (Bool-cases (done.index == i)) [
        | inl e ↦ absurd (none-ne-some d (sym q ∙ ap (get_elem? docs) (eq_true done.index i e) ∙ h))
        | inr e ↦ rw e refl
      ]
      go (some c) q = elim (Bool-cases (done.index == i)) [
        | inl e ↦ rw e (
            ap some (
              process_with_tracking-result_of done c s
              ∙ ap result_of
                  (some-injective c d (sym q ∙ ap (get_elem? docs) (eq_true done.index i e) ∙ h))))
        | inr e ↦ rw e refl
      ]

  find_result-run_batch :
      (schedule : List Done) (docs : List D) (found : List (ℕ × Option R) × Tracking) (i : ℕ)
      (d : D)
      → get_elem? docs i ≡ some d
      → find_result i (run_batch work target_tpm schedule docs found).0
        ≡ (if mentions i schedule then some (result_of d) else find_result i found.0)
  unfolding run_batch
  find_result-run_batch [] docs found i d h = refl
  find_result-run_batch (done ∷ schedule) docs found i d h =
      find_result-run_batch schedule docs
        (collect work target_tpm (get_elem? docs done.index) done found) i d h
      ∙ ap (λ r. if mentions i schedule then some (result_of d) else r)
          (find_result-collect done docs found i d h)
      ∙ both (mentions i schedule) (done.index == i)
    where
      both :
          (a b : Bool)
          → (if a
              then some (result_of d)
              else if b
              then some (result_of d)
              else find_result i found.0)
            ≡ (if b || a then some (result_of d) else find_result i found.0)
      both true true = refl
      both true false = refl
      both false true = refl
      both false false = refl

  ordered-results :
      (docs : List D) (i : ℕ) (results : List (ℕ × Option R))
      → ((j k : ℕ) (d : D)
          → k ≡ i + j
          → get_elem? docs j ≡ some d
          → find_result k results ≡ some (result_of d))
      → ordered (length docs) i results ≡ some (map result_of docs)
  unfolding ordered
  ordered-results [] i results h = refl
  ordered-results (d ∷ docs) i results h =
      rw
        (
          h 0 i d (omega arith) refl,
          ordered-results docs (suc i) results (λ j k d q g. h (suc j) k d (omega (arith, q)) g),
        )
        refl

  abbrev pub stores : List D → List (Option R) × List D
  stores docs = (map result_of docs, docs)

  module _
      (storing : (results : List (Option R)) (docs : List D)
        → work.store_batch_results results docs ≡ ok tt) where
    store_batch-stores :
        (schedule : List Done) (docs : List D) (state : TpmState D R)
        → IsSchedule schedule (length docs)
        → (s : Tracking) × (store_batch work target_tpm schedule docs state
            ≡ ok (state.0 ++ stores docs ∷ [], s))
    unfolding store_batch
    store_batch-stores schedule docs (calls, s) h =
        let found = run_batch work target_tpm schedule docs ([], s) in
        (
          found.1,
          ap (λ o. stored work target_tpm o docs (calls, found.1))
                (ordered-results docs 0 found.0 (λ j k d q g.
                  subst (λ k. find_result k found.0 ≡ some (result_of d)) (q' j k q)
                    (find_result-run_batch schedule docs ([], s) j d g
                      ∙ ap (λ b. if b then some (result_of d) else none)
                          (h j (get_elem?-bound docs j d g)))))
              ∙ ap (λ o. kept work target_tpm o (map result_of docs) docs (calls, found.1))
                  (storing (map result_of docs) docs),
        )
      where
        q' : (j k : ℕ) → k ≡ 0 + j → j ≡ k
        q' j k q = omega (arith, q)

    run_batches-stores :
        (schedules : ℕ → List Done) (i : ℕ) (bs : List (List D)) (state : TpmState D R)
        → AllScheduled schedules i bs
        → (s : Tracking) × (run_batches work target_tpm schedules i bs state
            ≡ ok (state.0 ++ map stores bs, s))
    unfolding run_batches
    run_batches-stores schedules i [] (calls, s) h =
        (s, ap (λ c. ok (c, s)) (sym (append-nil calls)))
    run_batches-stores schedules i (docs ∷ bs) (calls, s) h =
        let first = store_batch-stores (schedules i) docs (calls, s) h.0 in
        let rest =
          run_batches-stores schedules (suc i) bs (calls ++ stores docs ∷ [], first.0) h.1 in
        (
          rest.0,
          ap (λ o. followed o (run_batches work target_tpm schedules (suc i) bs)) first.1
              ∙ rest.1
              ∙ ap (λ c. ok (c, rest.0)) (append_assoc calls (stores docs ∷ []) (map stores bs)),
        )

-- the batches are the documents in order, and none is empty or too long
abbrev pub all_docs : {D : Type 0} → List (List D) → List D
all_docs [] = []
all_docs (docs ∷ bs) = docs ++ all_docs bs

all_docs-batches :
    {D : Type 0} (fuel size : ℕ) (docs : List D)
    → 1 ≤ size
    → length docs ≤ fuel
    → all_docs (batches fuel size docs) ≡ docs
unfolding batches
all_docs-batches zero size [] p h = refl
all_docs-batches zero size (d ∷ docs) p h = absurd (omega (arith, h))
all_docs-batches (suc fuel) size [] p h = refl
all_docs-batches (suc fuel) size (d ∷ docs) p h =
    ap (take size (d ∷ docs) ++◌) (
      all_docs-batches fuel size (drop size (d ∷ docs)) p
        (omega (arith, p, h, length-drop size (d ∷ docs))))
    ∙ take-append-drop size (d ∷ docs)

length-batches :
    {D : Type 0} (fuel size : ℕ) (docs : List D)
    → 1 ≤ size
    → All (λ b. (1 ≤ length b) × (length b ≤ size)) (batches fuel size docs)
unfolding batches
length-batches zero size docs p = tt
length-batches (suc fuel) size [] p = tt
length-batches (suc fuel) (suc size) (d ∷ docs) p = (
  (omega arith, length-take (suc size) (d ∷ docs)),
  length-batches fuel (suc size) (drop (suc size) (d ∷ docs)) p,
)
length-batches (suc fuel) zero (d ∷ docs) p = absurd (omega (arith, p))

map-append : {A B : Type 0} (f : A → B) (xs ys : List A) → map f (xs ++ ys) ≡ map f xs ++ map f ys
map-append f [] ys = refl
map-append f (x ∷ xs) ys = ap (f x ∷◌) (map-append f xs ys)

workers-bound : (concurrency : Option ℕ) → 1 ≤ batch_size_of concurrency
workers-bound none = omega arith
workers-bound (some zero) = omega arith
workers-bound (some (suc n)) = omega arith

module _ {D R E : Type 0} (work : Work D R E) (target_tpm : ℕ) where
  stored_docs :
      (bs : List (List D))
      → all_docs (map (λ c. c.1) (map (stores work target_tpm) bs)) ≡ all_docs bs
  stored_docs [] = refl
  stored_docs (docs ∷ bs) = ap (docs ++◌) (stored_docs bs)

  stored_results :
      (bs : List (List D))
      → all_docs (map (λ c. c.0) (map (stores work target_tpm) bs))
        ≡ map (result_of work target_tpm) (all_docs bs)
  stored_results [] = refl
  stored_results (docs ∷ bs) =
      ap (map (result_of work target_tpm) docs ++◌) (stored_results bs)
      ∙ sym (map-append (result_of work target_tpm) docs (all_docs bs))

  stored_sizes :
      (size : ℕ) (bs : List (List D))
      → All (λ b. (1 ≤ length b) × (length b ≤ size)) bs
      → All (λ c. (1 ≤ length c.1) × (length c.1 ≤ size)) (map (stores work target_tpm) bs)
  stored_sizes size [] h = tt
  stored_sizes size (docs ∷ bs) h = (h.0, stored_sizes size bs h.1)

  -- If the pool does every document of every batch, in whatever order, and storing never raises, the
  -- run returns 0 and has stored all documents in their order, each with the result that it has on
  -- its own, in batches of at least one document and at most twice the workers, and 1000.
  pub run_concurrent_with_tpm-stores :
      (concurrency : Option ℕ) (schedules : ℕ → List Done) (docs : List D) (failed : ℕ)
      → AllScheduled schedules 0 (batches (length docs) (batch_size_of concurrency) docs)
      → ((results : List (Option R)) (docs : List D)
          → work.store_batch_results results docs ≡ ok tt)
      → (calls : List (List (Option R) × List D)) × (s : Tracking) × (run_concurrent_with_tpm work
            target_tpm concurrency schedules docs failed
          ≡ (pos 0, some (calls, s)))
        × (all_docs (map (λ c. c.1) calls) ≡ docs)
        × (all_docs (map (λ c. c.0) calls) ≡ map (result_of work target_tpm) docs)
        × All (λ c. (1 ≤ length c.1) × (length c.1 ≤ min (workers concurrency * 2) 1000)) calls
  unfolding run_concurrent_with_tpm
  run_concurrent_with_tpm-stores concurrency schedules docs failed h storing =
      let size = batch_size_of concurrency in
      let bs = batches (length docs) size docs in
      let whole =
        all_docs-batches (length docs) size docs (workers-bound concurrency) (omega arith) in
      let ran =
        run_batches-stores work target_tpm storing schedules 0 bs
          ([], record { token_window = []; failed = failed }) h in
      (
        map (stores work target_tpm) bs,
        ran.0,
        ap exit_of ran.1,
        stored_docs bs ∙ whole,
        stored_results bs ∙ ap (map (result_of work target_tpm)) whole,
        stored_sizes size bs (length-batches (length docs) size docs (workers-bound concurrency)),
      )
