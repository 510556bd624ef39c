-- ===== src/Stage/Tpm.antt =====
-- graph-worker/graphrag-service/src/core/base/stage.py: `_run_concurrent_with_tpm`. What a stage
-- overrides, the pool and the clock are arguments: a batch is run by a schedule, the indices of
-- its documents in the order in which they are done, each with the times of its reservation and
-- of its end. The steps of one document are taken together; the limiter of requests, which only
-- waits, and the log, for which the window is cleaned once more after a batch, are left out.
pub mod Batches
use concept_microservice.Prelude.{
  ℕ, zero, suc, ◌+◌, ◌-◌, ◌*◌, min, ℤ, pos, Bool, true, false, Option, none, some, List, [], ◌∷◌,
  ◌++◌, length, get_elem?, take, drop, ltb, ◌==◌, if◌then◌else◌,
}
use concept_microservice.Prelude.Effect.{Outcome, ok, raise}

-- `token_window`: times and tokens
abbrev pub Window : Type 0
Window = List (ℕ × ℕ)

-- `ts > now - 60`
abbrev pub is_recent : ℕ → ℕ → Bool
is_recent now ts = ltb now (ts + 60)

unfoldable pub recent : ℕ → Window → Window
recent now [] = []
recent now ((ts, tok) ∷ window) =
    let rest = recent now window in if is_recent now ts then (ts, tok) ∷ rest else rest

unfoldable pub tokens : Window → ℕ
tokens [] = 0
tokens ((ts, tok) ∷ window) = tok + tokens window

-- `_wait_for_tpm_capacity`: the window, and whether it slept; 1.2 is 6 / 5
unfoldable pub wait_for_tpm_capacity : ℕ → ℕ → ℕ → Window → Window × Bool
unfolding recent tokens
wait_for_tpm_capacity estimated_tokens target_tpm now window =
    let events = recent now window in
    (events ++ (now, estimated_tokens) ∷ [], ltb (target_tpm * 6) (tokens events * 5))

-- the window and `self.stats["failed"]`
pub record Tracking : Type 0 where
  pub token_window : Window
  pub failed : ℕ

-- a document that is done: its index, and its two times
pub record Done : Type 0 where
  pub index : ℕ
  pub reserved_at : ℕ
  pub ended_at : ℕ

-- What the stage overrides. A result is `none` for Python's None.
pub record Work (D R E : Type 0) : Type 0 where
  pub estimate_tokens : D → Outcome E ℕ
  pub process_doc_with_tracking : D → Outcome E (Option R)
  pub store_batch_results : List (Option R) → List D → Outcome E Unit

-- `results_dict`, the newest entry first
abbrev pub find_result : {R : Type 0} → ℕ → List (ℕ × Option R) → Option (Option R)
find_result i [] = none
find_result i ((j, r) ∷ results) = if j == i then some r else find_result i results

abbrev also : {R : Type 0} → Option (Option R) → Option (List (Option R)) → Option (List (Option R))
also (some r) (some rest) = some (r ∷ rest)
also found rest = none

-- `[results_dict[i] for i in range(...)]`, `count` of them from the index `i`; none is a KeyError
unfoldable pub ordered : {R : Type 0} → ℕ → ℕ → List (ℕ × Option R) → Option (List (Option R))
ordered zero i results = some []
ordered (suc count) i results = also (find_result i results) (ordered count (suc i) results)

-- the slices of the loop, on fuel
unfoldable pub batches : {D : Type 0} → ℕ → ℕ → List D → List (List D)
batches zero batch_size docs = []
batches (suc fuel) batch_size [] = []
batches (suc fuel) batch_size (d ∷ docs) =
    take batch_size (d ∷ docs) ∷ batches fuel batch_size (drop batch_size (d ∷ docs))

-- `int(self.config.concurrency or 300)`
abbrev pub workers : Option ℕ → ℕ
workers none = 300
workers (some zero) = 300
workers (some (suc n)) = suc n

abbrev pub batch_size_of : Option ℕ → ℕ
batch_size_of concurrency = min (workers concurrency * 2) 1000

abbrev pub TpmState : Type 0 → Type 0 → Type 0
TpmState D R = List (List (Option R) × List D) × Tracking

abbrev pub followed : {S : Type 0} → Outcome Unit S → (S → Outcome Unit S) → Outcome Unit S
followed (raise e) f = raise e
followed (ok state) f = f state

abbrev pub exit_of : {S : Type 0} → Outcome Unit S → ℤ × Option S
exit_of (ok state) = (pos 0, some state)
exit_of (raise e) = (pos 1, none)

module _ {D R E : Type 0} (work : Work D R E) (target_tpm : ℕ) where
  abbrev pub lost : Tracking → Option R × Tracking
  lost s = (none, record s { failed = suc s.failed })

  abbrev pub tracked : Outcome E (Option R) → ℕ → Done → Window → Tracking → Option R × Tracking
  tracked (raise e) estimated done window s = lost (record s { token_window = window })
  tracked (ok result) estimated done window s =
      (result, record s { token_window = window ++ (done.ended_at, estimated) ∷ [] })

  abbrev pub estimated_for : Outcome E ℕ → Done → D → Tracking → Option R × Tracking
  estimated_for (raise e) done d s = lost s
  estimated_for (ok estimated) done d s =
      tracked (work.process_doc_with_tracking d) estimated done
        (wait_for_tpm_capacity estimated target_tpm done.reserved_at s.token_window).0 s

  -- `process_with_tracking`
  unfoldable pub process_with_tracking : Done → D → Tracking → Option R × Tracking
  unfolding wait_for_tpm_capacity
  process_with_tracking done d s = estimated_for (work.estimate_tokens d) done d s

  abbrev pub collect :
      Option D → Done → List (ℕ × Option R) × Tracking → List (ℕ × Option R) × Tracking
  collect none done (results, s) = (results, s)
  collect (some d) done (results, s) =
      let (result, s') = process_with_tracking done d s in ((done.index, result) ∷ results, s')

  -- the pool on one batch
  unfoldable pub run_batch :
      List Done → List D → List (ℕ × Option R) × Tracking → List (ℕ × Option R) × Tracking
  unfolding process_with_tracking
  run_batch [] docs found = found
  run_batch (done ∷ schedule) docs found =
      run_batch schedule docs (collect (get_elem? docs done.index) done found)

  abbrev pub kept :
      Outcome E Unit → List (Option R) → List D → TpmState D R → Outcome Unit (TpmState D R)
  kept (ok u) results docs (calls, s) = ok (calls ++ (results, docs) ∷ [], s)
  kept (raise e) results docs state = raise tt

  abbrev pub stored : Option (List (Option R)) → List D → TpmState D R → Outcome Unit (TpmState D R)
  stored none docs state = raise tt
  stored (some results) docs state = kept (work.store_batch_results results docs) results docs state

  unfoldable pub store_batch : List Done → List D → TpmState D R → Outcome Unit (TpmState D R)
  unfolding run_batch ordered
  store_batch schedule docs (calls, s) =
      let (results, s') = run_batch schedule docs ([], s) in
      stored (ordered (length docs) 0 results) docs (calls, s')

  -- the loop over the batches
  unfoldable pub run_batches :
      (ℕ → List Done) → ℕ → List (List D) → TpmState D R → Outcome Unit (TpmState D R)
  unfolding store_batch
  run_batches schedules i [] state = ok state
  run_batches schedules i (docs ∷ rest) state =
      followed (store_batch (schedules i) docs state) (run_batches schedules (suc i) rest)

  -- `_run_concurrent_with_tpm`: the exit code, and what was stored unless it is 1
  unfoldable pub run_concurrent_with_tpm :
      Option ℕ → (ℕ → List Done) → List D → ℕ → ℤ × Option (TpmState D R)
  unfolding run_batches batches
  run_concurrent_with_tpm concurrency schedules docs failed = exit_of (
      run_batches schedules 0 (batches (length docs) (batch_size_of concurrency) docs)
        ([], record { token_window = []; failed = failed }))
