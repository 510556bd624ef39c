-- ===== src/Worker/Processor/Results.antt =====
-- What the handler answers, and what the consumer reports of it.
use concept_microservice.Prelude.{
  ℤ, ◌≡◌, refl, String, Bool, arith, true, false, if◌then◌else◌, Bool-cases, inl, inr, eq_iff,
}
use concept_microservice.Prelude.Effect.{Outcome, ok, raise, lift, ◌>>=◌}
use concept_microservice.Prelude.Triple.{Triple, Post, Triple-bind, Triple-lift, Triple-throw}
use concept_microservice.Values.{Value, Fields, obj, end, is_zero, get, find}
use concept_microservice.Worker.Consumer.{Error, unretryable, result_status, get_of}
use concept_microservice.Worker.Processor.{
  Services, Files, subscript, validate, remove, download, run_or_stub, stub_result, pipeline_result,
  Run, when_valid, process, handle_message,
}

module _ (svc : Services) where
  -- An empty envelope is refused as unretryable, with no file touched.
  pub handle_message-end :
      (files : Files)
      → handle_message svc end files ≡ (raise (unretryable "validation failed"), files)
  unfolding handle_message validate find
  handle_message-end files = refl

  abbrev Failed : Type 0
  Failed =
      (ingest_code graphrag_code : ℤ) × (svc.imported ≡ ok tt)
      × (svc.has_api_key ≡ true)
      × (svc.ingestion ≡ ok ingest_code)
      × (svc.graphrag ≡ ok graphrag_code)
      × (is_zero graphrag_code ≡ false)

  stub_status : (d : Value) (reason : String) → result_status (stub_result d reason) ≡ "completed"
  unfolding stub_result result_status get find
  stub_status d reason = refl

  pipeline_status :
      (d : Value) (i g : ℤ)
      → result_status (pipeline_result d i g) ≡ (if is_zero g then "completed" else "failed")
  unfolding pipeline_result result_status get find
  pipeline_status d i g = elim (Bool-cases (is_zero g)) [ inl p ↦ rw p | inr p ↦ rw p ]

  run_or_stub-failed :
      (u d v : Value) → run_or_stub svc u d ≡ ok v → result_status v ≡ "failed" → Failed
  unfolding run_or_stub
  run_or_stub-failed u d v e f =
      grind (arith, stub_status, pipeline_status, eq_iff "completed" "failed")

  abbrev FromRun : Value → Files → Type 0
  FromRun v files = (u d : Value) × (run_or_stub svc u d ≡ ok v)

  abbrev Start : Files → Type 0
  Start files = Unit

  after_lift :
      {A B : Type 0} (r : Outcome Error A) (f : A → Run B) (Q : B → Files → Type 0)
      → ((a : A) → Triple Start (f a) Q (λ _. Start))
      → Triple Start (lift r >>= f) Q (λ _. Start)
  after_lift r f Q h =
      Triple-bind (lift r) f (λ _. Start) (Triple-lift r (λ a e s p. tt) (λ a e s p. tt)) h

  process_lem : (message : Fields) → Triple Start (process svc message) FromRun (λ _. Start)
  unfolding process
  process_lem message = after_lift (subscript "payload" (obj message)) _ FromRun λ payload.
      after_lift (subscript "document_id" payload) _ FromRun λ document_id.
        after_lift (subscript "storage_path" payload) _ FromRun λ path.
          after_lift (subscript "storage_bucket" payload) _ FromRun λ bucket.
            after_lift (get_of "user_id" payload) _ FromRun λ user_id.
              Triple-bind (download svc bucket path) _ (λ _. Start) (record { at = λ s p. any _ _ })
                (λ name. record {
                  at = λ s p.
                      last user_id document_id (run_or_stub svc user_id document_id) refl s name;
                })
    where
      any : (r : Outcome Error String) (s : Files) → Post (λ _. Start) (λ _. Start) r s
      any (ok a) s = tt
      any (raise e) s = tt

      last :
          (u d : Value) (r : Outcome Error Value)
          → run_or_stub svc u d ≡ r
          → (s : Files) (name : String) → Post FromRun (λ _. Start) r (remove name s)
      last u d (ok v) e s name = (u, d, e)
      last u d (raise x) e s name = tt

  handle_message_lem :
      (message : Fields) → Triple Start (handle_message svc message) FromRun (λ _. Start)
  unfolding handle_message
  handle_message_lem message = after_lift (validate message) _ FromRun run_if
    where
      run_if :
          (b : Bool) → Triple Start (when_valid svc b (process svc message)) FromRun (λ _. Start)
      run_if true = process_lem message
      run_if false = Triple-throw _ (λ s p. tt)

  -- An answer that the consumer reports as failed comes from a run of both pipelines whose GraphRAG
  -- exit code is not zero; a stub, or a failed ingestion alone, is reported as completed.
  pub failed_result :
      (message : Fields) (files : Files) (v : Value)
      → (handle_message svc message files).0 ≡ ok v
      → result_status v ≡ "failed"
      → (ingest_code graphrag_code : ℤ) × (svc.imported ≡ ok tt)
        × (svc.has_api_key ≡ true)
        × (svc.ingestion ≡ ok ingest_code)
        × (svc.graphrag ≡ ok graphrag_code)
        × (is_zero graphrag_code ≡ false)
  failed_result message files v e f =
      let (u, d, run) =
        from_run (handle_message svc message files).0 _ e
          ((handle_message_lem message).at files tt) in
      run_or_stub-failed u d v run f
    where
      from_run :
          (r : Outcome Error Value) (s : Files)
          → r ≡ ok v
          → Post FromRun (λ _. Start) r s
          → FromRun v s
      from_run (ok w) s q h = let same : w ≡ v = cc in rw (← same) h
      from_run (raise x) s q h = cc
