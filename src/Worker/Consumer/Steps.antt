-- ===== src/Worker/Consumer/Steps.antt =====
-- What one delivery does with the in-process guard and a broker that answers every call.
use Prim.Native.String.{◌++◌}
use concept_microservice.Prelude.{
  ℤ, ◌+◌, String, true, false, ◌≡◌, none, some, [], ◌∷◌, arith, insert, lookup,
}
use concept_microservice.Prelude.Effect.{ok, raise}
use concept_microservice.Values.{Value, Fields, obj, truthy, get, truthy-get-end}
use concept_microservice.Worker.Retry.{select_tier, death_count}
use concept_microservice.Worker.Guard.{
  Seen, live, in_memory_begin, in_memory_guard, default_ttl_seconds, key_for_attempt,
}
use concept_microservice.Worker.Consumer.{
  other, Message, handled, retried, dead_lettered, reported, acked, requeued, counted, World, Env,
  get_of, or_empty, error_field, headers_of, call, copy_of, retry_key, publish_result, acquire,
  run_handler, handle_delivery,
}

-- An envelope that the consumer can read: a dict with an id, its retry count, and metadata that
-- are a dict or absent.
pub record Readable (env : Env) (message : Message) (payload : Fields) (taken : ℤ) : Type 0 where
  pub parsed : env.loads message.body ≡ ok (obj payload)
  pub attempts :
      death_count env.parse
        (other "OverflowError")
        (some (headers_of message))
        (env.queue ++ ".retry.")
      ≡ ok taken
  pub identified : truthy (get "id" payload) ≡ true
  pub trace_id : Value
  pub traced : get_of "trace_id" (or_empty (get "metadata" payload)) ≡ ok trace_id

module _ (env : Env) where
  abbrev pub key_of : Fields → ℤ → String
  key_of payload taken = key_for_attempt env.queue (env.show_id (get "id" payload)) (env.show taken)

  module _ {message : Message} {payload : Fields} {taken : ℤ}
      (r : Readable env message payload taken) where
    pub duplicate_step :
        (s : World Seen)
        → live s.now (lookup (key_of payload taken) s.seen) ≡ true
        → s.faults ≡ []
        → handle_delivery in_memory_guard env message s
          ≡ (ok tt, record s { trace = acked ∷ counted "record_duplicate" ∷ s.trace })
    unfolding handle_delivery acquire in_memory_begin call
    duplicate_step s old calm = ground (arith, r.parsed, r.attempts, r.identified)

    module _ (s : World Seen)
        (fresh : live s.now (lookup (key_of payload taken) s.seen) ≡ false) where
      -- the guard's record of this attempt
      abbrev pub marked : Seen
      marked = insert (key_of payload taken) (s.now + default_ttl_seconds) s.seen

      pub retry_step :
          (tier error : String)
          → select_tier taken ≡ some tier
          → env.handler payload ≡ raise (other error)
          → s.faults ≡ []
          → handle_delivery in_memory_guard env message s ≡ (
            ok tt,
            record s {
              seen = marked;
              trace =
                  acked
                  ∷ counted "record_retry"
                  ∷ retried tier
                      (copy_of in_memory_guard env message (retry_key in_memory_guard env tier))
                  ∷ handled payload
                  ∷ s.trace;
            },
          )
      unfolding handle_delivery acquire in_memory_begin call run_handler
      retry_step tier error chosen failed calm =
          ground (arith, r.parsed, r.attempts, r.identified, r.traced)

      pub exhausted_step :
          (inner : Fields) (error : String)
          → select_tier taken ≡ none
          → env.handler payload ≡ raise (other error)
          → or_empty (get "payload" payload) ≡ obj inner
          → s.faults ≡ []
          → handle_delivery in_memory_guard env message s ≡ (
            ok tt,
            record s {
              seen = marked;
              trace =
                  acked
                  ∷ reported (record {
                    task_id = get "id" payload;
                    task_type = get "type" payload;
                    envelope_id = get "id" payload;
                    status = "failed";
                    document_id = get "document_id" inner;
                    error = error_field (some error);
                  })
                  ∷ counted "record_dlq"
                  ∷ dead_lettered (copy_of in_memory_guard env message env.work_routing_key)
                  ∷ handled payload
                  ∷ s.trace;
            },
          )
      unfolding handle_delivery acquire in_memory_begin call run_handler publish_result
      exhausted_step inner error chosen failed shaped calm =
          ground (arith, r.parsed, r.attempts, r.identified, r.traced, truthy-get-end "id")

      -- the publish of the result raises
      pub unreported_step :
          (result : Value) (inner : Fields) (x : String)
          → env.handler payload ≡ ok result
          → or_empty (get "payload" payload) ≡ obj inner
          → s.faults ≡ some (other x) ∷ []
          → handle_delivery in_memory_guard env message s ≡ (
            ok tt,
            record s { seen = marked; faults = []; trace = requeued ∷ handled payload ∷ s.trace },
          )
      unfolding handle_delivery acquire in_memory_begin call run_handler publish_result
      unreported_step result inner x done shaped fault =
          ground (arith, r.parsed, r.attempts, r.identified, r.traced)
