-- ===== src/Worker/Consumer/Requeue.antt =====
-- A delivery that is requeued behind a successful handler, with the in-process guard.
use concept_microservice.Prelude.{
  ℕ, ℤ, ◌+◌, ◌<◌, String, true, false, ◌≡◌, refl, some, [], ◌∷◌, arith, insert, lookup,
  lookup-insert, eq_iff, ap,
}
use concept_microservice.Prelude.Effect.{ok}
use concept_microservice.Values.{Value, Fields, obj, get}
use concept_microservice.Worker.Guard.{Seen, live, in_memory_guard, default_ttl_seconds}
use concept_microservice.Worker.Consumer.{
  other, Message, handled, acked, requeued, counted, World, Env, or_empty, handle_delivery,
}
use concept_microservice.Worker.Consumer.Steps.{Readable, key_of, duplicate_step, unreported_step}

live-insert :
    (key : String) (now later : ℕ) (seen : Seen)
    → later < now + default_ttl_seconds
    → live later (lookup key (insert key (now + default_ttl_seconds) seen)) ≡ true
live-insert key now later seen h =
    rw (lookup-insert key key (now + default_ttl_seconds) seen) (ground (arith, eq_iff key key))

-- With the in-process guard: a readable delivery with an id, and a table or nothing as its payload,
-- whose attempt the guard does not hold and whose handler succeeds, is requeued if the first call
-- of the broker, the publish of its result, fails; and if no other call fails and the message comes
-- back within the time-to-live of the guard's entry, it is acked as a duplicate: no result is
-- reported.
pub requeue_then_duplicate :
    (env : Env) (message : Message) (payload inner : Fields) (taken : ℤ) (s : World Seen)
    (result : Value) (x : String) (later : ℕ)
    → Readable env message payload taken
    → live s.now (lookup (key_of env payload taken) s.seen) ≡ false
    → env.handler payload ≡ ok result
    → or_empty (get "payload" payload) ≡ obj inner
    → s.faults ≡ some (other x) ∷ []
    → later < s.now + default_ttl_seconds
    → (handle_delivery in_memory_guard env message
        (record ((handle_delivery in_memory_guard env message s).1) { now = later })).1.trace
      ≡ acked ∷ counted "record_duplicate" ∷ requeued ∷ handled payload ∷ s.trace
requeue_then_duplicate env message payload inner taken s result x later r fresh done shaped fault
      within =
    rw (unreported_step env r s fresh result inner x done shaped fault) (
      ap (λ r. r.1.trace)
        (duplicate_step env r
          (record s {
            seen = insert (key_of env payload taken) (s.now + default_ttl_seconds) s.seen;
            now = later;
            faults = [];
            trace = requeued ∷ handled payload ∷ s.trace;
          })
          (live-insert _ s.now later s.seen within) refl))
