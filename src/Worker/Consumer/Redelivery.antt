-- ===== src/Worker/Consumer/Redelivery.antt =====
-- What happens to an envelope over several deliveries, with the in-process guard.
use Prim.Native.String.{◌++◌}
use text.Mathlib.TextLemmas.{append_cancel_left}
use concept_microservice.Prelude.{
  ℕ, zero, suc, ℤ, pos, ◌+◌, ◌≤◌, String, false, ◌≡◌, refl, none, some, List, [], ◌∷◌, map, arith,
  insert, lookup, lookup-insert, eq_iff, ◌∙◌, ap, Bool-cases, inl, inr, str_eq,
}
use concept_microservice.Prelude.Effect.{ok, raise}
use concept_microservice.Values.{Fields, obj, get}
use concept_microservice.Worker.Retry.{select_tier, death_count}
use concept_microservice.Worker.Guard.{
  Seen, live, in_memory_guard, default_ttl_seconds, key_for, key_for_attempt,
}
use concept_microservice.Worker.Consumer.{
  other, Message, Event, handled, retried, dead_lettered, reported, acked, counted, World, Env,
  or_empty, error_field, headers_of, copy_of, retry_key, handle_delivery,
}
use concept_microservice.Worker.Consumer.Tally.{runs, reports, acks}
use concept_microservice.Worker.Consumer.Steps.{Readable, key_of, retry_step, exhausted_step}

-- The key of an attempt tells the attempts of one envelope apart.
key_injective :
    (env : Env) (payload : Fields) (a b : ℤ)
    → ((a b : ℤ) → env.show a ≡ env.show b → a ≡ b)
    → key_of env payload a ≡ key_of env payload b
    → a ≡ b
unfolding key_for_attempt
key_injective env payload a b inj e = inj a b (
    append_cancel_left ":" _ _
      (append_cancel_left (key_for env.queue (env.show_id (get "id" payload))) _ _ e))

-- What a delivery's trace sends on: to a retry tier, or to the dead-letter exchange.
pub data Route : Type 0 where
  stopped : Route
  to_tier : String → Message → Route
  to_dead : Route

abbrev pub route : List Event → Route
route [] = stopped
route (retried tier m ∷ t) = to_tier tier m
route (dead_lettered m ∷ t) = to_dead
route (_ ∷ t) = route t

-- where the publishes of a delivery went
abbrev pub destinations : List Event → List String
destinations [] = []
destinations (retried tier m ∷ t) = tier ∷ destinations t
destinations (dead_lettered m ∷ t) = "dead-letter" ∷ destinations t
destinations (_ ∷ t) = destinations t

-- the destinations, the runs of the handler, the results reported, the acks
abbrev pub summary : List Event → List String × ℕ × ℕ × ℕ
summary t = (destinations t, runs t, reports t, acks t)

-- The broker: `pass tier` is what the wait-queue of a tier makes of the headers before the message
-- comes back to the work queue, and `clock i` is the time of the i-th delivery.
module _ (env : Env) (pass : String → Fields → Fields) (clock : ℕ → ℕ) where
  abbrev pub returned : String → Message → Message
  returned tier m = record m {
    headers = some (pass tier (headers_of m));
    routing_key = env.work_routing_key;
  }

  -- what follows a delivery that left the world `s`
  abbrev onward :
      (Message → World Seen → List (List Event)) → World Seen → Route → List (List Event)
  onward rest s stopped = s.trace ∷ []
  onward rest s to_dead = s.trace ∷ []
  onward rest s (to_tier tier m) = s.trace ∷ rest (returned tier m) s

  -- The traces of an envelope's deliveries, as long as it comes back from a wait-queue; `fuel`
  -- bounds their number.
  pub life : ℕ → ℕ → Message → World Seen → List (List Event)
  life zero i message s = []
  life (suc fuel) i message s =
      let s' =
        (handle_delivery in_memory_guard env message (record s { now = clock i; trace = [] })).1 in
      onward (life fuel (suc i)) s' (route s'.trace)

  -- A hop through a wait-queue adds one to the count of retries, as RabbitMQ's x-death does.
  abbrev pub CountsHops : Type 0
  CountsHops =
      (tier : String) (h : Fields) (n : ℕ)
      → death_count env.parse (other "OverflowError") (some h) (env.queue ++ ".retry.") ≡ ok (pos n)
      → death_count env.parse (other "OverflowError") (some (pass tier h)) (env.queue ++ ".retry.")
        ≡ ok (pos (suc n))

  module _ (payload inner : Fields) (error : String)
      (distinct : (a b : ℤ) → env.show a ≡ env.show b → a ≡ b) (hops : CountsHops)
      (failing : env.handler payload ≡ raise (other error))
      (shaped : or_empty (get "payload" payload) ≡ obj inner) where
    -- no attempt from the n-th on is in the guard
    Unseen : ℕ → Seen → Type 0
    Unseen n seen = (k : ℕ) → n ≤ k → lookup (key_of env payload (pos k)) seen ≡ none

    Unseen-insert :
        (n v : ℕ) (seen : Seen)
        → Unseen n seen
        → Unseen (suc n) (insert (key_of env payload (pos n)) v seen)
    unfolding Unseen
    Unseen-insert n v seen h k le =
        rw lookup-insert
          (elim (Bool-cases (str_eq (key_of env payload (pos n)) (key_of env payload (pos k)))) [
            | inl same ↦ absurd (
                differ n k le
                  (key_injective env payload (pos n) (pos k) distinct ((eq_iff _ _).0 same)))
            | inr other_key ↦ rw other_key (h k (omega arith))
          ])
      where
        differ : (a b : ℕ) → suc a ≤ b → pos a ≡ pos b → ⊥
        differ a b l e = ground arith

    all-Unseen :
        (seen : Seen) → ((k : ℕ) → lookup (key_of env payload (pos k)) seen ≡ none) → Unseen 0 seen
    unfolding Unseen
    all-Unseen seen u k le = u k

    retried_trace : Message → String → List Event
    retried_trace m tier =
        acked
        ∷ counted "record_retry"
        ∷ retried tier (copy_of in_memory_guard env m (retry_key in_memory_guard env tier))
        ∷ handled payload
        ∷ []

    next_message : Message → String → Message
    unfolding headers_of
    next_message m tier =
        returned tier (copy_of in_memory_guard env m (retry_key in_memory_guard env tier))

    next-Readable :
        (m : Message) (tier : String) (n : ℕ)
        → Readable env m payload (pos n)
        → Readable env (next_message m tier) payload (pos (suc n))
    unfolding next_message copy_of
    next-Readable m tier n r = record {
      parsed = r.parsed;
      attempts = hops tier (headers_of m) n r.attempts;
      identified = r.identified;
      trace_id = r.trace_id;
      traced = r.traced;
    }

    fresh_of :
        (n : ℕ) (now : ℕ) (seen : Seen)
        → Unseen n seen
        → live now (lookup (key_of env payload (pos n)) seen) ≡ false
    unfolding Unseen
    fresh_of n now seen u = rw (u n (omega arith))

    abbrev after : ℕ → ℕ → World Seen → World Seen
    after i n s = record s {
      seen = insert (key_of env payload (pos n)) (clock i + default_ttl_seconds) s.seen;
      now = clock i;
    }

    -- one retry of the life
    life_retry :
        (fuel i n : ℕ) (m : Message) (s : World Seen) (tier : String)
        → Readable env m payload (pos n)
        → select_tier (pos n) ≡ some tier
        → s.faults ≡ []
        → Unseen n s.seen
        → life (suc fuel) i m s
          ≡ retried_trace m tier
            ∷ life fuel
                (suc i)
                (next_message m tier)
                (record (after i n s) { trace = retried_trace m tier })
    unfolding life retried_trace next_message
    life_retry fuel i n m s tier r chosen calm u =
        ap (λ r. onward (life fuel (suc i)) r.1 (route r.1.trace))
          (retry_step env r (record s { now = clock i; trace = [] }) (fresh_of n (clock i) s.seen u)
            tier error chosen failing calm)

    dead_trace : Message → List Event
    dead_trace m =
        acked
        ∷ reported (record {
          task_id = get "id" payload;
          task_type = get "type" payload;
          envelope_id = get "id" payload;
          status = "failed";
          document_id = get "document_id" inner;
          error = error_field (some error);
        })
        ∷ counted "record_dlq"
        ∷ dead_lettered (copy_of in_memory_guard env m env.work_routing_key)
        ∷ handled payload
        ∷ []

    -- the end of the life
    life_dead :
        (fuel i n : ℕ) (m : Message) (s : World Seen)
        → Readable env m payload (pos n)
        → select_tier (pos n) ≡ none
        → s.faults ≡ []
        → Unseen n s.seen
        → life (suc fuel) i m s ≡ dead_trace m ∷ []
    unfolding life dead_trace
    life_dead fuel i n m s r exhausted calm u =
        ap (λ r. onward (life fuel (suc i)) r.1 (route r.1.trace))
          (exhausted_step env r (record s { now = clock i; trace = [] })
            (fresh_of n (clock i) s.seen u) inner error exhausted failing shaped calm)

    -- An envelope whose handler always raises a retryable error, on its first delivery and with no
    -- attempt of it in the guard: it is delivered exactly four times. Three deliveries send it to
    -- the tiers 5s, 30s and 2m in this order, the fourth to the dead-letter exchange with one failed
    -- result; each runs the handler once and acks once. The broker's hop through a wait-queue is
    -- taken to add one to the retry count, and `str` to tell the counts apart.
    pub poison_lifecycle :
        (fuel : ℕ) (m : Message) (s : World Seen)
        → Readable env m payload (pos 0)
        → s.faults ≡ []
        → ((k : ℕ) → lookup (key_of env payload (pos k)) s.seen ≡ none)
        → map summary (life (suc (suc (suc (suc fuel)))) 0 m s)
          ≡ ("5s" ∷ [], 1, 0, 1)
            ∷ ("30s" ∷ [], 1, 0, 1)
            ∷ ("2m" ∷ [], 1, 0, 1)
            ∷ ("dead-letter" ∷ [], 1, 1, 1)
            ∷ []
    unfolding retried_trace dead_trace select_tier
    poison_lifecycle fuel m s r calm u =
        let s1 = record (after 0 0 s) { trace = retried_trace m "5s" } in
        let m1 = next_message m "5s" in
        let s2 = record (after 1 1 s1) { trace = retried_trace m1 "30s" } in
        let m2 = next_message m1 "30s" in
        let s3 = record (after 2 2 s2) { trace = retried_trace m2 "2m" } in
        let m3 = next_message m2 "2m" in
        let r1 = next-Readable m "5s" 0 r in
        let r2 = next-Readable m1 "30s" 1 r1 in
        let r3 = next-Readable m2 "2m" 2 r2 in
        let u1 = Unseen-insert 0 (clock 0 + default_ttl_seconds) s.seen (all-Unseen s.seen u) in
        let u2 = Unseen-insert 1 (clock 1 + default_ttl_seconds) s1.seen u1 in
        let u3 = Unseen-insert 2 (clock 2 + default_ttl_seconds) s2.seen u2 in
        ap (map summary) (
          life_retry (suc (suc (suc fuel))) 0 0 m s "5s" r refl calm (all-Unseen s.seen u)
          ∙ ap (◌∷◌ (retried_trace m "5s")) (
              life_retry (suc (suc fuel)) 1 1 m1 s1 "30s" r1 refl calm u1
              ∙ ap (◌∷◌ (retried_trace m1 "30s")) (
                  life_retry (suc fuel) 2 2 m2 s2 "2m" r2 refl calm u2
                  ∙ ap (◌∷◌ (retried_trace m2 "2m")) (life_dead fuel 3 3 m3 s3 r3 refl calm u3))))
