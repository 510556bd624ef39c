-- ===== src/Examples/Delivery.antt =====
-- An envelope of one document, as worker/consumer.py handles it.
use concept_microservice.Prelude.{
  ℕ, zero, suc, ◌+◌, ◌*◌, ℤ, pos, negsuc, String, ◌≡◌, ◌≢◌, refl, ap, ◌∙◌, none, some, List, [],
  ◌∷◌, map, arith, lookup,
}
use concept_microservice.Prelude.Effect.{Outcome, ok, raise}
use concept_microservice.Values.{
  Value, Fields, int, str, arr, obj, end, field, nil, null, truthy, find, get,
}
use concept_microservice.Worker.Retry.{rejected, death_count}
use concept_microservice.Worker.Retry.Counts.{Death, entries, death_count-taken}
use concept_microservice.Worker.Guard.{Seen, in_memory_guard}
use concept_microservice.Worker.Consumer.{
  Error, unretryable, other, Message, World, Env, or_empty, headers_of, handle_delivery, acked,
  counted, requeued, handled,
}
use concept_microservice.Worker.Consumer.Followups.{SettledOnce}
use concept_microservice.Worker.Consumer.Settle.{handle_delivery-SettledOnce}
use concept_microservice.Worker.Consumer.Steps.{Readable}
use concept_microservice.Worker.Consumer.Requeue.{requeue_then_duplicate}
use concept_microservice.Worker.Consumer.Redelivery.{life, summary, CountsHops, poison_lifecycle}
use concept_microservice.Worker.Consumer.Poison.{non_object_never_acked}

-- a text of n signs
ticks : ℕ → String
ticks zero = ""
ticks (suc n) = String.◌∷◌ "|" (ticks n)

measure : String → ℕ
measure String.[] = 0
measure (String.◌∷◌ c s) = suc (measure s)

measure-ticks : (n : ℕ) → measure (ticks n) ≡ n
unfolding ticks measure
measure-ticks zero = refl
measure-ticks (suc n) = omega (arith, measure-ticks n)

abbrev coded : ℤ → ℕ
coded (pos n) = 2 * n
coded (negsuc n) = 2 * n + 1

abbrev show_int : ℤ → String
show_int n = ticks (coded n)

coded_injective : (a b : ℤ) → coded a ≡ coded b → a ≡ b
coded_injective a b h = ground arith

show_int_injective : (a b : ℤ) → show_int a ≡ show_int b → a ≡ b
show_int_injective a b h =
    coded_injective a b
      (omega (arith, measure-ticks (coded a), measure-ticks (coded b), ap measure h))

abbrev id_text : Value → String
id_text (str s) = s
id_text v = ""

abbrev inner_fields : Fields
inner_fields = field "document_id" (str "d1") end

abbrev envelope : Fields
envelope =
    field "id" (str "e1") (field "type" (str "document") (field "payload" (obj inner_fields) end))

abbrev document_message : Message
document_message = record {
  body = "…";
  headers = none;
  content_type = none;
  message_id = none;
  correlation_id = none;
  routing_key = "work";
}

abbrev timing_out : Fields → Outcome Error Value
timing_out end = raise (unretryable "validation failed")
timing_out (field k v fs) = raise (other "timeout")

abbrev env_of : (Fields → Outcome Error Value) → Value → Env
env_of handler body = record {
  queue = "worker";
  work_routing_key = "work";
  show = show_int;
  show_id = id_text;
  parse = λ v. rejected;
  loads = λ text. ok body;
  handler = handler;
}

abbrev failing_env : Env
failing_env = env_of timing_out (obj envelope)

abbrev start_world : World Seen
start_world = record { seen = []; now = 0; faults = []; trace = [] }

timing_out-end : (v : Value) → timing_out end ≢ ok v
timing_out-end v h = cc

settled_example :
    SettledOnce (handle_delivery in_memory_guard failing_env document_message start_world).1.trace
settled_example =
    handle_delivery-SettledOnce in_memory_guard failing_env timing_out-end document_message
      start_world refl

-- an entry as the broker writes it
abbrev entry : String → ℕ → Fields
entry queue count =
    field "reason" (str "expired")
      (field "count" (int (pos count)) (field "exchange" (str "") (field "queue" (str queue) end)))

get-entry : (queue : String) (count : ℕ) → get "queue" (entry queue count) ≡ str queue
unfolding get find
get-entry queue count = refl

find-entry :
    (queue : String) (count : ℕ) → find "count" (entry queue count) ≡ some (int (pos count))
unfolding find
find-entry queue count = refl

abbrev death : String → ℕ → Death
death queue count = record {
  fields = entry queue count;
  queue = queue;
  count = count;
  names_queue = get-entry queue count;
  has_count = find-entry queue count;
}

abbrev x_death : List Death → Fields
x_death ds = field "x-first-death-queue" (str "worker") (field "x-death" (arr (entries ds)) end)

-- a broker that gives a message one table of x-death with the sum of its hops
abbrev table : ℕ → Fields
table n = x_death (death "worker.retry.5s" n ∷ [])

get-table : (n : ℕ) → get "x-death" (table n) ≡ arr (entries (death "worker.retry.5s" n ∷ []))
unfolding get find
get-table n = refl

abbrev pass_of : Outcome Error ℤ → Fields → Fields
pass_of (ok (pos n)) h = table (suc n)
pass_of r h = h

abbrev pass : String → Fields → Fields
pass tier h =
    pass_of (death_count failing_env.parse (other "OverflowError") (some h) "worker.retry.") h

pass-CountsHops : CountsHops failing_env pass (λ i. i)
pass-CountsHops tier h n e = rw e (
    death_count-taken failing_env.parse (other "OverflowError") "worker.retry." (table (suc n))
      (death "worker.retry.5s" (suc n) ∷ []) (get-table (suc n))
    ∙ ap (λ k. ok (pos k)) (omega arith))

envelope-Readable : Readable failing_env document_message envelope (pos 0)
unfolding truthy get find death_count headers_of
envelope-Readable = record {
  parsed = refl;
  attempts = refl;
  identified = refl;
  trace_id = null;
  traced = refl;
}

envelope-shaped : or_empty (get "payload" envelope) ≡ obj inner_fields
unfolding get find truthy
envelope-shaped = refl

poison_example :
    map summary (life failing_env pass (λ i. i) 4 0 document_message start_world)
    ≡ ("5s" ∷ [], 1, 0, 1)
      ∷ ("30s" ∷ [], 1, 0, 1)
      ∷ ("2m" ∷ [], 1, 0, 1)
      ∷ ("dead-letter" ∷ [], 1, 1, 1)
      ∷ []
unfolding lookup
poison_example =
    poison_lifecycle failing_env pass (λ i. i) envelope inner_fields "timeout" show_int_injective
      pass-CountsHops refl envelope-shaped 0 document_message start_world envelope-Readable refl
      (λ k. refl)

-- the handler succeeds, and the publish of its result raises
abbrev done_env : Env
done_env = env_of (λ fs. ok (obj end)) (obj envelope)

abbrev failing_broker : World Seen
failing_broker = record {
  seen = [];
  now = 0;
  faults = some (other "ConnectionClosed") ∷ [];
  trace = [];
}

done-Readable : Readable done_env document_message envelope (pos 0)
unfolding truthy get find death_count headers_of
done-Readable = record {
  parsed = refl;
  attempts = refl;
  identified = refl;
  trace_id = null;
  traced = refl;
}

requeue_example :
    (handle_delivery in_memory_guard done_env document_message
      (record ((handle_delivery in_memory_guard done_env document_message failing_broker).1) {
        now = 5;
      })).1.trace
    ≡ acked ∷ counted "record_duplicate" ∷ requeued ∷ handled envelope ∷ []
unfolding lookup
requeue_example =
    requeue_then_duplicate done_env document_message envelope inner_fields (pos 0) failing_broker
      (obj end) "ConnectionClosed" 5 done-Readable refl refl envelope-shaped refl (omega arith)

non_object_example :
    handle_delivery in_memory_guard (env_of timing_out (arr nil)) document_message start_world
    ≡ (ok tt, record start_world { trace = requeued ∷ [] })
unfolding truthy
non_object_example =
    non_object_never_acked in_memory_guard (env_of timing_out (arr nil)) document_message (arr nil)
      start_world refl refl refl

abbrev two_hops : List Death
two_hops = death "worker.retry.30s" 2 ∷ death "worker" 7 ∷ death "worker.retry.5s" 1 ∷ []

death_count_example :
    death_count failing_env.parse (other "OverflowError") (some (x_death two_hops)) "worker.retry."
    ≡ ok (pos 3)
unfolding get find
death_count_example =
    death_count-taken failing_env.parse (other "OverflowError") "worker.retry." (x_death two_hops)
      two_hops refl
