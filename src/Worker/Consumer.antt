-- ===== src/Worker/Consumer.antt =====
-- graph-worker/graphrag-service/src/worker/consumer.py: the handling of one delivery. A method of
-- the consumer is an action over `World`; what it asks of the broker stands in the trace, the
-- newest event first.
pub mod Tally
pub mod Followups
pub mod Settle
pub mod Steps
pub mod Requeue
pub mod Redelivery
pub mod Poison
use Prim.Native.String.{◌++◌}
use concept_microservice.Prelude.{
  ℕ, ℤ, String, Bool, true, Option, none, some, List, [], ◌∷◌, str_eq, if◌then◌else◌,
}
use concept_microservice.Prelude.Effect.{
  Outcome, ok, raise, Exec, pure, throw, lift, attempt, catch, ◌>>=◌, ◌>>◌,
}
use concept_microservice.Values.{Value, Fields, null, str, obj, end, truthy, get}
use concept_microservice.Worker.Retry.{Converted, select_tier, death_count}
use concept_microservice.Worker.Guard.{Guard, default_ttl_seconds, key_for_attempt}

-- `UnretryableError`, `asyncio.CancelledError` (which `except Exception` does not catch), and all
-- other exceptions, with the text that `str` makes of them
pub data Error : Type 0 where
  unretryable : String → Error
  cancelled : Error
  other : String → Error

pub record Message : Type 0 where
  pub body : String
  pub headers : Option Fields
  pub content_type : Option String
  pub message_id : Option String
  pub correlation_id : Option String
  pub routing_key : String

-- the payload of a task.result envelope; `error` is absent for `none`
pub record TaskResult : Type 0 where
  pub task_id : Value
  pub task_type : Value
  pub envelope_id : Value
  pub status : String
  pub document_id : Value
  pub error : Option String

pub data Event : Type 0 where
  -- the handler is entered with this envelope
  handled : Fields → Event
  -- a publish to the retry exchange with this tier, to the dead-letter exchange, to task-results
  retried : String → Message → Event
  dead_lettered : Message → Event
  reported : TaskResult → Event
  acked : Event
  requeued : Event
  counted : String → Event

pub record World (G : Type 0) : Type 0 where
  pub seen : G
  pub now : ℕ
  -- what the next calls of the broker raise; calls past the end succeed
  pub faults : List (Option Error)
  pub trace : List Event

-- What the delivery's code calls and does not implement: the names from the configuration, `str`
-- of an integer and of an id, `int` at texts, `json.loads`, and the handler.
pub record Env : Type 0 where
  pub queue : String
  pub work_routing_key : String
  pub show : ℤ → String
  pub show_id : Value → String
  pub parse : Value → Converted
  pub loads : String → Outcome String Value
  pub handler : Fields → Outcome Error Value

-- `dict(message.headers or {})`
unfoldable pub headers_of : Message → Fields
headers_of m = elim m.headers [ none ↦ end | some fs ↦ fs ]

-- `d.get(k)` of what need not be a dict
abbrev pub get_of : String → Value → Outcome Error Value
get_of k (obj fs) = ok (get k fs)
get_of k v = raise (other "AttributeError")

abbrev pub or_empty : Value → Value
or_empty v = if truthy v then v else obj end

-- `_result_status`
unfoldable pub result_status : Value → String
result_status (obj fs) = elim (get "status" fs) [
  | str s ↦ if str_eq s "failed" then "failed" else "completed"
  | _ ↦ "completed"
]
result_status v = "completed"

abbrev pub error_field : Option String → Option String
error_field none = none
error_field (some e) = if str_eq e "" then none else some e

module _ (g : Guard Error) (env : Env) where
  open g use {State, begin}
  open env use {queue, work_routing_key, show, show_id, parse, loads, handler}

  abbrev pub Action : Type 0 → Type 0
  Action A = Exec (World State) Error A

  -- an awaited call of the broker
  unfoldable pub call : Event → Action Unit
  call e s = elim s.faults [
    | [] ↦ (ok tt, record s { trace = e ∷ s.trace })
    | none ∷ rest ↦ (ok tt, record s { faults = rest; trace = e ∷ s.trace })
    | some x ∷ rest ↦ (raise x, record s { faults = rest })
  ]

  -- a step that does not fail: a metric, or the entry into the handler
  abbrev pub note : Event → Action Unit
  note e s = (ok tt, record s { trace = e ∷ s.trace })

  -- the copy that is published: body, headers and properties are kept
  unfoldable pub copy_of : Message → String → Message
  unfolding headers_of
  copy_of m key = record m { headers = some (headers_of m); routing_key = key }

  unfoldable pub retry_key : String → String
  retry_key tier = work_routing_key ++ (".retry." ++ tier)

  -- `_publish_result`, for a payload that is a dict
  unfoldable pub publish_result : Fields → String → Option String → Action Unit
  publish_result end status error = pure tt
  publish_result payload status error = do
    document_id ← lift (get_of "document_id" (or_empty (get "payload" payload)))
    call (
        reported (record {
          task_id = get "id" payload;
          task_type = get "type" payload;
          envelope_id = get "id" payload;
          status = status;
          document_id = document_id;
          error = error_field error;
        }))

  abbrev pub report_failure : Option Fields → String → Action Unit
  report_failure none error = pure tt
  report_failure (some payload) error = publish_result payload "failed" (some error)

  -- `_dead_letter`
  unfoldable pub dead_letter : Message → Option Fields → String → Action Unit
  unfolding call copy_of publish_result
  dead_letter message payload error = do
    call (dead_lettered (copy_of message work_routing_key))
    note (counted "record_dlq")
    report_failure payload error

  -- `_publish_retry`
  unfoldable pub publish_retry : Message → String → Action Unit
  unfolding call copy_of retry_key
  publish_retry message tier = do
    call (retried tier (copy_of message (retry_key tier)))
    note (counted "record_retry")

  -- `_retry_or_dead_letter`
  unfoldable pub retry_or_dead_letter : Message → Fields → String → ℤ → Action Unit
  unfolding dead_letter publish_retry
  retry_or_dead_letter message payload error taken = elim (select_tier taken) [
    | none ↦ dead_letter message (some payload) error
    | some tier ↦ publish_retry message tier
  ]

  -- the `try` of `_acquire`: a failing guard lets the delivery through
  abbrev pub admit_result : Outcome Error Bool → Action Bool
  admit_result (ok first) = pure first
  admit_result (raise cancelled) = throw cancelled
  admit_result (raise e) = do note (counted "record_idempotency_error"); pure true

  -- `_acquire`
  unfoldable pub acquire : String → ℤ → Action Bool
  acquire envelope_id taken s =
      let (r, seen') =
        begin s.seen s.now (key_for_attempt queue envelope_id (show taken)) default_ttl_seconds in
      admit_result r (record s { seen = seen' })

  -- steps 3 and 4, once the handler has returned or raised
  unfoldable pub conclude : Message → Fields → ℤ → Outcome Error Value → Action Unit
  unfolding retry_or_dead_letter
  conclude message payload taken (ok result) = do
    publish_result payload (result_status result) none
    call acked
  conclude message payload taken (raise (unretryable error)) = do
    dead_letter message (some payload) error
    call acked
  conclude message payload taken (raise (other error)) = do
    retry_or_dead_letter message payload error taken
    call acked
  conclude message payload taken (raise cancelled) = throw cancelled

  -- the attributes of the span read the metadata, inside the inner `try`
  unfoldable pub run_handler : Fields → Action Value
  run_handler payload = do
    trace_id ← lift (get_of "trace_id" (or_empty (get "metadata" payload)))
    note (handled payload)
    lift (handler payload)

  abbrev pub admitted : Fields → ℤ → Action Bool
  admitted payload taken =
      let id = get "id" payload in if truthy id then acquire (show_id id) taken else pure true

  -- steps 2 to 4, for an envelope that is a dict
  unfoldable pub process : Message → Fields → Action Unit
  process message payload = do
    taken ←
        lift (
          death_count parse (other "OverflowError") (some (headers_of message))
            (queue ++ ".retry."))
    first ← admitted payload taken
    if first
        then (do outcome ← attempt (run_handler payload); conclude message payload taken outcome)
        else (do note (counted "record_duplicate"); call acked)

  -- the `except Exception` around the requeue
  abbrev pub swallow : Error → Action Unit
  swallow cancelled = throw cancelled
  swallow e = pure tt

  -- the outer `except`: the log line reads the id of the payload, then the delivery is requeued
  unfoldable pub last_resort : Value → Error → Action Unit
  unfolding call
  last_resort payload cancelled = throw cancelled
  last_resort payload e = do
    id ← lift (get_of "id" (or_empty payload))
    catch (call requeued) swallow

  abbrev pub dispatch : Message → Value → Action Unit
  dispatch message (obj payload) = process message payload
  dispatch message v = throw (other "AttributeError")

  abbrev pub unparsed : Message → String → Action Unit
  unparsed message error = do dead_letter message none ("parse error: " ++ error); call acked

  -- `_handle_delivery`
  unfoldable pub handle_delivery : Message → Action Unit
  unfolding process conclude dead_letter last_resort
  handle_delivery message = elim (loads message.body) [
    | raise error ↦ catch (unparsed message error) (last_resort null)
    | ok payload ↦ catch (dispatch message payload) (last_resort payload)
  ]
