-- ===== src/Worker/Consumer/Settle.antt =====
-- How often a delivery is settled, and behind what.
use concept_microservice.Prelude.{
  ℤ, String, Bool, true, ◌≡◌, ◌≢◌, refl, none, some, List, [], arith,
}
use concept_microservice.Prelude.Effect.{Outcome, ok, raise, lift, attempt, catch, ◌>>=◌, ◌>>◌}
use concept_microservice.Prelude.Triple.{
  Post, Triple, Triple-pure, Triple-throw, Triple-lift, Triple-if, Triple-attempt, Triple-catch,
  Triple-bind,
}
use concept_microservice.Values.{Value, Fields, null, obj, end, field, truthy, get}
use concept_microservice.Worker.Guard.{Guard}
use concept_microservice.Worker.Consumer.{
  Error, unretryable, cancelled, other, Message, Event, acked, requeued, counted, World, Env,
  get_of, or_empty, result_status, call, note, admitted, dispatch, unparsed, acquire, admit_result,
  conclude, run_handler, process, last_resort, handle_delivery, swallow,
}
use concept_microservice.Worker.Consumer.Followups.{
  Unsettled, Quiet, Fresh, Ready, SettledOnce, call_lem, note_lem, ack_lem, report-Quiet,
  dead_letter_lem, retry_or_dead_letter_lem, then_ack,
}

module _ (g : Guard Error) (env : Env) where
  abbrev On : (List Event → Type 0) → World g.State → Type 0
  On P s = P s.trace

  duplicate_lem :
      Triple
        (On Fresh)
        (note g env (counted "record_duplicate") >> call g env acked)
        (λ _. On SettledOnce)
        (λ _. On Unsettled)
  duplicate_lem =
      Triple-bind (note g env _) _ (λ _. On Ready)
        (note_lem g env _ Fresh Ready (λ t q. ground arith)) (λ _. ack_lem g env)

  admit_result_lem :
      (r : Outcome Error Bool)
      → Triple (On Fresh) (admit_result g env r) (λ _. On Fresh) (λ _. On Unsettled)
  admit_result_lem (ok first) = record { at = λ s p. p }
  admit_result_lem (raise cancelled) = record { at = λ s p. p.quiet.unsettled }
  admit_result_lem (raise (unretryable e)) = record { at = λ s p. ground arith }
  admit_result_lem (raise (other e)) = record { at = λ s p. ground arith }

  admitted_lem :
      (payload : Fields) (taken : ℤ)
      → Triple (On Fresh) (admitted g env payload taken) (λ _. On Fresh) (λ _. On Unsettled)
  unfolding acquire
  admitted_lem payload taken =
      Triple-if (truthy (get "id" payload)) _ _
        (λ _. record { at = λ s p. (admit_result_lem _).at _ p }) (λ _. Triple-pure true (λ s p. p))

  closed : (t : List Event) → Unsettled t → SettledOnce t
  closed t u = ground arith

  requeue_lem :
      (payload : Value)
      → Triple
          (On Unsettled)
          (lift (get_of "id" (or_empty payload)) >>= λ _.
            catch (call g env requeued) (swallow g env))
          (λ _. On SettledOnce)
          (λ _. On SettledOnce)
  requeue_lem payload =
      Triple-bind (lift (get_of "id" (or_empty payload))) _ (λ _. On Unsettled)
        (Triple-lift _ (λ a e s q. q) (λ a e s q. closed s.trace q))
        (λ _.
          Triple-catch (call g env requeued) _ (λ _. On Unsettled)
            (call_lem g env requeued Unsettled SettledOnce Unsettled (λ t q. ground arith)
              (λ t q. q))
            (elim [
              | cancelled ↦ Triple-throw _ (λ s q. closed s.trace q)
              | unretryable e ↦ Triple-pure tt (λ s q. closed s.trace q)
              | other e ↦ Triple-pure tt (λ s q. closed s.trace q)
            ]))

  abbrev Ran : Fields → Outcome Error Value → World g.State → Type 0
  Ran payload r s = Quiet s.trace × ((v : Value) → r ≡ ok v → payload ≢ end)

  last_resort_lem :
      (payload : Value) (e : Error)
      → Triple
          (On Unsettled)
          (last_resort g env payload e)
          (λ _. On SettledOnce)
          (λ _. On SettledOnce)
  last_resort_lem payload cancelled = unfold last_resort in Triple-throw _ (λ s q. closed s.trace q)
  last_resort_lem payload (unretryable x) = unfold last_resort in requeue_lem payload
  last_resort_lem payload (other x) = unfold last_resort in requeue_lem payload

  -- The handler refuses the empty envelope, as `BaseWorker._handle_message` does.
  module _ (refuses : (v : Value) → env.handler end ≢ ok v) where
    conclude_lem :
        (message : Message) (payload : Fields) (taken : ℤ) (outcome : Outcome Error Value)
        → ((v : Value) → outcome ≡ ok v → payload ≢ end)
        → Triple
            (On Quiet)
            (conclude g env message payload taken outcome)
            (λ _. On SettledOnce)
            (λ _. On Unsettled)
    conclude_lem message end taken (ok v) h = absurd (h v refl refl)
    conclude_lem message (field k w fs) taken (ok v) h =
        unfold conclude in then_ack g env _ (report-Quiet g env k w fs (result_status v) none)
    conclude_lem message payload taken (raise (unretryable error)) h =
        unfold conclude in then_ack g env _ (dead_letter_lem g env message (some payload) error)
    conclude_lem message payload taken (raise cancelled) h =
        unfold conclude in Triple-throw _ (λ s q. q.unsettled)
    conclude_lem message payload taken (raise (other error)) h =
        unfold conclude in
        then_ack g env _ (retry_or_dead_letter_lem g env message payload error taken)

    run_lem :
        (payload : Fields)
        → Triple
            (On Fresh)
            (run_handler g env payload)
            (λ v s. Quiet s.trace × (payload ≢ end))
            (λ _. On Quiet)
    run_lem payload =
        unfold run_handler in
        Triple-bind (lift (get_of "trace_id" (or_empty (get "metadata" payload)))) _ (λ _. On Fresh)
          (Triple-lift _ (λ a e s p. p) (λ a e s p. p.quiet))
          (λ _.
            Triple-bind (note g env _) _ (λ _. On Quiet)
              (note_lem g env _ Fresh Quiet (λ t q. ground arith))
              (λ _.
                Triple-lift (env.handler payload)
                  (λ a e s p. (p, λ empty. refuses a (rw (← empty) e))) (λ a e s p. p)))

    run_attempt_lem :
        (payload : Fields)
        → Triple
            (On Fresh)
            (run_handler g env payload)
            (λ v. Ran payload (ok v))
            (λ e. Ran payload (raise e))
    run_attempt_lem payload = record { at = λ s p. go _ _ ((run_lem payload).at s p) }
      where
        go :
            (r : Outcome Error Value) (s : World g.State)
            → Post (λ v s. Quiet s.trace × (payload ≢ end)) (λ _. On Quiet) r s
            → Post (λ v. Ran payload (ok v)) (λ e. Ran payload (raise e)) r s
        go (ok v) s q = (q.0, λ w e. q.1)
        go (raise x) s q = (q, λ w e. cc)

    process_lem :
        (message : Message) (payload : Fields)
        → Triple
            (On Fresh)
            (process g env message payload)
            (λ _. On SettledOnce)
            (λ _. On Unsettled)
    unfolding process
    process_lem message payload =
        Triple-bind (lift _) _ (λ _. On Fresh)
          (Triple-lift _ (λ a e s p. p) (λ a e s p. p.quiet.unsettled))
          (λ taken.
            Triple-bind (admitted g env payload taken) _ (λ _. On Fresh)
              (admitted_lem payload taken)
              (λ first.
                Triple-if first _ _
                  (λ _.
                    Triple-bind (attempt (run_handler g env payload)) _ (Ran payload)
                      (Triple-attempt (run_handler g env payload) (run_attempt_lem payload))
                      (λ r. record {
                        at = λ s q. (conclude_lem message payload taken r q.1).at s q.0;
                      }))
                  (λ _. duplicate_lem)))

    dispatch_lem :
        (message : Message) (payload : Value)
        → Triple
            (On Fresh)
            (dispatch g env message payload)
            (λ _. On SettledOnce)
            (λ _. On Unsettled)
    dispatch_lem message (obj payload) = process_lem message payload
    dispatch_lem message _ = Triple-throw _ (λ s q. q.quiet.unsettled)

    handle_delivery_lem :
        (message : Message)
        → Triple
            (On Fresh)
            (handle_delivery g env message)
            (λ _. On SettledOnce)
            (λ _. On SettledOnce)
    handle_delivery_lem message = unfold handle_delivery in go (env.loads message.body)
      where
        go :
            (r : Outcome String Value)
            → Triple
                (On Fresh)
                (elim r [
                  | raise error ↦ catch (unparsed g env message error) (last_resort g env null)
                  | ok payload ↦ catch (dispatch g env message payload) (last_resort g env payload)
                ])
                (λ _. On SettledOnce)
                (λ _. On SettledOnce)
        go (raise error) =
            Triple-catch _ _ (λ _. On Unsettled)
              (record {
                at = λ s p. (then_ack g env _ (dead_letter_lem g env message none _)).at s p.quiet;
              })
              (last_resort_lem null)
        go (ok payload) =
            Triple-catch _ _ (λ _. On Unsettled) (dispatch_lem message payload)
              (last_resort_lem payload)

    -- Whatever the guard, the handler, the message and the faults of the broker: handling a
    -- delivery runs the handler at most once, forwards it (to a retry tier or to the dead-letter
    -- exchange) at most once, reports at most one result, and acks or requeues it at most once;
    -- and it acks only a delivery that was forwarded, reported or found to be a duplicate. The
    -- handler must not succeed on an empty envelope.
    pub handle_delivery-SettledOnce :
        (message : Message) (s : World g.State)
        → s.trace ≡ []
        → SettledOnce (handle_delivery g env message s).1.trace
    handle_delivery-SettledOnce message s e =
        either _ _ ((handle_delivery_lem message).at s (rw e (ground arith)))
      where
        either :
            (r : Outcome Error Unit) (s : World g.State)
            → Post (λ _. On SettledOnce) (λ _. On SettledOnce) r s
            → SettledOnce s.trace
        either (ok a) s q = q
        either (raise e) s q = q
