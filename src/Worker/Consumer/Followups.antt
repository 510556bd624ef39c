-- ===== src/Worker/Consumer/Followups.antt =====
-- The stages of a delivery's trace, and what the publishes and the ack of worker/consumer.py make of
-- them.
use concept_microservice.Prelude.{
  ℤ, ◌+◌, ◌≤◌, String, ◌≡◌, Option, none, some, List, [], ◌∷◌, arith,
}
use concept_microservice.Prelude.Effect.{lift, ◌>>◌}
use concept_microservice.Prelude.Triple.{Post, Triple, Triple-pure, Triple-lift, Triple-bind}
use concept_microservice.Values.{Value, Fields, end, field, get}
use concept_microservice.Worker.Retry.{select_tier}
use concept_microservice.Worker.Guard.{Guard}
use concept_microservice.Worker.Consumer.{
  Error, Message, TaskResult, Event, reported, acked, World, Env, Action, get_of, or_empty, call,
  note, publish_result, report_failure, dead_letter, publish_retry, retry_or_dead_letter,
}
use concept_microservice.Worker.Consumer.Tally.{runs, forwards, reports, acks, requeues, duplicates}

-- Nothing is settled yet.
pub record Unsettled (t : List Event) : Type 0 where
  pub ran : runs t ≤ 1
  pub forwarded : forwards t ≤ 1
  pub reported_once : reports t ≤ 1
  pub unacked : acks t ≡ 0
  pub unrequeued : requeues t ≡ 0

-- The handler has not run, or it has and nothing was published.
pub record Quiet (t : List Event) : Type 0 where
  pub unsettled : Unsettled t
  pub unforwarded : forwards t ≡ 0
  pub unreported : reports t ≡ 0

pub record Fresh (t : List Event) : Type 0 where
  pub quiet : Quiet t
  pub idle : runs t ≡ 0

pub record Forwarded (t : List Event) : Type 0 where
  pub unsettled : Unsettled t
  pub sent : forwards t ≡ 1
  pub unreported : reports t ≡ 0

-- A follow-up is in the trace, or the delivery is a duplicate that did not run.
pub record Ready (t : List Event) : Type 0 where
  pub unsettled : Unsettled t
  pub followed : 1 ≤ forwards t + reports t + duplicates t

pub record SettledOnce (t : List Event) : Type 0 where
  pub one_run : runs t ≤ 1
  pub one_forward : forwards t ≤ 1
  pub one_report : reports t ≤ 1
  pub one_end : acks t + requeues t ≤ 1
  pub ack_follows : acks t ≤ forwards t + reports t + duplicates t

module _ (g : Guard Error) (env : Env) where
  abbrev pub On : (List Event → Type 0) → World g.State → Type 0
  On P s = P s.trace

  pub call_lem :
      (e : Event) (P Q X : List Event → Type 0)
      → ((t : List Event) → P t → Q (e ∷ t))
      → ((t : List Event) → P t → X t)
      → Triple (On P) (call g env e) (λ _. On Q) (λ _. On X)
  unfolding call
  call_lem e P Q X h k = record { at = λ s p. go s s.faults p }
    where
      go :
          (s : World g.State) (faults : List (Option Error))
          → P s.trace
          → Post
              (λ _. On Q)
              (λ _. On X)
              (call g env e (record s { faults = faults })).0
              (call g env e (record s { faults = faults })).1
      go s [] p = h s.trace p
      go s (none ∷ fs) p = h s.trace p
      go s (some x ∷ fs) p = k s.trace p

  pub ack_lem : Triple (On Ready) (call g env acked) (λ _. On SettledOnce) (λ _. On Unsettled)
  ack_lem = call_lem acked Ready SettledOnce Unsettled (λ t h. ground arith) (λ t h. h.unsettled)

  pub note_lem :
      (e : Event) (P Q : List Event → Type 0) {X : Error → World g.State → Type 0}
      → ((t : List Event) → P t → Q (e ∷ t))
      → Triple (On P) (note g env e) (λ _. On Q) X
  note_lem e P Q h = record { at = λ s p. h s.trace p }

  pub report_lem :
      (k : String) (v : Value) (payload : Fields) (status : String) (error : Option String)
      (P : List Event → Type 0)
      → ((t : List Event) (r : TaskResult) → P t → Ready (reported r ∷ t))
      → ((t : List Event) → P t → Unsettled t)
      → Triple
          (On P)
          (publish_result g env (field k v payload) status error)
          (λ _. On Ready)
          (λ _. On Unsettled)
  unfolding publish_result
  report_lem k v payload status error P h u =
      Triple-bind (lift (get_of "document_id" (or_empty (get "payload" (field k v payload))))) _
        (λ _. On P) (Triple-lift _ (λ a e s p. p) (λ a e s p. u s.trace p))
        (λ a. call_lem _ P Ready Unsettled (λ t p. h t _ p) u)

  pub report-Quiet :
      (k : String) (v : Value) (payload : Fields) (status : String) (error : Option String)
      → Triple
          (On Quiet)
          (publish_result g env (field k v payload) status error)
          (λ _. On Ready)
          (λ _. On Unsettled)
  report-Quiet k v payload status error =
      report_lem k v payload status error Quiet (λ t r q. ground arith) (λ t q. q.unsettled)

  pub report-Forwarded :
      (payload : Fields) (status : String) (error : Option String)
      → Triple
          (On Forwarded)
          (publish_result g env payload status error)
          (λ _. On Ready)
          (λ _. On Unsettled)
  unfolding publish_result
  report-Forwarded end status error = Triple-pure tt (λ s p. ground arith)
  report-Forwarded (field k v payload) status error =
      report_lem k v payload status error Forwarded (λ t r q. ground arith) (λ t q. q.unsettled)

  pub dead_letter_lem :
      (message : Message) (payload : Option Fields) (error : String)
      → Triple
          (On Quiet)
          (dead_letter g env message payload error)
          (λ _. On Ready)
          (λ _. On Unsettled)
  dead_letter_lem message payload error =
      unfold dead_letter in
      Triple-bind (call g env _) _ (λ _. On Forwarded)
        (call_lem _ Quiet Forwarded Unsettled (λ t q. ground arith) (λ t q. q.unsettled))
        (λ _.
          Triple-bind (note g env _) _ (λ _. On Forwarded)
            (note_lem _ Forwarded Forwarded (λ t q. ground arith)) (λ _. report payload))
    where
      report :
          (payload : Option Fields)
          → Triple
              (On Forwarded)
              (report_failure g env payload error)
              (λ _. On Ready)
              (λ _. On Unsettled)
      report none = Triple-pure tt (λ s q. ground arith)
      report (some fs) = report-Forwarded fs "failed" (some error)

  pub retry_lem :
      (message : Message) (tier : String)
      → Triple (On Quiet) (publish_retry g env message tier) (λ _. On Ready) (λ _. On Unsettled)
  retry_lem message tier =
      unfold publish_retry in
      Triple-bind (call g env _) _ (λ _. On Ready)
        (call_lem _ Quiet Ready Unsettled (λ t q. ground arith) (λ t q. q.unsettled))
        (λ _. note_lem _ Ready Ready (λ t q. ground arith))

  pub retry_or_dead_letter_lem :
      (message : Message) (payload : Fields) (error : String) (taken : ℤ)
      → Triple
          (On Quiet)
          (retry_or_dead_letter g env message payload error taken)
          (λ _. On Ready)
          (λ _. On Unsettled)
  retry_or_dead_letter_lem message payload error taken =
      unfold retry_or_dead_letter in go (select_tier taken)
    where
      go :
          (tier : Option String)
          → Triple
              (On Quiet)
              (elim tier [
                | none ↦ dead_letter g env message (some payload) error
                | some name ↦ publish_retry g env message name
              ])
              (λ _. On Ready)
              (λ _. On Unsettled)
      go none = dead_letter_lem message (some payload) error
      go (some tier) = retry_lem message tier

  pub then_ack :
      (m : Action g env Unit)
      → Triple (On Quiet) m (λ _. On Ready) (λ _. On Unsettled)
      → Triple (On Quiet) (m >> call g env acked) (λ _. On SettledOnce) (λ _. On Unsettled)
  then_ack m h = Triple-bind m _ (λ _. On Ready) h (λ _. ack_lem)
