-- ===== src/Worker/Consumer/Tally.antt =====
-- How often each kind of event stands in the trace of a delivery.
use concept_microservice.Prelude.{ℕ, suc, Bool, true, false, List, [], ◌∷◌, str_eq, if◌then◌else◌}
use concept_microservice.Worker.Consumer.{
  Event, handled, retried, dead_lettered, reported, acked, requeued, counted,
}

abbrev pub count_if : (Event → Bool) → List Event → ℕ
count_if p [] = 0
count_if p (e ∷ t) = if p e then suc (count_if p t) else count_if p t

abbrev is_handled : Event → Bool
is_handled (handled _) = true
is_handled _ = false

abbrev is_forwarded : Event → Bool
is_forwarded (retried _ _) = true
is_forwarded (dead_lettered _) = true
is_forwarded _ = false

abbrev is_reported : Event → Bool
is_reported (reported _) = true
is_reported _ = false

abbrev is_acked : Event → Bool
is_acked acked = true
is_acked _ = false

abbrev is_requeued : Event → Bool
is_requeued requeued = true
is_requeued _ = false

abbrev is_duplicate : Event → Bool
is_duplicate (counted name) = str_eq name "record_duplicate"
is_duplicate _ = false

-- runs of the handler; publishes to the retry or the dead-letter exchange; publishes of a
-- task.result; acks; requeues; deliveries that were found to be duplicates
abbrev pub runs : List Event → ℕ
runs = count_if is_handled

abbrev pub forwards : List Event → ℕ
forwards = count_if is_forwarded

abbrev pub reports : List Event → ℕ
reports = count_if is_reported

abbrev pub acks : List Event → ℕ
acks = count_if is_acked

abbrev pub requeues : List Event → ℕ
requeues = count_if is_requeued

abbrev pub duplicates : List Event → ℕ
duplicates = count_if is_duplicate
