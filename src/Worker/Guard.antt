-- ===== src/Worker/Guard.antt =====
-- graph-worker/graphrag-service/src/worker/idempotency.py: the keys of the dedupe guard and its
-- two implementations. Seconds of the monotonic clock are natural numbers.
use Prim.Native.String.{◌++◌}
use concept_microservice.Prelude.{
  ℕ, ◌+◌, ◌*◌, String, Bool, true, false, Option, none, some, List, lookup, insert, ltb, str_eq,
  if◌then◌else◌,
}
use concept_microservice.Prelude.Effect.{Outcome, ok, raise}

abbrev pub default_ttl_seconds : ℕ
default_ttl_seconds = 24 * 60 * 60

unfoldable pub key_for : String → String → String
key_for queue envelope_id = "idem:" ++ (queue ++ (":" ++ envelope_id))

-- `attempt` is the text that `str` makes of the count.
unfoldable pub key_for_attempt : String → String → String → String
key_for_attempt queue envelope_id attempt = key_for queue envelope_id ++ (":" ++ attempt)

-- The seam of the consumer: `begin state now key ttl` is true for a key not seen before.
pub record Guard (E : Type 0) : Type 1 where
  pub State : Type 0
  pub begin : State → ℕ → String → ℕ → Outcome E Bool × State

-- `_seen`: the time at which a key expires
abbrev pub Seen : Type 0
Seen = List (String × ℕ)

-- whether `exp is not None and now < exp`
abbrev pub live : ℕ → Option ℕ → Bool
live now none = false
live now (some exp) = ltb now exp

module _ {E : Type 0} where
  -- InMemoryGuard.begin
  unfoldable pub in_memory_begin : Seen → ℕ → String → ℕ → Outcome E Bool × Seen
  in_memory_begin seen now key ttl_seconds = elim (live now (lookup key seen)) [
    | true ↦ (ok false, seen)
    | false ↦ (ok true, insert key (now + ttl_seconds) seen)
  ]

  abbrev pub in_memory_guard : Guard E
  in_memory_guard = record { State = Seen; begin = in_memory_begin }

  -- RedisGuard.begin: `set` is the client's `SET key 1 NX EX ttl`, which answers whether it
  -- created the key, or raises.
  module _ {R : Type 0} (set : R → ℕ → String → ℕ → Outcome E (Option (Unit {0})) × R) where
    abbrev as_bool : Outcome E (Option (Unit {0})) → Outcome E Bool
    as_bool (ok none) = ok false
    as_bool (ok (some created)) = ok true
    as_bool (raise e) = raise e

    unfoldable pub redis_begin : R → ℕ → String → ℕ → Outcome E Bool × R
    redis_begin client now key ttl_seconds =
        let (result, client') = set client now key ttl_seconds in (as_bool result, client')

    abbrev pub redis_guard : Guard E
    redis_guard = record { State = R; begin = redis_begin }

-- `build_guard` chooses by whether REDIS_ADDR is set and the client library can be imported.
pub data Backend : Type 0 where
  memory redis : Backend

unfoldable pub build_guard : Option String → Bool → Backend
build_guard none installed = memory
build_guard (some addr) installed =
    if str_eq addr "" then memory else if installed then redis else memory
