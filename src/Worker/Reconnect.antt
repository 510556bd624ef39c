-- ===== src/Worker/Reconnect.antt =====
-- `consume` of graph-worker/graphrag-service/src/worker/consumer.py: the reconnect loop. A round is
-- what one pass of the `while` loop meets; the result is what the loop sleeps and how it ends.
use native.Mathlib.Nat.{add-zero, pow-suc}
use concept_microservice.Prelude.{
  ℕ, zero, suc, ◌+◌, ◌*◌, ◌^◌, ◌≤◌, min, ◌≡◌, refl, Bool, true, false, List, [], ◌∷◌, ◌++◌, arith,
  All, ◌↔◌, ◌≢◌, length,
}

abbrev pub initial_backoff_seconds : ℕ
initial_backoff_seconds = 1

abbrev pub max_backoff_seconds : ℕ
max_backoff_seconds = 30

-- How the work of a round stops: `drained` is a `break` on shutdown or the end of the iterator;
-- `transient` a TopologyMissingError, AMQPError or OSError; the others leave the loop.
pub data Stop : Type 0 where
  drained : Stop
  transient : Stop
  cancelled : Stop
  fatal : Stop

-- Each round has the flag `_shutdown` as the `except` clause reads it.
pub data Round : Type 0 where
  refused : Stop → Bool → Round
  connected : Stop → Bool → Round
  -- the test of the `while` finds `_shutdown` set
  shut_down : Round

pub data End : Type 0 where
  returned : End
  raised : Stop → End
  running : End

pub record Consumed : Type 0 where
  pub sleeps : List ℕ
  pub ended : End

abbrev quit : End → Consumed
quit e = record { sleeps = []; ended = e }

abbrev slept : ℕ → Consumed → Consumed
slept n c = record { sleeps = n ∷ c.sleeps; ended = c.ended }

-- the `except` clauses, with the rest of the loop at the next backoff
abbrev settle : Stop → Bool → ℕ → Consumed → Consumed
settle drained shutdown backoff rest = quit returned
settle transient true backoff rest = quit returned
settle transient false backoff rest = slept backoff rest
settle cancelled shutdown backoff rest = quit (raised cancelled)
settle fatal shutdown backoff rest = quit (raised fatal)

abbrev doubled : ℕ → ℕ
doubled backoff = min (backoff * 2) max_backoff_seconds

-- `refused drained` does not occur: a failed connect raises.
unfoldable pub consume : ℕ → List Round → Consumed
consume backoff [] = quit running
consume backoff (refused stop shutdown ∷ rounds) =
    settle stop shutdown backoff (consume (doubled backoff) rounds)
consume backoff (connected stop shutdown ∷ rounds) =
    settle stop shutdown initial_backoff_seconds (consume (doubled initial_backoff_seconds) rounds)
consume backoff (shut_down ∷ rounds) = quit returned

abbrev InRange : ℕ → Type 0
InRange b = (1 ≤ b) × (b ≤ 30)

-- the rounds before the first that is no transient failure, or has `_shutdown` set
abbrev pub outages : List Round → ℕ
outages (refused transient false ∷ rounds) = suc (outages rounds)
outages (connected transient false ∷ rounds) = suc (outages rounds)
outages rounds = 0

-- What the sleeps and the end are over `rounds`, of which the loop sees the outages and one more.
abbrev pub Recovers : List Round → Consumed → Type 0
Recovers rounds c =
    All (λ n. (1 ≤ n) × (n ≤ 30)) c.sleeps
    × (length c.sleeps ≡ outages rounds)
    × (c.ended ≢ raised transient)
    × ((c.ended ≡ running) ↔ (outages rounds ≡ length rounds))

Recovers-slept :
    (b : ℕ) (rounds : List Round) (c : Consumed) (round : Round)
    → InRange b
    → outages (round ∷ rounds) ≡ suc (outages rounds)
    → Recovers rounds c
    → Recovers (round ∷ rounds) (slept b c)
Recovers-slept b rounds c round h e (bounds, number, other, end) =
    ((h, bounds), omega (arith, number, e), other, ground (arith, end, e))

-- Whatever the rounds, from a backoff between one second and thirty on, every sleep lies between
-- them; the loop sleeps once for each transient failure without shutdown before the first round
-- that is none, never raises such a failure, and has not ended exactly if all rounds are such.
pub consume_bounds :
    (backoff : ℕ) (rounds : List Round)
    → 1 ≤ backoff
    → backoff ≤ max_backoff_seconds
    → Recovers rounds (consume backoff rounds)
unfolding consume
consume_bounds b [] l u = (tt, refl, λ e. cc, ground arith)
consume_bounds b (shut_down ∷ rounds) l u = (tt, refl, λ e. cc, ground arith)
consume_bounds b (refused transient false ∷ rounds) l u =
    Recovers-slept b rounds _ (refused transient false) (l, u) refl
      (consume_bounds (doubled b) rounds (omega arith) (omega arith))
consume_bounds b (connected transient false ∷ rounds) l u =
    Recovers-slept 1 rounds _ (connected transient false) (omega arith, omega arith) refl
      (consume_bounds (doubled 1) rounds (omega arith) (omega arith))
consume_bounds b (refused transient true ∷ rounds) l u = (tt, refl, λ e. cc, ground arith)
consume_bounds b (refused drained shutdown ∷ rounds) l u = (tt, refl, λ e. cc, ground arith)
consume_bounds b (refused cancelled shutdown ∷ rounds) l u = (tt, refl, λ e. cc, ground arith)
consume_bounds b (refused fatal shutdown ∷ rounds) l u = (tt, refl, λ e. cc, ground arith)
consume_bounds b (connected transient true ∷ rounds) l u = (tt, refl, λ e. cc, ground arith)
consume_bounds b (connected drained shutdown ∷ rounds) l u = (tt, refl, λ e. cc, ground arith)
consume_bounds b (connected cancelled shutdown ∷ rounds) l u = (tt, refl, λ e. cc, ground arith)
consume_bounds b (connected fatal shutdown ∷ rounds) l u = (tt, refl, λ e. cc, ground arith)

-- `n` rounds in which the broker cannot be reached, before `rounds`
pub outage : ℕ → List Round → List Round
outage zero rounds = rounds
outage (suc n) rounds = refused transient false ∷ outage n rounds

-- 2^k, 2^(k+1), …, each capped
abbrev pub capped_powers : ℕ → ℕ → List ℕ
capped_powers k zero = []
capped_powers k (suc n) = min (2 ^ k) 30 ∷ capped_powers (suc k) n

outage_sleeps :
    (n k b : ℕ) (rounds : List Round)
    → b ≡ min (2 ^ k) 30
    → (consume b (outage n rounds)).sleeps
      ≡ capped_powers k n ++ (consume (min (2 ^ (k + n)) 30) rounds).sleeps
unfolding consume outage
outage_sleeps zero k b rounds e = rw (add-zero, ← e)
outage_sleeps (suc n) k b rounds e =
    let step = outage_sleeps n (suc k) (doubled b) rounds (omega (arith, pow-suc 2 k)) in
    let shifted : k + suc n ≡ suc k + n = omega arith in rw shifted (cc (e, step))

-- The k-th retry of an outage sleeps the smaller of 2^k and 30 seconds, counted from 0; and the
-- backoff starts again at one second once a connection is made.
pub consume-outage :
    (n : ℕ) (rounds : List Round)
    → (consume initial_backoff_seconds (outage n (connected transient false ∷ rounds))).sleeps
      ≡ capped_powers 0 n ++ 1 ∷ (consume 2 rounds).sleeps
unfolding consume
consume-outage n rounds = outage_sleeps n 0 1 (connected transient false ∷ rounds) refl
