-- ===== src/Worker/Retry.antt =====
-- graph-worker/graphrag-service/src/worker/retry.py: the retry tiers and the count of the retries
-- that a message has taken.
pub mod Counts
use concept_microservice.Prelude.{
  ℕ, ℤ, pos, ◌+ℤ◌, String, Bool, true, false, Option, none, some, List, [], ◌∷◌, length, get_elem?,
  ltb_ℤ, leb_ℤ, pos_part, if◌then◌else◌,
}
use text.Mathlib.Text.{starts_with}
use concept_microservice.Prelude.Effect.{Outcome, ok, raise}
use concept_microservice.Values.{
  Value, Items, Fields, null, bool, int, str, bytes, arr, obj, nil, cons, end, find, get,
}

abbrev pub retry_tiers : List String
retry_tiers = "5s" ∷ "30s" ∷ "2m" ∷ []

abbrev pub max_retries : ℕ
max_retries = length retry_tiers

-- `RETRY_TIERS[i]` is read behind the two tests, so it is in range.
unfoldable pub select_tier : ℤ → Option String
select_tier death_count =
    let n = if ltb_ℤ death_count (pos 0) then pos 0 else death_count in
    if leb_ℤ (pos max_retries) n then none else get_elem? retry_tiers (pos_part n)

-- What `int(v)` does: a number, one of the two exceptions that are caught, or another one (an
-- infinite float raises OverflowError).
pub data Converted : Type 0 where
  value : ℤ → Converted
  rejected : Converted
  overflow : Converted

-- `queue.decode(...)` for bytes; `none` is what the test `isinstance(queue, str)` refuses
abbrev pub queue_name : Value → Option String
queue_name (str s) = some s
queue_name (bytes s) = some s
queue_name _ = none

abbrev pub or_zero : Option Value → Value
or_zero none = int (pos 0)
or_zero (some v) = v

-- `parse` is `int` at texts, bytes and floats.
module _ {E : Type 0} (parse : Value → Converted) (overflow_error : E) where
  unfoldable pub to_int : Value → Converted
  to_int (int n) = value n
  to_int (bool true) = value (pos 1)
  to_int (bool false) = value (pos 0)
  to_int null = rejected
  to_int (arr xs) = rejected
  to_int (obj fs) = rejected
  to_int v = parse v

  abbrev add_count : ℤ → Converted → Outcome E ℤ
  add_count total (value n) = ok (total +ℤ n)
  add_count total rejected = ok total
  add_count total overflow = raise overflow_error

  -- whether an entry is one of a wait-queue
  abbrev pub counts : String → Option String → Bool
  counts queue_prefix none = false
  counts queue_prefix (some queue) = starts_with queue queue_prefix

  -- the body of the loop
  unfoldable pub count_entry : String → ℤ → Value → Outcome E ℤ
  unfolding to_int
  count_entry queue_prefix total (obj entry) =
      if counts queue_prefix (queue_name (get "queue" entry))
      then add_count total (to_int (or_zero (find "count" entry)))
      else ok total
  count_entry queue_prefix total v = ok total

  unfoldable pub count_entries : String → ℤ → Items → Outcome E ℤ
  unfolding count_entry
  count_entries queue_prefix total nil = ok total
  count_entries queue_prefix total (cons entry rest) = elim (count_entry queue_prefix total entry) [
    | ok total' ↦ count_entries queue_prefix total' rest
    | raise e ↦ raise e
  ]

  abbrev count_deaths : String → Value → Outcome E ℤ
  count_deaths queue_prefix (arr entries) = count_entries queue_prefix (pos 0) entries
  count_deaths queue_prefix v = ok (pos 0)

  -- `if not headers` is the case of no field, which has no "x-death" either.
  unfoldable pub death_count : Option Fields → String → Outcome E ℤ
  unfolding count_entries
  death_count none queue_prefix = ok (pos 0)
  death_count (some end) queue_prefix = ok (pos 0)
  death_count (some headers) queue_prefix = count_deaths queue_prefix (get "x-death" headers)
