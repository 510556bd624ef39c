-- ===== src/Worker/Retry/Counts.antt =====
-- The retry count against a plain reading of the x-death header, and the choice of a tier.
use package.text.Mathlib.Text.{starts_with}
use concept_microservice.Prelude.{
  ℕ, zero, suc, pos, negsuc, ◌+ℤ◌, ◌+◌, ◌≤◌, ◌<◌, String, ◌≡◌, ◌≢◌, refl, ◌↔◌, none, some, List, [],
  ◌∷◌, arith, get_elem?, if◌then◌else◌, ap, ◌∙◌,
}
use concept_microservice.Prelude.Effect.{ok}
use concept_microservice.Values.{
  Value, Items, Fields, int, str, arr, obj, nil, cons, end, field, get, find,
}
use concept_microservice.Worker.Retry.{
  Converted, retry_tiers, select_tier, count_entry, count_entries, death_count,
}

-- An entry of the x-death header: a table that has a queue and a count among its fields.
pub record Death : Type 0 where
  pub fields : Fields
  pub queue : String
  pub count : ℕ
  pub names_queue : get "queue" fields ≡ str queue
  pub has_count : find "count" fields ≡ some (int (pos count))

abbrev pub entries : List Death → Items
entries [] = nil
entries (d ∷ ds) = cons (obj d.fields) (entries ds)

-- the retries taken: the counts of the entries for wait-queues
abbrev pub taken : String → List Death → ℕ
taken queue_prefix [] = 0
taken queue_prefix (d ∷ ds) =
    (if starts_with d.queue queue_prefix then d.count else 0) + taken queue_prefix ds

no_header : (xs : Items) → get "x-death" end ≢ arr xs
unfolding get find
no_header xs h = cc

module _ {E : Type 0} (parse : Value → Converted) (overflow_error : E) (queue_prefix : String) where
  count_entry-entry :
      (total : ℕ) (d : Death)
      → count_entry parse overflow_error queue_prefix (pos total) (obj d.fields)
        ≡ ok (pos (total + (if starts_with d.queue queue_prefix then d.count else 0)))
  unfolding count_entry ◌+ℤ◌
  count_entry-entry total d = rw (d.names_queue, d.has_count) (ground arith)

  count_entries-taken :
      (ds : List Death) (total : ℕ)
      → count_entries parse overflow_error queue_prefix (pos total) (entries ds)
        ≡ ok (pos (total + taken queue_prefix ds))
  unfolding count_entries
  count_entries-taken [] total = ap (λ n. ok (pos n)) (omega arith)
  count_entries-taken (d ∷ ds) total =
      rw (count_entry-entry total d, count_entries)
        (count_entries-taken ds _ ∙ ap (λ n. ok (pos n)) (omega arith))

  -- If the x-death header is a list of tables, each with a text for its queue and a whole number
  -- that is not negative for its count, whatever else they and the headers hold, `death_count` is
  -- the sum of the counts of those whose queue has the prefix of the wait-queues, and raises
  -- nothing.
  pub death_count-taken :
      (headers : Fields) (ds : List Death)
      → get "x-death" headers ≡ arr (entries ds)
      → death_count parse overflow_error (some headers) queue_prefix
        ≡ ok (pos (taken queue_prefix ds))
  unfolding death_count
  death_count-taken end ds h = absurd (no_header (entries ds) h)
  death_count-taken (field k v fs) ds h =
      rw h (count_entries-taken ds 0 ∙ ap (λ n. ok (pos n)) (omega arith))

-- A tier is chosen exactly while fewer than three retries were taken; a negative count, which a
-- forged header can give, counts as none.
pub select_tier_lem :
    (n : ℕ)
    → ((select_tier (pos n) ≡ none) ↔ (3 ≤ n))
      × (select_tier (negsuc n) ≡ some "5s")
      × (n < 3 → select_tier (pos n) ≡ get_elem? retry_tiers n)
unfolding select_tier
select_tier_lem zero = (ground arith, refl, λ h. refl)
select_tier_lem (suc zero) = (ground arith, refl, λ h. refl)
select_tier_lem (suc (suc zero)) = (ground arith, refl, λ h. refl)
select_tier_lem (suc (suc (suc n))) = (ground arith, ground arith, λ h. absurd (omega arith))
