-- ===== src/Examples/Caching.antt =====
-- A cache of two entries, of lib/caching/lru_cache.py.
use concept_microservice.Prelude.{ℕ, pos, ◌≡◌, refl, none, some, List, [], ◌∷◌, lookup}
use concept_microservice.Cache.{Cache, init, set}
use concept_microservice.Cache.Capacity.{IsValid, Call, reads, writes, deletes, run, run-IsValid}
use concept_microservice.Cache.Entries.{lookup-set, victim}

abbrev calls : List (Call ℕ)
calls = writes "a" 1 0 ∷ writes "b" 2 1 ∷ reads "a" 0 2 ∷ writes "c" 3 3 ∷ deletes "b" ∷ []

run_example : IsValid (run calls (init (pos 2) (some 10)))
run_example = run-IsValid (pos 2) (some 10) calls

abbrev full_cache : Cache ℕ
full_cache = record {
  max_size = 2;
  ttl = some 10;
  entries =
      ("a", record { value = 1; timestamp = 0 }) ∷ ("b", record { value = 2; timestamp = 1 }) ∷ [];
  hits = 0;
  misses = 0;
}

evicted_example : lookup "a" (set "c" 3 2 full_cache).entries ≡ none
unfolding lookup victim
evicted_example = lookup-set full_cache "c" "a" 3 2 (refl, (refl, tt))
