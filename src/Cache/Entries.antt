-- ===== src/Cache/Entries.antt =====
-- What can be read after a call.
use concept_microservice.Prelude.{
  ℕ, ◌+◌, String, Bool, false, ◌≡◌, refl, Option, none, some, List, [], ◌∷◌, arith, length, lookup,
  without, lookup-without, lookup-concat, str_eq, eq_iff, if◌then◌else◌, leb, Distinct,
}
use concept_microservice.Cache.{Entry, Cache, expired, move_to_end, get, set, evict}

abbrev pub is_key : String → Option String → Bool
is_key j none = false
is_key j (some k) = str_eq k j

module _ {V : Type 0} where
  lookup-move_to_end :
      (k j : String) (e : Entry V) (m : List (String × Entry V))
      → lookup j (move_to_end k e m) ≡ (if str_eq k j then some e else lookup j m)
  unfolding move_to_end
  lookup-move_to_end k j e m =
      ground (arith, lookup-concat k j e (without k m), lookup-without k j m)

  -- A read of a key that is there answers with the stored value if it has not expired, else with
  -- the default. One of the counters goes up by one; afterwards the key is there exactly if it was
  -- a hit, with its old time; and the entry of no other key changes.
  pub get_lem :
      (c : Cache V) (key : String) (default : V) (now : ℕ) (e : Entry V)
      → lookup key c.entries ≡ some e
      → ((get key default now c).0 ≡ (if expired c.ttl now e then default else e.value))
        × ((get key default now c).1.hits + (get key default now c).1.misses
            ≡ c.hits + c.misses + 1)
        × ((j : String)
            → lookup j (get key default now c).1.entries ≡ (
                if str_eq key j
                then (if expired c.ttl now e then none else some e)
                else lookup j c.entries))
  unfolding get
  get_lem c key default now e h = (
    ground arith,
    ground arith,
    λ j. ground (arith, lookup-move_to_end key j e c.entries, lookup-without key j c.entries),
  )

  abbrev first_key : List (String × Entry V) → Option String
  first_key [] = none
  first_key (e ∷ rest) = some e.0

  -- the key that a write puts out: the least recently used, if the key is new and the cache full
  unfoldable pub victim : Cache V → String → Option String
  victim c key = elim (lookup key c.entries) [
    | some old ↦ none
    | none ↦ if leb c.max_size (length c.entries) then first_key c.entries else none
  ]

  lookup-evict :
      (j : String) (m : List (String × Entry V))
      → Distinct m
      → lookup j (evict m) ≡ (if is_key j (first_key m) then none else lookup j m)
  unfolding lookup
  lookup-evict j [] d = refl
  lookup-evict j ((k, e) ∷ m) d = ground (arith, eq_iff k j)

  -- What a write leaves: the key holds the new value and time, the least recently used key is gone
  -- if the key is new and the cache full, and every other key has the entry that it had.
  pub lookup-set :
      (c : Cache V) (key j : String) (v : V) (now : ℕ)
      → Distinct c.entries
      → lookup j (set key v now c).entries ≡ (
          if str_eq key j
          then some (record { value = v; timestamp = now })
          else if is_key j (victim c key)
          then none
          else lookup j c.entries)
  unfolding set victim
  lookup-set c key j v now d =
      let entry : Entry V = record { value = v; timestamp = now } in
      ground (
        arith,
        lookup-move_to_end key j entry c.entries,
        lookup-concat key j entry c.entries,
        lookup-concat key j entry (evict c.entries),
        lookup-evict j c.entries d,
        eq_iff key j,
      )
