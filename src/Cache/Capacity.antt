-- ===== src/Cache/Capacity.antt =====
-- The sizes of the cache and the keys of its entries, over any calls.
use concept_microservice.Prelude.{
  ℕ, ℤ, ◌+◌, ◌≤◌, max, String, false, ◌≡◌, refl, Option, none, some, List, [], ◌∷◌, arith, length,
  lookup, without, lookup-without, length-append, length-without, length-without-some, Distinct,
  Distinct-without, Distinct-concat, eq_iff, inl, inr, Option-cases, leb, Bool-cases,
}
use concept_microservice.Cache.{
  Entry, Cache, init, expired, move_to_end, get, set, delete, clear, evict,
}

pub record IsValid {V : Type 0} (c : Cache V) : Type 0 where
  pub positive : 1 ≤ c.max_size
  pub bounded : length c.entries ≤ c.max_size
  pub distinct : Distinct c.entries

room_lt : (m n : ℕ) → leb m n ≡ false → n + 1 ≤ m
room_lt m n h = ground arith

module _ {V : Type 0} where
  pub init-IsValid : (max_size : ℤ) (ttl : Option ℕ) → IsValid (init {V = V} max_size ttl)
  unfolding init
  init-IsValid max_size ttl = record {
    positive = omega arith;
    bounded = omega arith;
    distinct = tt;
  }

  Distinct-move_to_end :
      (k : String) (e : Entry V) (m : List (String × Entry V))
      → Distinct m
      → Distinct (move_to_end k e m)
  unfolding move_to_end
  Distinct-move_to_end k e m d =
      Distinct-concat k e (without k m) (ground (arith, lookup-without k k m, eq_iff k k))
        (Distinct-without k m d)

  length-move_to_end :
      (k : String) (e old : Entry V) (m : List (String × Entry V))
      → lookup k m ≡ some old
      → length (move_to_end k e m) ≤ length m
  unfolding move_to_end
  length-move_to_end k e old m h =
      omega (arith, length-append (without k m) ((k, e) ∷ []), length-without-some k old m h)

  Distinct-evict : (m : List (String × Entry V)) → Distinct m → Distinct (evict m)
  Distinct-evict [] d = tt
  Distinct-evict (e ∷ m) d = d.1

  pub lookup-evict-none :
      (k : String) (m : List (String × Entry V)) → lookup k m ≡ none → lookup k (evict m) ≡ none
  unfolding lookup
  lookup-evict-none k [] h = refl
  lookup-evict-none k (e ∷ m) h = ground arith

  length-evict : (m : List (String × Entry V)) → length (evict m) + 1 ≤ max 1 (length m)
  length-evict [] = omega arith
  length-evict (e ∷ m) = omega arith

  get-IsValid :
      (c : Cache V) (key : String) (default : V) (now : ℕ)
      → IsValid c
      → IsValid (get key default now c).1
  unfolding get
  get-IsValid c key default now v = elim (Option-cases (lookup key c.entries)) [
    | inl miss ↦
        rw (miss, get)
          (record { positive = v.positive; bounded = v.bounded; distinct = v.distinct })
    | inr (e, hit) ↦ elim (Bool-cases (expired c.ttl now e)) [
      | inl old ↦
          rw (hit, get)
            (rw old (record {
              positive = v.positive;
              bounded = omega (arith, v.bounded, length-without key c.entries);
              distinct = Distinct-without key c.entries v.distinct;
            }))
      | inr young ↦
          rw (hit, get)
            (rw young (record {
              positive = v.positive;
              bounded = omega (arith, v.bounded, length-move_to_end key e e c.entries hit);
              distinct = Distinct-move_to_end key e c.entries v.distinct;
            }))
    ]
  ]

  set-IsValid :
      (c : Cache V) (key : String) (value : V) (now : ℕ) → IsValid c → IsValid (set key value now c)
  unfolding set
  set-IsValid c key value now v =
      let entry : Entry V = record { value = value; timestamp = now } in
      elim (Option-cases (lookup key c.entries)) [
        | inr (e, hit) ↦
            rw (hit, set)
              (record {
                positive = v.positive;
                bounded = omega (arith, v.bounded, length-move_to_end key entry e c.entries hit);
                distinct = Distinct-move_to_end key entry c.entries v.distinct;
              })
        | inl miss ↦ elim (Bool-cases (leb c.max_size (length c.entries))) [
          | inl full ↦
              rw (miss, set)
                (rw full (record {
                  positive = v.positive;
                  bounded = omega (
                    arith,
                    v.bounded,
                    v.positive,
                    length-evict c.entries,
                    length-append (evict c.entries) ((key, entry) ∷ []),
                  );
                  distinct =
                      Distinct-concat key entry (evict c.entries)
                        (lookup-evict-none key c.entries miss)
                        (Distinct-evict c.entries v.distinct);
                }))
          | inr room ↦
              rw (miss, set)
                (rw room (record {
                  positive = v.positive;
                  bounded = omega (
                    arith,
                    room_lt c.max_size (length c.entries) room,
                    length-append c.entries ((key, entry) ∷ []),
                  );
                  distinct = Distinct-concat key entry c.entries miss v.distinct;
                }))
        ]
      ]

  delete-IsValid : (c : Cache V) (key : String) → IsValid c → IsValid (delete key c).1
  unfolding delete
  delete-IsValid c key v = elim (Option-cases (lookup key c.entries)) [
    | inl miss ↦ rw (miss, delete) v
    | inr (e, hit) ↦
        rw (hit, delete)
          (record {
            positive = v.positive;
            bounded = omega (arith, v.bounded, length-without key c.entries);
            distinct = Distinct-without key c.entries v.distinct;
          })
  ]

  clear-IsValid : (c : Cache V) → IsValid c → IsValid (clear c)
  unfolding clear
  clear-IsValid c v = record { positive = v.positive; bounded = omega arith; distinct = tt }

-- the calls of a client, each with its time
pub data Call (V : Type 0) : Type 0 where
  reads : String → V → ℕ → Call V
  writes : String → V → ℕ → Call V
  deletes : String → Call V
  clears : Call V

module _ {V : Type 0} where
  pub apply : Call V → Cache V → Cache V
  apply (reads key default now) c = (get key default now c).1
  apply (writes key value now) c = set key value now c
  apply (deletes key) c = (delete key c).1
  apply clears c = clear c

  pub run : List (Call V) → Cache V → Cache V
  run [] c = c
  run (call ∷ calls) c = run calls (apply call c)

  apply-IsValid : (call : Call V) (c : Cache V) → IsValid c → IsValid (apply call c)
  unfolding apply
  apply-IsValid (reads key default now) c v = get-IsValid c key default now v
  apply-IsValid (writes key value now) c v = set-IsValid c key value now v
  apply-IsValid (deletes key) c v = delete-IsValid c key v
  apply-IsValid clears c v = clear-IsValid c v

  IsValid-run : (calls : List (Call V)) (c : Cache V) → IsValid c → IsValid (run calls c)
  unfolding run
  IsValid-run [] c v = v
  IsValid-run (call ∷ calls) c v = IsValid-run calls (apply call c) (apply-IsValid call c v)

  -- After any calls on a new cache, whatever its configured size, the cache holds no more entries
  -- than its limit, the limit is at least one, and no key stands twice.
  pub run-IsValid :
      (max_size : ℤ) (ttl : Option ℕ) (calls : List (Call V))
      → IsValid (run calls (init max_size ttl))
  run-IsValid max_size ttl calls = IsValid-run calls _ (init-IsValid max_size ttl)
