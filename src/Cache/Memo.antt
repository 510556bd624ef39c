-- ===== src/Cache/Memo.antt =====
-- The `@cached` wrapper, over calls of one key.
use concept_microservice.Prelude.{
  ℕ, ◌+◌, ◌≤◌, String, true, false, ◌≡◌, refl, Option, none, some, arith, lookup, lookup-without,
  lookup-concat, without, eq_iff, ◌∙◌,
}
use concept_microservice.Prelude.Effect.{Outcome, ok}
use concept_microservice.Cache.{Entry, Cache, expired, move_to_end, get, set, evict, cached_call}
use concept_microservice.Cache.Capacity.{lookup-evict-none}

module _ {V : Type 0} where
  -- what a write leaves at its key
  lookup-set_self :
      (c : Cache V) (key : String) (v : V) (now : ℕ)
      → lookup key (set key v now c).entries ≡ some (record { value = v; timestamp = now })
  unfolding set move_to_end
  lookup-set_self c key v now =
      let entry : Entry V = record { value = v; timestamp = now } in
      ground (
        arith,
        lookup-concat key key entry (without key c.entries),
        lookup-concat key key entry c.entries,
        lookup-concat key key entry (evict c.entries),
        lookup-without key key c.entries,
        lookup-evict-none key c.entries,
        eq_iff key key,
      )

  ttl-set : (c : Cache V) (key : String) (v : V) (now : ℕ) → (set key v now c).ttl ≡ c.ttl
  unfolding set
  ttl-set c key v now = ground arith

  ttl-get : (c : Cache V) (key : String) (d : V) (now : ℕ) → (get key d now c).1.ttl ≡ c.ttl
  unfolding get
  ttl-get c key d now = ground arith

-- whether a value written at `written` is fresh at `now`
abbrev pub Within : Option ℕ → ℕ → ℕ → Type 0
Within none written now = Unit
Within (some ttl) written now = now ≤ written + ttl

module _ {V : Type 0} where
  fresh_lem :
      (ttl : Option ℕ) (written now : ℕ) (v : V)
      → Within ttl written now
      → expired ttl now (record { value = v; timestamp = written }) ≡ false
  unfolding expired
  fresh_lem none written now v w = refl
  fresh_lem (some ttl) written now v w = ground arith

module _ {V : Type 0} where
  hit_lem :
      (c : Cache (Option V)) (key : String) (call : Outcome String (Option V)) (now later : ℕ)
      (v : V) (e : Entry (Option V))
      → lookup key c.entries ≡ some e
      → e.value ≡ some v
      → expired c.ttl now e ≡ false
      → ((cached_call (ok key) call now later c).0 ≡ ok (some v))
        × ((cached_call (ok key) call now later c).2 ≡ false)
  unfolding cached_call get
  hit_lem c key call now later v e found held young = ground arith

  miss_lem :
      (c : Cache (Option V)) (key : String) (r : Option V) (now later : ℕ)
      → (cached_call (ok key) (ok r) now later c).2 ≡ true
      → (cached_call (ok key) (ok r) now later c).1 ≡ set key r later (get key none now c).1
  unfolding cached_call
  miss_lem c key r now later called = ground arith

  none_lem :
      (c : Cache (Option V)) (key : String) (call : Outcome String (Option V)) (now later : ℕ)
      (e : Entry (Option V))
      → lookup key c.entries ≡ some e
      → e.value ≡ none
      → (cached_call (ok key) call now later c).2 ≡ true
  unfolding cached_call get
  none_lem c key call now later e found held = ground arith

  -- If the wrapped function was called and answered with a value, the next call with this key within
  -- the time-to-live answers with the same value, and does not call the function.
  pub cached_call_twice :
      (c : Cache (Option V)) (key : String) (v : V) (call : Outcome String (Option V))
      (now later now' later' : ℕ)
      → (cached_call (ok key) (ok (some v)) now later c).2 ≡ true
      → Within c.ttl later now'
      → let c' = (cached_call (ok key) (ok (some v)) now later c).1 in
        ((cached_call (ok key) call now' later' c').0 ≡ ok (some v))
        × ((cached_call (ok key) call now' later' c').2 ≡ false)
  cached_call_twice c key v call now later now' later' called within =
      rw (miss_lem c key (some v) now later called) (
        hit_lem (set key (some v) later d) key call now' later' v _
          (lookup-set_self d key (some v) later) refl
          (rw (ttl-set d key (some v) later ∙ ttl-get c key none now)
            (fresh_lem c.ttl later now' (some v) within)))
    where
      d : Cache (Option V)
      d = (get key none now c).1

  -- An answer None is not cached: after a call that answered None, the next call with this key
  -- calls the function again, at any time.
  pub none_not_cached :
      (c : Cache (Option V)) (key : String) (call : Outcome String (Option V))
      (now later now' later' : ℕ)
      → (cached_call (ok key) (ok none) now later c).2 ≡ true
      → (cached_call (ok key) call now' later' (cached_call (ok key) (ok none) now later c).1).2
        ≡ true
  none_not_cached c key call now later now' later' called =
      rw (miss_lem c key none now later called) (
        none_lem (set key none later d) key call now' later' _ (lookup-set_self d key none later)
          refl)
    where
      d : Cache (Option V)
      d = (get key none now c).1
