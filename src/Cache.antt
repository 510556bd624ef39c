-- ===== src/Cache.antt =====
-- graph-worker/graphrag-service/src/lib/caching/lru_cache.py. Times and the time-to-live are
-- natural numbers, the reading of the clock an argument. The entries of the OrderedDict stand with
-- the least recently used first. A method returns its result and the new cache.
pub mod Entries
pub mod Capacity
pub mod Memo
use concept_microservice.Prelude.{
  ℕ, suc, ℤ, ◌+◌, ◌*◌, max, pos_part, String, Bool, true, false, Option, none, some, List, [], ◌∷◌,
  ◌++◌, length, lookup, without, ltb, leb, if◌then◌else◌, ◌==◌,
}
use concept_microservice.Prelude.Effect.{Outcome, ok, raise}

pub record Entry (V : Type 0) : Type 0 where
  pub value : V
  pub timestamp : ℕ

pub record Cache (V : Type 0) : Type 0 where
  pub max_size : ℕ
  pub ttl : Option ℕ
  pub entries : List (String × Entry V)
  pub hits : ℕ
  pub misses : ℕ

-- what `stats` returns; the hit rate is the fraction `rate.0 / rate.1` of 100
pub record Stats : Type 0 where
  pub hit_count : ℕ
  pub miss_count : ℕ
  pub current_size : ℕ
  pub size_limit : ℕ
  pub rate : ℕ × ℕ
  pub time_to_live : Option ℕ

module _ {V : Type 0} where
  unfoldable pub init : ℤ → Option ℕ → Cache V
  init max_size ttl = record {
    max_size = max 1 (pos_part max_size);
    ttl = ttl;
    entries = [];
    hits = 0;
    misses = 0;
  }

  -- `self.ttl is not None` and `time.time() - entry["timestamp"] > self.ttl`
  unfoldable pub expired : Option ℕ → ℕ → Entry V → Bool
  expired none now entry = false
  expired (some ttl) now entry = ltb (entry.timestamp + ttl) now

  -- OrderedDict.move_to_end
  unfoldable pub move_to_end : String → Entry V → List (String × Entry V) → List (String × Entry V)
  move_to_end key entry entries = without key entries ++ (key, entry) ∷ []

  unfoldable pub get : String → V → ℕ → Cache V → V × Cache V
  get key default now c = elim (lookup key c.entries) [
    | none ↦ (default, record c { misses = c.misses + 1 })
    | some entry ↦
        if expired c.ttl now entry
        then (default, record c { entries = without key c.entries; misses = c.misses + 1 })
        else (
          entry.value,
          record c { entries = move_to_end key entry c.entries; hits = c.hits + 1 },
        )
  ]

  -- `del` of the first key
  abbrev pub evict : List (String × Entry V) → List (String × Entry V)
  evict [] = []
  evict (e ∷ rest) = rest

  unfoldable pub set : String → V → ℕ → Cache V → Cache V
  set key value now c =
      let entry : Entry V = record { value = value; timestamp = now } in
      elim (lookup key c.entries) [
        | some old ↦ record c { entries = move_to_end key entry c.entries }
        | none ↦ record c {
          entries =
              (if leb c.max_size (length c.entries) then evict c.entries else c.entries)
              ++ (key, entry) ∷ [];
        }
      ]

  unfoldable pub delete : String → Cache V → Bool × Cache V
  delete key c = elim (lookup key c.entries) [
    | none ↦ (false, c)
    | some entry ↦ (true, record c { entries = without key c.entries })
  ]

  unfoldable pub clear : Cache V → Cache V
  clear c = record c { entries = []; hits = 0; misses = 0 }

  abbrev pub size : Cache V → ℕ
  size c = length c.entries

  unfoldable pub stats : Cache V → Stats
  stats c =
      let total = c.hits + c.misses in
      record {
        hit_count = c.hits;
        miss_count = c.misses;
        current_size = size c;
        size_limit = c.max_size;
        rate = if ltb 0 total then (c.hits * 100, total) else (0, 1);
        time_to_live = c.ttl;
      }

-- The wrapper of `@cached`, for a function whose answer may be None (`none`). `key` is what the key
-- function gives, or raises; `call` what the wrapped function answers at this call. The last part
-- of the result says whether the function was called.
module _ {V : Type 0} where
  unfoldable pub cached_call :
      Outcome String String
      → Outcome String (Option V)
      → ℕ
      → ℕ
      → Cache (Option V)
      → Outcome String (Option V) × Cache (Option V) × Bool
  cached_call (raise e) call now later c = (call, c, true)
  cached_call (ok key) call now later c =
      let (cached_value, c') = get key none now c in
      elim cached_value [
        | some v ↦ (ok (some v), c', false)
        | none ↦ elim call [
          | raise e ↦ (raise e, c', true)
          | ok result ↦ (ok result, set key result later c', true)
        ]
      ]
