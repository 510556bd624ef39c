-- ===== src/Values.antt =====
-- Python values as `json.loads` and the AMQP decoder give them to the worker
-- (graph-worker/graphrag-service/src/worker).
use concept_microservice.Prelude.{
  ℤ, pos, String, Bool, true, false, not, Option, none, some, ◌==◌, str_eq, if◌then◌else◌, ◌≡◌,
  refl,
}

-- `real m e` is the float m · 10^e. `bytes` holds the text that
-- `.decode("utf-8", errors="replace")` makes of it. A list or a tuple is `arr`.
mutual
  pub data Value : Type 0 where
    null : Value
    bool : Bool → Value
    int : ℤ → Value
    real : ℤ → ℤ → Value
    str : String → Value
    bytes : String → Value
    arr : Items → Value
    obj : Fields → Value

  pub data Fields : Type 0 where
    end : Fields
    field : String → Value → Fields → Fields

  pub data Items : Type 0 where
    nil : Items
    cons : Value → Items → Items

abbrev pub is_zero : ℤ → Bool
is_zero (pos n) = n == 0
is_zero _ = false

-- bool(v)
unfoldable pub truthy : Value → Bool
truthy null = false
truthy (bool b) = b
truthy (int n) = not (is_zero n)
truthy (real m e) = not (is_zero m)
truthy (str s) = not (str_eq s "")
truthy (bytes s) = not (str_eq s "")
truthy (arr nil) = false
truthy (arr (cons x xs)) = true
truthy (obj end) = false
truthy (obj (field k v fs)) = true

-- `k in d` and `d[k]`
unfoldable pub find : String → Fields → Option Value
find k end = none
find k (field j v fs) = if str_eq j k then some v else find k fs

abbrev pub or_null : Option Value → Value
or_null none = null
or_null (some v) = v

-- d.get(k)
unfoldable pub get : String → Fields → Value
unfolding find
get k fs = or_null (find k fs)

pub truthy-get-end : (k : String) → truthy (get k end) ≡ false
unfolding get truthy
truthy-get-end k = refl
