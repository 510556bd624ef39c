-- ===== src/Worker/Processor.antt =====
-- graph-worker/graphrag-service/src/worker/processor.py (validation and the run of one document)
-- and `_handle_message` of worker/base_worker.py.
pub mod Files
pub mod Results
use Prim.Native.String.{◌++◌}
use package.text.Mathlib.Text.{starts_with}
use concept_microservice.Prelude.{
  ℤ, String, Bool, true, false, ◌||◌, none, some, List, [], ◌∷◌, str_eq, if◌then◌else◌,
}
use concept_microservice.Prelude.Effect.{
  Outcome, ok, raise, Exec, pure, throw, lift, attempt, ◌>>=◌, ◌>>◌,
}
use concept_microservice.Values.{
  Value, Items, Fields, int, str, arr, obj, nil, cons, end, field, is_zero, find, get,
}
use concept_microservice.Worker.Consumer.{Error, unretryable, cancelled, other, get_of}

-- `k in d`
abbrev pub has_key : String → Fields → Bool
has_key k fs = elim (find k fs) [ none ↦ false | some v ↦ true ]

-- `t in s` for two texts
unfoldable pub contains : String → String → Bool
contains String.[] t = str_eq t ""
contains (String.◌∷◌ c s) t = starts_with (String.◌∷◌ c s) t || contains s t

abbrev is_text : String → Value → Bool
is_text t (str s) = str_eq s t
is_text t v = false

abbrev in_items : String → Items → Bool
in_items t nil = false
in_items t (cons v vs) = is_text t v || in_items t vs

-- `k in v` of what need not be a dict
unfoldable pub is_in : String → Value → Outcome Error Bool
unfolding contains
is_in k (obj fs) = ok (has_key k fs)
is_in k (str s) = ok (contains s k)
is_in k (arr xs) = ok (in_items k xs)
is_in k v = raise (other "TypeError")

-- `v[k]` for a text k
abbrev pub subscript : String → Value → Outcome Error Value
subscript k (obj fs) = elim (find k fs) [ none ↦ raise (other "KeyError") | some v ↦ ok v ]
subscript k v = raise (other "TypeError")

-- `all(field in v for field in fields)` stops at the first field that is absent.
abbrev all_after : Outcome Error Bool → Outcome Error Bool → Outcome Error Bool
all_after (ok true) rest = rest
all_after (ok false) rest = ok false
all_after (raise e) rest = raise e

abbrev all_in : List String → Value → Outcome Error Bool
all_in [] v = ok true
all_in (k ∷ ks) v = all_after (is_in k v) (all_in ks v)

abbrev pub required_fields : List String
required_fields = "id" ∷ "type" ∷ "payload" ∷ "timestamp" ∷ []

abbrev pub payload_required : List String
payload_required = "document_id" ∷ "storage_path" ∷ "storage_bucket" ∷ []

-- `validate`
unfoldable pub validate : Fields → Outcome Error Bool
unfolding is_in
validate message =
    all_after (all_in required_fields (obj message))
      (all_in payload_required (get "payload" message))

-- What a run calls and does not implement: the object store, the import of the pipelines, their
-- configuration and their runs, and the name of the next temporary file.
pub record Services : Type 0 where
  pub temp_name : Value → Outcome Error String
  pub fetch : Value → Value → String → Outcome Error (Unit {0})
  pub imported : Outcome Error (Unit {0})
  pub has_api_key : Bool
  pub configure : Value → Value → Outcome Error (Unit {0})
  pub ingestion : Outcome Error ℤ
  pub graphrag : Outcome Error ℤ

-- the temporary files on disk, the newest first
abbrev pub Files : Type 0
Files = List String

-- os.path.exists and os.remove
unfoldable pub remove : String → Files → Files
remove f [] = []
remove f (x ∷ xs) = if str_eq x f then xs else x ∷ remove f xs

abbrev pub Run : Type 0 → Type 0
Run A = Exec Files Error A

abbrev create : String → Run Unit
create name files = (ok tt, name ∷ files)

-- `_stub_result`
unfoldable pub stub_result : Value → String → Value
stub_result document_id reason = obj (
    field "status" (str "stubbed")
      (field "document_id" document_id (field "detail" (str reason) end)))

abbrev pub exit_status : ℤ → String
exit_status code = if is_zero code then "completed" else "failed"

unfoldable pub pipeline_result : Value → ℤ → ℤ → Value
pipeline_result document_id ingest_code graphrag_code = obj (
    field "status" (str (exit_status graphrag_code)) (
      field "document_id" document_id (
        field "ingestion_exit_code" (int ingest_code)
          (field "graphrag_exit_code" (int graphrag_code) end))))

module _ (svc : Services) where
  open svc use {temp_name, fetch, imported, has_api_key, configure, ingestion, graphrag}

  -- `_download_document`: the file is created first, and filled by the object store
  unfoldable pub download : Value → Value → Run String
  download bucket path = do
    name ← lift (temp_name path)
    create name
    lift (fetch bucket path name)
    pure name

  unfoldable pub run_pipelines : Value → Value → Outcome Error Value
  run_pipelines user_id document_id = elim (configure user_id document_id) [
    | raise e ↦ raise e
    | ok _ ↦ elim ingestion [
      | raise e ↦ raise e
      | ok ingest_code ↦ elim graphrag [
        | raise e ↦ raise e
        | ok graphrag_code ↦ ok (pipeline_result document_id ingest_code graphrag_code)
      ]
    ]
  ]

  -- the inner `try`: a failing import, or a missing key, gives the stub
  unfoldable pub run_or_stub : Value → Value → Outcome Error Value
  unfolding run_pipelines
  run_or_stub user_id document_id = elim imported [
    | raise cancelled ↦ raise cancelled
    | raise (unretryable e) ↦ ok (stub_result document_id ("pipeline import failed: " ++ e))
    | raise (other e) ↦ ok (stub_result document_id ("pipeline import failed: " ++ e))
    | ok _ ↦
        if has_api_key
        then run_pipelines user_id document_id
        else ok (stub_result document_id "OPENAI_API_KEY not configured")
  ]

  abbrev pub clean_up : String → Run Unit
  clean_up name files = (ok tt, remove name files)

  -- `process`; the last two lines are the `finally` and the result of the `try`
  unfoldable pub process : Fields → Run Value
  unfolding download
  process message = do
    payload ← lift (subscript "payload" (obj message))
    document_id ← lift (subscript "document_id" payload)
    storage_path ← lift (subscript "storage_path" payload)
    storage_bucket ← lift (subscript "storage_bucket" payload)
    user_id ← lift (get_of "user_id" payload)
    local_path ← download storage_bucket storage_path
    result ← attempt (lift (run_or_stub user_id document_id))
    clean_up local_path
    lift result

  abbrev pub when_valid : Bool → Run Value → Run Value
  when_valid true m = m
  when_valid false m = throw (unretryable "validation failed")

  -- `_handle_message`, without its metrics and the id in the text of the error
  unfoldable pub handle_message : Fields → Run Value
  handle_message message = do valid ← lift (validate message); when_valid valid (process message)
