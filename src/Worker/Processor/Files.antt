-- ===== src/Worker/Processor/Files.antt =====
-- The temporary file of a document, on the paths of a run.
use text.Mathlib.TextPositions.{eq_refl}
use concept_microservice.Prelude.{◌≡◌, String, ◌∷◌, arith}
use concept_microservice.Prelude.Effect.{ok, raise}
use concept_microservice.Values.{Value, Fields, obj}
use concept_microservice.Worker.Consumer.{Error}
use concept_microservice.Worker.Processor.{
  Services, Files, subscript, remove, process, handle_message,
}

remove_head : (f : String) (fs : Files) → remove f (f ∷ fs) ≡ fs
unfolding remove
remove_head f fs = simp eq_refl

module _ (svc : Services) where
  -- If the object store delivers every file, handling an envelope leaves no temporary file behind
  -- and removes none of the others, whatever it returns or raises.
  pub handle_message-files :
      (message : Fields) (files : Files)
      → ((bucket path : Value) (name : String) → svc.fetch bucket path name ≡ ok tt)
      → (handle_message svc message files).1 ≡ files
  unfolding handle_message process
  handle_message-files message files delivers = grind (arith, delivers, remove_head)

  -- If the object store raises, the exception is passed on and the temporary file stays.
  pub download_leak :
      (message : Fields) (files : Files) (payload document_id path bucket : Value) (name : String)
      (e : Error)
      → subscript "payload" (obj message) ≡ ok payload
      → subscript "document_id" payload ≡ ok document_id
      → subscript "storage_path" payload ≡ ok path
      → subscript "storage_bucket" payload ≡ ok bucket
      → svc.temp_name path ≡ ok name
      → svc.fetch bucket path name ≡ raise e
      → process svc message files ≡ (raise e, name ∷ files)
  unfolding process
  download_leak message files payload document_id path bucket name e p d s b n f = ground arith
