-- ===== src/Examples/Services.antt =====
-- A task of one document, as worker/processor.py runs it.
use concept_microservice.Prelude.{ℤ, pos, true, false, ◌≡◌, refl, [], ◌∷◌}
use concept_microservice.Prelude.Effect.{Outcome, ok}
use concept_microservice.Values.{Fields, str, obj, end, field, is_zero, get, find}
use concept_microservice.Worker.Consumer.{Error, result_status}
use concept_microservice.Worker.Processor.{
  Services, is_in, contains, validate, run_or_stub, pipeline_result, process, download,
  handle_message, remove,
}
use concept_microservice.Worker.Processor.Files.{handle_message-files}
use concept_microservice.Worker.Processor.Results.{failed_result}

abbrev services_of : Outcome Error (Unit {0}) → Services
services_of fetched = record {
  temp_name = λ path. ok "/tmp/a.pdf";
  fetch = λ bucket path name. fetched;
  imported = ok tt;
  has_api_key = true;
  configure = λ u d. ok tt;
  ingestion = ok (pos 0);
  graphrag = ok (pos 2);
}

abbrev task_payload : Fields
task_payload =
    field "document_id" (str "d1")
      (field "storage_path" (str "a.pdf") (field "storage_bucket" (str "docs") end))

abbrev task : Fields
task = field "id" (str "e1") (
    field "type" (str "document")
      (field "payload" (obj task_payload) (field "timestamp" (str "t") end)))

files_example :
    (handle_message (services_of (ok tt)) task ("/tmp/b.pdf" ∷ [])).1 ≡ "/tmp/b.pdf" ∷ []
files_example =
    handle_message-files (services_of (ok tt)) task ("/tmp/b.pdf" ∷ []) (λ bucket path name. refl)

abbrev answering : Services
answering = services_of (ok tt)

failed_example :
    (ingest_code graphrag_code : ℤ) × (answering.imported ≡ ok tt)
    × (answering.has_api_key ≡ true)
    × (answering.ingestion ≡ ok ingest_code)
    × (answering.graphrag ≡ ok graphrag_code)
    × (is_zero graphrag_code ≡ false)
unfolding handle_message validate is_in find get contains process download run_or_stub
    pipeline_result remove result_status
failed_example =
    failed_result answering task [] (pipeline_result (str "d1") (pos 0) (pos 2)) refl refl
