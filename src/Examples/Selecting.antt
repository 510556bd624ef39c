-- ===== src/Examples/Selecting.antt =====
-- Selections of the stages of domain/graphrag/pipeline.py.
use concept_microservice.Prelude.{String, true, ◌≡◌, some, [], ◌∷◌, if◌then◌else◌, str_eq}
use concept_microservice.Prelude.Effect.{ok}
use concept_microservice.Pipeline.Selection.{
  Ratio, get_stages_to_run, resolve_stage_selection, run_with_resume,
}
use concept_microservice.Pipeline.Selection.Prefix.{up_to_last, resolve-up_to_last}
use concept_microservice.Pipeline.Selection.Resume.{run_with_resume-up_to_last}

-- all stages but the last are complete
abbrev ratios : String → Ratio
ratios stage = if str_eq stage "community_detection" then (3, 10) else (10, 10)

resume_example :
    run_with_resume ratios (95, 100) ≡ ok (up_to_last (get_stages_to_run ratios (95, 100)))
resume_example = run_with_resume-up_to_last ratios (95, 100)

resolve_example :
    resolve_stage_selection (some ("graph_construction" ∷ "graph_extraction" ∷ [])) true
    ≡ ok ("graph_extraction" ∷ "entity_resolution" ∷ "graph_construction" ∷ [])
resolve_example = resolve-up_to_last ("graph_construction" ∷ "graph_extraction" ∷ [])
