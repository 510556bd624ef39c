-- ===== src/Pipeline/Selection/Resume.antt =====
-- What a resumed pipeline runs.
use concept_microservice.Prelude.{
  String, Bool, true, false, ◌≡◌, refl, ◌∙◌, ap, some, List, [], ◌∷◌, arith, map, if◌then◌else◌,
}
use concept_microservice.Prelude.Effect.{Outcome, ok}
use concept_microservice.Text.{codes, join}
use concept_microservice.Pipeline.Selection.{
  SelectionError, stage_order, is_empty_list, stages_of_run, Ratio, below, get_stages_to_run,
  run_with_resume,
}
use concept_microservice.Pipeline.Selection.Prefix.{up_to_last}

abbrev pick : Bool → String → List String → List String
pick b stage rest = if b then stage ∷ rest else rest

abbrev choice : Bool → Bool → Bool → Bool → List String
choice a b c d =
    pick a "graph_extraction"
      (pick b "entity_resolution" (pick c "graph_construction" (pick d "community_detection" [])))

abbrev run_of : List String → Outcome SelectionError (List String)
run_of stages =
    if is_empty_list stages then ok [] else stages_of_run (some (join b',' (map codes stages)))

run_choice : (a b c d : Bool) → run_of (choice a b c d) ≡ ok (up_to_last (choice a b c d))
unfolding stages_of_run
run_choice true true true true = refl
run_choice true true true false = refl
run_choice true true false true = refl
run_choice true true false false = refl
run_choice true false true true = refl
run_choice true false true false = refl
run_choice true false false true = refl
run_choice true false false false = refl
run_choice false true true true = refl
run_choice false true true false = refl
run_choice false true false true = refl
run_choice false true false false = refl
run_choice false false true true = refl
run_choice false false true false = refl
run_choice false false false true = refl
run_choice false false false false = refl

-- Whatever the completion ratios and the threshold, a resumed run reads back the selection that it
-- wrote, and runs the stages of the pipeline up to the last incomplete one, in order, the complete
-- ones among them included; if none is incomplete it runs nothing.
pub run_with_resume-up_to_last :
    (ratios : String → Ratio) (threshold : Ratio)
    → run_with_resume ratios threshold ≡ ok (up_to_last (get_stages_to_run ratios threshold))
unfolding run_with_resume
run_with_resume-up_to_last ratios threshold =
    run_choice (below (ratios "graph_extraction") threshold)
      (below (ratios "entity_resolution") threshold) (below (ratios "graph_construction") threshold)
      (below (ratios "community_detection") threshold)

-- If community detection is incomplete, a resumed run runs all four stages again, whatever the
-- others' ratios.
pub resume_runs_all :
    (ratios : String → Ratio) (threshold : Ratio)
    → below (ratios "community_detection") threshold ≡ true
    → run_with_resume ratios threshold ≡ ok stage_order
resume_runs_all ratios threshold h =
    run_with_resume-up_to_last ratios threshold ∙ ap ok (unfold get_stages_to_run in ground arith)
