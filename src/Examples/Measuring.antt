-- ===== src/Examples/Measuring.antt =====
-- Runs of the histogram of lib/metrics/collectors.py.
use concept_microservice.Prelude.{◌+◌, ◌*◌, ◌≤◌, some, [], ◌∷◌, ◌≡◌, refl, arith, length, ltb}
use concept_microservice.Text.{codes}
use concept_microservice.Histogram.{
  Labels, Histogram, make_key, found, observe, summary, percentile, reset,
}
use concept_microservice.Histogram.Percentile.{count, percentile-share}

abbrev stage : Labels
stage = (codes "stage", codes "extraction") ∷ (codes "mode", codes "tpm") ∷ []

-- the same labels in another order
abbrev stage_again : Labels
stage_again = (codes "mode", codes "tpm") ∷ (codes "stage", codes "extraction") ∷ []

abbrev durations : Histogram
durations = (make_key stage, 40 ∷ 20 ∷ 10 ∷ 30 ∷ []) ∷ []

observe_run :
    observe 30 stage (observe 10 stage_again (observe 20 stage (observe 40 stage_again [])))
    ≡ durations
unfolding observe
observe_run = refl

share_example :
    (count (λ x. ltb x (percentile 1 2 stage durations)) (found (make_key stage) durations) * 2
      ≤ length (found (make_key stage) durations) * 1)
    × (count (λ x. ltb (percentile 1 2 stage durations) x) (found (make_key stage) durations) * 2
          + length (found (make_key stage) durations) * 1
        ≤ length (found (make_key stage) durations) * 2)
share_example = percentile-share 1 2 stage durations (omega arith) (omega arith) (omega arith)

median_run : percentile 1 2 stage durations ≡ 30
unfolding percentile
median_run = refl

summary_run : (summary stage_again durations).min ≡ 10
unfolding summary
summary_run = refl

reset_run : (summary stage (reset (some stage_again) durations)).count ≡ 0
unfolding summary reset
reset_run = refl
