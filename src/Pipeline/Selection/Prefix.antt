-- ===== src/Pipeline/Selection/Prefix.antt =====
-- What a selection resolves to, against the order of the stages.
use concept_microservice.Prelude.{
  String, true, false, not, ◌&&◌, ◌||◌, ◌≡◌, refl, some, List, [], ◌∷◌, arith, elem, elem-append,
  str_eq, eq_iff, if◌then◌else◌,
}
use concept_microservice.Prelude.Effect.{ok}
use concept_microservice.Pipeline.Selection.{
  stage_order, get_stage_dependencies, absent, missing_for, resolve_stage_selection, depth_bound,
}

deps_closed :
    (t : String)
    → get_stage_dependencies depth_bound t ≡ (
        if str_eq "graph_extraction" t
        then []
        else if str_eq "entity_resolution" t
        then "graph_extraction" ∷ []
        else if str_eq "graph_construction" t
        then "graph_extraction" ∷ "entity_resolution" ∷ []
        else if str_eq "community_detection" t
        then "graph_extraction" ∷ "entity_resolution" ∷ "graph_construction" ∷ []
        else [])
unfolding get_stage_dependencies
deps_closed t = ground arith

elem-absent :
    (x : String) (selected deps : List String)
    → elem x (absent selected deps) ≡ (elem x deps && not (elem x selected))
unfolding absent
elem-absent x selected [] = refl
elem-absent x selected (d ∷ deps) = ground (arith, elem-absent x selected deps, eq_iff x d)

apart : (a b t : String) → str_eq a b ≡ false → (str_eq a t && str_eq b t) ≡ false
apart a b t h = ground (arith, eq_iff a t, eq_iff b t, eq_iff a b)

-- a text is at most one of the four names
stages_apart :
    (t : String)
    → ((str_eq "graph_extraction" t && str_eq "entity_resolution" t) ≡ false)
      × ((str_eq "graph_extraction" t && str_eq "graph_construction" t) ≡ false)
      × ((str_eq "graph_extraction" t && str_eq "community_detection" t) ≡ false)
      × ((str_eq "entity_resolution" t && str_eq "graph_construction" t) ≡ false)
      × ((str_eq "entity_resolution" t && str_eq "community_detection" t) ≡ false)
      × ((str_eq "graph_construction" t && str_eq "community_detection" t) ≡ false)
stages_apart t = (
  apart "graph_extraction" "entity_resolution" t refl,
  apart "graph_extraction" "graph_construction" t refl,
  apart "graph_extraction" "community_detection" t refl,
  apart "entity_resolution" "graph_construction" t refl,
  apart "entity_resolution" "community_detection" t refl,
  apart "graph_construction" "community_detection" t refl,
)

-- the dependencies of one stage, by membership
module _ (selected : List String) (t : String) where
  abbrev adds : List String
  adds = absent selected (get_stage_dependencies depth_bound t)

  adds_extraction : elem "graph_extraction" adds ≡ (
      not (elem "graph_extraction" selected)
      && (str_eq "entity_resolution" t
          || (str_eq "graph_construction" t || str_eq "community_detection" t)))
  adds_extraction =
      rw
        (
          elem-absent "graph_extraction" selected (get_stage_dependencies depth_bound t),
          deps_closed t,
        )
        (ground (arith, stages_apart t))

  adds_resolution : elem "entity_resolution" adds ≡ (
      not (elem "entity_resolution" selected)
      && (str_eq "graph_construction" t || str_eq "community_detection" t))
  adds_resolution =
      rw
        (
          elem-absent "entity_resolution" selected (get_stage_dependencies depth_bound t),
          deps_closed t,
        )
        (ground (arith, stages_apart t))

  adds_construction :
      elem "graph_construction" adds
      ≡ (not (elem "graph_construction" selected) && str_eq "community_detection" t)
  adds_construction =
      rw
        (
          elem-absent "graph_construction" selected (get_stage_dependencies depth_bound t),
          deps_closed t,
        )
        (ground (arith, stages_apart t))

  adds_detection : elem "community_detection" adds ≡ false
  adds_detection =
      rw
        (
          elem-absent "community_detection" selected (get_stage_dependencies depth_bound t),
          deps_closed t,
        )
        (ground arith)

-- the missing dependencies of a selection, by membership
module _ (selected : List String) where
  missing_extraction :
      (stages : List String)
      → elem "graph_extraction" (missing_for selected stages) ≡ (
          not (elem "graph_extraction" selected)
          && (elem "entity_resolution" stages
              || (elem "graph_construction" stages || elem "community_detection" stages)))
  missing_extraction [] = ground arith
  missing_extraction (t ∷ stages) =
      rw
        (
          elem-append "graph_extraction" (adds selected t) (missing_for selected stages),
          adds_extraction selected t,
          missing_extraction stages,
        )
        (ground arith)

  missing_resolution :
      (stages : List String)
      → elem "entity_resolution" (missing_for selected stages) ≡ (
          not (elem "entity_resolution" selected)
          && (elem "graph_construction" stages || elem "community_detection" stages))
  missing_resolution [] = ground arith
  missing_resolution (t ∷ stages) =
      rw
        (
          elem-append "entity_resolution" (adds selected t) (missing_for selected stages),
          adds_resolution selected t,
          missing_resolution stages,
        )
        (ground arith)

  missing_construction :
      (stages : List String)
      → elem "graph_construction" (missing_for selected stages)
        ≡ (not (elem "graph_construction" selected) && elem "community_detection" stages)
  missing_construction [] = ground arith
  missing_construction (t ∷ stages) =
      rw
        (
          elem-append "graph_construction" (adds selected t) (missing_for selected stages),
          adds_construction selected t,
          missing_construction stages,
        )
        (ground arith)

  missing_detection :
      (stages : List String) → elem "community_detection" (missing_for selected stages) ≡ false
  missing_detection [] = refl
  missing_detection (t ∷ stages) = rw (
    elem-append "community_detection" (adds selected t) (missing_for selected stages),
    adds_detection selected t,
    missing_detection stages,
  )

-- the stages up to the last one that is selected
abbrev pub up_to_last : List String → List String
up_to_last selected =
    if elem "community_detection" selected
    then stage_order
    else if elem "graph_construction" selected
    then "graph_extraction" ∷ "entity_resolution" ∷ "graph_construction" ∷ []
    else if elem "entity_resolution" selected
    then "graph_extraction" ∷ "entity_resolution" ∷ []
    else if elem "graph_extraction" selected
    then "graph_extraction" ∷ []
    else []

-- Whatever the selected names and their order, with the dependencies included the selection
-- resolves to the stages of the pipeline up to the last selected one, each once and in the
-- pipeline's order.
pub resolve-up_to_last :
    (selected : List String)
    → resolve_stage_selection (some selected) true ≡ ok (up_to_last selected)
unfolding resolve_stage_selection
resolve-up_to_last selected = ground (
  arith,
  elem-append "graph_extraction" selected (missing_for selected selected),
  elem-append "entity_resolution" selected (missing_for selected selected),
  elem-append "graph_construction" selected (missing_for selected selected),
  elem-append "community_detection" selected (missing_for selected selected),
  missing_extraction selected selected,
  missing_resolution selected selected,
  missing_construction selected selected,
  missing_detection selected selected,
)
