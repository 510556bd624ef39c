-- ===== src/Api/Validation/Prerequisites.antt =====
-- The plan of a valid request: its stages, their order, and the prerequisites it reports.
use concept_microservice.Prelude.{
  String, Bool, true, false, not, ◌&&◌, ◌||◌, Option, some, ◌≡◌, refl, sym, ◌∙◌, ap, inl, inr, List,
  [], ◌∷◌, elem, elem-append, arith, Bool-cases, str_eq, eq_iff, lookup, if◌then◌else◌,
}
use concept_microservice.Prelude.{IsSublist, nothing, skip, keep}
use mathlib.Core.Path.{subst}
use mathlib.Core.Option.{some-injective}
use concept_microservice.Values.{Fields}
use concept_microservice.Pipeline.Selection.{deps_of}
use concept_microservice.Api.Fields.{Metadata, ConfigClass}
use concept_microservice.Api.Validation.{
  pipeline_groups, Missing, note, note_all, prerequisites, selected_in, found_in, refused,
  Validation, validate_pipeline_config, ExecutionPlan, checked_in, validated, no_errors,
  stage_errors, order_of, planned,
}
use concept_microservice.Api.Validation.Plan.{
  elem-selected_in, order_of_group, validate_pipeline_config-IsValidRequest,
}

elem-note :
    (d : String) (stages : List String) (stage dep : String) (found : Missing)
    → elem d (note stages stage dep found).0
      ≡ (elem d found.0 || (str_eq d dep && not (elem d stages)))
elem-note d stages stage dep (missing, warnings) =
    ground (arith, elem-append d missing (dep ∷ []), eq_iff d dep)

elem-note_all :
    (d : String) (stages : List String) (stage : String) (deps : List String) (found : Missing)
    → elem d (note_all stages stage deps found).0
      ≡ (elem d found.0 || (elem d deps && not (elem d stages)))
unfolding note_all
elem-note_all d stages stage [] found = ground arith
elem-note_all d stages stage (dep ∷ deps) found = ground (
  arith,
  elem-note d stages stage dep found,
  elem-note_all d stages stage deps (note stages stage dep found),
)

-- some stage of the list names `d` among its dependencies
abbrev pub needed : String → List String → Bool
needed d [] = false
needed d (s ∷ stages) = elem d (deps_of s) || needed d stages

elem-prerequisites :
    (d : String) (stages rest : List String) (found : Missing)
    → elem d (prerequisites stages rest found).0
      ≡ (elem d found.0 || (needed d rest && not (elem d stages)))
unfolding prerequisites
elem-prerequisites d stages [] found = ground arith
elem-prerequisites d stages (s ∷ rest) found = ground (
  arith,
  elem-note_all d stages s (deps_of s) found,
  elem-prerequisites d stages rest (note_all stages s (deps_of s) found),
)

selected_in-IsSublist : (stages order : List String) → IsSublist (selected_in stages order) order
unfolding selected_in
selected_in-IsSublist stages [] = nothing
selected_in-IsSublist stages (s ∷ order) = elim (Bool-cases (elem s stages)) [
  | inl e ↦ rw e (keep s (selected_in-IsSublist stages order))
  | inr e ↦ rw e (skip s (selected_in-IsSublist stages order))
]

module _ (field_metadata : List (String × Metadata))
    (config_class : String → Option ConfigClass) where
  -- The plan has the selected stages and no others, in the order of the pipeline. It reports the
  -- dependencies of the selected stages that are not selected, for the GraphRAG pipeline only.
  pub record IsPlanned (pipeline : String) (stages group : List String) (plan : ExecutionPlan)
      : Type 0 where
    pub ordered : IsSublist plan.stages group
    pub selected : (s : String) → elem s plan.stages ≡ elem s stages
    pub reported :
        (d : String)
        → elem d plan.unselected_prerequisites
          ≡ (str_eq pipeline "graphrag" && (needed d stages && not (elem d stages)))

  elem-found_in :
      (pipeline : String) (stages : List String) (d : String)
      → elem d (found_in field_metadata config_class pipeline stages).0
        ≡ (str_eq pipeline "graphrag" && (needed d stages && not (elem d stages)))
  elem-found_in pipeline stages d = elim (Bool-cases (str_eq pipeline "graphrag")) [
    | inl e ↦ rw e (elem-prerequisites d stages stages ([], []))
    | inr e ↦ rw e refl
  ]

  Planned-checked_in :
      (pipeline : String) (stages : List String) (config : List (String × Fields))
      (group : List String)
      → lookup pipeline pipeline_groups ≡ some group
      → ((s : String) → elem s stages ≡ true → elem s group ≡ true)
      → (checked_in field_metadata config_class pipeline stages config group).valid ≡ true
      → (plan : ExecutionPlan) × ((checked_in field_metadata config_class pipeline stages config
            group).execution_plan
          ≡ some plan)
        × IsPlanned pipeline stages group plan
  Planned-checked_in pipeline stages config group e members v =
      go (no_errors (stage_errors group stages)) v
    where
      all_stages : List String
      all_stages = selected_in stages (order_of field_metadata config_class pipeline group)

      in_order : selected_in stages group ≡ all_stages
      in_order = rw (order_of_group field_metadata config_class pipeline group e) refl

      the_plan : Validation
      the_plan =
          planned field_metadata config_class all_stages
            (found_in field_metadata config_class pipeline stages) config

      is_planned :
          (plan : ExecutionPlan)
          → the_plan.execution_plan ≡ some plan
          → IsPlanned pipeline stages group plan
      is_planned plan q = rw (sym (some-injective _ plan q)) (record {
        ordered = subst (λ xs. IsSublist xs group) in_order (selected_in-IsSublist stages group);
        selected = λ s.
            ap (elem s) (sym in_order)
            ∙ elem-selected_in s stages group
            ∙ ground (arith, members s);
        reported = elem-found_in pipeline stages;
      })

      go :
          (b : Bool)
          → (if not b
              then refused field_metadata config_class (stage_errors group stages)
              else the_plan).valid
            ≡ true
          → (plan : ExecutionPlan) × ((if not b
                then refused field_metadata config_class (stage_errors group stages)
                else the_plan).execution_plan
              ≡ some plan)
            × IsPlanned pipeline stages group plan
      go true q = (_, refl, is_planned _ refl)
      go false q = absurd (cc)

  -- A valid request has a plan with the selected stages and no others, in the order of the
  -- pipeline's group; of the dependencies of the selected stages it reports those that are not
  -- selected, for the GraphRAG pipeline only.
  pub validate_pipeline_config-IsPlanned :
      (pipeline : String) (stages : List String) (config : List (String × Fields))
      → (validate_pipeline_config field_metadata config_class pipeline stages config).valid ≡ true
      → (group : List String) × (plan : ExecutionPlan) × (lookup pipeline pipeline_groups
          ≡ some group)
        × ((validate_pipeline_config field_metadata config_class pipeline stages
              config).execution_plan
            ≡ some plan)
        × IsPlanned pipeline stages group plan
  unfolding validate_pipeline_config
  validate_pipeline_config-IsPlanned pipeline stages config v =
      let request =
        (validate_pipeline_config-IsValidRequest field_metadata config_class pipeline stages
            config).0
          v in
      let same = ap (validated field_metadata config_class pipeline stages config) request.exists in
      let planned =
        Planned-checked_in pipeline stages config request.group request.exists request.members
          (sym (ap (λ r. r.valid) same) ∙ v) in
      (
        request.group,
        planned.0,
        request.exists,
        ap (λ r. r.execution_plan) same ∙ planned.1,
        planned.2,
      )
