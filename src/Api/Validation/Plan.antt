-- ===== src/Api/Validation/Plan.antt =====
-- Which requests are valid, and what is planned for them.
use concept_microservice.Prelude.{
  String, Bool, true, false, ◌&&◌, Option, none, some, ◌≡◌, refl, ◌↔◌, inl, inr, List, [], ◌∷◌,
  ◌++◌, elem, arith, Bool-cases, ◌∙◌, All, str_eq, eq_iff, lookup, sym, if◌then◌else◌,
}
use mathlib.Core.Path.{subst}
use mathlib.Core.Option.{some-injective, none-ne-some}
use concept_microservice.Values.{Fields}
use concept_microservice.Pipeline.Selection.{stage_order}
use concept_microservice.Pipeline.Runner.{stage_registry}
use concept_microservice.Api.Fields.{Metadata, ConfigClass, ConfigError, validate_stage_config}
use concept_microservice.Api.Fields.Fits.{Fits, validate_stage_config-Fits}
use concept_microservice.Api.Validation.{
  pipeline_groups, no_errors, stage_errors, selected_in, config_of, config_errors, planned_errors,
  order_of, checked_in, validated, validate_pipeline_config,
}

All-elem :
    (P : String → Type 0) (xs : List String) → All P xs → (x : String) → elem x xs ≡ true → P x
All-elem P [] h x e = cc
All-elem P (y ∷ ys) h x e = elim (Bool-cases (str_eq x y)) [
  | inl same ↦ rw ((eq_iff x y).0 same) h.0
  | inr other ↦ All-elem P ys h.1 x (ground arith)
]

elem-All :
    (P : String → Type 0) (xs : List String) → ((x : String) → elem x xs ≡ true → P x) → All P xs
elem-All P [] h = tt
elem-All P (y ∷ ys) h =
    (h y (rw ((eq_iff y y).1 refl) refl), elem-All P ys (λ x e. h x (ground arith)))

pub elem-selected_in :
    (s : String) (stages order : List String)
    → elem s (selected_in stages order) ≡ (elem s order && elem s stages)
unfolding selected_in
elem-selected_in s stages [] = refl
elem-selected_in s stages (t ∷ order) = ground (arith, elem-selected_in s stages order, eq_iff s t)

append_empty {ℓ} : {A : Type ℓ} (xs ys : List A) → (xs ++ ys ≡ []) ↔ ((xs ≡ []) × (ys ≡ []))
append_empty [] ys = ((λ h. (refl, h)), λ h. h.1)
append_empty (x ∷ xs) ys = ((λ h. cc), λ h. cc)

lookup-All {ℓ} :
    {V : Type ℓ} (P : V → Type 0) (k : String) (v : V) (m : List (String × V))
    → All (λ entry. P entry.1) m
    → lookup k m ≡ some v
    → P v
unfolding lookup
lookup-All P k v [] a h = cc
lookup-All P k v ((j, w) ∷ m) a h = go (str_eq j k) (lookup-All P k v m a.1) h
  where
    go :
        (b : Bool) → (lookup k m ≡ some v → P v) → (if b then some w else lookup k m) ≡ some v → P v
    go true later q = rw (sym (some-injective w v q)) a.0
    go false later q = later q

abbrev Registered : List String → Type 0
Registered group = All (λ s. elem s stage_registry ≡ true) group

Registered-pipeline_groups : All (λ entry. Registered entry.1) pipeline_groups
Registered-pipeline_groups = (
  (refl, (refl, (refl, (refl, (refl, (refl, (refl, (refl, (refl, tt))))))))),
  ((refl, (refl, (refl, (refl, tt)))), tt),
)

-- the groups hold stages of the registry only
registered :
    (pipeline : String) (group : List String)
    → lookup pipeline pipeline_groups ≡ some group
    → (s : String) → elem s group ≡ true
    → elem s stage_registry ≡ true
registered pipeline group h =
    All-elem (λ s. elem s stage_registry ≡ true) group
      (lookup-All Registered pipeline group pipeline_groups Registered-pipeline_groups h)

stage_errors-none :
    (valid_stages : List String)
    → ((s : String) → elem s valid_stages ≡ true → elem s stage_registry ≡ true)
    → (stages : List String)
    → (no_errors (stage_errors valid_stages stages) ≡ true)
      ↔ All (λ s. elem s valid_stages ≡ true) stages
unfolding stage_errors
stage_errors-none valid_stages sub [] = ground arith
stage_errors-none valid_stages sub (s ∷ stages) = elim (Bool-cases (elem s valid_stages)) [
  | inl e ↦
      rw (sub s e, e)
        (let rec = stage_errors-none valid_stages sub stages in
          (λ h. (refl, rec.0 h), λ h. rec.1 h.1))
  | inr e ↦ elim (Bool-cases (elem s stage_registry)) [
    | inl r ↦ rw (r, e) ((λ h. cc), (λ h. cc))
    | inr r ↦ rw (r, e) ((λ h. cc), (λ h. cc))
  ]
]

module _ (field_metadata : List (String × Metadata))
    (config_class : String → Option ConfigClass) where
  -- the config of a stage fits its class; a stage without a class takes any
  abbrev pub StageFits : List (String × Fields) → String → Type 0
  StageFits config stage =
      (cls : ConfigClass)
      → config_class stage ≡ some cls
      → Fits field_metadata cls (config_of stage config)

  planned_errors-StageFits :
      (config : List (String × Fields)) (stage : String)
      → (planned_errors field_metadata config_class config stage ≡ []) ↔ StageFits config stage
  unfolding lookup
  planned_errors-StageFits config stage = go (config_class stage)
    where
      go :
          (found : Option ConfigClass)
          → (elim found [
            | none ↦ []
            | some cls ↦ validate_stage_config field_metadata stage cls (config_of stage config)
          ]
              ≡ [])
            ↔ ((cls : ConfigClass)
                → found ≡ some cls
                → Fits field_metadata cls (config_of stage config))
      go none = ((λ h cls e. cc), λ h. refl)
      go (some cls) = (
        (λ h cls' e.
            rw (sym (some-injective cls cls' e))
              ((validate_stage_config-Fits field_metadata stage cls (config_of stage config)).0 h)),
        (λ h.
            (validate_stage_config-Fits field_metadata stage cls (config_of stage config)).1
              (h cls refl)),
      )

  config_errors-none :
      (config : List (String × Fields)) (stages : List String)
      → (config_errors field_metadata config_class config stages ≡ [])
        ↔ All (StageFits config) stages
  unfolding config_errors
  config_errors-none config [] = ground arith
  config_errors-none config (stage ∷ stages) =
      let here = planned_errors-StageFits config stage in
      let rest = config_errors-none config stages in
      let both =
        append_empty (planned_errors field_metadata config_class config stage)
          (config_errors field_metadata config_class config stages) in
      ((λ h. (here.0 (both.0 h).0, rest.0 (both.0 h).1)), (λ h. both.1 (here.1 h.0, rest.1 h.1)))

  -- the pipeline exists, it has every selected stage, and their configs fit
  pub record IsValidRequest (pipeline : String) (stages : List String)
      (config : List (String × Fields)) : Type 0 where
    pub group : List String
    pub exists : lookup pipeline pipeline_groups ≡ some group
    pub members : (s : String) → elem s stages ≡ true → elem s group ≡ true
    pub fits : (s : String) → elem s stages ≡ true → StageFits config s

  pub order_of_group :
      (pipeline : String) (group : List String)
      → lookup pipeline pipeline_groups ≡ some group
      → order_of field_metadata config_class pipeline group ≡ group
  unfolding lookup
  order_of_group pipeline group h = elim (Bool-cases (str_eq pipeline "graphrag")) [
    | inl e ↦
        subst
          (λ p.
            lookup p pipeline_groups ≡ some group
            → order_of field_metadata config_class p group ≡ group)
          (sym ((eq_iff pipeline "graphrag").0 e)) (some-injective stage_order group) h
    | inr e ↦ rw e refl
  ]

  no_errors-empty : (es : List ConfigError) → (no_errors es ≡ true) ↔ (es ≡ [])
  no_errors-empty es = ground arith

  module _ (pipeline : String) (stages : List String) (config : List (String × Fields))
      (group : List String) (exists : lookup pipeline pipeline_groups ≡ some group) where
    checked_in-members :
        ((checked_in field_metadata config_class pipeline stages config group).valid ≡ true) ↔ (
          All (λ s. elem s group ≡ true) stages
          × (config_errors field_metadata config_class config (selected_in stages group) ≡ []))
    checked_in-members =
        let all_members = stage_errors-none group (registered pipeline group exists) stages in
        elim (Bool-cases (no_errors (stage_errors group stages))) [
          | inl e ↦
              rw (e, order_of_group pipeline group exists)
                (ground (
                  arith,
                  e,
                  all_members,
                  no_errors-empty
                      (config_errors field_metadata config_class config (selected_in stages group)),
                ))
          | inr e ↦ rw e (ground (arith, e, all_members))
        ]

    planned_fits :
        ((s : String) → elem s stages ≡ true → elem s group ≡ true)
        → All (StageFits config) (selected_in stages group)
          ↔ ((s : String) → elem s stages ≡ true → StageFits config s)
    planned_fits members = (
      (λ h s e.
          All-elem (StageFits config) (selected_in stages group) h s
            (rw (elem-selected_in s stages group, members s e, e) refl)),
      (λ h.
          elem-All (StageFits config) (selected_in stages group)
            (λ s e. h s (ground (arith, e, elem-selected_in s stages group)))),
    )

  valid-IsValidRequest :
      (pipeline : String) (stages : List String) (config : List (String × Fields))
      (found : Option (List String))
      → lookup pipeline pipeline_groups ≡ found
      → ((validated field_metadata config_class pipeline stages config found).valid ≡ true)
        ↔ IsValidRequest pipeline stages config
  valid-IsValidRequest pipeline stages config none e =
      ((λ h. cc), λ h. absurd (none-ne-some h.group (sym e ∙ h.exists)))
  valid-IsValidRequest pipeline stages config (some group) e =
      let inside = checked_in-members pipeline stages config group e in
      let configs = config_errors-none config (selected_in stages group) in
      let member = All-elem (λ s. elem s group ≡ true) stages in
      let fits = planned_fits pipeline stages config group e in
      (
        (λ v. record {
          group = group;
          exists = e;
          members = member (inside.0 v).0;
          fits = (fits (member (inside.0 v).0)).0 (configs.0 (inside.0 v).1);
        }),
        (λ h.
            let same = some-injective _ _ (sym h.exists ∙ e) in
            let members =
              subst (λ g. (s : String) → elem s stages ≡ true → elem s g ≡ true) same h.members in
            inside.1 (
              elem-All (λ s. elem s group ≡ true) stages members,
              configs.1 ((fits members).1 h.fits),
            )),
      )

  -- A request is valid exactly if the pipeline exists, every selected stage belongs to it, and the
  -- config of every selected stage that has a class has known fields only, each null or of its
  -- type, and not below the minimum, not above the maximum and among the options that the table of
  -- fields gives it.
  pub validate_pipeline_config-IsValidRequest :
      (pipeline : String) (stages : List String) (config : List (String × Fields))
      → ((validate_pipeline_config field_metadata config_class pipeline stages config).valid ≡ true)
        ↔ IsValidRequest pipeline stages config
  unfolding validate_pipeline_config
  validate_pipeline_config-IsValidRequest pipeline stages config =
      valid-IsValidRequest pipeline stages config (lookup pipeline pipeline_groups) refl
