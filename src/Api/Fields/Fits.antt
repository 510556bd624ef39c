-- ===== src/Api/Fields/Fits.antt =====
-- When a stage's config has no errors.
use mathlib.Core.Option.{some-injective}
use mathlib.Core.Path.{subst}
use concept_microservice.Prelude.{
  inl, inr, ◌&&◌, Option, none, some, lookup, String, Bool, true, ◌≡◌, refl, ◌↔◌, ◌⊎◌, List, [],
  ◌∷◌, elem, arith,
}
use concept_microservice.Values.{
  Value, null, bool, int, real, str, arr, Fields, end, field, Items, get,
}
use concept_microservice.Api.Fields.Limits.{
  WithinRange, WithinOptions, in_range-WithinRange, in_options-WithinOptions,
}
use concept_microservice.Api.Fields.{
  as_number, in_range, in_options, FieldKind, string, integer, number, boolean, array, other,
  TypeHint, checked_kind, instance_of, validate_field_type, validate_field_value, Metadata,
  ConfigClass, names, unknown_fields, check_field, check_fields, validate_stage_config,
}

-- the values of each type
pub data HasKind : FieldKind → Value → Type 0 where
  a_text : (s : String) → HasKind string (str s)
  a_whole : (n : _) → HasKind integer (int n)
  whole_number : (n : _) → HasKind number (int n)
  float_number : (m e : _) → HasKind number (real m e)
  a_truth : (b : Bool) → HasKind boolean (bool b)
  an_array : (xs : Items) → HasKind array (arr xs)
  anything : (v : Value) → HasKind other v

instance_of-HasKind : (kind : FieldKind) (v : Value) → instance_of kind v ≡ true → HasKind kind v
instance_of-HasKind kind v h =
    grind (arith, a_text, a_whole, whole_number, float_number, a_truth, an_array, anything)

HasKind-instance_of : {kind : FieldKind} {v : Value} → HasKind kind v → instance_of kind v ≡ true
HasKind-instance_of (a_text s) = refl
HasKind-instance_of (a_whole n) = refl
HasKind-instance_of (whole_number n) = refl
HasKind-instance_of (float_number m e) = refl
HasKind-instance_of (a_truth b) = refl
HasKind-instance_of (an_array xs) = refl
HasKind-instance_of (anything v) = refl

module _ (field_metadata : List (String × Metadata)) where
  -- the value is within the range and the options of the field, if the table has the field
  abbrev pub Allowed : String → Value → Type 0
  Allowed name v =
      (metadata : Metadata)
      → lookup name field_metadata ≡ some metadata
      → WithinRange metadata v × WithinOptions metadata v

  -- a field is left out or null, or has its type and is within range and options
  abbrev pub Accepts : String → TypeHint → Value → Type 0
  Accepts name hint v = (v ≡ null) ⊎ (HasKind (checked_kind hint) v × Allowed name v)

  validate_field_value-Allowed :
      (name : String) (v : Value)
      → (validate_field_value field_metadata name v ≡ true) ↔ Allowed name v
  unfolding validate_field_value
  validate_field_value-Allowed name v = go (lookup name field_metadata)
    where
      go :
          (found : Option Metadata)
          → (elim found [
            | none ↦ true
            | some metadata ↦ in_range metadata (as_number v) && in_options metadata.options v
          ]
              ≡ true)
            ↔ ((metadata : Metadata)
                → found ≡ some metadata
                → WithinRange metadata v × WithinOptions metadata v)
      go none = ((λ h metadata e. cc), λ h. refl)
      go (some listed) =
          let range = in_range-WithinRange listed v in
          let options = in_options-WithinOptions listed.options v in
          (
            (λ h metadata e.
                subst (λ m. WithinRange m v × WithinOptions m v) (some-injective listed metadata e)
                  (range.0 (ground (arith, h)), options.0 (ground (arith, h)))),
            λ h.
                let (within, offered) = h listed refl in
                rw (range.1 within, options.1 offered) refl,
          )

  abbrev pub Known : List String → Fields → Type 0
  Known valid_fields end = Unit
  Known valid_fields (field name v rest) = (elem name valid_fields ≡ true) × Known valid_fields rest

  abbrev pub Accepted : ConfigClass → Fields → Type 0
  Accepted [] config = Unit
  Accepted ((name, hint) ∷ fields) config =
      Accepts name hint (get name config) × Accepted fields config

  unknown_fields-Known :
      (stage : String) (valid_fields : List String) (config : Fields)
      → (unknown_fields stage valid_fields config ≡ []) ↔ Known valid_fields config
  unfolding unknown_fields
  unknown_fields-Known stage valid_fields end = ground arith
  unknown_fields-Known stage valid_fields (field name v rest) =
      ground (arith, unknown_fields-Known stage valid_fields rest)

  check_field-none :
      (stage name : String) (hint : TypeHint) (v : Value)
      → (check_field field_metadata stage name hint v ≡ []) ↔ (
          (v ≡ null)
          ⊎ (HasKind (checked_kind hint) v × (validate_field_value field_metadata name v ≡ true)))
  unfolding check_field validate_field_type
  check_field-none stage name hint null = ground arith
  check_field-none stage name hint v = ground (
    arith,
    instance_of-HasKind (checked_kind hint) v,
    HasKind-instance_of {kind = checked_kind hint} {v = v},
  )

  check_field-Accepts :
      (stage name : String) (hint : TypeHint) (v : Value)
      → (check_field field_metadata stage name hint v ≡ []) ↔ Accepts name hint v
  check_field-Accepts stage name hint v =
      let passed = check_field-none stage name hint v in
      let allowed = validate_field_value-Allowed name v in
      (
        (λ h. elim (passed.0 h) [
          | inl e ↦ inl e
          | inr (kind, valid) ↦ inr (kind, allowed.0 valid)
        ]),
        λ h. passed.1 (elim h [ inl e ↦ inl e | inr (kind, ok) ↦ inr (kind, allowed.1 ok) ]),
      )

  check_fields-Accepted :
      (stage : String) (config_cls : ConfigClass) (config : Fields)
      → (check_fields field_metadata stage config_cls config ≡ []) ↔ Accepted config_cls config
  unfolding check_fields
  check_fields-Accepted stage [] config = ground arith
  check_fields-Accepted stage ((name, hint) ∷ fields) config = ground (
    arith,
    check_field-Accepts stage name hint (get name config),
    check_fields-Accepted stage fields config,
  )

  -- every key is a field of the class, and every field of the class accepts its value
  pub record Fits (config_cls : ConfigClass) (config : Fields) : Type 0 where
    pub known : Known (names config_cls) config
    pub accepted : Accepted config_cls config

  -- There are no errors exactly if the config fits its class.
  pub validate_stage_config-Fits :
      (stage : String) (config_cls : ConfigClass) (config : Fields)
      → (validate_stage_config field_metadata stage config_cls config ≡ []) ↔ Fits config_cls config
  unfolding validate_stage_config
  validate_stage_config-Fits stage config_cls config = ground (
    arith,
    unknown_fields-Known stage (names config_cls) config,
    check_fields-Accepted stage config_cls config,
  )
