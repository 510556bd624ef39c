-- ===== src/Api/Fields.antt =====
-- graph-worker/graphrag-service/src/app/api/stages/validation.py: the fields of one stage's config.
-- The config class, as the names and types of its fields, and the table of field metadata are
-- arguments. The texts of the messages are left out.
pub mod Limits
pub mod Fits
use concept_microservice.Prelude.{
  ℕ, ◌+◌, ◌-◌, ◌*◌, ◌^◌, suc, ℤ, pos, negsuc, pos_part, neg_part, ltb_ℤ, String, Bool, true, false,
  not, ◌&&◌, ◌||◌, Option, none, some, List, [], ◌∷◌, ◌++◌, elem, lookup, if◌then◌else◌,
}
use concept_microservice.Values.{
  Value, null, bool, int, real, str, arr, Fields, end, field, Items, nil, cons, get,
}

-- What a type hint is compared with. A parametrised list is `array`, and a type that no branch
-- names is `other`.
pub data FieldKind : Type 0 where
  string integer number boolean array other : FieldKind

-- `optional` holds the arguments of a union with None that are not None.
pub data TypeHint : Type 0 where
  plain : FieldKind → TypeHint
  optional : List FieldKind → TypeHint

-- m · 10^e
abbrev pub Number : Type 0
Number = ℤ × ℤ

pub record Metadata : Type 0 where
  pub minimum : Option Number
  pub maximum : Option Number
  pub options : Option (List String)

pub data ConfigError : Type 0 where
  invalid_pipeline : String → ConfigError
  unknown_stage : String → ConfigError
  stage_pipeline_mismatch : String → String → ConfigError
  no_config_class : String → ConfigError
  unknown_field : String → String → ConfigError
  type_mismatch : String → String → ConfigError
  value_out_of_range : String → String → ConfigError

abbrev checked_kind : TypeHint → FieldKind
checked_kind (plain kind) = kind
checked_kind (optional []) = string
checked_kind (optional (kind ∷ kinds)) = kind

-- the `isinstance` tests; a bool is an int to Python, and is turned down for the numbers
abbrev pub instance_of : FieldKind → Value → Bool
instance_of string (str s) = true
instance_of integer (int n) = true
instance_of number (int n) = true
instance_of number (real m e) = true
instance_of boolean (bool b) = true
instance_of array (arr xs) = true
instance_of other v = true
instance_of kind v = false

abbrev is_none : Value → Bool
is_none null = true
is_none v = false

abbrev is_optional : TypeHint → Bool
is_optional (plain kind) = false
is_optional (optional kinds) = true

-- `_validate_field_type`: true for None, the absence of a message
unfoldable pub validate_field_type : TypeHint → Value → Bool
validate_field_type hint value =
    is_optional hint && is_none value || instance_of (checked_kind hint) value

abbrev scale : ℤ → ℕ → ℤ
scale (pos n) k = pos (n * 10 ^ k)
scale (negsuc n) k = negsuc (suc n * 10 ^ k - 1)

-- how far the exponent `a` lies above the exponent `b`
abbrev above : ℤ → ℤ → ℕ
above a b = pos_part a + neg_part b - (neg_part a + pos_part b)

abbrev pub less : Number → Number → Bool
less (m, e) (n, d) = ltb_ℤ (scale m (above e d)) (scale n (above d e))

-- a value that is an instance of int or float
abbrev pub as_number : Value → Option Number
as_number (bool true) = some (pos 1, pos 0)
as_number (bool false) = some (pos 0, pos 0)
as_number (int n) = some (n, pos 0)
as_number (real m e) = some (m, e)
as_number v = none

abbrev pub under : Option Number → Number → Bool
under none x = false
under (some bound) x = less x bound

abbrev pub over : Option Number → Number → Bool
over none x = false
over (some bound) x = less bound x

abbrev pub in_range : Metadata → Option Number → Bool
in_range metadata none = true
in_range metadata (some x) = not (under metadata.minimum x) && not (over metadata.maximum x)

abbrev pub option : List String → Value → Bool
option options (str s) = elem s options
option options v = false

abbrev pub every_option : List String → Items → Bool
every_option options nil = true
every_option options (cons x xs) = option options x && every_option options xs

abbrev pub in_options : Option (List String) → Value → Bool
in_options none value = true
in_options (some options) (arr xs) = every_option options xs
in_options (some options) value = option options value

-- `_validate_field_value`: true for None, the absence of a message
unfoldable pub validate_field_value : List (String × Metadata) → String → Value → Bool
unfolding lookup
validate_field_value field_metadata name value = elim (lookup name field_metadata) [
  | none ↦ true
  | some metadata ↦ in_range metadata (as_number value) && in_options metadata.options value
]

-- the names and types of the fields of a config class
abbrev pub ConfigClass : Type 0
ConfigClass = List (String × TypeHint)

abbrev pub names : ConfigClass → List String
names [] = []
names ((name, hint) ∷ fields) = name ∷ names fields

-- the loop over the keys of the config
unfoldable pub unknown_fields : String → List String → Fields → List ConfigError
unknown_fields stage valid_fields end = []
unknown_fields stage valid_fields (field name v rest) =
    let errors = unknown_fields stage valid_fields rest in
    if elem name valid_fields then errors else unknown_field stage name ∷ errors

-- one round of the loop over the fields of the class
unfoldable pub check_field :
    List (String × Metadata) → String → String → TypeHint → Value → List ConfigError
unfolding validate_field_type validate_field_value
check_field field_metadata stage name hint value =
    if is_none value
    then []
    else if not (validate_field_type hint value)
    then type_mismatch stage name ∷ []
    else if not (validate_field_value field_metadata name value)
    then value_out_of_range stage name ∷ []
    else []

unfoldable pub check_fields :
    List (String × Metadata) → String → ConfigClass → Fields → List ConfigError
unfolding check_field get
check_fields field_metadata stage [] config = []
check_fields field_metadata stage ((name, hint) ∷ fields) config =
    check_field field_metadata stage name hint (get name config)
    ++ check_fields field_metadata stage fields config

-- `_validate_stage_config`
unfoldable pub validate_stage_config :
    List (String × Metadata) → String → ConfigClass → Fields → List ConfigError
unfolding unknown_fields check_fields
validate_stage_config field_metadata stage config_cls config =
    unknown_fields stage (names config_cls) config
    ++ check_fields field_metadata stage config_cls config
