-- ===== src/Pipeline/Selection.antt =====
-- Stage selection and resume, of
-- graph-worker/graphrag-service/src/domain/graphrag/pipeline.py.
pub mod Prefix
pub mod Resume
use concept_microservice.Prelude.{
  ℕ, zero, suc, ℤ, pos, ◌-◌, ◌*◌, pos_part, String, Bool, true, false, not, ◌&&◌, ◌||◌, Option,
  none, some, List, [], ◌∷◌, ◌++◌, elem, lookup, length, get_elem?, map, ltb, leb_ℤ, ltb_ℤ, str_eq,
  if◌then◌else◌,
}
use concept_microservice.Prelude.Effect.{Outcome, ok, raise}
use concept_microservice.Text.{
  Text, codes, text_eq, is_empty, has_char, strip, lower, split, join, to_int,
}

abbrev pub stage_order : List String
stage_order =
    "graph_extraction" ∷ "entity_resolution" ∷ "graph_construction" ∷ "community_detection" ∷ []

abbrev pub stage_dependencies : List (String × List String)
stage_dependencies =
    ("graph_extraction", [])
    ∷ ("entity_resolution", "graph_extraction" ∷ [])
    ∷ ("graph_construction", "entity_resolution" ∷ [])
    ∷ ("community_detection", "graph_construction" ∷ [])
    ∷ []

abbrev pub stage_name_map : List (String × String)
stage_name_map =
    ("extraction", "graph_extraction")
    ∷ ("resolution", "entity_resolution")
    ∷ ("construction", "graph_construction")
    ∷ ("detection", "community_detection")
    ∷ ("graph_extraction", "graph_extraction")
    ∷ ("entity_resolution", "entity_resolution")
    ∷ ("graph_construction", "graph_construction")
    ∷ ("community_detection", "community_detection")
    ∷ []

-- the ValueErrors
pub data SelectionError : Type 0 where
  invalid_range : SelectionError
  unknown_name : SelectionError
  missing_dependencies : List String → SelectionError

-- STAGE_NAME_MAP.get(name)
unfoldable pub named : List (String × String) → Text → Option String
named [] name = none
named ((short, full) ∷ rest) name =
    if text_eq (codes short) name then some full else named rest name

-- STAGE_ORDER[idx - 1], behind the test of the range
abbrev pub at_index : ℤ → Option String
at_index idx =
    if ltb_ℤ idx (pos 1) || ltb_ℤ (pos (length stage_order)) idx
    then none
    else get_elem? stage_order (pos_part idx - 1)

abbrev indexed : Option ℤ → Option String
indexed none = none
indexed (some idx) = at_index idx

abbrev or_else : Option String → Option String → Option String
or_else (some s) other = some s
or_else none other = other

abbrev or_unknown : Option String → Outcome SelectionError String
or_unknown none = raise unknown_name
or_unknown (some s) = ok s

-- One index or name. The ValueError of an index out of range is caught by the same `except` as that
-- of `int`, so such a part is looked up as a name.
unfoldable pub select_one : Text → Outcome SelectionError String
select_one part = or_unknown (or_else (indexed (to_int part)) (named stage_name_map (lower part)))

abbrev cons_ok :
    Outcome SelectionError String
    → Outcome SelectionError (List String)
    → Outcome SelectionError (List String)
cons_ok (raise e) rest = raise e
cons_ok (ok s) (raise e) = raise e
cons_ok (ok s) (ok rest) = ok (s ∷ rest)

unfoldable pub select_all : List Text → Outcome SelectionError (List String)
select_all [] = ok []
select_all (part ∷ parts) = cons_ok (select_one (strip part)) (select_all parts)

-- `range(start, end + 1)` mapped to stages: `count` of them from the index `i`
unfoldable pub stages_between : ℕ → ℕ → List String
stages_between zero i = []
stages_between (suc count) i = elim (get_elem? stage_order i) [
  | none ↦ stages_between count (suc i)
  | some s ↦ s ∷ stages_between count (suc i)
]

abbrev checked_range : Option ℤ → Option ℤ → Outcome SelectionError (List String)
checked_range (some start) (some end) =
    if ltb_ℤ start (pos 1) || (ltb_ℤ (pos (length stage_order)) end || ltb_ℤ end start)
    then raise invalid_range
    else ok (stages_between (suc (pos_part end - pos_part start)) (pos_part start - 1))
checked_range start end = raise invalid_range

-- `start, end = map(int, ...)`: more or fewer than two parts are a ValueError too
unfoldable pub select_range : List Text → Outcome SelectionError (List String)
unfolding stages_between
select_range (start ∷ end ∷ []) = checked_range (to_int start) (to_int end)
select_range parts = raise invalid_range

abbrev single : Outcome SelectionError String → Outcome SelectionError (List String)
single (ok s) = ok (s ∷ [])
single (raise e) = raise e

abbrev select_in : Text → Outcome SelectionError (List String)
select_in input =
    if has_char b'-' input && not (has_char b',' input)
    then select_range (split b'-' input)
    else if has_char b',' input
    then select_all (split b',' input)
    else single (select_one input)

abbrev as_selection :
    Outcome SelectionError (List String) → Outcome SelectionError (Option (List String))
as_selection (ok stages) = ok (some stages)
as_selection (raise e) = raise e

-- `_parse_stage_selection`; `ok none` stands for all stages
unfoldable pub parse_stage_selection : Option Text → Outcome SelectionError (Option (List String))
unfolding select_all select_range select_one named
parse_stage_selection none = ok none
parse_stage_selection (some input) =
    if is_empty (strip input) then ok none else as_selection (select_in (strip input))

abbrev pub deps_of : String → List String
deps_of stage = elim (lookup stage stage_dependencies) [ none ↦ [] | some deps ↦ deps ]

abbrev append_new : String → List String → List String
append_new dep all_deps = if elem dep all_deps then all_deps else all_deps ++ dep ∷ []

-- the loop of `_get_stage_dependencies`, over the recursive call
unfoldable pub collect : (String → List String) → List String → List String → List String
collect recur [] all_deps = all_deps
collect recur (dep ∷ deps) all_deps = collect recur deps (append_new dep (all_deps ++ recur dep))

-- `_get_stage_dependencies`; a chain of dependencies is no longer than the table
unfoldable pub get_stage_dependencies : ℕ → String → List String
unfolding lookup collect
get_stage_dependencies zero stage = []
get_stage_dependencies (suc fuel) stage = collect (get_stage_dependencies fuel) (deps_of stage) []

abbrev pub depth_bound : ℕ
depth_bound = 4

unfoldable pub absent : List String → List String → List String
absent selected [] = []
absent selected (dep ∷ deps) =
    let rest = absent selected deps in if elem dep selected then rest else dep ∷ rest

abbrev pub missing_for : List String → List String → List String
missing_for selected [] = []
missing_for selected (stage ∷ stages) =
    absent selected (get_stage_dependencies depth_bound stage) ++ missing_for selected stages

-- `_validate_stage_dependencies`
unfoldable pub validate_stage_dependencies : List String → List String
unfolding get_stage_dependencies absent
validate_stage_dependencies selected = missing_for selected selected

abbrev pub is_empty_list : List String → Bool
is_empty_list [] = true
is_empty_list (x ∷ xs) = false

-- the last loop of `_resolve_stage_selection`
unfoldable pub in_order : List String → List String → List String → List String
in_order [] all_stages seen = []
in_order (stage ∷ order) all_stages seen =
    let taken = in_order order all_stages (stage ∷ seen) in
    let passed = in_order order all_stages seen in
    if elem stage all_stages && not (elem stage seen) then stage ∷ taken else passed

-- `_resolve_stage_selection`, without the warning of `_warn_out_of_order`
unfoldable pub resolve_stage_selection :
    Option (List String) → Bool → Outcome SelectionError (List String)
unfolding validate_stage_dependencies in_order
resolve_stage_selection none auto_include_deps = ok stage_order
resolve_stage_selection (some selected) auto_include_deps =
    let missing = validate_stage_dependencies selected in
    if not (is_empty_list missing) && not auto_include_deps
    then raise (missing_dependencies missing)
    else ok (in_order stage_order (selected ++ missing) [])

unfoldable pub filter_specs : List String → List String → List String
filter_specs [] stage_filter = []
filter_specs (stage ∷ specs) stage_filter =
    let rest = filter_specs specs stage_filter in
    if elem stage stage_filter then stage ∷ rest else rest

-- `_create_stage_specs`, a spec by the name of its stage
unfoldable pub create_stage_specs : Option (List String) → List String
unfolding filter_specs
create_stage_specs none = stage_order
create_stage_specs (some stage_filter) = filter_specs stage_order stage_filter

abbrev resolved :
    Outcome SelectionError (Option (List String)) → Outcome SelectionError (List String)
resolved (raise e) = raise e
resolved (ok selected) = resolve_stage_selection selected true

abbrev filtered : Outcome SelectionError (List String) → Outcome SelectionError (List String)
filtered (raise e) = raise e
filtered (ok stages) = ok (create_stage_specs (some stages))

-- the stages that `run_stages` hands to the runner
unfoldable pub stages_of_run : Option Text → Outcome SelectionError (List String)
unfolding parse_stage_selection resolve_stage_selection create_stage_specs
stages_of_run selection = filtered (resolved (parse_stage_selection selection))

-- A completion ratio is a number of completed chunks over a number of chunks, and the threshold a
-- fraction; `ratio < threshold` is read by cross multiplication.
abbrev pub Ratio : Type 0
Ratio = ℕ × ℕ

unfoldable pub below : Ratio → Ratio → Bool
below ratio threshold = ltb (ratio.0 * threshold.1) (threshold.0 * ratio.1)

-- `_detect_stage_completion`: `completed` counts the chunks with the stage's status
unfoldable pub detect_stage_completion : ℕ → (String → ℕ) → String → Ratio
detect_stage_completion total completed stage = elim total [
  | zero ↦ (0, 1)
  | suc n ↦ (completed stage, suc n)
]

abbrev incomplete_in : (String → Ratio) → Ratio → List String → List String
incomplete_in ratios threshold [] = []
incomplete_in ratios threshold (stage ∷ order) =
    let rest = incomplete_in ratios threshold order in
    if below (ratios stage) threshold then stage ∷ rest else rest

-- `_get_stages_to_run`
unfoldable pub get_stages_to_run : (String → Ratio) → Ratio → List String
get_stages_to_run ratios threshold = incomplete_in ratios threshold stage_order

-- `run_with_resume`: `ok []` is the return before any stage is run
unfoldable pub run_with_resume : (String → Ratio) → Ratio → Outcome SelectionError (List String)
unfolding get_stages_to_run stages_of_run
run_with_resume ratios threshold =
    let stages_to_run = get_stages_to_run ratios threshold in
    if is_empty_list stages_to_run
    then ok []
    else stages_of_run (some (join b',' (map codes stages_to_run)))
