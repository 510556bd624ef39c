-- ===== src/Histogram.antt =====
-- graph-worker/graphrag-service/src/lib/metrics/collectors.py: the class Histogram. Observations
-- are natural numbers, label values texts, a percentile p is a fraction, and an average is a sum
-- with the number of its terms.
pub mod Percentile
use concept_microservice.Prelude.{
  ℕ, zero, suc, ◌+◌, ◌-◌, ◌*◌, ◌/◌, min, max, Bool, true, false, ◌&&◌, ◌||◌, Option, none, some,
  List, [], ◌∷◌, ◌++◌, length, get_elem?, leb, ltb, ◌==◌, if◌then◌else◌,
}
use concept_microservice.Text.{Text, text_eq}

abbrev pub Labels : Type 0
Labels = List (Text × Text)

abbrev text_lt : Text → Text → Bool
text_lt s [] = false
text_lt [] (b ∷ t) = true
text_lt (a ∷ s) (b ∷ t) = ltb a b || a == b && text_lt s t

abbrev label_lt : Text × Text → Text × Text → Bool
label_lt (k, v) (l, w) = text_lt k l || text_eq k l && text_lt v w

abbrev insert_label : Text × Text → Labels → Labels
insert_label x [] = x ∷ []
insert_label x (y ∷ ys) =
    let rest = insert_label x ys in if label_lt y x then y ∷ rest else x ∷ y ∷ ys

-- `_make_key`: the items of the dict, sorted
abbrev pub make_key : Labels → Labels
make_key [] = []
make_key (x ∷ xs) = insert_label x (make_key xs)

abbrev key_eq : Labels → Labels → Bool
key_eq [] [] = true
key_eq ((k, v) ∷ ls) ((l, w) ∷ ms) = text_eq k l && (text_eq v w && key_eq ls ms)
key_eq ls ms = false

abbrev pub Histogram : Type 0
Histogram = List (Labels × List ℕ)

abbrev pub add_observation : Labels → ℕ → Histogram → Histogram
add_observation key value [] = (key, value ∷ []) ∷ []
add_observation key value ((k, values) ∷ rest) =
    if key_eq k key
    then (k, values ++ value ∷ []) ∷ rest
    else (k, values) ∷ add_observation key value rest

-- `observe`
unfoldable pub observe : ℕ → Labels → Histogram → Histogram
observe value labels h = add_observation (make_key labels) value h

abbrev pub found : Labels → Histogram → List ℕ
found key [] = []
found key ((k, values) ∷ rest) = if key_eq k key then values else found key rest

abbrev cleared : Labels → Histogram → Histogram
cleared key [] = []
cleared key ((k, values) ∷ rest) =
    if key_eq k key then (k, []) ∷ rest else (k, values) ∷ cleared key rest

-- `reset`
unfoldable pub reset : Option Labels → Histogram → Histogram
reset none h = []
reset (some labels) h = cleared (make_key labels) h

pub record Summary : Type 0 where
  pub count : ℕ
  pub sum : ℕ
  pub min : ℕ
  pub max : ℕ
  pub avg : ℕ × ℕ

abbrev pub sum_of : List ℕ → ℕ
sum_of [] = 0
sum_of (x ∷ xs) = x + sum_of xs

abbrev pub least : ℕ → List ℕ → ℕ
least x [] = x
least x (y ∷ ys) = least (min x y) ys

abbrev pub most : ℕ → List ℕ → ℕ
most x [] = x
most x (y ∷ ys) = most (max x y) ys

abbrev pub summary_of : List ℕ → Summary
summary_of [] = record { count = 0; sum = 0; min = 0; max = 0; avg = (0, 1) }
summary_of (x ∷ xs) = record {
  count = length (x ∷ xs);
  sum = sum_of (x ∷ xs);
  min = least x xs;
  max = most x xs;
  avg = (sum_of (x ∷ xs), length (x ∷ xs));
}

-- `summary`
unfoldable pub summary : Labels → Histogram → Summary
summary labels h = summary_of (found (make_key labels) h)

abbrev pub insert_value : ℕ → List ℕ → List ℕ
insert_value x [] = x ∷ []
insert_value x (y ∷ ys) = let rest = insert_value x ys in if leb x y then x ∷ y ∷ ys else y ∷ rest

-- `sorted(values)`
abbrev pub sorted : List ℕ → List ℕ
sorted [] = []
sorted (x ∷ xs) = insert_value x (sorted xs)

-- `int(len(values) * p)`, but the last index where it is beyond
abbrev pub index_of : ℕ → ℕ → ℕ → ℕ
index_of count p q = let i = count * p / q in if leb count i then count - 1 else i

abbrev pub value_or_0 : Option ℕ → ℕ
value_or_0 none = 0
value_or_0 (some v) = v

-- `percentile`, for p / q; an empty list of observations gives 0
unfoldable pub percentile : ℕ → ℕ → Labels → Histogram → ℕ
percentile p q labels h =
    let values = sorted (found (make_key labels) h) in
    value_or_0 (get_elem? values (index_of (length values) p q))
