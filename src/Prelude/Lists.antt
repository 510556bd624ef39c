-- ===== src/Prelude/Lists.antt =====
-- Lists measured by native numbers, association lists keyed by texts, and the tests on them.
use Prim.Native.Nat.{ℕ, zero, suc, ◌+◌, ◌-◌, ◌≤◌}
use Prim.Native.String.{String}
use mathlib.Core.Path.{◌≡◌, refl, ap}
use mathlib.Core.Bool.{Bool, false, ◌||◌}
use mathlib.Core.List.{List, [], ◌∷◌, ◌++◌}
use mathlib.Core.Option.{Option, none, some}
use native.Mathlib.Omega.{arith}
use text.Mathlib.Text.{◌==◌ as str_eq}
use text.Mathlib.TextEquality.{eq_iff}
use concept_microservice.Prelude.Tests.{if◌then◌else◌}

module _ {ℓ} {A : Type ℓ} where
  abbrev pub length : List A → ℕ
  length [] = 0
  length (x ∷ xs) = suc (length xs)

  abbrev pub get_elem? : List A → ℕ → Option A
  get_elem? [] i = none
  get_elem? (x ∷ xs) zero = some x
  get_elem? (x ∷ xs) (suc i) = get_elem? xs i

  -- xs[:n] and xs[n:]
  abbrev pub take : ℕ → List A → List A
  take zero xs = []
  take (suc n) [] = []
  take (suc n) (x ∷ xs) = x ∷ take n xs

  abbrev pub drop : ℕ → List A → List A
  drop zero xs = xs
  drop (suc n) [] = []
  drop (suc n) (x ∷ xs) = drop n xs

  pub take-append-drop : (n : ℕ) (xs : List A) → take n xs ++ drop n xs ≡ xs
  take-append-drop zero xs = refl
  take-append-drop (suc n) [] = refl
  take-append-drop (suc n) (x ∷ xs) = ap (x ∷◌) (take-append-drop n xs)

  pub length-take : (n : ℕ) (xs : List A) → length (take n xs) ≤ n
  length-take zero xs = omega arith
  length-take (suc n) [] = omega arith
  length-take (suc n) (x ∷ xs) = omega (arith, length-take n xs)

  pub length-drop : (n : ℕ) (xs : List A) → length (drop n xs) ≡ length xs - n
  length-drop zero xs = omega arith
  length-drop (suc n) [] = omega arith
  length-drop (suc n) (x ∷ xs) = omega (arith, length-drop n xs)

  pub length-append : (xs ys : List A) → length (xs ++ ys) ≡ length xs + length ys
  length-append [] ys = omega arith
  length-append (x ∷ xs) ys = omega (arith, length-append xs ys)

  -- every member of the list, with its proof
  abbrev pub All {κ} : (A → Type κ) → List A → Type κ
  All P [] = Unit
  All P (x ∷ xs) = P x × All P xs

  pub All-map {κ} : {P Q : A → Type κ} (xs : List A) → ((x : A) → P x → Q x) → All P xs → All Q xs
  All-map [] f h = tt
  All-map (x ∷ xs) f h = (f x h.0, All-map xs f h.1)

  pub All-append {κ} : (P : A → Type κ) (xs ys : List A) → All P xs → All P ys → All P (xs ++ ys)
  All-append P [] ys h k = k
  All-append P (x ∷ xs) ys h k = (h.0, All-append P xs ys h.1 k)

-- `xs` is `ys` with entries left out
pub data IsSublist {ℓ} {A : Type ℓ} : List A → List A → Type ℓ where
  nothing : IsSublist [] []
  skip : {xs ys : List A} (y : A) → IsSublist xs ys → IsSublist xs (y ∷ ys)
  keep : {xs ys : List A} (y : A) → IsSublist xs ys → IsSublist (y ∷ xs) (y ∷ ys)

-- `x in xs` for a list of texts
abbrev pub elem : String → List String → Bool
elem x [] = false
elem x (y ∷ ys) = str_eq x y || elem x ys

pub elem-append : (x : String) (xs ys : List String) → elem x (xs ++ ys) ≡ (elem x xs || elem x ys)
elem-append x [] ys = refl
elem-append x (y ∷ xs) ys = ground (arith, elem-append x xs ys)

-- A Python dict with string keys, in insertion order.
module _ {ℓ} {V : Type ℓ} where
  -- d.get(k)
  unfoldable pub lookup : String → List (String × V) → Option V
  lookup k [] = none
  lookup k ((j, v) ∷ m) = if str_eq j k then some v else lookup k m

  -- d[k] = v, which keeps the place of a key that is there
  unfoldable pub insert : String → V → List (String × V) → List (String × V)
  insert k v [] = (k, v) ∷ []
  insert k v ((j, w) ∷ m) = if str_eq j k then (j, v) ∷ m else (j, w) ∷ insert k v m

  -- what a write leaves at the key `asked`
  pub lookup-insert :
      (written asked : String) (new : V) (d : List (String × V))
      → lookup asked (insert written new d)
        ≡ (if str_eq written asked then some new else lookup asked d)
  unfolding insert lookup
  lookup-insert written asked new [] = refl
  lookup-insert written asked new ((there, old) ∷ rest) = ground (
    arith,
    lookup-insert written asked new rest,
    eq_iff there written,
    eq_iff there asked,
    eq_iff written asked,
  )

  -- del d[k], d.pop(k)
  unfoldable pub without : String → List (String × V) → List (String × V)
  without k [] = []
  without k ((j, v) ∷ m) = let rest = without k m in if str_eq j k then rest else (j, v) ∷ rest

  pub lookup-without :
      (k j : String) (m : List (String × V))
      → lookup j (without k m) ≡ (if str_eq k j then none else lookup j m)
  unfolding lookup without
  lookup-without k j [] = ground arith
  lookup-without k j ((i, v) ∷ m) =
      ground (arith, lookup-without k j m, eq_iff i k, eq_iff i j, eq_iff k j)

  -- an entry at the end is seen where the key is not seen before
  pub lookup-concat :
      (k j : String) (v : V) (m : List (String × V))
      → lookup j (m ++ (k, v) ∷ [])
        ≡ elim (lookup j m) [ some w ↦ some w | none ↦ if str_eq k j then some v else none ]
  unfolding lookup
  lookup-concat k j v [] = refl
  lookup-concat k j v ((i, w) ∷ m) = ground (arith, lookup-concat k j v m)

  pub length-without : (k : String) (m : List (String × V)) → length (without k m) ≤ length m
  unfolding without
  length-without k [] = omega arith
  length-without k ((j, v) ∷ m) = ground (arith, length-without k m)

  pub length-without-some :
      (k : String) (v : V) (m : List (String × V))
      → lookup k m ≡ some v
      → length (without k m) + 1 ≤ length m
  unfolding lookup without
  length-without-some k v [] h = cc
  length-without-some k v ((j, w) ∷ m) h =
      ground (arith, length-without-some k v m, length-without k m)

  -- no key stands twice
  abbrev pub Distinct : List (String × V) → Type ℓ
  Distinct [] = Unit
  Distinct ((k, v) ∷ m) = (lookup k m ≡ none) × Distinct m

  pub Distinct-without : (k : String) (m : List (String × V)) → Distinct m → Distinct (without k m)
  unfolding lookup without
  Distinct-without k [] d = tt
  Distinct-without k ((j, v) ∷ m) d = ground (arith, Distinct-without k m d.1, lookup-without k j m)

  pub Distinct-concat :
      (k : String) (v : V) (m : List (String × V))
      → lookup k m ≡ none
      → Distinct m
      → Distinct (m ++ (k, v) ∷ [])
  unfolding lookup
  Distinct-concat k v [] h d = (refl, tt)
  Distinct-concat k v ((j, w) ∷ m) h d =
      ground (arith, Distinct-concat k v m, lookup-concat k j v m, eq_iff j k, eq_iff k j)
