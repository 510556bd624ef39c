-- ===== src/Histogram/Percentile.antt =====
-- Where a percentile lies among the observations.
use native.Mathlib.Nat.{mul-le-mul_left, mul-le-mul_right, div-mul-le_self, lt-div-mul-add}
use concept_microservice.Prelude.{
  ℕ, zero, suc, ◌+◌, ◌-◌, ◌*◌, ◌/◌, ◌≤◌, ◌<◌, Bool, true, false, List, [], ◌∷◌, ◌≡◌, refl, ap,
  length, get_elem?, leb, ltb, arith, Bool-cases, inl, inr, if◌then◌else◌,
}
use concept_microservice.Histogram.{
  Histogram, Labels, make_key, found, insert_value, sorted, index_of, value_or_0, percentile,
}

abbrev pub count : (ℕ → Bool) → List ℕ → ℕ
count test [] = 0
count test (x ∷ xs) = let n = count test xs in if test x then suc n else n

count-insert_value :
    (test : ℕ → Bool) (x : ℕ) (ys : List ℕ) → count test (insert_value x ys) ≡ count test (x ∷ ys)
count-insert_value test x [] = refl
count-insert_value test x (y ∷ ys) = ground (arith, count-insert_value test x ys)

count-sorted : (test : ℕ → Bool) (xs : List ℕ) → count test (sorted xs) ≡ count test xs
count-sorted test [] = refl
count-sorted test (x ∷ xs) =
    ground (arith, count-insert_value test x (sorted xs), count-sorted test xs)

length-insert_value : (x : ℕ) (ys : List ℕ) → length (insert_value x ys) ≡ suc (length ys)
length-insert_value x [] = refl
length-insert_value x (y ∷ ys) = ground (arith, length-insert_value x ys)

length-sorted : (xs : List ℕ) → length (sorted xs) ≡ length xs
length-sorted [] = refl
length-sorted (x ∷ xs) = omega (arith, length-insert_value x (sorted xs), length-sorted xs)

abbrev Ordered : ℕ → List ℕ → Type 0
Ordered lo [] = Unit
Ordered lo (x ∷ xs) = (lo ≤ x) × Ordered x xs

Ordered-insert_value :
    (lo x : ℕ) (ys : List ℕ) → lo ≤ x → Ordered lo ys → Ordered lo (insert_value x ys)
Ordered-insert_value lo x [] h o = (h, tt)
Ordered-insert_value lo x (y ∷ ys) h o = elim (Bool-cases (leb x y)) [
  | inl e ↦ rw e (h, (ground (arith, e), o.1))
  | inr e ↦ rw e (o.0, Ordered-insert_value y x ys (ground (arith, e)) o.1)
]

Ordered-sorted : (xs : List ℕ) → Ordered 0 (sorted xs)
Ordered-sorted [] = tt
Ordered-sorted (x ∷ xs) = Ordered-insert_value 0 x (sorted xs) (omega arith) (Ordered-sorted xs)

none_below : (v lo : ℕ) (xs : List ℕ) → v ≤ lo → Ordered lo xs → count (λ x. ltb x v) xs ≡ 0
none_below v lo [] h o = refl
none_below v lo (x ∷ xs) h o =
    let rest = none_below v x xs (omega (arith, h, o.0)) o.1 in ground (arith, rest, h, o.0)

count-length : (test : ℕ → Bool) (xs : List ℕ) → count test xs ≤ length xs
count-length test [] = omega arith
count-length test (x ∷ xs) = ground (arith, count-length test xs)

-- at most `i` values are below the one at index `i`, and at most those behind it above
at_index :
    (lo i : ℕ) (xs : List ℕ)
    → Ordered lo xs
    → i < length xs
    → (lo ≤ value_or_0 (get_elem? xs i))
      × (count (λ x. ltb x (value_or_0 (get_elem? xs i))) xs ≤ i)
      × (count (λ x. ltb (value_or_0 (get_elem? xs i)) x) xs + suc i ≤ length xs)
at_index lo i [] o h = absurd (omega (arith, h))
at_index lo zero (x ∷ xs) o h = (
  o.0,
  ground (arith, none_below x x xs (omega arith) o.1),
  ground (arith, count-length (λ y. ltb x y) xs),
)
at_index lo (suc i) (x ∷ xs) o h =
    let (least, below, above) = at_index x i xs o.1 (omega (arith, h)) in
    (omega (arith, least, o.0), ground (arith, below), ground (arith, least, above))

-- an index that is the floor of `n * p / q`
floor_rank :
    (n p q i below above : ℕ)
    → i * q ≤ n * p
    → n * p < i * q + q
    → below ≤ i
    → above + suc i ≤ n
    → (below * q ≤ n * p) × (above * q + n * p ≤ n * q)
floor_rank n p q i below above low high b a =
    (omega (arith, mul-le-mul_right q b, low), omega (arith, mul-le-mul_right q a, high))

-- an index that is the last because the floor is beyond it
last_rank :
    (n p q below above : ℕ)
    → n * q ≤ n * p
    → p ≤ q
    → below ≤ n
    → above ≤ 0
    → (below * q ≤ n * p) × (above * q + n * p ≤ n * q)
last_rank n p q below above full hp b a = (
  omega (arith, mul-le-mul_right q b, full),
  omega (arith, mul-le-mul_right q a, mul-le-mul_left n hp),
)

rank :
    (n p q below above : ℕ)
    → 1 ≤ q
    → p ≤ q
    → below ≤ index_of n p q
    → above + suc (index_of n p q) ≤ n
    → (below * q ≤ n * p) × (above * q + n * p ≤ n * q)
rank n p q below above hq hp b a = picked (leb n (n * p / q)) refl b a
  where
    picked :
        (c : Bool)
        → leb n (n * p / q) ≡ c
        → below ≤ (if c then n - 1 else n * p / q)
        → above + suc (if c then n - 1 else n * p / q) ≤ n
        → (below * q ≤ n * p) × (above * q + n * p ≤ n * q)
    picked true e b a =
        let beyond : n ≤ n * p / q = ground (arith, e) in
        last_rank n p q below above
          (omega (arith, mul-le-mul_right q beyond, div-mul-le_self (n * p) q)) hp
          (omega (arith, b)) (omega (arith, a))
    picked false e b a =
        floor_rank n p q (n * p / q) below above (div-mul-le_self (n * p) q)
          (lt-div-mul-add {a = n * p} {b = q} (omega (arith, hq))) b a

index_of-length : (n p q : ℕ) → 1 ≤ n → index_of n p q < n
index_of-length n p q h = ground (arith, h)

-- With p at most 1, at most the share p of the observations is smaller than the percentile, and at
-- most the share 1 - p greater.
pub percentile-share :
    (p q : ℕ) (labels : Labels) (h : Histogram)
    → 1 ≤ q
    → p ≤ q
    → 1 ≤ length (found (make_key labels) h)
    → (count (λ x. ltb x (percentile p q labels h)) (found (make_key labels) h) * q
        ≤ length (found (make_key labels) h) * p)
      × (count (λ x. ltb (percentile p q labels h) x) (found (make_key labels) h) * q
            + length (found (make_key labels) h) * p
          ≤ length (found (make_key labels) h) * q)
unfolding percentile
percentile-share p q labels h hq hp used =
    let xs = found (make_key labels) h in
    let i = index_of (length (sorted xs)) p q in
    let v = value_or_0 (get_elem? (sorted xs) i) in
    let same : i ≡ index_of (length xs) p q = ap (λ n. index_of n p q) (length-sorted xs) in
    let (least, below, above) =
      at_index 0 i (sorted xs) (Ordered-sorted xs)
        (index_of-length (length (sorted xs)) p q (omega (arith, used, length-sorted xs))) in
    rank (length xs) p q (count (λ x. ltb x v) xs) (count (λ x. ltb v x) xs) hq hp
      (omega (arith, below, same, count-sorted (λ x. ltb x v) xs))
      (omega (arith, above, same, count-sorted (λ x. ltb v x) xs, length-sorted xs))
