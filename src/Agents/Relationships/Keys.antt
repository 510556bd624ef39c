-- ===== src/Agents/Relationships/Keys.antt =====
-- Reading a key back into its three names.
use concept_microservice.Prelude.{
  ℕ, suc, ◌+◌, ◌≤◌, Bool, true, false, ◌||◌, none, some, List, [], ◌∷◌, ◌++◌, ◌≡◌, refl, ap, ◌∙◌,
  length, inl, inr, ◌==◌, arith, Bool-cases, if◌then◌else◌,
}
use concept_microservice.Prelude.Effect.{raise}
use concept_microservice.Text.{
  Text, has_char, lower, split, split_char, push, lstrip, rstrip, keep_unless_blank,
}
use concept_microservice.Agents.Groups.{Relationship, Instance, normalized, key_of}
use concept_microservice.Agents.Relationships.{
  bad_key, three_parts, parse_key, Services, with_names, resolve_relationship_group,
}

-- how often the character stands in the text
abbrev count_char : ℕ → Text → ℕ
count_char c [] = 0
count_char c (a ∷ s) = let rest = count_char c s in if a == c then suc rest else rest

true_not_false : ¬ (true ≡ false)
true_not_false h = cc

or_false : (a b : Bool) → (a || b) ≡ false → (a ≡ false) × (b ≡ false)
or_false false b h = (refl, h)
or_false true b h = absurd (true_not_false h)

eq_refl : (c : ℕ) → (c == c) ≡ true
eq_refl c = ground arith

length-push : (a : ℕ) (words : List Text) → 1 ≤ length words → length (push a words) ≡ length words
length-push a [] h = absurd (omega (arith, h))
length-push a (w ∷ ws) h = refl

length-split : (c : ℕ) (s : Text) → length (split c s) ≡ suc (count_char c s)
length-split c [] = refl
length-split c (a ∷ s) = elim (Bool-cases (a == c)) [
  | inl e ↦ rw e (ap suc (length-split c s))
  | inr e ↦ rw e (length-push a (split c s) (omega (arith, length-split c s)) ∙ length-split c s)
]

count-append : (c : ℕ) (s t : Text) → count_char c (s ++ t) ≡ count_char c s + count_char c t
count-append c [] t = omega arith
count-append c (a ∷ s) t = ground (arith, count-append c s t)

has_char-count : (c : ℕ) (s : Text) → has_char c s ≡ true → 1 ≤ count_char c s
has_char-count c [] h = cc
has_char-count c (a ∷ s) h = ground (arith, has_char-count c s)

split-without : (c : ℕ) (s : Text) → has_char c s ≡ false → split c s ≡ s ∷ []
split-without c [] h = refl
split-without c (a ∷ s) h =
    let (first, rest) = or_false (a == c) (has_char c s) h in
    ap (λ b. split_char b a (split c s)) first ∙ ap (push a) (split-without c s rest)

split-append : (c : ℕ) (s t : Text) → has_char c s ≡ false → split c (s ++ c ∷ t) ≡ s ∷ split c t
split-append c [] t h = ap (λ b. split_char b c (split c t)) (eq_refl c)
split-append c (a ∷ s) t h =
    let (first, rest) = or_false (a == c) (has_char c s) h in
    ap (λ b. split_char b a (split c (s ++ c ∷ t))) first ∙ ap (push a) (split-append c s t rest)

three_parts-long : (parts : List Text) → 4 ≤ length parts → three_parts parts ≡ none
three_parts-long [] h = cc
three_parts-long (s ∷ []) h = absurd (omega (arith, h))
three_parts-long (s ∷ o ∷ []) h = absurd (omega (arith, h))
three_parts-long (s ∷ o ∷ p ∷ []) h = absurd (omega (arith, h))
three_parts-long (s ∷ o ∷ p ∷ q ∷ rest) h = refl

-- the key of three names
abbrev joined : Text → Text → Text → Text
joined s o p = s ++ b':' ∷ (o ++ b':' ∷ p)

abbrev colon : Text → Bool
colon s = has_char b':' s

parse_key-joined :
    (s o p : Text)
    → parse_key (joined s o p) ≡ (if colon s || (colon o || colon p) then none else some (s, o, p))
unfolding parse_key
parse_key-joined s o p = elim (Bool-cases (colon s || (colon o || colon p))) [
  | inl e ↦ rw e (three_parts-long (split b':' (joined s o p)) (many e))
  | inr e ↦ rw e (ap three_parts (exactly e))
]
  where
    many : (colon s || (colon o || colon p)) ≡ true → 4 ≤ length (split b':' (joined s o p))
    many e = ground (
      arith,
      length-split b':' (joined s o p),
      count-append b':' s (b':' ∷ (o ++ b':' ∷ p)),
      count-append b':' o (b':' ∷ p),
      has_char-count b':' s,
      has_char-count b':' o,
      has_char-count b':' p,
    )

    exactly : (colon s || (colon o || colon p)) ≡ false → split b':' (joined s o p) ≡ s ∷ o ∷ p ∷ []
    exactly e =
        let (first, rest) = or_false (colon s) (colon o || colon p) e in
        let (second, third) = or_false (colon o) (colon p) rest in
        split-append b':' s (o ++ b':' ∷ p) first
        ∙ ap (s ∷◌) (split-append b':' o p second ∙ ap (o ∷◌) (split-without b':' p third))

-- normalizing a name neither adds nor takes a colon
colon-lower : (s : Text) → colon (lower s) ≡ colon s
colon-lower [] = refl
colon-lower (c ∷ s) = ground (arith, colon-lower s)

colon-lstrip : (s : Text) → colon (lstrip s) ≡ colon s
colon-lstrip [] = refl
colon-lstrip (c ∷ s) = ground (arith, colon-lstrip s)

colon-keep : (c : ℕ) (s : Text) → colon (keep_unless_blank c s) ≡ ((c == b':') || colon s)
colon-keep c [] = ground arith
colon-keep c (a ∷ s) = ground arith

colon-rstrip : (s : Text) → colon (rstrip s) ≡ colon s
colon-rstrip [] = refl
colon-rstrip (c ∷ s) = colon-keep c (rstrip s) ∙ ap ((c == b':') ||◌) (colon-rstrip s)

colon-normalized : (s : Text) → colon (normalized s) ≡ colon s
colon-normalized s = colon-lstrip (rstrip (lower s)) ∙ colon-rstrip (lower s) ∙ colon-lower s

-- a colon in one of the names
abbrev pub has_colon : Relationship → Bool
has_colon r = colon r.source_name || (colon r.target_name || colon r.relation)

-- The key of a relationship reads back as its three normalized names if none of its names has a
-- colon, and does not read at all if one has.
pub parse_key-key_of :
    (r : Relationship)
    → parse_key (key_of r) ≡ (
        if has_colon r
        then none
        else some (normalized r.source_name, normalized r.target_name, normalized r.relation))
parse_key-key_of r =
    parse_key-joined (normalized r.source_name) (normalized r.target_name) (normalized r.relation)
    ∙ λ i.
        if colon-normalized r.source_name i
          || (colon-normalized r.target_name i || colon-normalized r.relation i)
        then none
        else some (normalized r.source_name, normalized r.target_name, normalized r.relation)

-- then the group of the key is left out with an error
resolve_relationship_group-colon :
    (services : Services) (r : Relationship) (x : Instance) (xs : List Instance)
    (ids : List (Text × Text))
    → has_colon r ≡ true
    → resolve_relationship_group services (key_of r) (x ∷ xs) ids ≡ raise bad_key
unfolding resolve_relationship_group
resolve_relationship_group-colon services r x xs ids h =
    ap (λ names. with_names services names x xs ids)
      (parse_key-key_of r
        ∙ ap
            (λ b.
              if b
              then none
              else some (normalized r.source_name, normalized r.target_name, normalized r.relation))
            h)
