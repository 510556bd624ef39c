-- ===== src/Api/Fields/Limits.antt =====
-- When a value is within the range and the options of its field.
use mathlib.Core.Option.{some-injective}
use mathlib.Core.Path.{subst}
use concept_microservice.Prelude.{
  false, not, ◌&&◌, pos, Option, none, some, String, Bool, true, ◌≡◌, refl, ◌↔◌, List, elem, arith,
}
use concept_microservice.Values.{Value, bool, int, real, str, arr, Items, nil, cons}
use concept_microservice.Api.Fields.{
  Number, less, as_number, under, over, option, in_range, every_option, in_options, Metadata,
}

-- the number that a value is, where it is an instance of int or float
pub data IsNumber : Value → Number → Type 0 where
  one : IsNumber (bool true) (pos 1, pos 0)
  none_at_all : IsNumber (bool false) (pos 0, pos 0)
  whole : (n : _) → IsNumber (int n) (n, pos 0)
  float : (m e : _) → IsNumber (real m e) (m, e)

-- a number is not below the minimum, if there is one, and not above the maximum, if there is one
abbrev pub WithinRange : Metadata → Value → Type 0
WithinRange metadata v =
    (x : Number)
    → IsNumber v x
    → ((least : Number) → metadata.minimum ≡ some least → less x least ≡ false)
      × ((most : Number) → metadata.maximum ≡ some most → less most x ≡ false)

abbrev pub EachOffered : List String → Items → Type 0
EachOffered options nil = Unit
EachOffered options (cons x xs) =
    (s : String) × (x ≡ str s) × (elem s options ≡ true) × EachOffered options xs

-- one of the options, or an array of them
pub data Offered (options : List String) : Value → Type 0 where
  one_of : (s : String) → elem s options ≡ true → Offered options (str s)
  some_of : (xs : Items) → EachOffered options xs → Offered options (arr xs)

abbrev pub WithinOptions : Metadata → Value → Type 0
WithinOptions metadata v =
    (options : List String) → metadata.options ≡ some options → Offered options v

under-none :
    (o : Option Number) (x : Number)
    → (under o x ≡ false) ↔ ((b : Number) → o ≡ some b → less x b ≡ false)
under-none none x = ((λ h b e. cc), λ h. refl)
under-none (some c) x = ((λ h b e. rw (← some-injective c b e) h), λ h. h c refl)

over-none :
    (o : Option Number) (x : Number)
    → (over o x ≡ false) ↔ ((b : Number) → o ≡ some b → less b x ≡ false)
over-none none x = ((λ h b e. cc), λ h. refl)
over-none (some c) x = ((λ h b e. rw (← some-injective c b e) h), λ h. h c refl)

IsNumber-as_number : {v : Value} {x : Number} → IsNumber v x → as_number v ≡ some x
IsNumber-as_number one = refl
IsNumber-as_number none_at_all = refl
IsNumber-as_number (whole n) = refl
IsNumber-as_number (float m e) = refl

as_number-IsNumber : (v : Value) (x : Number) → as_number v ≡ some x → IsNumber v x
as_number-IsNumber (bool true) x h = subst (IsNumber (bool true)) (some-injective _ x h) one
as_number-IsNumber (bool false) x h =
    subst (IsNumber (bool false)) (some-injective _ x h) none_at_all
as_number-IsNumber (int n) x h = subst (IsNumber (int n)) (some-injective _ x h) (whole n)
as_number-IsNumber (real m e) x h = subst (IsNumber (real m e)) (some-injective _ x h) (float m e)
as_number-IsNumber v x h = cc

in_range-none :
    (metadata : Metadata) (o : Option Number)
    → (in_range metadata o ≡ true) ↔ (
        (x : Number)
        → o ≡ some x
        → (under metadata.minimum x ≡ false) × (over metadata.maximum x ≡ false))
in_range-none metadata none = ((λ h x e. cc), λ h. refl)
in_range-none metadata (some y) = (
  (λ h x e. rw (← some-injective y x e) (and_not h)),
  λ h. let (least, most) = h y refl in rw (least, most) refl,
)
  where
    and_not : {a b : Bool} → (not a && not b) ≡ true → (a ≡ false) × (b ≡ false)
    and_not h = ground (arith, h)

pub in_range-WithinRange :
    (metadata : Metadata) (v : Value)
    → (in_range metadata (as_number v) ≡ true) ↔ WithinRange metadata v
in_range-WithinRange metadata v =
    let both = in_range-none metadata (as_number v) in
    (
      (λ h x is.
          let (least, most) = both.0 h x (IsNumber-as_number is) in
          ((under-none metadata.minimum x).0 least, (over-none metadata.maximum x).0 most)),
      (λ h. both.1 (λ x e.
          let (least, most) = h x (as_number-IsNumber v x e) in
          ((under-none metadata.minimum x).1 least, (over-none metadata.maximum x).1 most))),
    )

option-str :
    (options : List String) (x : Value)
    → option options x ≡ true
    → (s : String) × (x ≡ str s) × (elem s options ≡ true)
option-str options (str s) h = (s, refl, h)
option-str options x h = cc

every_option-EachOffered :
    (options : List String) (xs : Items) → (every_option options xs ≡ true) ↔ EachOffered options xs
every_option-EachOffered options nil = ground arith
every_option-EachOffered options (cons x xs) =
    let rest = every_option-EachOffered options xs in
    (
      (λ h.
          let (s, is, offered) = option-str options x (ground (arith, h)) in
          (s, is, offered, rest.0 (ground (arith, h)))),
      (λ h. let (s, is, offered, others) = h in rw (is, offered) (rest.1 others)),
    )

in_options-Offered :
    (options : List String) (v : Value) → (in_options (some options) v ≡ true) ↔ Offered options v
in_options-Offered options (arr xs) =
    let each = every_option-EachOffered options xs in
    ((λ h. some_of xs (each.0 h)), λ h. elim h [ some_of ys e ↦ each.1 e ])
in_options-Offered options (str s) = ((λ h. one_of s h), λ h. elim h [ one_of t e ↦ e ])
in_options-Offered options v = ((λ h. cc), λ h. elim h [ ])

pub in_options-WithinOptions :
    (o : Option (List String)) (v : Value)
    → (in_options o v ≡ true) ↔ ((options : List String) → o ≡ some options → Offered options v)
in_options-WithinOptions none v = ((λ h options e. cc), λ h. refl)
in_options-WithinOptions (some listed) v =
    let offered = in_options-Offered listed v in
    (
      (λ h options e. subst (λ os. Offered os v) (some-injective listed options e) (offered.0 h)),
      λ h. offered.1 (h listed refl),
    )
