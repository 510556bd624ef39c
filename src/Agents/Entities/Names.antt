-- ===== src/Agents/Entities/Names.antt =====
-- The name that a group of entities is given.
use native.Mathlib.Nat.{mul-le-mul_right}
use concept_microservice.Prelude.{
  ℕ, suc, ◌+◌, ◌*◌, ◌≤◌, ◌<◌, ◌⊎◌, Bool, false, List, [], ◌∷◌, ◌≡◌, refl, sym, ◌∙◌, length, ltb,
  ◌==◌, some, ◌||◌, ◌&&◌, All, All-map, arith, inl, inr,
}
use mathlib.Core.Path.{subst}
use concept_microservice.Text.{Text}
use concept_microservice.Agents.Groups.{Groups}
use concept_microservice.Agents.Groups.Members.{members, Separate, text_eq_iff}
use concept_microservice.Agents.Entities.{
  Entity, tally, greatest, sum, more_used, best_name, determine_canonical_name,
}
use concept_microservice.Agents.Groups.Lookup.{Found, All-Found, All-members}
use concept_microservice.Agents.Entities.Choice.{
  confidences, members-tally, Separate-tally, greatest-All, greatest-top,
}

-- the order of the counts, and of the sums for one count
abbrev more : List ℕ → List ℕ → Bool
more ns ms = ltb (length ms) (length ns) || length ns == length ms && ltb (sum ms) (sum ns)

less_times : (a b n : ℕ) → ltb (a * suc n) (b * suc n) ≡ ltb a b
less_times a b n = ground (
  arith,
  mul-le-mul_right {m = a} {n = b} (suc n),
  mul-le-mul_right {m = b} {n = a} (suc n),
  mul-le-mul_right {m = suc a} {n = b} (suc n),
)

-- for the same count, the averages are in the order of the sums
more_used-more : (g h : Text × List ℕ) → more_used g h ≡ more g.1 h.1
more_used-more (x, []) (y, []) = refl
more_used-more (x, []) (y, m ∷ ms) = ground arith
more_used-more (x, n ∷ ns) (y, []) = ground arith
more_used-more (x, n ∷ ns) (y, m ∷ ms) =
    ground (arith, less_times (m + sum ms) (n + sum ns) (length ns))

abbrev pub AtMost : List ℕ → List ℕ → Type 0
AtMost ms ns = (length ns < length ms) ⊎ ((length ns ≡ length ms) × (sum ns ≤ sum ms))

AtMost-empty : (ms : List ℕ) → AtMost ms []
AtMost-empty [] = inr (refl, omega arith)
AtMost-empty (m ∷ ms) = inl (omega arith)

AtMost-length : (ms ns : List ℕ) → AtMost ms ns → length ns ≤ length ms
AtMost-length ms ns h = ground (arith, h)

AtMost-more : (ns ms : List ℕ) → more ns ms ≡ false → AtMost ms ns
AtMost-more ns ms h = ground (arith, h)

abbrev best_of : Text × List ℕ → Groups ℕ → Text × List ℕ
best_of g gs = greatest more_used g gs

best_of-top : (g : Text × List ℕ) (gs : Groups ℕ) → All (λ x. AtMost (best_of g gs).1 x.1) (g ∷ gs)
best_of-top g gs =
    All-map (g ∷ gs)
      (λ x e. AtMost-more x.1 (best_of g gs).1 (sym (more_used-more x (best_of g gs)) ∙ e))
      (greatest-top more_used (λ x. more_used-more x x ∙ ground arith)
        (λ x y e. more_used-more y x ∙ ground (arith, e, more_used-more x y))
        (λ x y z d e.
          more_used-more x z ∙ ground (arith, d, e, more_used-more x y, more_used-more y z))
        g gs)

best_name-top :
    (groups : Groups ℕ) (key : Text)
    → Separate groups
    → 1 ≤ length (members key groups)
    → (name : Text) × (best_name groups ≡ some name)
      × (1 ≤ length (members name groups))
      × ((other : Text) → AtMost (members name groups) (members other groups))
best_name-top [] key h l = absurd (omega (arith, l))
best_name-top (g ∷ gs) key h l =
    let top : (other : Text) → AtMost (members (best_of g gs).0 (g ∷ gs)) (members other (g ∷ gs)) =
      λ other.
        subst (λ ns. AtMost ns (members other (g ∷ gs)))
          (sym (greatest-All (Found (g ∷ gs)) more_used g gs (All-Found (g ∷ gs) h)))
          (All-members (AtMost (best_of g gs).1) (g ∷ gs) other (AtMost-empty (best_of g gs).1)
            (best_of-top g gs)) in
    ((best_of g gs).0, refl, omega (arith, l, AtMost-length _ _ (top key)), top)

-- the confidences of the entities with the name
abbrev pub named : List Entity → Text → List ℕ
named entity_group name = confidences (λ e. e.name) name entity_group

-- The canonical name of a group that is not empty is the name of one of its entities; no name has
-- more entities, and none with as many has a higher sum of confidences, so a higher average.
pub determine_canonical_name-top :
    (e : Entity) (es : List Entity)
    → (name : Text) × (determine_canonical_name (e ∷ es) ≡ some name)
      × (1 ≤ length (named (e ∷ es) name))
      × ((other : Text) → AtMost (named (e ∷ es) name) (named (e ∷ es) other))
unfolding determine_canonical_name
determine_canonical_name-top e es =
    subst
      (λ found.
        (name : Text) × (best_name groups ≡ some name)
        × (1 ≤ length (found name))
        × ((other : Text) → AtMost (found name) (found other)))
      members_named
      (best_name-top groups e.name (Separate-tally (λ x. x.name) (e ∷ es) [] tt) (
        subst (λ found. 1 ≤ length (found e.name)) (sym members_named)
          (ground (arith, text_eq_iff e.name e.name))))
  where
    groups : Groups ℕ
    groups = tally (λ x. x.name) (e ∷ es) []

    members_named : (λ name. members name groups) ≡ named (e ∷ es)
    members_named = λ i name. members-tally (λ x. x.name) name (e ∷ es) [] i
