-- ===== src/Agents/Descriptions/Budget.antt =====
-- How long the truncated descriptions are.
use concept_microservice.Prelude.{
  ℕ, suc, ◌+◌, ◌-◌, ◌*◌, ◌≤◌, not, ◌&&◌, List, [], ◌∷◌, ◌≡◌, refl, length, leb, ltb, take,
  length-take, length-append, arith, Bool-cases, inl, inr,
}
use concept_microservice.Text.{Text, codes, is_empty, join}
use concept_microservice.Agents.Descriptions.{
  estimate_tokens, split_sentences, score, sort_scored, insert_scored, last_part, select_sentences,
  joined_or_cut, truncate_descriptions_smartly,
}

abbrev size : List Text → ℕ
size [] = 0
size (s ∷ ss) = length s + size ss

length-join :
    (s : Text) (ss : List Text)
    → suc (length (join b' ' (s ∷ ss))) ≡ size (s ∷ ss) + length (s ∷ ss)
length-join s [] = omega arith
length-join s (t ∷ ss) =
    omega (arith, length-append s (b' ' ∷ join b' ' (t ∷ ss)), length-join t ss)

size-last_part :
    (remaining : ℕ) (s : Text)
    → (size (last_part remaining s) ≤ 4 * remaining + 3 * length (last_part remaining s))
      × (length (last_part remaining s) ≤ 1)
size-last_part remaining s =
    elim (Bool-cases (ltb 50 remaining && not (is_empty (take (remaining * 4) s)))) [
      | inl e ↦ rw e (
        omega (
          arith,
          length-append (take (remaining * 4) s) (codes "..."),
          length-take (remaining * 4) s,
        ),
        omega arith,
      )
      | inr e ↦ rw e (omega arith, omega arith)
    ]

-- each sentence is up to three characters longer than its tokens tell
size-select_sentences :
    (max_tokens current : ℕ) (ss : List Text)
    → current ≤ max_tokens
    → (size (select_sentences max_tokens current ss) + 4 * current
        ≤ 4 * max_tokens + 3 * length (select_sentences max_tokens current ss))
      × (length (select_sentences max_tokens current ss) ≤ length ss)
unfolding select_sentences
size-select_sentences max_tokens current [] h = (omega (arith, h), omega arith)
size-select_sentences max_tokens current (s ∷ ss) h =
    elim (Bool-cases (leb (current + estimate_tokens s) max_tokens)) [
      | inl e ↦ rw e (
          let fits : current + estimate_tokens s ≤ max_tokens = ground (arith, e) in
          let (small, few) =
            size-select_sentences max_tokens (current + estimate_tokens s) ss fits in
          (omega (arith, small), omega (arith, few)))
      | inr e ↦ rw e (
          let (small, few) = size-last_part (max_tokens - current) s in
          (omega (arith, small, h), omega (arith, few)))
    ]

length-insert_scored : (x : Text) (ys : List Text) → length (insert_scored x ys) ≡ suc (length ys)
length-insert_scored x [] = refl
length-insert_scored x (y ∷ ys) = elim (Bool-cases (leb (score y) (score x))) [
  | inl e ↦ rw e refl
  | inr e ↦ rw e (omega (arith, length-insert_scored x ys))
]

length-sort_scored : (xs : List Text) → length (sort_scored xs) ≡ length xs
length-sort_scored [] = refl
length-sort_scored (x ∷ xs) =
    omega (arith, length-insert_scored x (sort_scored xs), length-sort_scored xs)

length-joined_or_cut :
    (max_tokens n : ℕ) (text : Text) (selected : List Text)
    → size selected ≤ 4 * max_tokens + 3 * length selected
    → length selected ≤ n
    → length (joined_or_cut max_tokens text selected) ≤ 4 * (max_tokens + n) + 3
length-joined_or_cut max_tokens n text (s ∷ ss) small few =
    omega (arith, small, few, length-join s ss)
length-joined_or_cut max_tokens n text [] small few =
    elim (Bool-cases (ltb (max_tokens * 4) (length text))) [
      | inl e ↦ rw e (
          omega (
            arith,
            length-append (take (max_tokens * 4) text) (codes "..."),
            length-take (max_tokens * 4) text,
          ))
      | inr e ↦ rw e (
          omega (
            arith,
            length-append (take (max_tokens * 4) text) [],
            length-take (max_tokens * 4) text,
          ))
    ]

-- The estimate of the truncated text is above the budget by one token for each sentence of the
-- text at most.
pub truncate_descriptions_smartly-bound :
    (text : Text) (max_tokens : ℕ)
    → estimate_tokens (truncate_descriptions_smartly text max_tokens)
      ≤ max_tokens + length (split_sentences text)
unfolding truncate_descriptions_smartly
truncate_descriptions_smartly-bound text max_tokens =
    let sorted = sort_scored (split_sentences text) in
    let (small, few) = size-select_sentences max_tokens 0 sorted (omega arith) in
    omega (
      arith,
      length-joined_or_cut max_tokens (length (split_sentences text)) text
          (select_sentences max_tokens 0 sorted) (omega (arith, small))
          (omega (arith, few, length-sort_scored (split_sentences text))),
    )
