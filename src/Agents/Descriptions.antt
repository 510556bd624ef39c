-- ===== src/Agents/Descriptions.antt =====
-- graph-worker/graphrag-service/src/domain/graphrag/agents/entity_resolution.py: the resolution of
-- the descriptions of a group of entities. The similarity is an exact fraction, where the source
-- has a float. The language model, with its retries, is an argument.
pub mod Budget
pub mod Merged
use concept_microservice.Prelude.{
  ℕ, zero, suc, ◌+◌, ◌-◌, ◌*◌, ◌/◌, Bool, true, false, not, ◌&&◌, ◌||◌, Option, none, some, List,
  [], ◌∷◌, ◌++◌, length, map, leb, ltb, ◌==◌, if◌then◌else◌, take,
}
use concept_microservice.Prelude.Effect.{Outcome, ok, raise}
use concept_microservice.Text.{Text, codes, is_empty, is_space, strip, lower, join, split_char}
use concept_microservice.Agents.Entities.{member}

-- `seen`: the first text of each lower-case form
unfoldable pub keep_new : List Text → List Text → List Text
keep_new seen [] = []
keep_new seen (x ∷ xs) =
    let old = member (lower x) seen in
    let rest = keep_new (if old then seen else lower x ∷ seen) xs in if old then rest else x ∷ rest

-- `d.strip()` for each that is not blank
abbrev pub stripped : List Text → List Text
stripped [] = []
stripped (d ∷ ds) = let rest = stripped ds in if is_empty (strip d) then rest else strip d ∷ rest

abbrev pub split_words : Text → List Text
split_words [] = [] ∷ []
split_words (c ∷ s) = split_char (is_space c) c (split_words s)

abbrev filled : (Text → Bool) → List Text → List Text
filled test [] = []
filled test (w ∷ ws) = let rest = filled test ws in if test w then w ∷ rest else rest

-- text.split()
abbrev pub words : Text → List Text
words s = filled (λ w. not (is_empty w)) (split_words s)

-- `tokens`: the set of the words of more than two characters
abbrev pub tokens : Text → List Text
unfolding keep_new
tokens s = keep_new [] (filled (λ w. ltb 2 (length w)) (words (lower s)))

abbrev pub common : List Text → List Text → ℕ
common [] ys = 0
common (x ∷ xs) ys = let n = common xs ys in if member x ys then suc n else n

-- a sum of fractions, and how many there are
abbrev pub Total : Type 0
Total = ℕ × ℕ × ℕ

abbrev add_fraction : ℕ → ℕ → Total → Total
add_fraction a b (n, d, count) = (a * d + n * b, b * d, suc count)

-- the Jaccard similarity of two sets, added unless one of them is empty
abbrev pub add_pair : List Text → List Text → Total → Total
add_pair [] ys total = total
add_pair (x ∷ xs) [] total = total
add_pair (x ∷ xs) (y ∷ ys) total =
    let n = common (x ∷ xs) (y ∷ ys) in add_fraction n (length (x ∷ xs) + length (y ∷ ys) - n) total

abbrev pub add_pairs : List Text → List Text → Total → Total
unfolding tokens
add_pairs x [] total = total
add_pairs x (d ∷ ds) total = add_pairs x ds (add_pair x (tokens d) total)

abbrev pub similarities : List Text → Total → Total
similarities [] total = total
similarities (d ∷ ds) total = similarities ds (add_pairs (tokens d) ds total)

abbrev at_least_0_8 : Total → Bool
at_least_0_8 (n, d, zero) = false
at_least_0_8 (n, d, suc count) = leb (8 * (d * suc count)) (10 * n)

-- `_description_similarity(descriptions) >= 0.8`
unfoldable pub are_similar : List Text → Bool
are_similar [] = true
are_similar (d ∷ []) = true
are_similar (d ∷ e ∷ ds) = at_least_0_8 (similarities (d ∷ e ∷ ds) (0, 1, 0))

abbrev pub is_stop : ℕ → Bool
is_stop c = c == b'.' || (c == b'!' || c == b'?')

-- `re.split(r"[.!?]+", s)`, with an empty piece more between two stops that stand together
abbrev pub split_stops : Text → List Text
split_stops [] = [] ∷ []
split_stops (c ∷ s) = split_char (is_stop c) c (split_stops s)

abbrev pub sentences_of : List Text → List Text
sentences_of [] = []
sentences_of (d ∷ ds) = stripped (split_stops d) ++ sentences_of ds

-- ". ".join(sentences)
abbrev pub join_sentences : List Text → Text
join_sentences [] = []
join_sentences (s ∷ []) = s
join_sentences (s ∷ t ∷ rest) = s ++ codes ". " ++ join_sentences (t ∷ rest)

abbrev ends_in_stop : Text → Bool
ends_in_stop [] = false
ends_in_stop (c ∷ []) = is_stop c
ends_in_stop (c ∷ d ∷ s) = ends_in_stop (d ∷ s)

abbrev pub stopped : Text → Text
stopped s = if not (is_empty s) && not (ends_in_stop s) then s ++ codes "." else s

abbrev pub shortened : Text → Text
shortened s = if ltb 1200 (length s) then take 1197 s ++ codes "..." else s

-- `_merge_descriptions_locally`
unfoldable pub merge_descriptions_locally : List Text → Text
unfolding keep_new
merge_descriptions_locally descriptions =
    shortened (stopped (join_sentences (keep_new [] (sentences_of descriptions))))

-- `_estimate_tokens`
abbrev pub estimate_tokens : Text → ℕ
estimate_tokens text = length text / 4

-- the state of the loop over the characters
pub record Splitting : Type 0 where
  pub sentences : List Text
  pub current_sentence : Text

abbrev pub end_sentence : Splitting → List Text
end_sentence st =
    let sentence = strip st.current_sentence in
    if is_empty sentence then st.sentences else st.sentences ++ sentence ∷ []

abbrev pub add_char : ℕ → Splitting → Splitting
add_char c st =
    let longer : Splitting = record st { current_sentence = st.current_sentence ++ c ∷ [] } in
    if is_stop c then record { sentences = end_sentence longer; current_sentence = [] } else longer

abbrev pub add_chars : Text → Splitting → Splitting
add_chars [] st = st
add_chars (c ∷ s) st = add_chars s (add_char c st)

abbrev pub split_sentences : Text → List Text
split_sentences text =
    end_sentence (add_chars text (record { sentences = []; current_sentence = [] }))

abbrev pub score : Text → ℕ
score sentence = length sentence + length (words sentence) * 10

-- `scored_sentences.sort(...)`, which is stable in descending order
abbrev pub insert_scored : Text → List Text → List Text
insert_scored x [] = x ∷ []
insert_scored x (y ∷ ys) =
    let rest = insert_scored x ys in if leb (score y) (score x) then x ∷ y ∷ ys else y ∷ rest

abbrev pub sort_scored : List Text → List Text
sort_scored [] = []
sort_scored (x ∷ xs) = insert_scored x (sort_scored xs)

-- what is kept of the first sentence that does not fit
abbrev pub last_part : ℕ → Text → List Text
last_part remaining_tokens sentence =
    let truncated = take (remaining_tokens * 4) sentence in
    if ltb 50 remaining_tokens && not (is_empty truncated)
    then (truncated ++ codes "...") ∷ []
    else []

unfoldable pub select_sentences : ℕ → ℕ → List Text → List Text
select_sentences max_tokens current_tokens [] = []
select_sentences max_tokens current_tokens (s ∷ rest) =
    let next = current_tokens + estimate_tokens s in
    let selected = select_sentences max_tokens next rest in
    if leb next max_tokens then s ∷ selected else last_part (max_tokens - current_tokens) s

abbrev pub joined_or_cut : ℕ → Text → List Text → Text
joined_or_cut max_tokens text (s ∷ selected) = join b' ' (s ∷ selected)
joined_or_cut max_tokens text [] =
    take (max_tokens * 4) text ++ (if ltb (max_tokens * 4) (length text) then codes "..." else [])

-- `_truncate_descriptions_smartly`
unfoldable pub truncate_descriptions_smartly : Text → ℕ → Text
unfolding select_sentences
truncate_descriptions_smartly combined max_tokens =
    joined_or_cut max_tokens combined
      (select_sentences max_tokens 0 (sort_scored (split_sentences combined)))
