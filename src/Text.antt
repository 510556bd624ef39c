-- ===== src/Text.antt =====
-- The methods of `str` that the stage selection calls, over lists of code points. Whitespace and
-- letter case are those of ASCII.
use Prim.Native.Char.{code}
use concept_microservice.Prelude.{
  ℕ, ◌+◌, ◌-◌, ◌*◌, ℤ, pos, negsuc, String, Bool, true, false, ◌&&◌, ◌||◌, Option, none, some, List,
  [], ◌∷◌, ◌++◌, ◌==◌, leb, if◌then◌else◌, map,
}

abbrev pub Text : Type 0
Text = List ℕ

abbrev pub codes : String → Text
codes String.[] = []
codes (String.◌∷◌ c s) = code c ∷ codes s

abbrev pub text_eq : Text → Text → Bool
text_eq [] [] = true
text_eq (a ∷ s) (b ∷ t) = a == b && text_eq s t
text_eq s t = false

abbrev pub is_empty : Text → Bool
is_empty [] = true
is_empty (c ∷ s) = false

abbrev pub has_char : ℕ → Text → Bool
has_char c [] = false
has_char c (a ∷ s) = a == c || has_char c s

abbrev pub is_space : ℕ → Bool
is_space c = c == 32 || (leb 9 c && leb c 13 || leb 28 c && leb c 31)

abbrev pub lstrip : Text → Text
lstrip [] = []
lstrip (c ∷ s) = if is_space c then lstrip s else c ∷ s

abbrev pub keep_unless_blank : ℕ → Text → Text
keep_unless_blank c rest = if is_space c && is_empty rest then [] else c ∷ rest

abbrev pub rstrip : Text → Text
rstrip [] = []
rstrip (c ∷ s) = keep_unless_blank c (rstrip s)

abbrev pub strip : Text → Text
strip s = lstrip (rstrip s)

abbrev pub lower : Text → Text
lower = map (λ c. if leb b'A' c && leb c b'Z' then c + 32 else c)

-- s.startswith(prefix) and s.endswith(suffix)
abbrev pub starts_with : Text → Text → Bool
starts_with s [] = true
starts_with [] (p ∷ prefix) = false
starts_with (c ∷ s) (p ∷ prefix) = c == p && starts_with s prefix

abbrev pub ends_with : Text → Text → Bool
ends_with [] suffix = is_empty suffix
ends_with (c ∷ s) suffix = text_eq (c ∷ s) suffix || ends_with s suffix

abbrev pub push : ℕ → List Text → List Text
push c [] = (c ∷ []) ∷ []
push c (w ∷ ws) = (c ∷ w) ∷ ws

abbrev pub split_char : Bool → ℕ → List Text → List Text
split_char true a words = [] ∷ words
split_char false a words = push a words

-- s.split(c) for one character
abbrev pub split : ℕ → Text → List Text
split c [] = [] ∷ []
split c (a ∷ s) = split_char (a == c) a (split c s)

-- c.join(words)
abbrev pub join : ℕ → List Text → Text
join c [] = []
join c (w ∷ []) = w
join c (w ∷ v ∷ ws) = w ++ c ∷ join c (v ∷ ws)

-- `digits seen n s`: the digits of `s` behind the number `n`, `seen` telling that the last
-- character was a digit; one underscore may stand between two digits
abbrev digits : Bool → ℕ → Text → Option ℕ
digits seen n [] = if seen then some n else none
digits seen n (c ∷ s) =
    let next = digits true (n * 10 + (c - 48)) s in
    let skip = digits false n s in
    if leb 48 c && leb c 57 then next else if c == b'_' && seen then skip else none

abbrev negate : Option ℕ → Option ℤ
negate none = none
negate (some n) = if n == 0 then some (pos 0) else some (negsuc (n - 1))

abbrev signless : Option ℕ → Option ℤ
signless none = none
signless (some n) = some (pos n)

abbrev signed : Text → Option ℤ
signed [] = none
signed (c ∷ s) =
    if c == b'-'
    then negate (digits false 0 s)
    else if c == b'+'
    then signless (digits false 0 s)
    else signless (digits false 0 (c ∷ s))

-- int(s); `none` is the ValueError
abbrev pub to_int : Text → Option ℤ
to_int s = signed (strip s)
