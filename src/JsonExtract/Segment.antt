-- ===== src/JsonExtract/Segment.antt =====
-- json_extract/json_extract.go: strings.Split(path, "."), the expression `(\w+)\[(\d+)\]` with
-- FindStringSubmatch, and strconv.Atoi on the digits that it finds. The expression is not anchored:
-- what stands before and after the match is not looked at.
use utils_go.Base.{
  ℕ, ◌-◌, ◌^◌, Bool, false, ◌||◌, ◌&&◌, Option, none, some, List, [], ◌∷◌, leb, nat_beq,
  if◌then◌else◌,
}
use utils_go.Base.Text.{Text}
use utils_go.Base.Decimal.{is_digit, digits_value}

-- A byte put before the first part.
unfoldable pub push : ℕ → List Text → List Text
push c [] = (c ∷ []) ∷ []
push c (w ∷ ws) = (c ∷ w) ∷ ws

-- strings.Split(s, ".")
unfoldable pub split_dots : Text → List Text
unfolding push
split_dots [] = [] ∷ []
split_dots (c ∷ s) = let rest = split_dots s in if nat_beq c b'.' then [] ∷ rest else push c rest

-- strings.Contains(s, "[")
unfoldable pub contains_bracket : Text → Bool
contains_bracket [] = false
contains_bracket (c ∷ s) = nat_beq c b'[' || contains_bracket s

-- \w, with \d as a part
unfoldable pub is_word : ℕ → Bool
unfolding is_digit
is_word c = is_digit c || (leb b'a' c && leb c b'z') || (leb b'A' c && leb c b'Z') || nat_beq c b'_'

-- The longest prefix whose bytes pass the test, and the rest.
unfoldable pub span : (ℕ → Bool) → Text → Text × Text
span p [] = ([], [])
span p (c ∷ s) = let rest = span p s in if p c then (c ∷ rest.0, rest.1) else ([], c ∷ s)

-- `\]` behind the digits
unfoldable pub match_close : Text → Text → Text → Option (Text × Text)
match_close key [] after = none
match_close key (d ∷ ds) [] = none
match_close key (d ∷ ds) (c ∷ s) = if nat_beq c b']' then some (key, d ∷ ds) else none

-- `\[(\d+)\]` behind the word
unfoldable pub match_index : Text → Text → Option (Text × Text)
unfolding match_close is_digit span
match_index [] s = none
match_index (k ∷ ks) [] = none
match_index (k ∷ ks) (c ∷ s) =
    let digits = span is_digit s in
    if nat_beq c b'[' then match_close (k ∷ ks) digits.0 digits.1 else none

-- The expression at the start of the text. A shorter word would be followed by a word byte, not by
-- `[`, and fewer digits by a digit, not by `]`: only the longest ones can match.
unfoldable pub match_here : Text → Option (Text × Text)
unfolding match_index is_word span
match_here s = let word = span is_word s in match_index word.0 word.1

-- re.FindStringSubmatch(s): the two groups of the leftmost match.
unfoldable pub find_submatch : Text → Option (Text × Text)
unfolding match_here
find_submatch [] = none
find_submatch (c ∷ s) =
    let rest = find_submatch s in elim (match_here (c ∷ s)) [ some m ↦ some m | none ↦ rest ]

abbrev pub max_int : ℕ
max_int = 2 ^ 63 - 1

-- index, _ := strconv.Atoi(digits): out of range it is the largest int, and the error is dropped.
unfoldable pub atoi : Text → ℕ
unfolding digits_value
atoi digits = if leb (digits_value digits) max_int then digits_value digits else max_int
