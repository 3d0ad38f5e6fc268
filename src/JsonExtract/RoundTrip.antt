-- ===== src/JsonExtract/RoundTrip.antt =====
-- json_extract/json_extract.go: a path that is printed from steps, and what ExtractValueFromJSON
-- finds along it.
use mathlib.Core.Option
use mathlib.Core.Path.{fun_ext}
use utils_go.Base.{
  ℕ, ◌≤◌, ◌≡◌, ◌≢◌, refl, ap, Option, none, some, true, false, Bool, List, [], ◌∷◌, ◌++◌, map,
  arith, nat_beq, All, get_elem?, Option-cases, inl, inr,
}
use utils_go.Base.Text.{Text, text_eq}
use utils_go.Base.GoMap.{lookup}
use utils_go.JsonExtract.Value.{Value, array, object, items_list, fields_map, Json}
use utils_go.JsonExtract.Segment.{
  push, split_dots, contains_bracket, is_word, span, match_close, match_index, match_here,
  find_submatch, atoi, max_int,
}
use utils_go.JsonExtract.Extract.{
  Error, not_a_map_before, Result, ok, error, get_key, get_index, array_segment, segment, ◌>>=◌,
  walk, extract_value_from_json,
}
use utils_go.Base.Decimal.{is_digit, decimal, decimal_digits, decimal-ne-nil, digits_value-decimal}

-- A step to the value of a key, or to an element of the array that the key has.
pub data Step : Type 0 where
  member : Text → Step
  element : Text → ℕ → Step

abbrev pub print_step : Step → Text
print_step (member key) = key
print_step (element key i) = key ++ (b'[' ∷ (decimal i ++ b']' ∷ []))

abbrev pub print_path : List Step → Text
print_path [] = []
print_path (s ∷ []) = print_step s
print_path (s ∷ t ∷ steps) = print_step s ++ b'.' ∷ print_path (t ∷ steps)

-- The keys that a path can name: no `.` and no `[` in the key of a member, a word before an index.
abbrev pub IsStep : Step → Type 0
IsStep (member key) = All (λ c. (nat_beq c b'.' ≡ false) × (nat_beq c b'[' ≡ false)) key
IsStep (element key i) = All (λ c. is_word c ≡ true) key × (key ≢ []) × (i ≤ max_int)

-- The value that a step leads to.
module _ {N : Type 0} where
  abbrev pub value_at : Text → Value N → Option (Value N)
  value_at key (object fs) = lookup key (fields_map fs)
  value_at key _ = none

  abbrev pub element_at : ℕ → Value N → Option (Value N)
  element_at i (array vs) = get_elem? (items_list vs) i
  element_at i _ = none

  abbrev pub follow_step : Step → Value N → Option (Value N)
  follow_step (member key) v = value_at key v
  follow_step (element key i) v = Option.bind (value_at key v) (element_at i)

  abbrev pub follow : List Step → Value N → Option (Value N)
  follow [] v = some v
  follow (s ∷ steps) v = Option.bind (follow_step s v) (follow steps)

  abbrev pub value_of : Result (Value N) → Option (Value N)
  value_of (ok v) = some v
  value_of (error e) = none

span-append :
    (p : ℕ → Bool) (w : Text) (c : ℕ) (s : Text)
    → All (λ d. p d ≡ true) w
    → p c ≡ false
    → span p (w ++ c ∷ s) ≡ (w, c ∷ s)
unfolding span
span-append p [] c s a h = ground arith
span-append p (d ∷ w) c s a h = rw (a.0, span-append p w c s a.1 h) refl

split_dots-append :
    (w s : Text)
    → All (λ c. nat_beq c b'.' ≡ false) w
    → split_dots (w ++ b'.' ∷ s) ≡ w ∷ split_dots s
unfolding split_dots push
split_dots-append [] s a = refl
split_dots-append (c ∷ w) s a = rw (a.0, split_dots-append w s a.1) refl

split_dots_whole : (w : Text) → All (λ c. nat_beq c b'.' ≡ false) w → split_dots w ≡ w ∷ []
unfolding split_dots push
split_dots_whole [] a = refl
split_dots_whole (c ∷ w) a = rw (a.0, split_dots_whole w a.1) refl

All-append : (P : ℕ → Type 0) (v w : Text) → All P v → All P w → All P (v ++ w)
All-append P [] w a b = b
All-append P (c ∷ v) w a b = (a.0, All-append P v w a.1 b)

All-map : (P Q : ℕ → Type 0) → ((c : ℕ) → P c → Q c) → (w : Text) → All P w → All Q w
All-map P Q f [] a = tt
All-map P Q f (c ∷ w) a = (f c a.0, All-map P Q f w a.1)

word_no_dot : (c : ℕ) → is_word c ≡ true → nat_beq c b'.' ≡ false
unfolding is_word is_digit
word_no_dot c h = ground arith

digit_no_dot : (c : ℕ) → is_digit c ≡ true → nat_beq c b'.' ≡ false
unfolding is_digit
digit_no_dot c h = ground arith

print_step_no_dot : (s : Step) → IsStep s → All (λ c. nat_beq c b'.' ≡ false) (print_step s)
print_step_no_dot (member key) good = All-map _ _ (λ c h. h.0) key good
print_step_no_dot (element key i) good =
    All-append _ key (b'[' ∷ (decimal i ++ b']' ∷ [])) (All-map _ _ word_no_dot key good.0) (
      refl,
      All-append _ (decimal i) (b']' ∷ []) (All-map _ _ digit_no_dot _ (decimal_digits i))
          (refl, tt),
    )

-- The parts of a printed path are the printed steps.
split_dots-print_path :
    (s : Step) (steps : List Step)
    → All IsStep (s ∷ steps)
    → split_dots (print_path (s ∷ steps)) ≡ map print_step (s ∷ steps)
split_dots-print_path s [] good = split_dots_whole (print_step s) (print_step_no_dot s good.0)
split_dots-print_path s (t ∷ steps) good =
    rw
      (
        split_dots-append (print_step s) (print_path (t ∷ steps)) (print_step_no_dot s good.0),
        split_dots-print_path t steps good.1,
      )
      refl

contains_bracket-append : (w s : Text) → contains_bracket (w ++ b'[' ∷ s) ≡ true
unfolding contains_bracket
contains_bracket-append [] s = refl
contains_bracket-append (c ∷ w) s = rw (contains_bracket-append w s) (ground arith)

contains_bracket_none :
    (w : Text) → All (λ c. nat_beq c b'[' ≡ false) w → contains_bracket w ≡ false
unfolding contains_bracket
contains_bracket_none [] a = refl
contains_bracket_none (c ∷ w) a = rw (a.0, contains_bracket_none w a.1) refl

find_submatch-here :
    (c : ℕ) (s : Text) (m : Text × Text)
    → match_here (c ∷ s) ≡ some m
    → find_submatch (c ∷ s) ≡ some m
unfolding find_submatch
find_submatch-here c s m h = rw (find_submatch, h) refl

match_here-print_step :
    (k d : ℕ) (ks ds : Text)
    → All (λ c. is_word c ≡ true) (k ∷ ks)
    → All (λ c. is_digit c ≡ true) (d ∷ ds)
    → match_here ((k ∷ ks) ++ (b'[' ∷ ((d ∷ ds) ++ b']' ∷ []))) ≡ some (k ∷ ks, d ∷ ds)
unfolding match_here match_index match_close
match_here-print_step k d ks ds word decimals =
    rw
      (
        match_here,
        span-append is_word (k ∷ ks) b'[' ((d ∷ ds) ++ b']' ∷ []) word refl,
        span-append is_digit (d ∷ ds) b']' [] decimals refl,
      )
      refl

-- The expression finds the word and the digits of a printed element.
find_submatch-print_step :
    (key digits : Text)
    → All (λ c. is_word c ≡ true) key
    → key ≢ []
    → All (λ c. is_digit c ≡ true) digits
    → digits ≢ []
    → find_submatch (key ++ (b'[' ∷ (digits ++ b']' ∷ []))) ≡ some (key, digits)
find_submatch-print_step [] digits word some_word decimals some_digits = elim (some_word refl) [ ]
find_submatch-print_step key [] word some_word decimals some_digits = elim (some_digits refl) [ ]
find_submatch-print_step (k ∷ ks) (d ∷ ds) word some_word decimals some_digits =
    find_submatch-here k _ _ (match_here-print_step k d ks ds word decimals)

atoi-decimal : (n : ℕ) → n ≤ max_int → atoi (decimal n) ≡ n
unfolding atoi
atoi-decimal n h = rw (digits_value-decimal n (omega arith)) (ground arith)

value_of-get_key :
    {N : Type 0} (otherwise : Error) (key : Text) (v : Value N)
    → value_of (get_key otherwise key v) ≡ value_at key v
unfolding get_key
value_of-get_key otherwise key (object fs) = elim (Option-cases (lookup key (fields_map fs))) [
  | inl absent ↦ rw (get_key, absent) refl
  | inr (w, found) ↦ rw (get_key, found) refl
]
value_of-get_key otherwise key _ = refl

value_of-get_index :
    {N : Type 0} (key : Text) (i : ℕ) (v : Value N) → value_of (get_index key i v) ≡ element_at i v
unfolding get_index
value_of-get_index key i (array vs) = elim (Option-cases (get_elem? (items_list vs) i)) [
  | inl absent ↦ rw (get_index, absent) refl
  | inr (w, found) ↦ rw (get_index, found) refl
]
value_of-get_index key i _ = refl

value_of-bind :
    {N : Type 0} (r : Result (Value N)) (f : Value N → Result (Value N))
    → value_of (do v ← r; f v) ≡ Option.bind (value_of r) (λ v. value_of (f v))
unfolding Option.bind
value_of-bind (ok v) f = refl
value_of-bind (error e) f = refl

value_of-segment :
    {N : Type 0} (s : Step) (v : Value N)
    → IsStep s
    → value_of (segment (print_step s) v) ≡ follow_step s v
unfolding segment array_segment
value_of-segment (member key) v good =
    rw (contains_bracket_none key (All-map _ _ (λ c h. h.1) key good)) (value_of-get_key _ key v)
value_of-segment (element key i) v good =
    rw
      (
        contains_bracket-append key (decimal i ++ b']' ∷ []),
        array_segment,
        find_submatch-print_step key (decimal i) good.0 good.1 (decimal_digits i)
            (decimal-ne-nil i),
        value_of-bind (get_key (not_a_map_before key) key v) (get_index key (atoi (decimal i))),
        value_of-get_key,
        atoi-decimal i good.2,
      )
      (ap (Option.bind (value_at key v)) (fun_ext (value_of-get_index key i)))

value_of-walk :
    {N : Type 0} (steps : List Step) (v : Value N)
    → All IsStep steps
    → value_of (walk (map print_step steps) v) ≡ follow steps v
unfolding walk
value_of-walk [] v good = refl
value_of-walk (s ∷ steps) v good =
    rw
      (
        value_of-bind (segment (print_step s) v) (walk (map print_step steps)),
        value_of-segment s v good.0,
      )
      (ap (Option.bind (follow_step s v)) (fun_ext (λ w. value_of-walk steps w good.1)))

-- ExtractValueFromJSON on the path printed from a non-empty list of steps, whose keys have no `.` and
-- no `[`, and are non-empty words where an index of at most 2 ^ 63 - 1 follows: its value is what
-- the steps lead to from the decoded text, and there is an error where they lead nowhere.
pub extract-print_path :
    (j : Json) (json_data : Text) (s : Step) (steps : List Step)
    → All IsStep (s ∷ steps)
    → value_of (extract_value_from_json j json_data (print_path (s ∷ steps)))
      ≡ Option.bind (j.unmarshal json_data) (follow (s ∷ steps))
unfolding extract_value_from_json Option.bind
extract-print_path j json_data s steps good = elim (Option-cases (j.unmarshal json_data)) [
  | inl bad ↦ rw (extract_value_from_json, bad) refl
  | inr (v, decoded) ↦
      rw (extract_value_from_json, decoded, split_dots-print_path s steps good)
        (value_of-walk (s ∷ steps) v good)
]
