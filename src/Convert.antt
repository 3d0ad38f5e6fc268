-- ===== src/Convert.antt =====
-- convert/convert.go: conversions between integers, Booleans and texts. The type parameter of a
-- conversion to an integer is the function that wraps an int64 to it.
mod Tests
use utils_go.Base.{
  ℕ, zero, suc, ◌-◌, ◌^◌, ◌≤◌, ◌<◌, ◌≡◌, ◌≢◌, refl, sym, ap, ◌∙◌, Option, none, some, Bool, true,
  false, not, ◌&&◌, ◌||◌, [], ◌∷◌, arith, ltb, leb, nat_beq, ◌==◌, if◌then◌else◌, All,
}
use utils_go.Base.Int.{ℤ, pos, negsuc, int_eq, ◌≤ℤ◌, ◌<ℤ◌}
use utils_go.Base.Text.{Text}
use utils_go.Base.Decimal.{
  is_digit, digits_value, decimal, decimal_digits, decimal-ne-nil, digits_value-decimal, format_int,
}

unfoldable pub int_to_bool : ℤ → Bool
int_to_bool value = not (value == pos 0)

unfoldable pub bool_to_int : Bool → ℤ
bool_to_int value = if value then pos 1 else pos 0

unfoldable pub int_to_string : ℤ → Text
unfolding format_int
int_to_string value = format_int value

unfoldable all_digits : Text → Bool
unfolding is_digit
all_digits [] = true
all_digits (c ∷ s) = is_digit c && all_digits s

-- The digits of strconv.ParseInt in base 10, at least one.
unfoldable parse_digits : Text → Option ℕ
unfolding all_digits digits_value
parse_digits [] = none
parse_digits (c ∷ s) = if all_digits (c ∷ s) then some (digits_value (c ∷ s)) else none

-- The number with its sign, where it is an int64.
unfoldable signed : Bool → Option ℕ → Option ℤ
signed negative none = none
signed false (some n) = if ltb n (2 ^ 63) then some (pos n) else none
signed true (some zero) = some (pos 0)
signed true (some (suc n)) = if ltb n (2 ^ 63) then some (negsuc n) else none

-- strconv.ParseInt(value, 10, 64)
unfoldable pub parse_int : Text → Option ℤ
unfolding parse_digits signed
parse_int [] = none
parse_int (c ∷ s) =
    if nat_beq c b'-'
    then signed true (parse_digits s)
    else if nat_beq c b'+'
    then signed false (parse_digits s)
    else signed false (parse_digits (c ∷ s))

unfoldable pub string_to_int : (ℤ → ℤ) → Text → ℤ
unfolding parse_int
string_to_int wrap value = elim (parse_int value) [ none ↦ pos 0 | some result ↦ wrap result ]

-- strconv.ParseUint(value, 10, 64), which takes no sign
unfoldable pub string_to_uint64 : Text → ℕ
unfolding parse_digits
string_to_uint64 value = elim (parse_digits value) [
  | none ↦ 0
  | some n ↦ if ltb n (2 ^ 64) then n else 0
]

all_digits_ok : (s : Text) → All (λ c. is_digit c ≡ true) s → all_digits s ≡ true
unfolding all_digits
all_digits_ok [] a = refl
all_digits_ok (c ∷ s) a = rw (a.0, all_digits_ok s a.1) refl

parse_digits_ok :
    (s : Text) → s ≢ [] → All (λ c. is_digit c ≡ true) s → parse_digits s ≡ some (digits_value s)
unfolding parse_digits
parse_digits_ok [] some_digits a = elim (some_digits refl) [ ]
parse_digits_ok (c ∷ s) some_digits a = rw (parse_digits, all_digits_ok (c ∷ s) a) refl

digit_no_sign : (c : ℕ) → is_digit c ≡ true → (nat_beq c b'-' ≡ false) × (nat_beq c b'+' ≡ false)
unfolding is_digit
digit_no_sign c h = ground arith

parse_int_digits :
    (s : Text)
    → s ≢ []
    → All (λ c. is_digit c ≡ true) s
    → parse_int s ≡ signed false (some (digits_value s))
unfolding parse_int
parse_int_digits [] some_digits a = elim (some_digits refl) [ ]
parse_int_digits (c ∷ s) some_digits a =
    let (no_minus, no_plus) = digit_no_sign c a.0 in
    rw (parse_int, no_minus, no_plus) (ap (signed false) (parse_digits_ok (c ∷ s) some_digits a))

-- strconv.ParseInt reads back the text of an int64.
parse_int-format_int :
    (z : ℤ) → negsuc (2 ^ 63 - 1) ≤ℤ z → z <ℤ pos (2 ^ 63) → parse_int (format_int z) ≡ some z
unfolding parse_int signed format_int
parse_int-format_int (pos n) low high =
    parse_int_digits (decimal n) (decimal-ne-nil n) (decimal_digits n)
    ∙ rw (digits_value-decimal n (omega arith)) (ground arith)
parse_int-format_int (negsuc n) low high =
    ap (signed true)
      (parse_digits_ok (decimal (suc n)) (decimal-ne-nil (suc n)) (decimal_digits (suc n)))
    ∙ rw (digits_value-decimal (suc n) (omega arith)) (ground arith)

-- An int64 that the type of the result holds is read back by StringToInt from the text that IntToString
-- prints.
pub string_to_int-int_to_string :
    (wrap : ℤ → ℤ) (z : ℤ)
    → negsuc (2 ^ 63 - 1) ≤ℤ z
    → z <ℤ pos (2 ^ 63)
    → wrap z ≡ z
    → string_to_int wrap (int_to_string z) ≡ z
unfolding string_to_int int_to_string
string_to_int-int_to_string wrap z low high fits =
    rw (string_to_int, parse_int-format_int z low high) fits
