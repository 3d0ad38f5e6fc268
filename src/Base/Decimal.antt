-- ===== src/Base/Decimal.antt =====
-- Decimal numbers: the digits that strconv.Itoa prints, and the value of digits. 20 digits are enough
-- for every int64.
use mathlib.Core.List.{foldl, foldl-append}
use mathlib.Core.Path.{◌≡◌}
use mathlib.Core.Logic.{◌≢◌, ◌⊎◌, inl, inr}
use mathlib.Core.Bool.{Bool, true, ◌&&◌}
use mathlib.Core.List.{[], ◌∷◌, ◌++◌}
use Prim.Native.Nat.{ℕ, zero, suc, ◌+◌, ◌-◌, ◌*◌, ◌/◌, ◌%◌, ◌^◌, ◌≤◌, ◌<◌}
use native.Mathlib.Nat.{pow-suc}
use native.Mathlib.Omega.{arith}
use utils_go.Base.Tests.{ltb, leb, if◌then◌else◌}
use utils_go.Base.Lists.{All}
use utils_go.Base.Int.{ℤ, pos, negsuc}
use utils_go.Base.Text.{Text}

unfoldable pub is_digit : ℕ → Bool
is_digit c = leb b'0' c && leb c b'9'

-- The value of decimal digits.
unfoldable pub digits_value : Text → ℕ
digits_value = foldl (λ n c. n * 10 + (c - b'0')) 0

unfoldable decimal_go : ℕ → ℕ → Text
decimal_go zero n = []
decimal_go (suc fuel) n =
    let rest = decimal_go fuel (n / 10) in
    if ltb n 10 then (n + b'0') ∷ [] else rest ++ (n % 10 + b'0') ∷ []

unfoldable pub decimal : ℕ → Text
unfolding decimal_go
decimal n = decimal_go 20 n

digits_value-snoc :
    (s : Text) (c : ℕ) → digits_value (s ++ c ∷ []) ≡ digits_value s * 10 + (c - b'0')
unfolding digits_value
digits_value-snoc s c = foldl-append (λ n d. n * 10 + (d - b'0')) 0 s (c ∷ [])

decimal_go_small : (f n : ℕ) → n < 10 → decimal_go (suc f) n ≡ (n + b'0') ∷ []
unfolding decimal_go
decimal_go_small f n h = ground arith

decimal_go_large :
    (f n : ℕ) → 10 ≤ n → decimal_go (suc f) n ≡ decimal_go f (n / 10) ++ (n % 10 + b'0') ∷ []
unfolding decimal_go
decimal_go_large f n h = ground arith

digits_value-one : (n : ℕ) → digits_value ((n + b'0') ∷ []) ≡ n
unfolding digits_value
digits_value-one n = omega arith

small_or_large : (n : ℕ) → (n < 10) ⊎ (10 ≤ n)
small_or_large n = omega arith

digits_value-decimal_go : (f n : ℕ) → n < 10 ^ suc f → digits_value (decimal_go (suc f) n) ≡ n
digits_value-decimal_go zero n h = rw (decimal_go_small 0 n h) (digits_value-one n)
digits_value-decimal_go (suc f) n h = elim (small_or_large n) [
  | inl small ↦ rw (decimal_go_small (suc f) n small) (digits_value-one n)
  | inr large ↦
      let e = digits_value-decimal_go f (n / 10) (omega (arith, pow-suc 10 (suc f))) in
      rw (decimal_go_large (suc f) n large, digits_value-snoc, e) (omega arith)
]

All-snoc : (P : ℕ → Type 0) (s : Text) (c : ℕ) → All P s → P c → All P (s ++ c ∷ [])
All-snoc P [] c a p = (p, tt)
All-snoc P (d ∷ s) c a p = (a.0, All-snoc P s c a.1 p)

is_digit-digit : (d : ℕ) → d < 10 → is_digit (d + b'0') ≡ true
unfolding is_digit
is_digit-digit d h = ground arith

decimal_go_digits : (f n : ℕ) → All (λ c. is_digit c ≡ true) (decimal_go f n)
unfolding decimal_go
decimal_go_digits zero n = tt
decimal_go_digits (suc f) n = elim (small_or_large n) [
  | inl small ↦ rw (decimal_go_small f n small) (is_digit-digit n small, tt)
  | inr large ↦
      rw (decimal_go_large f n large)
        (All-snoc _ _ _ (decimal_go_digits f (n / 10)) (is_digit-digit (n % 10) (omega arith)))
]

pub decimal_digits : (n : ℕ) → All (λ c. is_digit c ≡ true) (decimal n)
unfolding decimal
decimal_digits n = decimal_go_digits 20 n

snoc-ne-nil : (s : Text) (c : ℕ) → s ++ c ∷ [] ≢ []
snoc-ne-nil [] c = cc
snoc-ne-nil (d ∷ s) c = cc

pub decimal-ne-nil : (n : ℕ) → decimal n ≢ []
unfolding decimal
decimal-ne-nil n = elim (small_or_large n) [
  | inl small ↦ rw (decimal_go_small 19 n small) (snoc-ne-nil [] (n + b'0'))
  | inr large ↦ rw (decimal_go_large 19 n large) (snoc-ne-nil _ _)
]

-- Below 10 ^ 20 the digits have the value that is printed.
pub digits_value-decimal : (n : ℕ) → n < 10 ^ 20 → digits_value (decimal n) ≡ n
unfolding decimal
digits_value-decimal n h = digits_value-decimal_go 19 n h

-- strconv.FormatInt(z, 10)
unfoldable pub format_int : ℤ → Text
unfolding decimal
format_int (pos n) = decimal n
format_int (negsuc n) = b'-' ∷ decimal (suc n)
