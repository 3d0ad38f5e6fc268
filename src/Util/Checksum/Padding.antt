-- ===== src/Util/Checksum/Padding.antt =====
-- util/address.go: the digits that GetChecksumAddress64 hashes and prints, with zeros in front.

use utils_go.Base.{
  ℕ, zero, suc, ◌+◌, ◌-◌, ◌*◌, ◌/◌, ◌%◌, ◌≤◌, ◌≡◌, ◌⊎◌, refl, sym, ap, ◌∙◌, [], ◌∷◌, ◌++◌, List,
  arith, some, length, nat_beq, Bool-cases, inl, inr, length-append,
}
use utils_go.Base.Text.{Text, lower_byte, to_lower}
use utils_go.Util.Call.{returned}
use utils_go.Util.Hex.{is_hex_character}
use utils_go.Util.Address.{trim_zeros, zeros, hex_value, decode_hex, decoded, pad_even}
use utils_go.Util.Checksum.Case.{IsHexText, IsHexText-to_lower, length-to_lower, All-append}

-- An even number of digits decodes.
decode_hex_ok :
    (n : ℕ) (s : Text)
    → length s ≡ n + n
    → IsHexText s
    → (bytes : List ℕ) × (decode_hex s ≡ some bytes) × (length bytes ≡ n)
unfolding decode_hex
decode_hex_ok zero [] even digits = ([], refl, refl)
decode_hex_ok zero (c ∷ s) even digits = ground arith
decode_hex_ok (suc n) [] even digits = ground arith
decode_hex_ok (suc n) (a ∷ []) even digits = ground arith
decode_hex_ok (suc n) (a ∷ b ∷ s) even digits =
    let (bytes, decodes, size) = decode_hex_ok n s (omega arith) digits.1.1 in
    (
      (hex_value a * 16 + hex_value b) ∷ bytes,
      rw (decode_hex, digits.0, digits.1.0, decodes) refl,
      ap suc size,
    )

pub decoded_ok :
    (n : ℕ) (s : Text)
    → length s ≡ n + n
    → IsHexText s
    → (bytes : List ℕ) × (decoded s ≡ returned bytes) × (length bytes ≡ n)
unfolding decoded
decoded_ok n s even digits =
    let (bytes, decodes, size) = decode_hex_ok n s even digits in
    (bytes, rw (decoded, decodes) refl, size)

length-zeros : (n : ℕ) → length (zeros n) ≡ n
unfolding zeros
length-zeros zero = refl
length-zeros (suc n) = ap suc (length-zeros n)

zeros-IsHexText : (n : ℕ) → IsHexText (zeros n)
unfolding zeros is_hex_character
zeros-IsHexText zero = tt
zeros-IsHexText (suc n) = (refl, zeros-IsHexText n)

zeros_shift : (n : ℕ) (s : Text) → b'0' ∷ (zeros n ++ s) ≡ zeros n ++ b'0' ∷ s
unfolding zeros
zeros_shift zero s = refl
zeros_shift (suc n) s = ap (λ r. b'0' ∷ r) (zeros_shift n s)

pub trim_zeros-zeros : (n : ℕ) (s : Text) → trim_zeros (zeros n ++ s) ≡ trim_zeros s
unfolding zeros trim_zeros
trim_zeros-zeros zero s = refl
trim_zeros-zeros (suc n) s = trim_zeros-zeros n s

pub length-trim_zeros : (s : Text) → length (trim_zeros s) ≤ length s
unfolding trim_zeros
length-trim_zeros [] = omega arith
length-trim_zeros (c ∷ s) = ground (arith, length-trim_zeros s)

pub trim_zeros-IsHexText : (s : Text) → IsHexText s → IsHexText (trim_zeros s)
unfolding trim_zeros
trim_zeros-IsHexText [] digits = tt
trim_zeros-IsHexText (c ∷ s) digits = elim (Bool-cases (nat_beq c b'0')) [
  | inl z ↦ rw (trim_zeros, z) (trim_zeros-IsHexText s digits.1)
  | inr o ↦ rw (trim_zeros, o) digits
]

-- The text with zeros in front, up to a length.
abbrev pub fill : ℕ → Text → Text
fill n s = zeros (n - length s) ++ s

fill-zero : (n : ℕ) (s : Text) → suc (length s) ≤ n → fill n (b'0' ∷ s) ≡ fill n s
unfolding zeros
fill-zero n s h =
    let front : n - length s ≡ suc (n - suc (length s)) = omega arith in
    rw front (sym (zeros_shift (n - suc (length s)) s))

pub fill-trim_zeros : (n : ℕ) (s : Text) → length s ≤ n → fill n (trim_zeros s) ≡ fill n s
unfolding trim_zeros
fill-trim_zeros n [] h = refl
fill-trim_zeros n (c ∷ s) h = elim (Bool-cases (nat_beq c b'0')) [
  | inl z ↦
      let digit : b'0' ≡ c = ground arith in
      rw (trim_zeros, z)
        (fill-trim_zeros n s (omega arith) ∙ sym (fill-zero n s h) ∙ ap (λ d. fill n (d ∷ s)) digit)
  | inr o ↦ rw (trim_zeros, o) refl
]

-- What is hashed, of the digits behind the prefix.
abbrev pub stripped : Text → Text
stripped hex = trim_zeros (to_lower hex)

abbrev pub canonical : Text → Text
canonical hex = pad_even (stripped hex)

pad_even-cases :
    (s : Text)
    → ((pad_even s ≡ s) × (length s % 2 ≡ 0)) ⊎ ((pad_even s ≡ b'0' ∷ s) × (length s % 2 ≡ 1))
unfolding pad_even
pad_even-cases s = elim (Bool-cases (nat_beq (length s % 2) 0)) [
  | inl even ↦ inl (rw (pad_even, even) refl, ground arith)
  | inr odd ↦ inr (rw (pad_even, odd) refl, ground arith)
]

length-stripped : (hex : Text) → length (stripped hex) ≤ length hex
length-stripped hex = omega (arith, length-trim_zeros (to_lower hex), length-to_lower hex)

pub fill-canonical :
    (hex : Text) → length hex ≤ 64 → fill 64 (canonical hex) ≡ fill 64 (to_lower hex)
fill-canonical hex h =
    let strip = fill-trim_zeros 64 (to_lower hex) (omega (arith, length-to_lower hex)) in
    elim (pad_even-cases (stripped hex)) [
      | inl (same, even) ↦ ap (fill 64) same ∙ strip
      | inr (padded, odd) ↦
          ap (fill 64) padded
          ∙ (fill-zero 64 (stripped hex) (omega (arith, length-stripped hex)) ∙ strip)
    ]

pub canonical-IsHexText : (hex : Text) → IsHexText hex → IsHexText (canonical hex)
unfolding is_hex_character
canonical-IsHexText hex digits =
    let trimmed = trim_zeros-IsHexText (to_lower hex) (IsHexText-to_lower hex digits) in
    elim (pad_even-cases (stripped hex)) [
      | inl (same, even) ↦ rw same trimmed
      | inr (padded, odd) ↦ rw padded (refl, trimmed)
    ]

pub length-canonical :
    (hex : Text)
    → length hex ≤ 64
    → (half : ℕ) × (length (canonical hex) ≡ half + half) × (half ≤ 32)
length-canonical hex h =
    let short = length-stripped hex in
    elim (pad_even-cases (stripped hex)) [
      | inl (same, even) ↦ (length (stripped hex) / 2, ap length same ∙ omega arith, omega arith)
      | inr (padded, odd) ↦
          (length (stripped hex) / 2 + 1, ap length padded ∙ omega arith, omega arith)
    ]

pub fill-IsHexText : (n : ℕ) (s : Text) → IsHexText s → IsHexText (fill n s)
fill-IsHexText n s digits = All-append _ (zeros (n - length s)) s (zeros-IsHexText _) digits

pub length-fill : (n : ℕ) (s : Text) → length s ≤ n → length (fill n s) ≡ n
length-fill n s h =
    length-append (zeros (n - length s)) s ∙ omega (arith, length-zeros (n - length s))

pub to_lower-append : (v w : Text) → to_lower (v ++ w) ≡ to_lower v ++ to_lower w
unfolding to_lower
to_lower-append [] w = refl
to_lower-append (c ∷ v) w = ap (λ s. lower_byte c ∷ s) (to_lower-append v w)

pub to_lower-zeros : (n : ℕ) → to_lower (zeros n) ≡ zeros n
unfolding to_lower lower_byte zeros
to_lower-zeros zero = refl
to_lower-zeros (suc n) = ap (λ s. b'0' ∷ s) (to_lower-zeros n)
