-- ===== src/Util/Checksum/Case.antt =====
-- util/address.go: texts of hexadecimal digits, and what writing some of them in capitals changes.
use mathlib.Core.List.{reverse, reverse-cons, reverse-reverse}
use utils_go.Base.{
  ℕ, zero, suc, ◌+◌, ◌≡◌, refl, ap, true, false, [], ◌∷◌, ◌++◌, List, arith, if◌then◌else◌, All,
  length, Bool, Bool-cases, inl, inr,
}
use utils_go.Base.Text.{Text, is_space, trim_left, trim_space, lower_byte, upper_byte, to_lower}
use utils_go.Util.Call.{returned}
use utils_go.Util.Hex.{all_bytes, is_hex_character}
use utils_go.Util.Address.{high_set, low_set, case_pairs}

pub lower-upper : (c : ℕ) → lower_byte (upper_byte c) ≡ lower_byte c
unfolding lower_byte upper_byte
lower-upper c = ground arith

pub lower-lower : (c : ℕ) → lower_byte (lower_byte c) ≡ lower_byte c
unfolding lower_byte
lower-lower c = ground arith

pub to_lower_idem : (s : Text) → to_lower (to_lower s) ≡ to_lower s
unfolding to_lower
to_lower_idem [] = refl
to_lower_idem (c ∷ s) = rw (lower-lower c, to_lower_idem s) refl

-- A text without spaces is not trimmed.
trim_left_none : (s : Text) → All (λ c. is_space c ≡ false) s → trim_left s ≡ s
unfolding trim_left
trim_left_none [] a = refl
trim_left_none (c ∷ s) a = rw a.0 refl

pub All-append : (P : ℕ → Type 0) (v w : Text) → All P v → All P w → All P (v ++ w)
All-append P [] w a b = b
All-append P (c ∷ v) w a b = (a.0, All-append P v w a.1 b)

All-reverse : (P : ℕ → Type 0) (s : Text) → All P s → All P (reverse s)
All-reverse P [] a = tt
All-reverse P (c ∷ s) a =
    rw (reverse-cons c s) (All-append P (reverse s) (c ∷ []) (All-reverse P s a.1) (a.0, tt))

pub trim_space_none : (s : Text) → All (λ c. is_space c ≡ false) s → trim_space s ≡ s
unfolding trim_space
trim_space_none s a =
    rw (trim_left_none s a, trim_left_none (reverse s) (All-reverse _ s a), reverse-reverse s) refl

pub All-map : (P Q : ℕ → Type 0) → ((c : ℕ) → P c → Q c) → (w : Text) → All P w → All Q w
All-map P Q f [] a = tt
All-map P Q f (c ∷ w) a = (f c a.0, All-map P Q f w a.1)

abbrev pub IsHexText : Text → Type 0
IsHexText = All (λ c. is_hex_character c ≡ true)

pub All-bytes→All : (p : ℕ → Bool) (s : Text) → all_bytes p s ≡ true → All (λ c. p c ≡ true) s
unfolding all_bytes
All-bytes→All p [] h = tt
All-bytes→All p (c ∷ s) h = elim (Bool-cases (p c)) [
  | inl passes ↦ (passes, All-bytes→All p s (rw passes at h))
  | inr fails ↦ ground arith
]

pub All→all_bytes : (p : ℕ → Bool) (s : Text) → All (λ c. p c ≡ true) s → all_bytes p s ≡ true
unfolding all_bytes
All→all_bytes p [] a = refl
All→all_bytes p (c ∷ s) a = rw a.0 (All→all_bytes p s a.1)

is_hex-upper : (c : ℕ) → is_hex_character c ≡ true → is_hex_character (upper_byte c) ≡ true
unfolding is_hex_character upper_byte
is_hex-upper c h = ground arith

is_hex-lower : (c : ℕ) → is_hex_character c ≡ true → is_hex_character (lower_byte c) ≡ true
unfolding is_hex_character lower_byte
is_hex-lower c h = ground arith

pub hex_no_space : (c : ℕ) → is_hex_character c ≡ true → is_space c ≡ false
unfolding is_hex_character is_space
hex_no_space c h = ground arith

pub IsHexText-to_lower : (s : Text) → IsHexText s → IsHexText (to_lower s)
unfolding to_lower
IsHexText-to_lower [] a = tt
IsHexText-to_lower (c ∷ s) a = (is_hex-lower c a.0, IsHexText-to_lower s a.1)

pub length-to_lower : (s : Text) → length (to_lower s) ≡ length s
unfolding to_lower
length-to_lower [] = refl
length-to_lower (c ∷ s) = ap suc (length-to_lower s)

-- The digits with another case.
abbrev pub SameDigits : Text → Text → Type 0
SameDigits out hex = (to_lower out ≡ to_lower hex) × (length out ≡ length hex) × IsHexText out

either_case : ℕ → Bool → ℕ
either_case c upper = if upper then upper_byte c else c

either_case_lower : (c : ℕ) (upper : Bool) → lower_byte (either_case c upper) ≡ lower_byte c
unfolding either_case
either_case_lower c true = lower-upper c
either_case_lower c false = refl

either_case_hex :
    (c : ℕ) (upper : Bool)
    → is_hex_character c ≡ true
    → is_hex_character (either_case c upper) ≡ true
unfolding either_case
either_case_hex c true h = is_hex-upper c h
either_case_hex c false h = h

-- With enough digits and bytes the loop goes through.
pub case_pairs_ok :
    (n : ℕ) (hex : Text) (hash : List ℕ)
    → length hex ≡ n + n
    → length hash ≡ n
    → IsHexText hex
    → (out : Text) × (case_pairs n hex hash ≡ returned out) × SameDigits out hex
unfolding case_pairs to_lower either_case
case_pairs_ok zero [] hash even bytes digits = ([], refl, (refl, refl, tt))
case_pairs_ok zero (c ∷ hex) hash even bytes digits = ground arith
case_pairs_ok (suc n) [] hash even bytes digits = ground arith
case_pairs_ok (suc n) (ha ∷ []) hash even bytes digits = ground arith
case_pairs_ok (suc n) (ha ∷ hb ∷ hex) [] even bytes digits = ground arith
case_pairs_ok (suc n) (ha ∷ hb ∷ hex) (b ∷ hash) even bytes digits =
    let (out, runs, (lower, size, good)) =
      case_pairs_ok n hex hash (omega arith) (omega arith) digits.1.1 in
    (
      either_case ha (high_set b) ∷ either_case hb (low_set b) ∷ out,
      rw (case_pairs, runs) refl,
      (
        rw (to_lower, either_case_lower ha (high_set b), either_case_lower hb (low_set b), lower)
            refl,
        omega arith,
        (
          either_case_hex ha (high_set b) digits.0,
          (either_case_hex hb (low_set b) digits.1.0, good),
        ),
      ),
    )
