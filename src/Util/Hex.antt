-- ===== src/Util/Hex.antt =====
-- util/common.go: the tests on texts and on addresses. Texts are ASCII.
use utils_go.Base.{
  ℕ, ◌-◌, ◌%◌, Bool, true, not, ◌&&◌, ◌||◌, [], ◌∷◌, ◌++◌, leb, ltb, nat_beq, ◌==◌, if◌then◌else◌,
  length, take, drop,
}
use utils_go.Base.Int.{ℤ, pos, int_eq}
use utils_go.Base.Text.{Text, text, text_eq, trim_space}

unfoldable pub all_bytes : (ℕ → Bool) → Text → Bool
all_bytes p [] = true
all_bytes p (c ∷ s) = p c && all_bytes p s

-- hexString[2:], where it begins with "0x" or "0X"
unfoldable pub drop_hex_prefix : Text → Text
drop_hex_prefix (a ∷ b ∷ s) =
    if nat_beq a b'0' && (nat_beq b b'x' || nat_beq b b'X') then s else a ∷ b ∷ s
drop_hex_prefix s = s

unfoldable pub is_hex_string_zero : Text → Bool
unfolding all_bytes drop_hex_prefix trim_space
is_hex_string_zero s = all_bytes (λ c. nat_beq c b'0') (drop_hex_prefix (trim_space s))

unfoldable pub is_hex_character : ℕ → Bool
is_hex_character c =
    (leb b'0' c && leb c b'9') || (leb b'a' c && leb c b'f') || (leb b'A' c && leb c b'F')

unfoldable pub is_hex : Text → Bool
unfolding all_bytes is_hex_character
is_hex s = nat_beq (length s % 2) 0 && all_bytes is_hex_character s

-- common.IsHexAddress is go-ethereum's.
unfoldable pub is_evm_address : (Text → Bool) → Text → ℤ → Bool
is_evm_address is_hex_address address chain_id =
    is_hex_address address && not (chain_id == pos 666666666) && not (chain_id == pos 83797601)

unfoldable pub mask_evm_address : Text → Text
mask_evm_address address =
    if ltb (length address) 12
    then address
    else take 6 address ++ text "****" ++ drop (length address - 4) address
