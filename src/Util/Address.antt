-- ===== src/Util/Address.antt =====
-- util/address.go, with the constants of owlconsts/address.go. SHA-256 (crypto/sha256), the Keccak hash
-- of starknet.go as the text of its number, and the checksum of go-ethereum are parameters.
use utils_go.Base.{
  ℕ, zero, suc, ◌+◌, ◌-◌, ◌*◌, ◌/◌, ◌%◌, Bool, false, not, ◌&&◌, ◌||◌, Option, none, some, List, [],
  ◌∷◌, ◌++◌, leb, ltb, nat_beq, ◌==◌, if◌then◌else◌, length,
}
use utils_go.Base.Text.{Text, text, text_eq, trim_space, to_lower, upper_byte}
use utils_go.Util.Call.{Call, returned, failed, panicked, ◌>>=◌}
use utils_go.Util.Hex.{all_bytes, is_hex_string_zero, is_hex_character}

abbrev pub solana_zero_address : Text
solana_zero_address = text "11111111111111111111111111111111"

abbrev pub bfc_zero_address : Text
bfc_zero_address = text "BFC00000000000000000000000000000000000000000000000000000000000000000000"

abbrev pub zksync_era_address : Text
zksync_era_address = text "0x000000000000000000000000000000000000800A"

unfoldable pub is_native_address : Text → Bool
unfolding is_hex_string_zero
is_native_address address =
    is_hex_string_zero address
    || address == solana_zero_address
    || address == bfc_zero_address
    || address == zksync_era_address

-- strings.TrimPrefix(s, "0x")
unfoldable pub trim_0x : Text → Text
trim_0x (a ∷ b ∷ s) = if nat_beq a b'0' && nat_beq b b'x' then s else a ∷ b ∷ s
trim_0x s = s

unfoldable pub has_0x : Text → Bool
has_0x (a ∷ b ∷ s) = nat_beq a b'0' && nat_beq b b'x'
has_0x s = false

-- strings.HasPrefix(s, "0X")
unfoldable pub has_0_upper_x : Text → Bool
has_0_upper_x (a ∷ b ∷ s) = nat_beq a b'0' && nat_beq b b'X'
has_0_upper_x s = false

-- The expression `^(0x)[0-9a-fA-F]{64}$`, and the length.
unfoldable pub is_b256 : Text → Bool
unfolding has_0x trim_0x all_bytes is_hex_character
is_b256 address =
    nat_beq (length address) 66
    && (has_0x address
        && nat_beq (length (trim_0x address)) 64
        && all_bytes is_hex_character (trim_0x address))

-- checksum[i]&0xf0 >= 0x80, and hashed[i>>1]>>4 >= 8
unfoldable pub high_set : ℕ → Bool
high_set b = leb 8 (b / 16)

-- checksum[i]&0x0f >= 0x08
unfoldable pub low_set : ℕ → Bool
low_set b = leb 8 (b % 16)

-- Two hexadecimal digits with the case that a byte of the hash decides, `n` times; an index that is
-- out of range panics.
unfoldable pub case_pairs : ℕ → Text → List ℕ → Call Text
unfolding high_set low_set upper_byte
case_pairs zero hex hash = returned []
case_pairs (suc n) (ha ∷ hb ∷ hex) (b ∷ hash) = do
  rest ← case_pairs n hex hash
  returned (
      (if high_set b then upper_byte ha else ha) ∷ (if low_set b then upper_byte hb else hb) ∷ rest)
case_pairs (suc n) _ _ = panicked

module _ (sha256 : Text → List ℕ) where
  unfoldable pub to_fuel_checksum_address : Text → Call Text
  unfolding trim_0x case_pairs to_lower
  to_fuel_checksum_address address =
      let address_hex = to_lower (trim_0x address) in
      do ret ← case_pairs 32 address_hex (sha256 address_hex); returned (text "0x" ++ ret)

  unfoldable pub get_fuel_checksum_address : Text → Call Text
  unfolding is_b256 to_fuel_checksum_address trim_space
  get_fuel_checksum_address address =
      let trimmed = trim_space address in
      if not (is_b256 address)
      then failed (text "invalid B256 address format")
      else if nat_beq (length trimmed) 0
      then failed (text "empty address")
      else if nat_beq (length trimmed) 66
      then to_fuel_checksum_address trimmed
      else failed (text "unsupport address len: " ++ trimmed)

-- strings.TrimLeft(s, "0")
unfoldable pub trim_zeros : Text → Text
trim_zeros [] = []
trim_zeros (c ∷ s) = if nat_beq c b'0' then trim_zeros s else c ∷ s

-- strings.Repeat("0", n)
unfoldable pub zeros : ℕ → Text
zeros zero = []
zeros (suc n) = b'0' ∷ zeros n

unfoldable pub hex_value : ℕ → ℕ
hex_value c = if leb c b'9' then c - b'0' else if leb c b'F' then c - b'A' + 10 else c - b'a' + 10

-- hex.DecodeString; `none` is its error, for an odd length or a byte that is no hexadecimal digit.
unfoldable pub decode_hex : Text → Option (List ℕ)
unfolding is_hex_character hex_value
decode_hex [] = some []
decode_hex (a ∷ []) = none
decode_hex (a ∷ b ∷ s) =
    let rest = decode_hex s in
    if is_hex_character a && is_hex_character b
    then elim rest [ none ↦ none | some bytes ↦ some ((hex_value a * 16 + hex_value b) ∷ bytes) ]
    else none

unfoldable pub decoded : Text → Call (List ℕ)
unfolding decode_hex
decoded s = elim (decode_hex s) [
  | none ↦ failed (text "encoding/hex: the text does not decode")
  | some bytes ↦ returned bytes
]

-- "0" + address, where the length is odd
unfoldable pub pad_even : Text → Text
pad_even s = if nat_beq (length s % 2) 0 then s else b'0' ∷ s

-- hashed, from the text of the hash
unfoldable pub hash_bytes : Text → Call (List ℕ)
unfolding trim_zeros trim_0x zeros decoded
hash_bytes h =
    let hs = trim_zeros (trim_0x h) in
    if ltb 64 (length hs)
    then failed (text "hs too long")
    else decoded (zeros (64 - length hs) ++ hs)

module _ (starknet_keccak : List ℕ → Text) where
  -- from the digits without leading zeros on
  unfoldable pub checksum_digits : Text → Call Text
  unfolding zeros decoded hash_bytes case_pairs
  checksum_digits address = if ltb 64 (length address) then failed (text "address too long") else do
    bytes ← decoded address
    hashed ← hash_bytes (starknet_keccak bytes)
    chars ← case_pairs 32 (zeros (64 - length address) ++ address) hashed
    returned (text "0x" ++ chars)

  unfoldable pub get_checksum_address_64 : Text → Call Text
  unfolding trim_space to_lower trim_0x trim_zeros pad_even checksum_digits
  get_checksum_address_64 address =
      checksum_digits (pad_even (trim_zeros (trim_0x (to_lower (trim_space address)))))

-- common.HexToAddress(address).Hex(), of go-ethereum
unfoldable pub get_checksum_address_40 : (Text → Text) → Text → Call Text
unfolding trim_space
get_checksum_address_40 hex_to_address_hex address =
    returned (hex_to_address_hex (trim_space address))

unfoldable pub get_checksum_address : (List ℕ → Text) → (Text → Text) → Text → Call Text
unfolding trim_space has_0x has_0_upper_x get_checksum_address_40 get_checksum_address_64
get_checksum_address starknet_keccak hex_to_address_hex address =
    let trimmed = trim_space address in
    if nat_beq (length trimmed) 0
    then failed (text "empty address")
    else if not (has_0x trimmed) && not (has_0_upper_x trimmed)
    then returned trimmed
    else if nat_beq (length trimmed) 42
    then get_checksum_address_40 hex_to_address_hex trimmed
    else if nat_beq (length trimmed) 66
    then get_checksum_address_64 starknet_keccak trimmed
    else failed (text "unsupport address len: " ++ trimmed)
