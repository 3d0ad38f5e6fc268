-- ===== src/Util/Checksum/Starknet.antt =====
-- util/address.go: GetChecksumAddress64.

use utils_go.Base.{ℕ, ◌+◌, ◌-◌, ◌≤◌, ◌≡◌, refl, ap, ◌∙◌, false, ◌∷◌, ◌++◌, List, arith, length, ltb}
use utils_go.Base.Text.{Text, lower_byte, to_lower}
use utils_go.Util.Call.{returned}
use utils_go.Util.Address.{
  trim_0x, trim_zeros, zeros, pad_even, hash_bytes, checksum_digits, get_checksum_address_64,
}
use utils_go.Util.Checksum.Case.{
  to_lower_idem, trim_space_none, IsHexText, SameDigits, hex_no_space, length-to_lower,
  case_pairs_ok, All-map,
}
use utils_go.Util.Checksum.Padding.{
  decoded_ok, trim_zeros-zeros, length-trim_zeros, trim_zeros-IsHexText, fill, stripped, canonical,
  fill-canonical, canonical-IsHexText, length-canonical, fill-IsHexText, length-fill,
  to_lower-append, to_lower-zeros,
}

module _ (starknet_keccak : List ℕ → Text) where
  hash_bytes_ok :
      (hash : Text)
      → length hash ≤ 64
      → IsHexText hash
      → (bytes : List ℕ) × (hash_bytes (b'0' ∷ b'x' ∷ hash) ≡ returned bytes) × (length bytes ≡ 32)
  unfolding hash_bytes trim_0x
  hash_bytes_ok hash short digits =
      let shorter = length-trim_zeros hash in
      let fits : ltb 64 (length (trim_zeros hash)) ≡ false = ground arith in
      let (bytes, decodes, size) =
        decoded_ok 32 (fill 64 (trim_zeros hash)) (length-fill 64 (trim_zeros hash) (omega arith))
          (fill-IsHexText 64 _ (trim_zeros-IsHexText hash digits)) in
      (bytes, rw (hash_bytes, fits) decodes, size)

  get_64_of_parts :
      (hex : Text)
      → IsHexText hex
      → get_checksum_address_64 starknet_keccak (b'0' ∷ b'x' ∷ hex)
        ≡ checksum_digits starknet_keccak (canonical hex)
  unfolding get_checksum_address_64 trim_0x to_lower lower_byte
  get_64_of_parts hex digits =
      rw (trim_space_none (b'0' ∷ b'x' ∷ hex) (refl, (refl, All-map _ _ hex_no_space hex digits)))
        refl

  checksum_digits_ok :
      ((bytes : List ℕ)
        → (h : Text) × (starknet_keccak bytes ≡ b'0' ∷ b'x' ∷ h) × (length h ≤ 64) × IsHexText h)
      → (s : Text) (half : ℕ) → length s ≡ half + half
      → half ≤ 32
      → IsHexText s
      → (out : Text) × (checksum_digits starknet_keccak s ≡ returned (b'0' ∷ b'x' ∷ out))
        × SameDigits out (fill 64 s)
  unfolding checksum_digits
  checksum_digits_ok hash_text s half even short digits =
      let fits : ltb 64 (length s) ≡ false = ground arith in
      let (bytes, decodes, size) = decoded_ok half s even digits in
      let (h, prints, short_hash, hash_digits) = hash_text bytes in
      let (hashed, hashes, size_hash) = hash_bytes_ok h short_hash hash_digits in
      let (out, runs, same) =
        case_pairs_ok 32 (fill 64 s) hashed (length-fill 64 s (omega arith)) size_hash
          (fill-IsHexText 64 s digits) in
      (out, rw (checksum_digits, fits, decodes, prints, hashes, runs) refl, same)

  lower_fill : (hex : Text) → to_lower (fill 64 (to_lower hex)) ≡ fill 64 (to_lower hex)
  lower_fill hex =
      to_lower-append (zeros (64 - length (to_lower hex))) (to_lower hex)
      ∙ rw (to_lower-zeros (64 - length (to_lower hex)), to_lower_idem hex) refl

  -- Two texts of the same number, each "0x" and at most 64 hexadecimal digits in capitals or small
  -- letters: where the hash prints as "0x" and at most 64 digits, both have the same checksum. It is
  -- "0x" and 64 digits, which are those of the number but for the case of the letters, and it is its
  -- own checksum.
  pub get_checksum_address_64_lem :
      ((bytes : List ℕ)
        → (h : Text) × (starknet_keccak bytes ≡ b'0' ∷ b'x' ∷ h) × (length h ≤ 64) × IsHexText h)
      → (hex other : Text) → length hex ≤ 64
      → length other ≤ 64
      → IsHexText hex
      → IsHexText other
      → trim_zeros (to_lower other) ≡ trim_zeros (to_lower hex)
      → (out : Text) × (get_checksum_address_64 starknet_keccak (b'0' ∷ b'x' ∷ hex) ≡ returned out)
        × (get_checksum_address_64 starknet_keccak (b'0' ∷ b'x' ∷ other) ≡ returned out)
        × (get_checksum_address_64 starknet_keccak out ≡ returned out)
        × (length out ≡ 66)
        × (to_lower out ≡ b'0' ∷ b'x' ∷ (zeros (64 - length hex) ++ to_lower hex))
  unfolding to_lower lower_byte
  get_checksum_address_64_lem hash_text hex other short short_other digits digits_other number =
      let (half, even, half_short) = length-canonical hex short in
      let (out, runs, (lower, size, digits_out)) =
        checksum_digits_ok hash_text (canonical hex) half even half_short
          (canonical-IsHexText hex digits) in
      let lower_out : to_lower out ≡ fill 64 (to_lower hex) =
        lower ∙ ap to_lower (fill-canonical hex short) ∙ lower_fill hex in
      let number_out : stripped out ≡ stripped hex =
        ap trim_zeros lower_out ∙ trim_zeros-zeros (64 - length (to_lower hex)) (to_lower hex) in
      let full : length (fill 64 (canonical hex)) ≡ 64 =
        length-fill 64 (canonical hex) (omega arith) in
      (
        b'0' ∷ b'x' ∷ out,
        get_64_of_parts hex digits ∙ runs,
        get_64_of_parts other digits_other
            ∙ ap (λ s. checksum_digits starknet_keccak (pad_even s)) number
            ∙ runs,
        get_64_of_parts out digits_out
            ∙ ap (λ s. checksum_digits starknet_keccak (pad_even s)) number_out
            ∙ runs,
        omega arith,
        ap (λ s. b'0' ∷ b'x' ∷ s) (lower_out ∙ rw (length-to_lower hex) refl),
      )
