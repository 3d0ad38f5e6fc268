-- ===== src/Util/Checksum/Fuel.antt =====
-- util/address.go: GetFuelChecksumAddress.
use utils_go.Base.{
  ℕ, ◌≡◌, refl, sym, ap, ◌∙◌, true, [], ◌∷◌, List, arith, length, nat_beq, ◌&&◌, Bool-cases, inl,
  inr,
}
use utils_go.Base.Text.{Text, lower_byte, to_lower}
use utils_go.Util.Call.{returned}
use utils_go.Util.Hex.{all_bytes, is_hex_character}
use utils_go.Util.Address.{
  has_0x, trim_0x, is_b256, case_pairs, to_fuel_checksum_address, get_fuel_checksum_address,
}
use utils_go.Util.Checksum.Case.{
  to_lower_idem, trim_space_none, IsHexText, SameDigits, All-bytes→All, All→all_bytes, hex_no_space,
  IsHexText-to_lower, length-to_lower, case_pairs_ok, All-map,
}

-- What a text of the B256 format is.
is_b256_parts :
    (address : Text)
    → is_b256 address ≡ true
    → (hex : Text) × (address ≡ b'0' ∷ b'x' ∷ hex) × (length hex ≡ 64) × IsHexText hex
unfolding is_b256 has_0x trim_0x
is_b256_parts [] h = ground arith
is_b256_parts (a ∷ []) h = ground arith
is_b256_parts (a ∷ b ∷ hex) h = elim (Bool-cases (nat_beq a b'0' && nat_beq b b'x')) [
  | inr other ↦ ground arith
  | inl prefix ↦
      let checks : (length hex ≡ 64) × (all_bytes is_hex_character hex ≡ true) = ground arith in
      (hex, ground arith, checks.0, All-bytes→All is_hex_character hex checks.1)
]

is_b256_of_parts :
    (hex : Text) → length hex ≡ 64 → IsHexText hex → is_b256 (b'0' ∷ b'x' ∷ hex) ≡ true
unfolding is_b256 has_0x trim_0x
is_b256_of_parts hex size digits = rw (All→all_bytes is_hex_character hex digits) (ground arith)

abbrev tail2 : Text → Text
tail2 (a ∷ b ∷ s) = s
tail2 s = s

module _ (sha256 : Text → List ℕ) where
  get_fuel_of_parts :
      (hex : Text)
      → length hex ≡ 64
      → IsHexText hex
      → get_fuel_checksum_address sha256 (b'0' ∷ b'x' ∷ hex)
        ≡ to_fuel_checksum_address sha256 (b'0' ∷ b'x' ∷ hex)
  unfolding get_fuel_checksum_address
  get_fuel_of_parts hex size digits =
      rw
        (
          trim_space_none (b'0' ∷ b'x' ∷ hex) (refl, (refl, All-map _ _ hex_no_space hex digits)),
          is_b256_of_parts hex size digits,
          size,
        )
        refl

  -- The digits that the hash of the small letters decides.
  checksum_of_parts :
      ((s : Text) → length (sha256 s) ≡ 32)
      → (hex : Text) → length hex ≡ 64
      → IsHexText hex
      → (out : Text) × SameDigits out (to_lower hex)
        × (case_pairs 32 (to_lower hex) (sha256 (to_lower hex)) ≡ returned out)
  checksum_of_parts digest hex size digits =
      let (out, runs, same) =
        case_pairs_ok 32 (to_lower hex) (sha256 (to_lower hex)) (length-to_lower hex ∙ size)
          (digest (to_lower hex)) (IsHexText-to_lower hex digits) in
      (out, same, runs)

  get_fuel_runs :
      (hex out : Text)
      → length hex ≡ 64
      → IsHexText hex
      → case_pairs 32 (to_lower hex) (sha256 (to_lower hex)) ≡ returned out
      → get_fuel_checksum_address sha256 (b'0' ∷ b'x' ∷ hex) ≡ returned (b'0' ∷ b'x' ∷ out)
  unfolding to_fuel_checksum_address trim_0x
  get_fuel_runs hex out size digits runs =
      rw (get_fuel_of_parts hex size digits, to_fuel_checksum_address, runs) refl

  -- An address of the B256 format and another spelling of it in capitals and small letters: both have
  -- the same checksum, which is the address but for the case of its letters, is of the format too,
  -- and is its own checksum.
  pub get_fuel_checksum_address_lem :
      ((s : Text) → length (sha256 s) ≡ 32)
      → (address other : Text) → is_b256 address ≡ true
      → is_b256 other ≡ true
      → to_lower other ≡ to_lower address
      → (out : Text) × (get_fuel_checksum_address sha256 address ≡ returned out)
        × (get_fuel_checksum_address sha256 other ≡ returned out)
        × (get_fuel_checksum_address sha256 out ≡ returned out)
        × (to_lower out ≡ to_lower address)
        × (is_b256 out ≡ true)
  unfolding to_lower lower_byte
  get_fuel_checksum_address_lem digest address other b256 b256' same =
      let (hex, split, size, digits) = is_b256_parts address b256 in
      let (hex', split', size', digits') = is_b256_parts other b256' in
      let (out, (lower, size_out, digits_out), runs) = checksum_of_parts digest hex size digits in
      let again : to_lower out ≡ to_lower hex = lower ∙ to_lower_idem hex in
      let lowers : b'0' ∷ b'x' ∷ to_lower hex' ≡ b'0' ∷ b'x' ∷ to_lower hex =
        sym (ap to_lower split') ∙ same ∙ ap to_lower split in
      let other_lower : to_lower hex' ≡ to_lower hex = ap tail2 lowers in
      let size_64 : length out ≡ 64 = size_out ∙ length-to_lower hex ∙ size in
      (
        b'0' ∷ b'x' ∷ out,
        ap (get_fuel_checksum_address sha256) split ∙ get_fuel_runs hex out size digits runs,
        ap (get_fuel_checksum_address sha256) split'
            ∙ get_fuel_runs hex' out size' digits' (rw other_lower runs),
        get_fuel_runs out out size_64 digits_out (rw again runs),
        ap (λ s. b'0' ∷ b'x' ∷ s) again ∙ sym (ap to_lower split),
        is_b256_of_parts out size_64 digits_out,
      )
