-- ===== src/Rpc/Tlv.antt =====
-- rpc/solana.go: getExtensionData, which looks for an entry of a type in data of type, length and value,
-- as the accounts of the token program of 2022 carry them. The index of the loop is kept as the
-- data from it on: a slice of it is read only behind the tests of its length. The fuel is one more than
-- the length of the data, and each round takes at least four bytes.
pub mod Entries
use utils_go.Base.{
  ℕ, zero, suc, ◌+◌, ◌*◌, Option, none, some, List, [], ◌∷◌, ◌&&◌, nat_beq, leb, length, take, drop,
  if◌then◌else◌,
}

-- binary.LittleEndian.Uint16 of two bytes
unfoldable pub uint16 : ℕ → ℕ → ℕ
uint16 low high = low + 256 * high

unfoldable pub scan_entries : ℕ → ℕ → List ℕ → Option (List ℕ)
unfolding uint16
scan_entries zero extension_type rest = none
scan_entries (suc fuel) extension_type [] = none
scan_entries (suc fuel) extension_type (a ∷ []) = none
scan_entries (suc fuel) extension_type (a ∷ b ∷ []) = none
scan_entries (suc fuel) extension_type (a ∷ b ∷ c ∷ []) = none
scan_entries (suc fuel) extension_type (a ∷ b ∷ c ∷ d ∷ more) =
    let entry_length = uint16 c d in
    let next = scan_entries fuel extension_type (drop entry_length more) in
    if nat_beq (uint16 a b) extension_type && leb entry_length (length more)
    then some (take entry_length more)
    else next

unfoldable pub get_extension_data : ℕ → List ℕ → Option (List ℕ)
unfolding scan_entries
get_extension_data extension_type tlv_data =
    scan_entries (suc (length tlv_data)) extension_type tlv_data
