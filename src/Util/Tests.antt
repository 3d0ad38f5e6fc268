-- ===== src/Util/Tests.antt =====
-- util/: the theorems on concrete addresses, and runs of the functions.
use utils_go.Base.{ℕ, ◌≡◌, refl, true, false, List, [], ◌∷◌, ◌++◌, arith, length}
use utils_go.Base.Int.{pos, negsuc}
use utils_go.Base.Text.{Text, text, text_beq, lower_byte, to_lower}
use utils_go.Util.Call.{returned, failed}
use utils_go.Util.Hex.{is_hex_character, is_hex_string_zero, mask_evm_address, is_hex}
use utils_go.Util.Address.{
  trim_zeros, zeros, get_fuel_checksum_address, get_checksum_address_64, get_checksum_address,
  is_native_address,
}
use utils_go.Util.Checksum.Starknet.{get_checksum_address_64_lem}
use utils_go.Util.Page.{norm_page, norm_page_size}

-- Stand-ins for the hashes: 32 bytes, and the text of a number.
abbrev hash : Text → List ℕ
hash s =
    0x81
    ∷ 0x18
    ∷ 0x80
    ∷ 0x08
    ∷ 0xff
    ∷ 0x00
    ∷ 0x77
    ∷ 0x88
    ∷ length s
    ∷ 0x90
    ∷ 0x09
    ∷ 0x99
    ∷ 0x12
    ∷ 0x34
    ∷ 0x56
    ∷ 0x78
    ∷ 0x81
    ∷ 0x18
    ∷ 0x80
    ∷ 0x08
    ∷ 0xff
    ∷ 0x00
    ∷ 0x77
    ∷ 0x88
    ∷ 0x90
    ∷ 0x90
    ∷ 0x09
    ∷ 0x99
    ∷ 0x12
    ∷ 0x34
    ∷ 0x56
    ∷ 0x78
    ∷ []

abbrev hash_text : List ℕ → Text
hash_text bytes = text "0x8008ff"

abbrev lower_address : Text
lower_address = text "0xabcdef0000000000000000000000000000000000000000000000000000abcdef"

abbrev upper_address : Text
upper_address = text "0xABCDEF0000000000000000000000000000000000000000000000000000ABCDEF"

fuel_checksum :
    get_fuel_checksum_address hash upper_address
    ≡ returned (text "0xAbcDEf0000000000000000000000000000000000000000000000000000abcdeF")
unfolding get_fuel_checksum_address
fuel_checksum = refl

get_checksum_address_64_lem_example :
    (out : Text) × (get_checksum_address_64 hash_text (text "0xaBc0de") ≡ returned out)
    × (get_checksum_address_64 hash_text (text "0x000Abc0DE") ≡ returned out)
    × (get_checksum_address_64 hash_text out ≡ returned out)
    × (length out ≡ 66)
    × (to_lower out ≡ text "0x" ++ (zeros 58 ++ text "abc0de"))
unfolding is_hex_character trim_zeros to_lower lower_byte
get_checksum_address_64_lem_example =
    get_checksum_address_64_lem hash_text
      (λ bytes. (text "8008ff", refl, (omega arith), (ground arith))) (text "aBc0de")
      (text "000Abc0DE") (omega arith) (omega arith) (ground arith) (ground arith) refl

starknet_checksum :
    get_checksum_address
      (λ bytes. hash_text bytes)
      (λ s. s)
      (text " 0X0000000000000000000000000000000000000000000000000000000000abcdef ")
    ≡ returned (text "0x0000000000000000000000000000000000000000000000000000000000AbcDEF")
unfolding get_checksum_address
starknet_checksum = refl

odd_length :
    get_checksum_address (λ bytes. hash_text bytes) (λ s. s) (text "0xabc")
    ≡ failed (text "unsupport address len: 0xabc")
unfolding get_checksum_address
odd_length = refl

zero_texts :
    (is_hex_string_zero (text " 0x000 ") ≡ true)
    × (is_hex_string_zero (text "0x010") ≡ false)
    × (is_native_address (text "11111111111111111111111111111111") ≡ true)
    × (is_hex (text "0aF") ≡ false)
    × (is_hex (text "0aF9") ≡ true)
unfolding is_hex_string_zero is_native_address is_hex text_beq
zero_texts = (refl, refl, refl, refl, refl)

-- The empty text counts as zero.
empty_is_zero : is_hex_string_zero (text "") ≡ true
unfolding is_hex_string_zero
empty_is_zero = refl

masked : mask_evm_address (text "0x1234567890abcdef") ≡ text "0x1234****cdef"
unfolding mask_evm_address
masked = refl

pages :
    (norm_page (negsuc 4) ≡ pos 1)
    × (norm_page_size (pos 0) ≡ pos 10)
    × (norm_page_size (pos 101) ≡ pos 100)
unfolding norm_page norm_page_size
pages = (refl, refl, refl)
