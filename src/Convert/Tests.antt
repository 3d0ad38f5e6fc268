-- ===== src/Convert/Tests.antt =====
-- convert/convert.go: runs of the conversions.
use utils_go.Base.{◌≡◌, refl, true, false}
use utils_go.Base.Int.{pos, negsuc, wrap_i32}
use utils_go.Base.Text.{text}
use utils_go.Convert.{int_to_string, int_to_bool, bool_to_int, string_to_int, string_to_uint64}

read_back : string_to_int wrap_i32 (int_to_string (negsuc 8452)) ≡ negsuc 8452
unfolding string_to_int int_to_string wrap_i32
read_back = refl

-- A text out of the range of int64 is read as 0, one out of the range of int32 wraps around.
wrapped :
    (string_to_int wrap_i32 (text "4294967297") ≡ pos 1)
    × (string_to_int (λ z. z) (text "9223372036854775808") ≡ pos 0)
    × (string_to_int (λ z. z) (text "+7") ≡ pos 7)
    × (string_to_uint64 (text "+7") ≡ 0)
unfolding string_to_int string_to_uint64 wrap_i32
wrapped = (refl, refl, refl, refl)

booleans : (int_to_bool (negsuc 0) ≡ true) × (bool_to_int false ≡ pos 0)
unfolding int_to_bool bool_to_int
booleans = (refl, refl)
