-- ===== src/JsonExtract/Tests.antt =====
-- json_extract/json_extract.go: the theorem on a concrete document, and runs of the functions.
use mathlib.Core.Option
use utils_go.Base.{ℕ, ◌≡◌, refl, none, some, [], ◌∷◌, arith, if◌then◌else◌, ◌==◌}
use utils_go.Base.Int.{pos}
use utils_go.Base.Text.{text, text_beq, text_eq}
use utils_go.Base.GoMap.{lookup}
use utils_go.JsonExtract.Segment.{is_word, find_submatch, atoi}
use utils_go.JsonExtract.Value.{
  Value, number, string, array, object, no_items, item, no_fields, field, items_list, fields_map,
  Json,
}
use utils_go.JsonExtract.Extract.{
  ok, error, out_of_range, extract_value_from_json, extract_int64_value_from_obj,
}
use utils_go.Base.Decimal.{is_digit, decimal}
use utils_go.JsonExtract.RoundTrip.{member, element, value_of, extract-print_path}

-- {"estimation": {"costs-details": 7, "costs": [{"chain": "base"}, [7, 9]]}}
abbrev document : Value ℕ
document = object (
    field (text "estimation")
      (object (
        field (text "costs-details") (number 7) (
          field (text "costs")
            (array (
              item (object (field (text "chain") (string (text "base")) no_fields))
                (item (array (item (number 7) (item (number 9) no_items))) no_items)))
            no_fields)))
      no_fields)

abbrev json : Json
json = record {
  N = ℕ;
  Obj = Unit;
  unmarshal = λ s. if s == text "{…}" then some document else none;
  marshal = λ o. some (text "{…}");
  sprint = λ v. elim v [ string s ↦ s | _ ↦ text "?" ];
  to_int64 = pos;
  to_int32 = pos;
}

extract-print_path_example :
    value_of (extract_value_from_json json (text "{…}") (text "estimation.costs[0].chain"))
    ≡ some (string (text "base"))
unfolding decimal Option.bind text_beq lookup fields_map items_list is_word is_digit
extract-print_path_example =
    extract-print_path json (text "{…}") (member (text "estimation"))
      (element (text "costs") 0 ∷ member (text "chain") ∷ []) (ground arith)

-- What stands around the match is not looked at: a second index, or the start of the key.
second_index_ignored : find_submatch (text "costs[1][0]") ≡ some (text "costs", text "1")
unfolding find_submatch
second_index_ignored = refl

key_start_ignored : find_submatch (text "costs-details[0]") ≡ some (text "details", text "0")
unfolding find_submatch
key_start_ignored = refl

outer_array :
    extract_value_from_json json (text "{…}") (text "estimation.costs[1][0]")
    ≡ ok (array (item (number 7) (item (number 9) no_items)))
unfolding extract_value_from_json text_beq
outer_array = refl

past_the_end :
    extract_int64_value_from_obj json tt (text "estimation.costs[2]") ≡ error (out_of_range 2)
unfolding extract_int64_value_from_obj text_beq
past_the_end = refl

large_index : atoi (text "99999999999999999999") ≡ 0x7fff_ffff_ffff_ffff
unfolding atoi
large_index = refl
