-- ===== src/JsonExtract/Extract.antt =====
-- json_extract/json_extract.go: ExtractValueFromJSON and the functions on top of it.
use utils_go.Base.{ℕ, none, some, List, [], ◌∷◌, if◌then◌else◌, get_elem?}
use utils_go.Base.Int.{ℤ}
use utils_go.Base.Text.{Text, text_eq}
use utils_go.Base.GoMap.{lookup}
use utils_go.JsonExtract.Value.{Value, number, array, object, items_list, fields_map, Json}
use utils_go.JsonExtract.Segment.{split_dots, contains_bracket, find_submatch, atoi}

-- The errors of the package, with what they print.
pub data Error : Type 0 where
  bad_json : Error
  invalid_segment : Text → Error
  out_of_range : ℕ → Error
  not_an_array : Text → Error
  key_not_found : Text → Error
  not_a_map_before : Text → Error
  not_a_map_at : Text → Error
  not_an_integer : Text → Error

pub data Result (A : Type 0) : Type 0 where
  ok : A → Result A
  error : Error → Result A

infixl 5 ◌>>=◌
abbrev pub ◌>>=◌ : {A B : Type 0} → Result A → (A → Result B) → Result B
ok a >>= f = f a
error e >>= f = error e

module _ {N : Type 0} where
  -- mapped, ok := current.(map[string]interface{}); value, found := mapped[key]
  unfoldable pub get_key : Error → Text → Value N → Result (Value N)
  unfolding fields_map lookup
  get_key otherwise key (object fs) = elim (lookup key (fields_map fs)) [
    | none ↦ error (key_not_found key)
    | some v ↦ ok v
  ]
  get_key otherwise key _ = error otherwise

  -- sliced, ok := value.([]interface{}); index < len(sliced); sliced[index]
  unfoldable pub get_index : Text → ℕ → Value N → Result (Value N)
  unfolding items_list
  get_index key i (array vs) = elim (get_elem? (items_list vs) i) [
    | none ↦ error (out_of_range i)
    | some v ↦ ok v
  ]
  get_index key i _ = error (not_an_array key)

  -- The branch of a segment that has a "[".
  unfoldable pub array_segment : Text → Value N → Result (Value N)
  unfolding find_submatch atoi get_key get_index
  array_segment part current = elim (find_submatch part) [
    | none ↦ error (invalid_segment part)
    | some (key, digits) ↦ do
      value ← get_key (not_a_map_before key) key current
      get_index key (atoi digits) value
  ]

  -- The body of the loop over the segments.
  unfoldable pub segment : Text → Value N → Result (Value N)
  unfolding contains_bracket array_segment get_key
  segment part current =
      if contains_bracket part
      then array_segment part current
      else get_key (not_a_map_at part) part current

  unfoldable pub walk : List Text → Value N → Result (Value N)
  unfolding segment
  walk [] current = ok current
  walk (part ∷ parts) current = do next ← segment part current; walk parts next

module _ (j : Json) where
  unfoldable pub extract_value_from_json : Text → Text → Result (Value j.N)
  unfolding split_dots walk
  extract_value_from_json json_data path = elim (j.unmarshal json_data) [
    | none ↦ error bad_json
    | some data_value ↦ walk (split_dots path) data_value
  ]

  -- jsonData, _ := json.Marshal(obj): the empty text where it fails.
  unfoldable pub marshal_or_empty : j.Obj → Text
  marshal_or_empty obj = elim (j.marshal obj) [ none ↦ [] | some json_data ↦ json_data ]

  unfoldable pub extract_string_value_from_json : Text → Text → Result Text
  unfolding extract_value_from_json
  extract_string_value_from_json json_data path = do
    value ← extract_value_from_json json_data path
    ok (j.sprint value)

  unfoldable pub extract_string_value_from_obj : j.Obj → Text → Result Text
  unfolding extract_value_from_json marshal_or_empty
  extract_string_value_from_obj obj path = do
    value ← extract_value_from_json (marshal_or_empty obj) path
    ok (j.sprint value)

  -- floatValue, ok := value.(float64)
  unfoldable pub as_number : (j.N → ℤ) → Text → Value j.N → Result ℤ
  as_number convert path (number f) = ok (convert f)
  as_number convert path _ = error (not_an_integer path)

  unfoldable pub extract_int64_value_from_json : Text → Text → Result ℤ
  unfolding extract_value_from_json as_number
  extract_int64_value_from_json json_data path = do
    value ← extract_value_from_json json_data path
    as_number j.to_int64 path value

  unfoldable pub extract_int64_value_from_obj : j.Obj → Text → Result ℤ
  unfolding extract_value_from_json marshal_or_empty as_number
  extract_int64_value_from_obj obj path = do
    value ← extract_value_from_json (marshal_or_empty obj) path
    as_number j.to_int64 path value

  unfoldable pub extract_int32_value_from_json : Text → Text → Result ℤ
  unfolding extract_value_from_json as_number
  extract_int32_value_from_json json_data path = do
    value ← extract_value_from_json json_data path
    as_number j.to_int32 path value

  unfoldable pub extract_int32_value_from_obj : j.Obj → Text → Result ℤ
  unfolding extract_value_from_json marshal_or_empty as_number
  extract_int32_value_from_obj obj path = do
    value ← extract_value_from_json (marshal_or_empty obj) path
    as_number j.to_int32 path value

  unfoldable pub as_slice : Text → Value j.N → Result (List (Value j.N))
  unfolding items_list
  as_slice path (array vs) = ok (items_list vs)
  as_slice path _ = error (not_an_array path)

  unfoldable pub extract_slice_value_from_json : Text → Text → Result (List (Value j.N))
  unfolding extract_value_from_json as_slice
  extract_slice_value_from_json json_data path = do
    value ← extract_value_from_json json_data path
    as_slice path value

  unfoldable pub extract_slice_value_from_obj : j.Obj → Text → Result (List (Value j.N))
  unfolding extract_value_from_json marshal_or_empty as_slice
  extract_slice_value_from_obj obj path = do
    value ← extract_value_from_json (marshal_or_empty obj) path
    as_slice path value
