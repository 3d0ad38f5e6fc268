-- ===== src/Web/Errors.antt =====
-- errors/error.go: BizError. The methods return the receiver that they change; here they return the
-- changed record.
use mathlib.Core.List.{foldl}
use utils_go.Base.{◌%◌, List, [], ◌∷◌, ◌++◌, map, length, nat_beq, ltb, if◌then◌else◌}
use utils_go.Base.Int.{ℤ, pos}
use utils_go.Base.Text.{Text, text, text_eq}
use utils_go.Base.GoMap.{GoMap, insert}
use utils_go.Base.Decimal.{format_int}

-- An interface{}: a string, or a value of another type.
pub data Any (V : Type 0) : Type 0 where
  string : Text → Any V
  other : V → Any V

pub record BizError (V : Type 0) : Type 0 where
  pub code : ℤ
  pub msg : Text
  pub info : GoMap Text (Any V)

unfoldable pub new_biz_error : {V : Type 0} → ℤ → Text → BizError V
new_biz_error code msg = record { code = code; msg = msg; info = [] }

abbrev pub unauthorized_err : {V : Type 0} → BizError V
unauthorized_err = record { code = pos 1004; msg = text "unauthorized"; info = [] }

-- strings.Join(parts, ", ")
unfoldable pub join_comma : List Text → Text
join_comma [] = []
join_comma (p ∷ []) = p
join_comma (p ∷ q ∷ parts) = p ++ text ", " ++ join_comma (q ∷ parts)

module _ {V : Type 0} where
  -- fmt.Sprintf("%s = %v", key, value), with the text of a value given
  unfoldable pub info_part : (Any V → Text) → Text × Any V → Text
  info_part sprint (key, value) = key ++ text " = " ++ sprint value

  unfoldable pub error_text : (Any V → Text) → BizError V → Text
  unfolding join_comma info_part format_int
  error_text sprint e =
      let head = text "code: " ++ format_int e.code ++ text ", msg: " ++ e.msg in
      if ltb 0 (length e.info)
      then head ++ text " | info: {" ++ join_comma (map (info_part sprint) e.info) ++ text "}"
      else head

  unfoldable pub with_msg : Text → BizError V → BizError V
  with_msg msg e = record e { msg = msg }

  -- kv[:len(kv)-1]
  unfoldable pub drop_last : List (Any V) → List (Any V)
  drop_last [] = []
  drop_last (x ∷ []) = []
  drop_last (x ∷ y ∷ xs) = x ∷ drop_last (y ∷ xs)

  unfoldable pub even_arguments : List (Any V) → List (Any V)
  unfolding drop_last
  even_arguments kv = if nat_beq (length kv % 2) 0 then kv else drop_last kv

  -- The loop over the pairs: a key that is no string is passed over.
  unfoldable pub add_pairs : List (Any V) → GoMap Text (Any V) → GoMap Text (Any V)
  unfolding insert
  add_pairs [] info = info
  add_pairs (key ∷ []) info = info
  add_pairs (string key ∷ value ∷ kv) info = add_pairs kv (insert key value info)
  add_pairs (other key ∷ value ∷ kv) info = add_pairs kv info

  -- info[k] = v for each entry of e.Info
  unfoldable pub copy_info : GoMap Text (Any V) → GoMap Text (Any V)
  unfolding insert
  copy_info = foldl (λ copy entry. insert entry.0 entry.1 copy) []

  unfoldable pub with_info : List (Any V) → BizError V → BizError V
  unfolding even_arguments add_pairs copy_info
  with_info kv e = record e { info = add_pairs (even_arguments kv) (copy_info e.info) }
