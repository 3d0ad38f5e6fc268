-- ===== src/JsonExtract/Value.antt =====
-- json_extract/json_extract.go: what encoding/json decodes into an interface{}, and the parts of
-- encoding/json and fmt that the package calls.
use utils_go.Base.{Bool, Option, List, [], ◌∷◌}
use utils_go.Base.Int.{ℤ}
use utils_go.Base.Text.{Text}
use utils_go.Base.GoMap.{GoMap}

-- nil, bool, float64, string, []interface{} and map[string]interface{}; `N` stands for float64.
mutual
  pub data Value (N : Type 0) : Type 0 where
    null : Value N
    boolean : Bool → Value N
    number : N → Value N
    string : Text → Value N
    array : Items N → Value N
    object : Fields N → Value N

  pub data Items (N : Type 0) : Type 0 where
    no_items : Items N
    item : Value N → Items N → Items N

  pub data Fields (N : Type 0) : Type 0 where
    no_fields : Fields N
    field : Text → Value N → Fields N → Fields N

unfoldable pub items_list : {N : Type 0} → Items N → List (Value N)
items_list no_items = []
items_list (item v vs) = v ∷ items_list vs

unfoldable pub fields_map : {N : Type 0} → Fields N → GoMap Text (Value N)
fields_map no_fields = []
fields_map (field k v fs) = (k, v) ∷ fields_map fs

-- json.Unmarshal into an interface{}, json.Marshal of a program's object, fmt.Sprintf("%v", v), and
-- the conversions int64(f) and int32(f) of a float64. Nothing is assumed of them.
pub record Json : Type 1 where
  pub N : Type 0
  pub Obj : Type 0
  pub unmarshal : Text → Option (Value N)
  pub marshal : Obj → Option Text
  pub sprint : Value N → Text
  pub to_int64 : N → ℤ
  pub to_int32 : N → ℤ
