-- ===== src/Rpc/JsonRpc.antt =====
-- rpc/bfc.go and rpc/zkslite.go: what they share, clients that post a JSON request. network.Request is a parameter, from the
-- address, the method and the parameters of the request, and so is SetString of math/big in base 10.
use utils_go.Base.{Option, none, some, List}
use utils_go.Base.Int.{ℤ}
use utils_go.Base.Text.{Text, text_eq}
use utils_go.Base.GoMap.{GoMap, lookup}
use utils_go.JsonExtract.Value.{Value, string, object, fields_map}
use utils_go.Util.Token.{Answer}

pub record Net : Type 1 where
  pub N : Type 0
  -- the decoded map, from the URL, the method and the params
  pub request : Text → Text → List Text → Answer (GoMap Text (Value N))
  pub set_string : Text → Option ℤ
  -- fmt.Errorf("result invalid %v", data)
  pub result_invalid : GoMap Text (Value N) → Text

module _ {N : Type 0} where
  -- result, ok := m[key].(map[string]interface{})
  unfoldable pub get_map : Text → GoMap Text (Value N) → Option (GoMap Text (Value N))
  unfolding lookup fields_map
  get_map key m = elim (lookup key m) [ some (object fs) ↦ some (fields_map fs) | _ ↦ none ]

  -- text, ok := m[key].(string)
  unfoldable pub get_text : Text → GoMap Text (Value N) → Option Text
  unfolding lookup
  get_text key m = elim (lookup key m) [ some (string s) ↦ some s | _ ↦ none ]

abbrev pub and_then : {A B : Type 0} → Option A → (A → Option B) → Option B
and_then none f = none
and_then (some a) f = f a
