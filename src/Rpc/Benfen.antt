-- ===== src/Rpc/Benfen.antt =====
-- rpc/bfc.go: BenfenRpc. The methods that return "not impl" are left out.
use utils_go.Base.{Bool, ◌&&◌, Option, none, some, [], ◌∷◌, length, drop, nat_beq}
use utils_go.Base.Int.{ℤ}
use utils_go.Base.Text.{Text, text, text_eq, trim_space, starts_with}
use utils_go.Base.GoMap.{GoMap}
use utils_go.JsonExtract.Value.{Value}
use utils_go.Util.Hex.{is_hex}
use utils_go.Util.Token.{Answer, answer, refused, ◌>>=◌}
use utils_go.Rpc.JsonRpc.{Net, get_map, get_text, and_then}

unfoldable pub is_address_valid : Text → Bool
unfolding starts_with is_hex
is_address_valid addr =
    starts_with (text "BFC") addr && nat_beq (length addr) 71 && is_hex (drop 3 addr)

-- The number in data["result"]["totalBalance"].
unfoldable pub total_balance : {N : Type 0} → (Text → Option ℤ) → GoMap Text (Value N) → Option ℤ
unfolding get_map get_text
total_balance set_string response =
    and_then (get_map (text "result") response)
      λ result. and_then (get_text (text "totalBalance") result) set_string

unfoldable pub get_balance : (net : Net) → Text → Text → Text → Answer ℤ
unfolding total_balance trim_space
get_balance net rpc_end_point owner_addr token_addr = do
  response ←
      net.request rpc_end_point (text "bfcx_getBalance")
        (trim_space owner_addr ∷ trim_space token_addr ∷ [])
  elim (total_balance net.set_string response) [
    | some tb ↦ answer tb
    | none ↦ refused (net.result_invalid response)
  ]
