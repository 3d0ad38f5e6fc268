-- ===== src/Rpc/Zkslite.antt =====
-- rpc/zkslite.go: ZksliteRpc. The methods that return "not impl" are left out.
use utils_go.Base.{Bool, false, Option, none, some, [], ◌∷◌, ◌++◌, nat_beq, if◌then◌else◌, ◌==◌}
use utils_go.Base.Int.{ℤ, pos}
use utils_go.Base.Text.{Text, text, text_eq, text_beq, trim_space}
use utils_go.Base.GoMap.{GoMap}
use utils_go.JsonExtract.Value.{Value}
use utils_go.Util.Hex.{is_hex_string_zero}
use utils_go.Util.Token.{Answer, answer, refused, ◌>>=◌}
use utils_go.Rpc.JsonRpc.{Net, get_map, get_text, and_then}

abbrev pub usdc_address : Text
usdc_address = text "0xA0b86991c6218b36c1d19D4a2e9Eb0cE3606eB48"

abbrev pub usdt_address : Text
usdt_address = text "0xdAC17F958D2ee523a2206206994597C13D831ec7"

unfoldable pub is_last_char_slash : Text → Bool
is_last_char_slash [] = false
is_last_char_slash (c ∷ []) = nat_beq c b'/'
is_last_char_slash (c ∷ d ∷ s) = is_last_char_slash (d ∷ s)

unfoldable pub json_rpc_url : Text → Text
unfolding is_last_char_slash
json_rpc_url url = if is_last_char_slash url then url ++ text "jsrpc" else url ++ text "/jsrpc"

-- The key of the balance of a token, for the tokens that are served.
unfoldable pub balance_key : Text → Option Text
unfolding is_hex_string_zero text_beq
balance_key token_addr =
    if is_hex_string_zero token_addr
    then some (text "ETH")
    else if token_addr == usdc_address
    then some (text "USDC")
    else if token_addr == usdt_address
    then some (text "USDT")
    else none

-- The number in data["result"]["committed"]["balances"][key]; 0 where it is not there.
unfoldable pub committed_balance :
    {N : Type 0} → (Text → Option ℤ) → Text → GoMap Text (Value N) → ℤ
unfolding get_map get_text
committed_balance set_string key response =
    elim (and_then (get_map (text "result") response) λ result.
      and_then (get_map (text "committed") result) λ committed.
        and_then (get_map (text "balances") committed)
          λ balances. and_then (get_text key balances) set_string) [
            | some value ↦ value
            | none ↦ pos 0
          ]

unfoldable pub get_balance : (net : Net) → Text → Text → Text → Answer ℤ
unfolding balance_key json_rpc_url committed_balance trim_space
get_balance net rpc_end_point owner_addr token_addr = elim (balance_key (trim_space token_addr)) [
  | none ↦ refused (text "not impl")
  | some key ↦
      net.request (json_rpc_url rpc_end_point) (text "account_info") (trim_space owner_addr ∷ [])
      >>= (λ response. answer (committed_balance net.set_string key response))
]
