-- ===== src/Rpc/Bitcoin.antt =====
-- rpc/bitcoin.go: BitcoinRpc, with the configuration of apollosdk/apolloconfig.go that it reads. btcd, unisat and
-- agollo are parameters. The methods that return "not impl" are left out.
use utils_go.Base.{
  Bool, true, false, ◌&&◌, Option, none, some, ◌++◌, ltb, length, drop, if◌then◌else◌, ◌==◌,
}
use utils_go.Base.Int.{ℤ, pos, int_eq}
use utils_go.Base.Text.{Text, text, text_eq, trim_space, starts_with}
use utils_go.Base.GoMap.{GoMap, lookup}
use utils_go.Loader.ChainInfo.{ChainInfo}
use utils_go.Util.Call.{Call, returned, failed, panicked, ◌>>=◌}
use utils_go.Util.Hex.{is_hex_string_zero}
use utils_go.Util.Token.{Answer, answer, refused}

-- client.GetConfig(namespace), which may be nil, with GetValue
unfoldable pub get_string : (Text → Option (Text → Text)) → Text → Text → Answer Text
get_string get_config namespace key = elim (get_config namespace) [
  | none ↦ refused (text "namespace " ++ namespace ++ text " not found")
  | some get_value ↦ answer (get_value key)
]

-- GetConfig with a function that parses the value
unfoldable pub get_parsed_config :
    {T : Type 0} → (Text → Option (Text → Text)) → Text → Text → (Text → Answer T) → Answer T
unfolding get_string
get_parsed_config get_config namespace key parse = elim (get_string get_config namespace key) [
  | answer value ↦ parse value
  | refused msg ↦ refused msg
]

-- chainServerBearer, the fields that are used
pub record ChainServerBearer : Type 0 where
  pub server : Text
  pub bearer : Text

-- map[string]*chainServerBearer; a nil pointer is `none`.
abbrev pub UnisatApiConfig : Type 0
UnisatApiConfig = GoMap Text (Option ChainServerBearer)

pub record Unisat (B : Type 0) : Type 0 where
  pub code : ℤ
  pub message : Text
  pub body : B

pub record BitcoinNode : Type 0 where
  -- btcutil.DecodeAddress on the main or the test net, and String; a nil address beside an error
  pub decode_address : Bool → Text → Option Text
  -- apolloSDK.client.GetConfig with GetValue, and json.Unmarshal
  pub get_config : Text → Option (Text → Text)
  pub parse_unisat_api_config : Text → Answer UnisatApiConfig
  -- from a server, a bearer and an owner, and of a tick
  pub get_address_balance : Text → Text → Text → Answer (Unisat ℤ)
  pub get_address_brc20_tick_info : Text → Text → Text → Text → Answer (Unisat Text)
  -- big.Int's SetString in base 10
  pub set_string : Text → Option ℤ

abbrev pub of_answer : {A : Type 0} → Answer A → Call A
of_answer (answer a) = returned a
of_answer (refused msg) = failed msg

-- if resp.Code != 0
unfoldable pub checked_body : {B : Type 0} → Text → Unisat B → Call B
checked_body name resp =
    if resp.code == pos 0
    then returned resp.body
    else failed (text "unisat " ++ name ++ text " error: " ++ resp.message)

-- balance, ok := SetString(resp.Data.OverallBalance, 10); 0 where it is not a number
unfoldable pub overall_balance : BitcoinNode → Text → ℤ
overall_balance node s = elim (node.set_string s) [ some balance ↦ balance | none ↦ pos 0 ]

module _ {C : Type 0} (node : BitcoinNode) where
  unfoldable pub is_testnet : ChainInfo C → Bool
  is_testnet chain = chain.is_testnet == pos 1

  unfoldable pub is_address_valid : ChainInfo C → Text → Bool
  unfolding is_testnet
  is_address_valid chain addr = elim (node.decode_address (is_testnet chain) addr) [
    | some a ↦ true
    | none ↦ false
  ]

  -- The error is dropped, and String of a nil address panics.
  unfoldable pub get_checksum_address : ChainInfo C → Text → Call Text
  unfolding is_testnet
  get_checksum_address chain addr = elim (node.decode_address (is_testnet chain) addr) [
    | some a ↦ returned a
    | none ↦ panicked
  ]

  -- unisatAPIConfig[w.chainInfo.Name], whose fields are read through the pointer
  unfoldable pub bearer_of : ChainInfo C → UnisatApiConfig → Call ChainServerBearer
  unfolding lookup
  bearer_of chain config = elim (lookup chain.name config) [
    | some (some b) ↦ returned b
    | _ ↦ panicked
  ]

  unfoldable pub get_balance : ChainInfo C → Text → Text → Call ℤ
  unfolding get_parsed_config bearer_of checked_body overall_balance is_hex_string_zero trim_space
      starts_with
  get_balance chain owner token = do
    let owner_addr = trim_space owner
    let token_addr = trim_space token
    config ← of_answer (
        get_parsed_config node.get_config (text "base_config") (text "unisat_api_config")
          node.parse_unisat_api_config)
    if is_hex_string_zero token_addr
        then bearer_of chain config >>= (λ b.
          of_answer (node.get_address_balance b.server b.bearer owner_addr)
          >>= checked_body (text "GetAddressBalance"))
        else if starts_with (text "brc20_") token_addr && ltb 6 (length token_addr)
        then bearer_of chain config >>= (λ b.
          of_answer
            (node.get_address_brc20_tick_info b.server b.bearer owner_addr (drop 6 token_addr))
          >>= checked_body (text "GetAddressBrc20TickInfo")
          >>= (λ s. returned (overall_balance node s)))
        else failed (text "not impl")
