-- ===== src/Rpc/Sui.antt =====
-- rpc/sui.go: SuiRpc. sui-go-sdk, the decoded table of old tokens and SetString of math/big are parameters. The
-- methods that return "not impl" are left out. The pointer that GetTokenInfo adds to the manager is written
-- to once more by the same call; here the token is added as that call leaves it.
use utils_go.Base.{Bool, ◌&&◌, Option, none, some, nat_beq, length, drop, if◌then◌else◌, ◌++◌}
use utils_go.Base.Int.{ℤ, pos}
use utils_go.Base.Text.{Text, text, trim_space}
use utils_go.Loader.ChainInfo.{ChainInfo}
use utils_go.Loader.TokenInfo.{TokenInfo, TokenInfoManager, zero_token, new_token_info_manager}
use utils_go.Rpc.TokenCache.{cached}
use utils_go.Util.Address.{has_0x}
use utils_go.Util.Hex.{is_hex, is_hex_string_zero}
use utils_go.Util.Token.{Answer, answer, refused, ◌>>=◌}

-- An entry of legTokenStr, its decimals converted to int32.
pub record LegToken : Type 0 where
  pub symbol : Text
  pub decimals : ℤ
  pub name : Text
  pub icon_url : Text

pub record CoinMetadata : Type 0 where
  pub symbol : Text
  pub decimals : ℤ
  pub name : Text
  pub icon_url : Text

pub record SuiNode : Type 0 where
  pub leg_tokens : Text → Option LegToken
  pub get_coin_metadata : Text → Answer CoinMetadata
  -- the Value of SuiXGetTotalSupply
  pub get_total_supply : Text → Answer Text
  -- the TotalBalance of an owner and a type
  pub get_coin_balance : Text → Text → Answer Text
  -- big.Int's SetString in base 0
  pub set_string : Text → Option ℤ

pub record SuiRpc (C : Type 0) : Type 0 where
  pub token_info_mgr : TokenInfoManager
  pub chain_info : ChainInfo C

unfoldable pub new_sui_rpc : {C : Type 0} → ChainInfo C → SuiRpc C
new_sui_rpc chain_info = record { token_info_mgr = new_token_info_manager; chain_info = chain_info }

-- A text of "0x" and 64 hexadecimal digits; so too in rpc/starknet.go and rpc/fuel.go.
unfoldable pub is_address_valid : Text → Bool
unfolding has_0x is_hex
is_address_valid addr = has_0x addr && nat_beq (length addr) 66 && is_hex (drop 2 addr)

-- if util.IsHexStringZero(tokenAddr) { tokenAddr = "0x2::sui::SUI" }
unfoldable pub coin_type : Text → Text
unfolding is_hex_string_zero
coin_type token_addr = if is_hex_string_zero token_addr then text "0x2::sui::SUI" else token_addr

module _ {C : Type 0} where
  unfoldable pub leg_token_info : ChainInfo C → Text → LegToken → TokenInfo
  leg_token_info chain token_addr leg = record zero_token {
    token_name = leg.symbol;
    chain_name = chain.name;
    token_address = token_addr;
    decimals = leg.decimals;
    full_name = leg.name;
    icon = leg.icon_url;
    total_supply = some (pos 1000000000);
  }

  unfoldable pub coin_token_info : ChainInfo C → Text → CoinMetadata → Option ℤ → TokenInfo
  coin_token_info chain token_addr rsp supply = record zero_token {
    token_name = rsp.symbol;
    chain_name = chain.name;
    token_address = token_addr;
    decimals = rsp.decimals;
    full_name = rsp.name;
    icon = rsp.icon_url;
    total_supply = supply;
  }

module _ (node : SuiNode) where
  -- if err == nil { totalSupply, ok := SetString(...); if ok { ... } }
  unfoldable pub supply_of : Answer Text → Option ℤ
  supply_of (answer value) = node.set_string value
  supply_of (refused msg) = none

  unfoldable pub fetch_token : {C : Type 0} → ChainInfo C → Text → Answer TokenInfo
  unfolding coin_token_info supply_of
  fetch_token chain token_addr = do
    rsp ← node.get_coin_metadata token_addr
    answer (coin_token_info chain token_addr rsp (supply_of (node.get_total_supply token_addr)))

  unfoldable pub get_token_info : {C : Type 0} → SuiRpc C → Text → SuiRpc C × Answer TokenInfo
  unfolding leg_token_info cached coin_type fetch_token trim_space
  get_token_info w addr =
      let token_addr = trim_space addr in
      elim (node.leg_tokens token_addr) [
        | some leg ↦ (w, answer (leg_token_info w.chain_info token_addr leg))
        | none ↦
            let (mgr, info) =
              cached w.chain_info.name (coin_type token_addr)
                (fetch_token w.chain_info (coin_type token_addr)) w.token_info_mgr in
            (record w { token_info_mgr = mgr }, info)
      ]

  unfoldable pub get_balance : Text → Text → Answer ℤ
  unfolding coin_type trim_space
  get_balance owner_addr token_addr = do
    total_balance ←
        node.get_coin_balance (trim_space owner_addr) (coin_type (trim_space token_addr))
    elim (node.set_string total_balance) [
      | some num ↦ answer num
      | none ↦ refused (text "sui balance invalid " ++ total_balance)
    ]
