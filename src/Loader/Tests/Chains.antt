-- ===== src/Loader/Tests/Chains.antt =====
-- loader/chain_info.go and token_info.go: the theorems at concrete tables.
use utils_go.Base.{◌≡◌, ◌⊎◌, refl, none, some, false, [], ◌∷◌, ◌==◌, ◌&&◌, if◌then◌else◌}
use utils_go.Base.Int.{pos, int_eq}
use utils_go.Base.Text.{Text, text, text_eq, trim_space, to_lower}
use utils_go.Base.GoMap.{lookup}
use utils_go.Loader.Rows.{key, Rows, used_rows}
use utils_go.Loader.ChainInfo.{
  NullString, ChainRow, ChainInfo, Clients, ChainInfoManager, new_chain_info_manager,
  get_chain_info_by_id, load_all_chains, no_chains,
}
use utils_go.Loader.ChainInfo.Load.{IsCoherent, no_chains-IsCoherent, load_all_chains-IsCoherent}
use utils_go.Loader.TokenInfo.{
  new_token_info_manager, get_by_chain_id_token_name, get_all_tokens, made_token, add_token,
  load_all_token, TokenInfo, TokenRow, build_token, get_by_chain_name_token_name,
  get_by_chain_name_token_addr,
}
use utils_go.Loader.TokenInfo.Tokens.{get-add_token}
use utils_go.Loader.TokenInfo.Gas.{IsGasToken, load_all_token-IsGasToken}
use utils_go.Loader.TokenInfo.Stored.{is_named}
use utils_go.Base.Find.{find_last}
use utils_go.Loader.Tests.{eth}

abbrev pub no_text : NullString
no_text = record { string = []; valid = false }

abbrev pub chain_row : ChainRow
chain_row = record {
  id = pos 7;
  chain_id = text "1";
  real_chain_id = text "1";
  name = text "a";
  alias_name = [];
  backend = pos 3;
  eip1559 = pos 0;
  network_code = pos 5;
  icon = [];
  block_interval = pos 0;
  timeout = pos 0;
  rpc_end_point = [];
  explorer_url = [];
  official_rpc = [];
  mev_rpc = [];
  disabled = pos 0;
  is_testnet = pos 0;
  order_weight = pos 0;
  gas_token_name = eth;
  gas_token_address = text "0x";
  gas_token_decimal = pos 18;
  gas_token_icon = [];
  enable_black_list_check = pos 0;
  transfer_contract_address = no_text;
  deposit_contract_address = no_text;
  layer1 = no_text;
}

-- Clients that are their addresses.
abbrev clients : Clients Text
clients = record {
  eth_dial = λ url. some url;
  starknet_provider = λ url. some url;
  solana_client = λ url. url;
  sui_client = λ url. url;
  ton_client = λ url. some url;
  fuel_client = λ url. url;
}

load_all_chains-IsCoherent_example :
    IsCoherent
      (load_all_chains clients
        (some (record { scans = some chain_row ∷ []; rows_err = false }))
        new_chain_info_manager).tables
load_all_chains-IsCoherent_example =
    load_all_chains-IsCoherent clients
      (some (record { scans = some chain_row ∷ []; rows_err = false })) new_chain_info_manager
      no_chains-IsCoherent

abbrev chain : ChainInfo Text
chain = record { row = chain_row; client = some [] }

abbrev chains : ChainInfoManager Text
chains = record new_chain_info_manager {
  tables = record no_chains { id_chains = (pos 7, chain) ∷ [] };
}

abbrev no_rows : Rows TokenRow
no_rows = record { scans = []; rows_err = false }

load_all_token-IsGasToken_example :
    (x : TokenInfo) × (get_by_chain_name_token_name
        (load_all_token chains (some no_rows) new_token_info_manager)
        (text "A ")
        (text "ETH")
      ≡ some x)
    × ((find_last
            (is_named (to_lower chain.name) (to_lower chain.gas_token_name))
            (used_rows build_token no_rows.scans)
          ≡ some x)
        ⊎ ((find_last
                (is_named (to_lower chain.name) (to_lower chain.gas_token_name))
                (used_rows build_token no_rows.scans)
              ≡ none)
            × IsGasToken chains chain x))
unfolding get_chain_info_by_id lookup key trim_space to_lower
load_all_token-IsGasToken_example =
    load_all_token-IsGasToken chains no_rows new_token_info_manager (pos 7) chain (text "A ")
      (text "ETH") refl refl refl refl

get-add_token_example :
    (get_by_chain_name_token_name
        (add_token (text "A") eth (text "0x") (pos 18) new_token_info_manager)
        (text "a")
        (text "btc")
      ≡ (if (key (text "A") == key (text "a")) && (key eth == key (text "btc"))
          then some (made_token (text "A") eth (text "0x") (pos 18))
          else get_by_chain_name_token_name new_token_info_manager (text "a") (text "btc")))
    × (get_by_chain_name_token_addr
          (add_token (text "A") eth (text "0x") (pos 18) new_token_info_manager)
          (text "a")
          (text "0X")
        ≡ (if (key (text "A") == key (text "a")) && (key (text "0x") == key (text "0X"))
            then some (made_token (text "A") eth (text "0x") (pos 18))
            else get_by_chain_name_token_addr new_token_info_manager (text "a") (text "0X")))
    × (get_by_chain_id_token_name
          (add_token (text "A") eth (text "0x") (pos 18) new_token_info_manager)
          (pos 1)
          (text "btc")
        ≡ get_by_chain_id_token_name new_token_info_manager (pos 1) (text "btc"))
    × (get_all_tokens (add_token (text "A") eth (text "0x") (pos 18) new_token_info_manager) ≡ [])
get-add_token_example =
    get-add_token (text "A") eth (text "0x") (text "a") (text "btc") (text "0X") (pos 18) (pos 1)
      new_token_info_manager
