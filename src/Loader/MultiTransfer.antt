-- ===== src/Loader/MultiTransfer.antt =====
-- loader/multi_transfer_token.go and loader/multi_transfer_chain.go: MultiTransferTokenManager and
-- MultiTransferChainManager. Times are only stored.
use utils_go.Base.{Option, List, [], ◌∷◌, ◌++◌}
use utils_go.Base.Int.{ℤ, int_eq}
use utils_go.Base.Text.{Text, text, text_eq, trim_space, to_lower}
use utils_go.Base.GoMap.{GoMap, lookup, insert}
use utils_go.Base.Nested.{lookup2, insert2}
use utils_go.Loader.Rows.{Rows, Checked, good, key}
use utils_go.Loader.Table.{Manager, LoadTexts, load_table}

pub record MultiTransferToken : Type 0 where
  pub id : ℤ
  pub chain_name : Text
  pub token_name : Text
  pub token_address : Text
  pub decimals : ℤ
  pub max_value : Text
  pub dtc : Text
  pub disabled : ℤ
  pub created_at : ℤ
  pub updated_at : ℤ

pub record MultiTransferTokens : Type 0 where
  pub chain_name_token_addrs : GoMap Text (GoMap Text MultiTransferToken)
  pub chain_name_token_names : GoMap Text (GoMap Text MultiTransferToken)
  pub all_tokens : List MultiTransferToken

abbrev pub no_transfer_tokens : MultiTransferTokens
no_transfer_tokens = record {
  chain_name_token_addrs = [];
  chain_name_token_names = [];
  all_tokens = [];
}

abbrev pub new_multi_transfer_token_manager : Manager MultiTransferTokens
new_multi_transfer_token_manager = record { tables = no_transfer_tokens; alerts = [] }

unfoldable pub build_transfer_token : MultiTransferToken → Checked MultiTransferToken
unfolding trim_space
build_transfer_token row = good (record row {
  chain_name = trim_space row.chain_name;
  token_name = trim_space row.token_name;
  token_address = trim_space row.token_address;
  max_value = trim_space row.max_value;
  dtc = trim_space row.dtc;
})

unfoldable pub put_transfer_token : MultiTransferToken → MultiTransferTokens → MultiTransferTokens
unfolding insert2 to_lower
put_transfer_token token t = record {
  chain_name_token_addrs =
      insert2 (to_lower token.chain_name) (to_lower token.token_address) token
        t.chain_name_token_addrs;
  chain_name_token_names =
      insert2 (to_lower token.chain_name) (to_lower token.token_name) token
        t.chain_name_token_names;
  all_tokens = t.all_tokens ++ token ∷ [];
}

abbrev pub transfer_token_texts : LoadTexts
transfer_token_texts = record {
  on_query = text "select t_multi_transfer_token error";
  on_scan = text "scan t_multi_transfer_token row error";
  on_rows = text "iterate t_multi_transfer_token rows error";
}

unfoldable pub load_all_tokens :
    Option (Rows MultiTransferToken) → Manager MultiTransferTokens → Manager MultiTransferTokens
unfolding load_table build_transfer_token put_transfer_token
load_all_tokens =
    load_table transfer_token_texts build_transfer_token put_transfer_token no_transfer_tokens

unfoldable pub get_by_chain_name_token_addr :
    Manager MultiTransferTokens → Text → Text → Option MultiTransferToken
unfolding lookup2 key
get_by_chain_name_token_addr mgr chain_name token_addr =
    lookup2 (key chain_name) (key token_addr) mgr.tables.chain_name_token_addrs

unfoldable pub get_by_chain_name_token_name :
    Manager MultiTransferTokens → Text → Text → Option MultiTransferToken
unfolding lookup2 key
get_by_chain_name_token_name mgr chain_name token_name =
    lookup2 (key chain_name) (key token_name) mgr.tables.chain_name_token_names

unfoldable pub get_all_transfer_tokens : Manager MultiTransferTokens → List MultiTransferToken
get_all_transfer_tokens mgr = mgr.tables.all_tokens

pub record MultiTransferChain : Type 0 where
  pub id : ℤ
  pub chain_id : ℤ
  pub chain_name : Text
  pub backend : ℤ
  pub disabled : ℤ
  pub created_at : ℤ
  pub updated_at : ℤ

pub record MultiTransferChains : Type 0 where
  pub id_chains : GoMap ℤ MultiTransferChain
  pub chain_id_chains : GoMap ℤ MultiTransferChain
  pub all_chains : List MultiTransferChain

abbrev pub no_transfer_chains : MultiTransferChains
no_transfer_chains = record { id_chains = []; chain_id_chains = []; all_chains = [] }

abbrev pub new_multi_transfer_chain_manager : Manager MultiTransferChains
new_multi_transfer_chain_manager = record { tables = no_transfer_chains; alerts = [] }

unfoldable pub build_transfer_chain : MultiTransferChain → Checked MultiTransferChain
unfolding trim_space
build_transfer_chain row = good (record row { chain_name = trim_space row.chain_name })

unfoldable pub put_transfer_chain : MultiTransferChain → MultiTransferChains → MultiTransferChains
unfolding insert
put_transfer_chain chain t = record {
  id_chains = insert chain.id chain t.id_chains;
  chain_id_chains = insert chain.chain_id chain t.chain_id_chains;
  all_chains = t.all_chains ++ chain ∷ [];
}

abbrev pub transfer_chain_texts : LoadTexts
transfer_chain_texts = record {
  on_query = text "select t_multi_transfer_chain error";
  on_scan = text "scan t_multi_transfer_chain row error";
  on_rows = text "iterate t_multi_transfer_chain rows error";
}

unfoldable pub load_all_transfer_chains :
    Option (Rows MultiTransferChain) → Manager MultiTransferChains → Manager MultiTransferChains
unfolding load_table build_transfer_chain put_transfer_chain
load_all_transfer_chains =
    load_table transfer_chain_texts build_transfer_chain put_transfer_chain no_transfer_chains

unfoldable pub get_transfer_chain_by_id :
    Manager MultiTransferChains → ℤ → Option MultiTransferChain
unfolding lookup
get_transfer_chain_by_id mgr id = lookup id mgr.tables.id_chains

unfoldable pub get_transfer_chain_by_chain_id :
    Manager MultiTransferChains → ℤ → Option MultiTransferChain
unfolding lookup
get_transfer_chain_by_chain_id mgr chain_id = lookup chain_id mgr.tables.chain_id_chains

unfoldable pub get_all_transfer_chains : Manager MultiTransferChains → List MultiTransferChain
get_all_transfer_chains mgr = mgr.tables.all_chains
