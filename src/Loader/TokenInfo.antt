-- ===== src/Loader/TokenInfo.antt =====
-- loader/token_info.go: TokenInfoManager. A TokenInfo is shared by reference and not written after
-- it is stored, so the maps hold it by value. LoadAllToken panics on a nil ChainInfoManager; here
-- the manager is an argument that is there.
pub mod Tokens
pub mod Stored
pub mod Gas
use utils_go.Base.{
  ◌≡◌, refl, Option, none, some, Bool, true, false, List, [], ◌∷◌, ◌++◌, map, if◌then◌else◌, ◌==◌,
}
use utils_go.Base.Int.{ℤ, pos, pos_part, neg_part, int_eq, ltb_ℤ}
use utils_go.Base.Text.{Text, text, text_eq, trim_space, to_lower}
use utils_go.Base.GoMap.{GoMap, lookup, insert}
use utils_go.Base.Nested.{inner_map, lookup2, insert2}
use utils_go.Loader.Rows.{key, Rows, Checked, good, load_loop}
use utils_go.Loader.ChainInfo.{
  ChainInfo, ChainInfoManager, get_chain_info_auto_ids, get_chain_info_by_id,
}

pub record TokenInfo : Type 0 where
  pub id : ℤ
  pub token_name : Text
  pub chain_name : Text
  pub chain_id : ℤ
  pub token_address : Text
  pub decimals : ℤ
  pub full_name : Text
  pub total_supply : Option ℤ
  pub icon : Text
  pub url : Text

-- var token TokenInfo
abbrev pub zero_token : TokenInfo
zero_token = record {
  id = pos 0;
  token_name = [];
  chain_name = [];
  chain_id = pos 0;
  token_address = [];
  decimals = pos 0;
  full_name = [];
  total_supply = none;
  icon = [];
  url = [];
}

-- The columns that LoadAllToken selects.
pub record TokenRow : Type 0 where
  pub id : ℤ
  pub token_name : Text
  pub chain_name : Text
  pub chain_id : ℤ
  pub token_address : Text
  pub decimals : ℤ
  pub icon : Text

pub record TokenTables : Type 0 where
  pub chain_name_token_addrs : GoMap Text (GoMap Text TokenInfo)
  pub chain_name_token_names : GoMap Text (GoMap Text TokenInfo)
  pub chain_id_token_addrs : GoMap ℤ (GoMap Text TokenInfo)
  pub chain_id_token_names : GoMap ℤ (GoMap Text TokenInfo)
  pub all_tokens : List TokenInfo

pub record TokenInfoManager : Type 0 where
  pub tables : TokenTables
  pub alerts : List Text

abbrev pub no_tokens : TokenTables
no_tokens = record {
  chain_name_token_addrs = [];
  chain_name_token_names = [];
  chain_id_token_addrs = [];
  chain_id_token_names = [];
  all_tokens = [];
}

abbrev pub new_token_info_manager : TokenInfoManager
new_token_info_manager = record { tables = no_tokens; alerts = [] }

abbrev pub get_all_tokens : TokenInfoManager → List TokenInfo
get_all_tokens mgr = mgr.tables.all_tokens

unfoldable pub get_by_chain_name_token_addr : TokenInfoManager → Text → Text → Option TokenInfo
get_by_chain_name_token_addr mgr chain addr =
    lookup2 (key chain) (key addr) mgr.tables.chain_name_token_addrs

unfoldable pub get_by_chain_id_token_addr : TokenInfoManager → ℤ → Text → Option TokenInfo
get_by_chain_id_token_addr mgr chain_id addr =
    lookup2 chain_id (key addr) mgr.tables.chain_id_token_addrs

unfoldable pub get_by_chain_name_token_name : TokenInfoManager → Text → Text → Option TokenInfo
get_by_chain_name_token_name mgr chain name =
    lookup2 (key chain) (key name) mgr.tables.chain_name_token_names

unfoldable pub get_by_chain_id_token_name : TokenInfoManager → ℤ → Text → Option TokenInfo
get_by_chain_id_token_name mgr chain_id name =
    lookup2 chain_id (key name) mgr.tables.chain_id_token_names

unfoldable pub get_token_addresses : TokenInfoManager → Text → List Text
get_token_addresses mgr chain =
    map (λ (addr, token). token.token_address)
      (inner_map (lookup (key chain) mgr.tables.chain_name_token_addrs))

unfoldable pub get_token_addresses_by_chain_id : TokenInfoManager → ℤ → List Text
get_token_addresses_by_chain_id mgr chain_id =
    map (λ (addr, token). token.token_address)
      (inner_map (lookup chain_id mgr.tables.chain_id_token_addrs))

-- The writes that index a token by the name of its chain.
unfoldable pub index_by_chain_name : TokenInfo → TokenTables → TokenTables
index_by_chain_name token t = record t {
  chain_name_token_addrs =
      insert2 (to_lower token.chain_name) (to_lower token.token_address) token
        t.chain_name_token_addrs;
  chain_name_token_names =
      insert2 (to_lower token.chain_name) (to_lower token.token_name) token
        t.chain_name_token_names;
}

-- if token.ChainId > 0 { ... }
unfoldable pub index_by_chain_id : TokenInfo → TokenTables → TokenTables
index_by_chain_id token t =
    if ltb_ℤ (pos 0) token.chain_id
    then record t {
      chain_id_token_addrs =
          insert2 token.chain_id (to_lower token.token_address) token t.chain_id_token_addrs;
      chain_id_token_names =
          insert2 token.chain_id (to_lower token.token_name) token t.chain_id_token_names;
    }
    else t

unfoldable pub add_token_info : TokenInfo → TokenInfoManager → TokenInfoManager
unfolding index_by_chain_name
add_token_info token mgr = record mgr { tables = index_by_chain_name token mgr.tables }

-- The token that AddToken makes.
unfoldable pub made_token : Text → Text → Text → ℤ → TokenInfo
made_token chain name addr decimals = record zero_token {
  chain_name = trim_space chain;
  token_address = trim_space addr;
  token_name = trim_space name;
  decimals = decimals;
}

unfoldable pub add_token : Text → Text → Text → ℤ → TokenInfoManager → TokenInfoManager
unfolding made_token index_by_chain_name
add_token chain name addr decimals mgr = record mgr {
  tables = index_by_chain_name (made_token chain name addr decimals) mgr.tables;
}

unfoldable pub build_token : TokenRow → Checked TokenInfo
build_token r = good (record zero_token {
  id = r.id;
  token_name = trim_space r.token_name;
  chain_name = trim_space r.chain_name;
  chain_id = r.chain_id;
  token_address = trim_space r.token_address;
  decimals = r.decimals;
  icon = trim_space r.icon;
})

unfoldable pub store_token : TokenInfo → TokenTables → TokenTables
unfolding index_by_chain_name index_by_chain_id
store_token token t =
    let t' = index_by_chain_id token (index_by_chain_name token t) in
    record t' { all_tokens = t'.all_tokens ++ token ∷ [] }

-- The gas token of a chain.
unfoldable pub gas_token : {C : Type 0} → ChainInfo C → TokenInfo
gas_token chain = record zero_token {
  chain_name = chain.name;
  token_address = chain.gas_token_address;
  token_name = chain.gas_token_name;
  decimals = chain.gas_token_decimal;
  icon = chain.gas_token_icon;
}

-- inner, ok := m[k]; if !ok { inner = make(...); m[k] = inner }
abbrev pub make_inner : Text → GoMap Text (GoMap Text TokenInfo) → GoMap Text (GoMap Text TokenInfo)
make_inner k m = insert k (inner_map (lookup k m)) m

-- A gas token is added only under a name that the chain does not have.
unfoldable pub add_gas_token : TokenInfo → TokenTables → TokenTables
add_gas_token token t =
    let chain = to_lower token.chain_name in
    let name = to_lower token.token_name in
    let addrs = make_inner chain t.chain_name_token_addrs in
    let names = make_inner chain t.chain_name_token_names in
    elim (lookup2 chain name names) [
      | some _ ↦ record t { chain_name_token_addrs = addrs; chain_name_token_names = names }
      | none ↦ record t {
        chain_name_token_addrs = insert2 chain (to_lower token.token_address) token addrs;
        chain_name_token_names = insert2 chain name token names;
        all_tokens = t.all_tokens ++ token ∷ [];
      }
    ]

-- the loop over the ids of the chains
unfoldable pub add_gas_tokens :
    {C : Type 0} → ChainInfoManager C → List ℤ → TokenTables → TokenTables
unfolding gas_token add_gas_token
add_gas_tokens chains [] t = t
add_gas_tokens chains (id ∷ ids) t =
    add_gas_tokens chains ids (elim (get_chain_info_by_id chains id) [
      | none ↦ t
      | some chain ↦ add_gas_token (gas_token chain) t
    ])

-- LoadAllToken; `none` is a query that fails
unfoldable pub load_all_token :
    {C : Type 0} → ChainInfoManager C → Option (Rows TokenRow) → TokenInfoManager → TokenInfoManager
unfolding build_token store_token load_loop add_gas_tokens
load_all_token chains none mgr = record mgr {
  alerts = mgr.alerts ++ text "select t_token_info error" ∷ [];
}
load_all_token chains (some rows) mgr =
    let (tables, alerts) =
      load_loop build_token store_token (text "scan t_token_info row error") rows.scans no_tokens
        mgr.alerts in
    if rows.rows_err
    then record mgr { alerts = alerts ++ text "get next t_token_info row error" ∷ [] }
    else record {
      tables = add_gas_tokens chains (get_chain_info_auto_ids chains) tables;
      alerts = alerts;
    }
