-- ===== src/Loader/ChainInfo.antt =====
-- loader/chain_info.go: ChainInfoManager. The chains are shared by reference and never written after
-- the load, so the maps hold them by value.
pub mod Load
pub mod Ids
use utils_go.Base.{
  ℕ, ◌≡◌, refl, Option, none, some, Bool, true, false, List, [], ◌∷◌, ◌++◌, map, if◌then◌else◌,
  ◌==◌,
}
use utils_go.Base.Int.{ℤ, pos, int_eq}
use utils_go.Base.Text.{Text, text, text_eq, trim_space, to_lower}
use utils_go.Base.GoMap.{GoMap, lookup, insert}
use utils_go.Loader.Rows.{key, Rows}

-- sql.NullString
pub record NullString : Type 0 where
  pub string : Text
  pub valid : Bool

-- The constants of type Backend; a column may hold any number.
abbrev pub ethereum_backend : ℤ
ethereum_backend = pos 1

abbrev pub starknet_backend : ℤ
starknet_backend = pos 2

abbrev pub solana_backend : ℤ
solana_backend = pos 3

abbrev pub ton_backend : ℤ
ton_backend = pos 6

abbrev pub sui_backend : ℤ
sui_backend = pos 9

abbrev pub fuel_backend : ℤ
fuel_backend = pos 10

-- The columns of t_chain_info.
pub record ChainRow : Type 0 where
  pub id : ℤ
  pub chain_id : Text
  pub real_chain_id : Text
  pub name : Text
  pub alias_name : Text
  pub backend : ℤ
  pub eip1559 : ℤ
  pub network_code : ℤ
  pub icon : Text
  pub block_interval : ℤ
  pub timeout : ℤ
  pub rpc_end_point : Text
  pub explorer_url : Text
  pub official_rpc : Text
  pub mev_rpc : Text
  pub disabled : ℤ
  pub is_testnet : ℤ
  pub order_weight : ℤ
  pub gas_token_name : Text
  pub gas_token_address : Text
  pub gas_token_decimal : ℤ
  pub gas_token_icon : Text
  pub enable_black_list_check : ℤ
  pub transfer_contract_address : NullString
  pub deposit_contract_address : NullString
  pub layer1 : NullString

-- A ChainInfo: the columns, and the client, which is nil for some backends.
pub record ChainInfo (C : Type 0) : Type 0 where
  pub row : ChainRow
  pub open row use *
  pub client : Option C

abbrev pub trim_null : NullString → NullString
trim_null s = record s { string = trim_space s.string }

-- the block of TrimSpace calls
unfoldable pub trim_row : ChainRow → ChainRow
trim_row r = record r {
  chain_id = trim_space r.chain_id;
  real_chain_id = trim_space r.real_chain_id;
  name = trim_space r.name;
  alias_name = trim_space r.alias_name;
  icon = trim_space r.icon;
  rpc_end_point = trim_space r.rpc_end_point;
  explorer_url = trim_space r.explorer_url;
  official_rpc = trim_space r.official_rpc;
  mev_rpc = trim_space r.mev_rpc;
  gas_token_name = trim_space r.gas_token_name;
  gas_token_address = trim_space r.gas_token_address;
  gas_token_icon = trim_space r.gas_token_icon;
  transfer_contract_address = trim_null r.transfer_contract_address;
  deposit_contract_address = trim_null r.deposit_contract_address;
  layer1 = trim_null r.layer1;
}

-- The constructors of clients, of third-party packages; `none` is an error.
pub record Clients (C : Type 0) : Type 0 where
  pub eth_dial : Text → Option C
  pub starknet_provider : Text → Option C
  pub solana_client : Text → C
  pub sui_client : Text → C
  -- AddConnectionsFromConfigUrl and NewAPIClient(...).WithRetry()
  pub ton_client : Text → Option C
  pub fuel_client : Text → C

pub record ChainTables (C : Type 0) : Type 0 where
  pub id_chains : GoMap ℤ (ChainInfo C)
  pub chain_id_chains : GoMap Text (ChainInfo C)
  pub name_chains : GoMap Text (ChainInfo C)
  pub netcode_chains : GoMap ℤ (ChainInfo C)
  pub all_chains : List (ChainInfo C)

pub record ChainInfoManager (C : Type 0) : Type 0 where
  pub tables : ChainTables C
  pub ton : Option C
  pub alerts : List Text

abbrev pub no_chains : {C : Type 0} → ChainTables C
no_chains = record {
  id_chains = [];
  chain_id_chains = [];
  name_chains = [];
  netcode_chains = [];
  all_chains = [];
}

abbrev pub new_chain_info_manager : {C : Type 0} → ChainInfoManager C
new_chain_info_manager = record { tables = no_chains; ton = none; alerts = [] }

abbrev pub is_evm_chain : {C : Type 0} → ChainInfo C → Bool
is_evm_chain ci = ci.backend == ethereum_backend

abbrev pub is_svm_chain : {C : Type 0} → ChainInfo C → Bool
is_svm_chain ci = ci.backend == solana_backend

abbrev pub get_all_chains : {C : Type 0} → ChainInfoManager C → List (ChainInfo C)
get_all_chains mgr = mgr.tables.all_chains

-- The client of a chain, or the alert with which the chain is skipped; and mgr.tonClient after.
pub data Opened (C : Type 0) : Type 0 where
  opened : Option C → Option C → Opened C
  failed : Text → Opened C

module _ {C : Type 0} where
  unfoldable pub get_chain_info_by_id : ChainInfoManager C → ℤ → Option (ChainInfo C)
  get_chain_info_by_id mgr id = lookup id mgr.tables.id_chains

  unfoldable pub get_chain_info_by_chain_id : ChainInfoManager C → Text → Option (ChainInfo C)
  get_chain_info_by_chain_id mgr chain_id = lookup (key chain_id) mgr.tables.chain_id_chains

  unfoldable pub get_chain_info_by_name : ChainInfoManager C → Text → Option (ChainInfo C)
  get_chain_info_by_name mgr name = lookup (key name) mgr.tables.name_chains

  unfoldable pub get_chain_info_by_netcode : ChainInfoManager C → ℤ → Option (ChainInfo C)
  get_chain_info_by_netcode mgr netcode = lookup netcode mgr.tables.netcode_chains

  unfoldable pub get_chain_info_auto_ids : ChainInfoManager C → List ℤ
  get_chain_info_auto_ids mgr = map (λ (id, chain). id) mgr.tables.id_chains

  unfoldable pub open_ton : Clients C → Option C → ChainRow → Opened C
  open_ton lib (some shared) r = opened (some shared) (some shared)
  open_ton lib none r =
      let config_url =
        if r.is_testnet == pos 0
        then text "https://tonutils.com/global.config.json"
        else text "https://tonutils.com/testnet-global.config.json" in
      elim (lib.ton_client config_url) [
        | none ↦ failed (text "create ton client error")
        | some c ↦ opened (some c) (some c)
      ]

  unfoldable pub open_client : Clients C → Option C → ChainRow → Opened C
  unfolding open_ton
  open_client lib ton r =
      if r.backend == ethereum_backend
      then (elim (lib.eth_dial r.rpc_end_point) [
        | none ↦ failed (text "create evm client error")
        | some c ↦ opened (some c) ton
      ])
      else if r.backend == starknet_backend
      then (elim (lib.starknet_provider r.rpc_end_point) [
        | none ↦ failed (text "create starknet client error")
        | some c ↦ opened (some c) ton
      ])
      else if r.backend == solana_backend
      then opened (some (lib.solana_client r.rpc_end_point)) ton
      else if r.backend == sui_backend
      then opened (some (lib.sui_client r.rpc_end_point)) ton
      else if r.backend == ton_backend
      then open_ton lib ton r
      else if r.backend == fuel_backend
      then opened (some (lib.fuel_client r.rpc_end_point)) ton
      else opened none ton

  unfoldable pub store_chain : ChainInfo C → ChainTables C → ChainTables C
  store_chain chain t = record {
    id_chains = insert chain.id chain t.id_chains;
    chain_id_chains = insert (to_lower chain.chain_id) chain t.chain_id_chains;
    name_chains = insert (to_lower chain.name) chain t.name_chains;
    netcode_chains = insert chain.network_code chain t.netcode_chains;
    all_chains = t.all_chains ++ chain ∷ [];
  }

  -- the loop over the rows; `mgr` carries the tables so far, mgr.tonClient and the alerts
  unfoldable pub load_chains :
      Clients C → List (Option ChainRow) → ChainInfoManager C → ChainInfoManager C
  unfolding trim_row open_client store_chain
  load_chains lib [] mgr = mgr
  load_chains lib (none ∷ rs) mgr =
      load_chains lib rs
        (record mgr { alerts = mgr.alerts ++ text "scan t_chain_info row error" ∷ [] })
  load_chains lib (some r ∷ rs) mgr = elim (open_client lib mgr.ton (trim_row r)) [
    | failed msg ↦ load_chains lib rs (record mgr { alerts = mgr.alerts ++ msg ∷ [] })
    | opened client ton ↦ load_chains lib rs (record mgr {
      tables = store_chain (record { row = trim_row r; client = client }) mgr.tables;
      ton = ton;
    })
  ]

  -- LoadAllChains; `none` is a query that fails
  unfoldable pub load_all_chains :
      Clients C → Option (Rows ChainRow) → ChainInfoManager C → ChainInfoManager C
  unfolding load_chains
  load_all_chains lib none mgr = record mgr {
    alerts = mgr.alerts ++ text "select t_chain_info error" ∷ [];
  }
  load_all_chains lib (some rows) mgr =
      let loaded = load_chains lib rows.scans (record mgr { tables = no_chains }) in
      if rows.rows_err
      then record loaded {
        tables = mgr.tables;
        alerts = loaded.alerts ++ text "get next t_chain_info row error" ∷ [];
      }
      else loaded
