-- ===== src/Loader/NodeInfo.antt =====
-- loader/node_info.go: NodeInfoManager. Times and int64 values are only stored and compared. sort.Slice
-- is any function that gives a sorted permutation; it sorts each slice on its own array.
pub mod Preferred
use mathlib.Core.Option
use utils_go.Base.{Option, none, some, Bool, List, [], ◌∷◌, ◌++◌, if◌then◌else◌, ◌==◌}
use utils_go.Base.Int.{ℤ, pos, int_eq, ltb_ℤ}
use utils_go.Base.Text.{Text, text}
use utils_go.Base.GoMap.{GoMap, lookup, insert, update_all}
use utils_go.Base.Nested.{lookup2}
use utils_go.Base.Find.{find_first, find_all}
use utils_go.Loader.Groups.{slice, append_at, append_at2, replace_all}
use utils_go.Loader.Rows.{Rows, good, load_loop}

pub record NodeInfo : Type 0 where
  pub id : ℤ
  pub update_timestamp : ℤ
  pub insert_timestamp : ℤ
  pub chain_id : ℤ
  pub real_chain_id : ℤ
  pub rpc_url : Text
  pub node_type : ℤ
  pub usability : ℤ

pub record NodeTables : Type 0 where
  pub id_nodes : GoMap ℤ NodeInfo
  pub real_chain_id_nodes : GoMap ℤ (List NodeInfo)
  pub real_chain_id_type_nodes : GoMap ℤ (GoMap ℤ (List NodeInfo))
  pub all_nodes : List NodeInfo

abbrev pub no_nodes : NodeTables
no_nodes = record {
  id_nodes = [];
  real_chain_id_nodes = [];
  real_chain_id_type_nodes = [];
  all_nodes = [];
}

pub record NodeInfoManager : Type 0 where
  pub tables : NodeTables
  pub alerts : List Text

abbrev pub new_node_info_manager : NodeInfoManager
new_node_info_manager = record { tables = no_nodes; alerts = [] }

unfoldable pub get_node_info_by_id : NodeInfoManager → ℤ → Option NodeInfo
unfolding lookup
get_node_info_by_id mgr id = lookup id mgr.tables.id_nodes

unfoldable pub get_node_infos_by_real_chain_id : NodeInfoManager → ℤ → List NodeInfo
unfolding lookup
get_node_infos_by_real_chain_id mgr real_chain_id =
    slice (lookup real_chain_id mgr.tables.real_chain_id_nodes)

-- nil where the chain is missing, and a copy of a nil slice where the type is: both are empty
unfoldable pub get_node_infos_by_real_chain_id_and_type : NodeInfoManager → ℤ → ℤ → List NodeInfo
unfolding lookup2
get_node_infos_by_real_chain_id_and_type mgr real_chain_id node_type =
    slice (lookup2 real_chain_id node_type mgr.tables.real_chain_id_type_nodes)

unfoldable pub get_all_nodes : NodeInfoManager → List NodeInfo
get_all_nodes mgr = mgr.tables.all_nodes

-- node.Usability > 0
unfoldable pub is_usable : NodeInfo → Bool
is_usable node = ltb_ℤ (pos 0) node.usability

unfoldable pub get_enabled_nodes : NodeInfoManager → List NodeInfo
unfolding find_all is_usable
get_enabled_nodes mgr = find_all is_usable mgr.tables.all_nodes

-- nodes[0], where there is one
unfoldable pub first_node : List NodeInfo → Option NodeInfo
first_node [] = none
first_node (node ∷ nodes) = some node

unfoldable pub get_best_node_by_real_chain_id_and_type : NodeInfoManager → ℤ → ℤ → Option NodeInfo
unfolding first_node get_node_infos_by_real_chain_id_and_type
get_best_node_by_real_chain_id_and_type mgr real_chain_id node_type =
    first_node (get_node_infos_by_real_chain_id_and_type mgr real_chain_id node_type)

unfoldable pub get_available_node_by_real_chain_id : NodeInfoManager → ℤ → Option NodeInfo
unfolding lookup find_first is_usable
get_available_node_by_real_chain_id mgr real_chain_id =
    find_first is_usable (slice (lookup real_chain_id mgr.tables.real_chain_id_nodes))

-- The order that sortNodesByUsability gives to sort.Slice.
unfoldable pub node_less : NodeInfo → NodeInfo → Bool
node_less x y =
    if x.usability == y.usability then ltb_ℤ x.id y.id else ltb_ℤ y.usability x.usability

-- The indexes after one row.
unfoldable pub put_node : NodeInfo → NodeTables → NodeTables
unfolding insert append_at append_at2
put_node node t = record {
  id_nodes = insert node.id node t.id_nodes;
  real_chain_id_nodes = append_at (λ n. n.real_chain_id) node t.real_chain_id_nodes;
  real_chain_id_type_nodes =
      append_at2 (λ n. n.real_chain_id) (λ n. n.node_type) node t.real_chain_id_type_nodes;
  all_nodes = t.all_nodes ++ node ∷ [];
}

module _ (sort : List NodeInfo → List NodeInfo) where
  unfoldable pub sort_tables : NodeTables → NodeTables
  unfolding update_all
  sort_tables t = record {
    id_nodes = t.id_nodes;
    real_chain_id_nodes = replace_all sort t.real_chain_id_nodes;
    real_chain_id_type_nodes = replace_all (replace_all sort) t.real_chain_id_type_nodes;
    all_nodes = sort t.all_nodes;
  }

  -- LoadAllNodes; the query is `none` where it fails
  unfoldable pub load_all_nodes : Option (Rows NodeInfo) → NodeInfoManager → NodeInfoManager
  unfolding load_loop put_node sort_tables
  load_all_nodes none mgr = record mgr {
    alerts = mgr.alerts ++ text "select t_node_info error" ∷ [];
  }
  load_all_nodes (some rows) mgr =
      let (tables, alerts) =
        load_loop good put_node (text "scan t_node_info row error") rows.scans no_nodes
          mgr.alerts in
      if rows.rows_err
      then record mgr { alerts = alerts ++ text "iterate t_node_info rows error" ∷ [] }
      else record { tables = sort_tables tables; alerts = alerts }
