-- ===== src/Loader/Aggregator/Chains.antt =====
-- loader/aggregator_route.go: AggregatorID.String and GetAllSupportedChains. sort.Slice is any function
-- on the list.
use mathlib.Core.List.{foldl}
use utils_go.Base.{none, some, List, [], map, if◌then◌else◌, ◌==◌}
use utils_go.Base.Int.{ℤ, pos, int_eq}
use utils_go.Base.Text.{Text, text}
use utils_go.Base.GoMap.{GoMap, lookup, insert}
use utils_go.Loader.AggregatorConfig.{AggregateChainConfig, AggregatorManager}

unfoldable pub aggregator_id_string : ℤ → Text
aggregator_id_string a =
    if a == pos 1
    then text "Across"
    else if a == pos 2
    then text "Relay"
    else if a == pos 3
    then text "Debridge"
    else text "Unknown"

pub record SupportedChain : Type 0 where
  pub chain_id : ℤ
  pub chain_name : Text

-- The first configuration of a chain that the loop meets.
unfoldable pub add_chain :
    GoMap ℤ SupportedChain → ℤ × AggregateChainConfig → GoMap ℤ SupportedChain
unfolding lookup insert
add_chain chain_by_id (chain_id, cfg) = elim (lookup chain_id chain_by_id) [
  | some exists ↦ chain_by_id
  | none ↦ insert chain_id (record { chain_id = chain_id; chain_name = cfg.chain_name }) chain_by_id
]

unfoldable pub get_all_supported_chains :
    (List SupportedChain → List SupportedChain) → AggregatorManager → List SupportedChain
unfolding add_chain
get_all_supported_chains sort mgr = sort (
    map (λ entry. entry.1)
      (foldl (λ chain_by_id entry. foldl add_chain chain_by_id entry.1) [] mgr.chain_configs))
