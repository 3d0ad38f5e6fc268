-- ===== src/Loader/Tests/Ids.antt =====
-- loader/: runs of the conversions of chain ids and of the list of supported chains.
use utils_go.Base.{◌≡◌, refl, true, [], ◌∷◌, ◌^◌}
use utils_go.Base.Int.{pos, negsuc}
use utils_go.Base.Text.{Text, text}
use utils_go.Loader.AggregatorConfig.{AggregateChainConfig, AggregatorManager}
use utils_go.Loader.Aggregator.{new_aggregator_manager}
use utils_go.Loader.Aggregator.Chains.{get_all_supported_chains}
use utils_go.Loader.ChainInfo.Ids.{parse_dropped}

abbrev named : Text → AggregateChainConfig
named chain_name = record {
  id = pos 1;
  aggregate_id = pos 1;
  chain_name = chain_name;
  chain_id = pos 10;
  deposit_contract_address = [];
  bridge_fee_rate_bps = pos 0;
  fill_deadline_seconds = pos 0;
  swapper_address = [];
  is_enabled = true;
  priority = pos 0;
}

-- Out of range, the nearest number; no number, 0; and the scan stops before what follows.
chain_ids :
    (parse_dropped (2 ^ 31) (text "4294967296") ≡ pos 2147483647)
    × (parse_dropped (2 ^ 31) (text "-2147483649") ≡ negsuc 2147483647)
    × (parse_dropped (2 ^ 31) (text "12x") ≡ pos 0)
    × (parse_dropped (2 ^ 31) (text "99999999999x") ≡ pos 2147483647)
    × (parse_dropped (2 ^ 63) (text "10") ≡ pos 10)
unfolding parse_dropped
chain_ids = (refl, refl, refl, refl, refl)

abbrev two_aggregators : AggregatorManager
two_aggregators = record new_aggregator_manager {
  chain_configs =
      (pos 1, (pos 10, named (text "Base")) ∷ [])
      ∷ (pos 2, (pos 10, named (text "base")) ∷ [])
      ∷ [];
}

-- A chain of two aggregators is listed once, by its first name.
supported :
    get_all_supported_chains (λ cs. cs) two_aggregators
    ≡ record { chain_id = pos 10; chain_name = text "Base" } ∷ []
unfolding get_all_supported_chains
supported = refl
