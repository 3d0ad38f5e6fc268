-- ===== src/Loader/AggregatorConfig.antt =====
-- loader/aggregator_route.go: the configs and what AggregatorManager keeps. An AggregatorID is its
-- int. The configs are shared by reference and not written after a load, so the maps hold them by
-- value.
use utils_go.Base.{Bool, List}
use utils_go.Base.Int.{ℤ}
use utils_go.Base.Text.{Text}
use utils_go.Base.GoMap.{GoMap}

pub record AggregatorConfig : Type 0 where
  pub id : ℤ
  pub name : Text
  pub is_enabled : Bool
  pub priority : ℤ
  pub api_base_url : Text

pub record AggregateChainConfig : Type 0 where
  pub id : ℤ
  pub aggregate_id : ℤ
  pub chain_name : Text
  pub chain_id : ℤ
  pub deposit_contract_address : Text
  pub bridge_fee_rate_bps : ℤ
  pub fill_deadline_seconds : ℤ
  pub swapper_address : Text
  pub is_enabled : Bool
  pub priority : ℤ

pub record RouteConfig : Type 0 where
  pub id : ℤ
  pub aggregate_id : ℤ
  pub from_chain_id : ℤ
  pub from_chain_name : Text
  pub from_token_address : Text
  pub from_token_symbol : Text
  pub to_chain_id : ℤ
  pub to_chain_name : Text
  pub to_token_address : Text
  pub to_token_symbol : Text
  pub is_native : Bool
  pub min_amount : Text
  pub max_amount : Text
  pub is_enabled : Bool
  pub priority : ℤ

pub record FeeSegment : Type 0 where
  pub id : ℤ
  pub route_id : ℤ
  pub min_amount_ui : Text
  pub max_amount_ui : Text
  pub owlto_fee_fixed_ui : Text
  pub owlto_fee_rate_bps : ℤ
  pub protocol_fee_rate_bps : ℤ
  pub is_enabled : Bool
  pub priority : ℤ

pub record FeeResult : Type 0 where
  pub best_aggregator : ℤ
  pub channel_fee : ℤ
  pub owlto_fee : ℤ
  pub total_gas_fee : ℤ
  pub protocol_fee : ℤ
  pub channel_fee_ui : Text
  pub owlto_fee_ui : Text
  pub total_gas_fee_ui : Text
  pub protocol_fee_rate_bps : ℤ

pub record BestRouteResult : Type 0 where
  pub aggregator : ℤ
  pub route : RouteConfig
  pub fee_segment : FeeSegment
  pub fee_result : FeeResult
  pub is_aggregator : Bool

pub record AggregatorManager : Type 0 where
  pub aggregator_configs : GoMap ℤ AggregatorConfig
  pub chain_configs : GoMap ℤ (GoMap ℤ AggregateChainConfig)
  pub chain_configs_by_name : GoMap ℤ (GoMap Text AggregateChainConfig)
  pub routes_by_chain_pair : GoMap ℤ (GoMap ℤ (List RouteConfig))
  pub routes_by_symbol : GoMap Text (List RouteConfig)
  pub routes_by_id : GoMap ℤ RouteConfig
  pub fee_segments_by_route_id : GoMap ℤ (List FeeSegment)
  pub alerts : List Text
