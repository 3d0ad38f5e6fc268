-- ===== src/Loader/Aggregator/Load.antt =====
-- loader/aggregator_route.go: LoadAll. A query is `none` where it fails and else its rows; nothing
-- asks rows.Err. A nullable column is an Option.
use utils_go.Base.{Option, none, some, Bool, List, [], ◌∷◌, ◌++◌}
use utils_go.Base.Int.{ℤ, pos, int_eq}
use utils_go.Base.Text.{Text, text, text_eq, to_lower}
use utils_go.Base.GoMap.{GoMap, lookup, insert}
use utils_go.Base.Nested.{lookup2, insert2}
use utils_go.Loader.Rows.{key, good, load_loop}
use utils_go.Loader.Aggregator.{
  AggregatorConfig, AggregateChainConfig, RouteConfig, FeeSegment, AggregatorManager,
}

-- A row of t_aggregate_chain_config.
pub record ChainConfigRow : Type 0 where
  pub id : ℤ
  pub aggregate_id : ℤ
  pub chain_name : Text
  pub chain_id : ℤ
  pub deposit_contract_address : Option Text
  pub bridge_fee_rate_bps : Option ℤ
  pub fill_deadline_seconds : Option ℤ
  pub swapper_address : Option Text
  pub is_enabled : Bool
  pub priority : ℤ

abbrev or_default : {A : Type 0} → A → Option A → A
or_default d none = d
or_default d (some a) = a

unfoldable pub chain_config_of : ChainConfigRow → AggregateChainConfig
chain_config_of row = record {
  id = row.id;
  aggregate_id = row.aggregate_id;
  chain_name = row.chain_name;
  chain_id = row.chain_id;
  deposit_contract_address = or_default [] row.deposit_contract_address;
  bridge_fee_rate_bps = or_default (pos 0) row.bridge_fee_rate_bps;
  fill_deadline_seconds = or_default (pos 0) row.fill_deadline_seconds;
  swapper_address = or_default [] row.swapper_address;
  is_enabled = row.is_enabled;
  priority = row.priority;
}

-- append(m[k], v): a missing key holds the nil slice
abbrev pub append_to : {A : Type 0} → Option (List A) → A → List A
append_to none a = a ∷ []
append_to (some xs) a = xs ++ a ∷ []

-- newByAggID and newByAggName after one row
unfoldable pub put_chain_config :
    AggregateChainConfig
    → GoMap ℤ (GoMap ℤ AggregateChainConfig) × GoMap ℤ (GoMap Text AggregateChainConfig)
    → GoMap ℤ (GoMap ℤ AggregateChainConfig) × GoMap ℤ (GoMap Text AggregateChainConfig)
put_chain_config cfg (by_id, by_name) = (
  insert2 cfg.aggregate_id cfg.chain_id cfg by_id,
  insert2 cfg.aggregate_id (key cfg.chain_name) cfg by_name,
)

pub record RouteTables : Type 0 where
  pub by_chain_pair : GoMap ℤ (GoMap ℤ (List RouteConfig))
  pub by_symbol : GoMap Text (List RouteConfig)
  pub by_id : GoMap ℤ RouteConfig

abbrev pub no_routes_yet : RouteTables
no_routes_yet = record { by_chain_pair = []; by_symbol = []; by_id = [] }

-- the three indexes after one row
unfoldable pub put_route : RouteConfig → RouteTables → RouteTables
put_route r t =
    let sym = to_lower r.from_token_symbol in
    record {
      by_chain_pair =
          insert2 r.from_chain_id r.to_chain_id
            (append_to (lookup2 r.from_chain_id r.to_chain_id t.by_chain_pair) r) t.by_chain_pair;
      by_symbol = insert sym (append_to (lookup sym t.by_symbol) r) t.by_symbol;
      by_id = insert r.id r t.by_id;
    }

unfoldable pub put_segment : FeeSegment → GoMap ℤ (List FeeSegment) → GoMap ℤ (List FeeSegment)
put_segment seg m = insert seg.route_id (append_to (lookup seg.route_id m) seg) m

-- What a load returns, nil or an error, with the manager that it leaves.
pub data Loaded : Type 0 where
  loaded : AggregatorManager → Loaded
  failed : Text → AggregatorManager → Loaded

infixl 5 ◌>>=◌
abbrev pub ◌>>=◌ : Loaded → (AggregatorManager → Loaded) → Loaded
loaded mgr >>= f = f mgr
failed err mgr >>= f = failed err mgr

-- loadAggregatorConfigs
unfoldable pub load_aggregator_configs :
    Option (List (Option AggregatorConfig)) → AggregatorManager → Loaded
unfolding load_loop
load_aggregator_configs none mgr = failed (text "load aggregator configs") mgr
load_aggregator_configs (some rows) mgr =
    let (configs, alerts) =
      load_loop good (λ c m. insert c.id c m) (text "scan aggregator config error") rows []
        mgr.alerts in
    loaded (record mgr { aggregator_configs = configs; alerts = alerts })

-- loadAggregateChainConfigs
unfoldable pub load_aggregate_chain_configs :
    Option (List (Option ChainConfigRow)) → AggregatorManager → Loaded
unfolding load_loop put_chain_config chain_config_of
load_aggregate_chain_configs none mgr = failed (text "load aggregate chain configs") mgr
load_aggregate_chain_configs (some rows) mgr =
    let ((by_id, by_name), alerts) =
      load_loop (λ row. good (chain_config_of row)) put_chain_config
        (text "scan aggregate chain config error") rows ([], []) mgr.alerts in
    loaded (record mgr { chain_configs = by_id; chain_configs_by_name = by_name; alerts = alerts })

-- loadRouteConfigs
unfoldable pub load_route_configs : Option (List (Option RouteConfig)) → AggregatorManager → Loaded
unfolding load_loop put_route
load_route_configs none mgr = failed (text "load route configs") mgr
load_route_configs (some rows) mgr =
    let (tables, alerts) =
      load_loop good put_route (text "scan route config error") rows no_routes_yet mgr.alerts in
    loaded (record mgr {
      routes_by_chain_pair = tables.by_chain_pair;
      routes_by_symbol = tables.by_symbol;
      routes_by_id = tables.by_id;
      alerts = alerts;
    })

-- loadFeeSegments
unfoldable pub load_fee_segments : Option (List (Option FeeSegment)) → AggregatorManager → Loaded
unfolding load_loop put_segment
load_fee_segments none mgr = failed (text "load fee segments") mgr
load_fee_segments (some rows) mgr =
    let (table, alerts) =
      load_loop good put_segment (text "scan fee segment error") rows [] mgr.alerts in
    loaded (record mgr { fee_segments_by_route_id = table; alerts = alerts })

-- LoadAll
unfoldable pub load_all :
    Option (List (Option AggregatorConfig))
    → Option (List (Option ChainConfigRow))
    → Option (List (Option RouteConfig))
    → Option (List (Option FeeSegment))
    → AggregatorManager
    → Loaded
unfolding load_aggregator_configs load_aggregate_chain_configs load_route_configs load_fee_segments
load_all configs chains routes segments mgr =
    load_aggregator_configs configs mgr
    >>= load_aggregate_chain_configs chains
    >>= load_route_configs routes
    >>= load_fee_segments segments

-- GetAggregateChainConfigByChainID and GetAggregateChainConfigByChainName; `none` is nil
unfoldable pub get_aggregate_chain_config_by_chain_id :
    AggregatorManager → ℤ → ℤ → Option AggregateChainConfig
get_aggregate_chain_config_by_chain_id mgr aggregate_id chain_id =
    lookup2 aggregate_id chain_id mgr.chain_configs

unfoldable pub get_aggregate_chain_config_by_chain_name :
    AggregatorManager → ℤ → Text → Option AggregateChainConfig
get_aggregate_chain_config_by_chain_name mgr aggregate_id chain_name =
    lookup2 aggregate_id (key chain_name) mgr.chain_configs_by_name
