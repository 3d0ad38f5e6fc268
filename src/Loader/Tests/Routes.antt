-- ===== src/Loader/Tests/Routes.antt =====
-- loader/aggregator_route.go: the theorems at a concrete route.
use utils_go.Base.{◌≡◌, ◌≢◌, refl, Option, none, some, true, List, [], ◌∷◌, ◌==◌, ◌&&◌, arith}
use utils_go.Base.Int.{pos, ◌≤ℤ◌, int_eq}
use utils_go.Base.Text.{text, text_beq, text_eq, trim_space, to_upper}
use utils_go.Base.GoMap.{lookup}
use utils_go.Base.Nested.{lookup2}
use utils_go.Base.Find.{find_all}
use utils_go.Loader.Rows.{good, used_rows}
use utils_go.Loader.Aggregator.{
  AggregatorConfig, RouteConfig, FeeSegment, AggregatorManager, calculate_fee,
  get_routes_by_chain_pair_and_symbol, filter_symbol, get_fee_segments,
}
use utils_go.Loader.Aggregator.Best.{AnswersFor, find_best_route-least}
use utils_go.Loader.Aggregator.Fees.{calculate_fee-mono}
use utils_go.Loader.Aggregator.Load.{ChainConfigRow, loaded, load_all}
use utils_go.Loader.Aggregator.Routes.{load_all-lists}
use utils_go.Loader.Tests.{rat_of, rat_text, eth}

abbrev route : RouteConfig
route = record {
  id = pos 3;
  aggregate_id = pos 1;
  from_chain_id = pos 10;
  from_chain_name = text "a";
  from_token_address = [];
  from_token_symbol = text "eth";
  to_chain_id = pos 20;
  to_chain_name = text "b";
  to_token_address = [];
  to_token_symbol = text "eth";
  is_native = true;
  min_amount = [];
  max_amount = text "0";
  is_enabled = true;
  priority = pos 0;
}

abbrev segment : FeeSegment
segment = record {
  id = pos 1;
  route_id = pos 3;
  min_amount_ui = [];
  max_amount_ui = text "0";
  owlto_fee_fixed_ui = text "2";
  owlto_fee_rate_bps = pos 10;
  protocol_fee_rate_bps = pos 10;
  is_enabled = true;
  priority = pos 0;
}

abbrev routes : AggregatorManager
routes = record {
  aggregator_configs = [];
  chain_configs = [];
  chain_configs_by_name = [];
  routes_by_chain_pair = (pos 10, (pos 20, route ∷ []) ∷ []) ∷ [];
  routes_by_symbol = (eth, route ∷ []) ∷ [];
  routes_by_id = (pos 3, route) ∷ [];
  fee_segments_by_route_id = (pos 3, segment ∷ []) ∷ [];
  alerts = [];
}

there_is : (r : RouteConfig) (rs : List RouteConfig) → r ∷ rs ≢ []
there_is r rs h = cc

find_best_route-least_example :
    AnswersFor rat_text routes
      (pos 10)
      (pos 20)
      (text "eth")
      (text "5000")
      (pos 1)
      (rat_of 5000)
      (get_routes_by_chain_pair_and_symbol routes (pos 10) (pos 20) (text "eth"))
unfolding get_routes_by_chain_pair_and_symbol filter_symbol lookup2 lookup text_beq to_upper
    trim_space
find_best_route-least_example =
    find_best_route-least rat_text routes (pos 10) (pos 20) (text "eth") (text "5000") (pos 1)
      (rat_of 5000) refl refl (there_is route [])

calculate_fee-mono_example :
    ((calculate_fee rat_text (rat_of 5000) segment (pos 1)).total_gas_fee
      ≤ℤ (calculate_fee rat_text (rat_of 7000) segment (pos 1)).total_gas_fee)
    × ((calculate_fee rat_text (rat_of 5000) segment (pos 1)).protocol_fee
        ≤ℤ (calculate_fee rat_text (rat_of 7000) segment (pos 1)).protocol_fee)
calculate_fee-mono_example =
    calculate_fee-mono rat_text segment (pos 1) (rat_of 5000) (rat_of 7000) 5000 7000 refl refl
      (omega arith)

abbrev config_rows : Option (List (Option AggregatorConfig))
config_rows = some []

abbrev chain_config_rows : Option (List (Option ChainConfigRow))
chain_config_rows = some []

abbrev route_rows : Option (List (Option RouteConfig))
route_rows = some (some route ∷ none ∷ [])

abbrev failed_segments : Option (List (Option FeeSegment))
failed_segments = none

load_all-lists_example :
    (after : AggregatorManager) × (load_all
        (some [])
        (some [])
        (some (some route ∷ none ∷ []))
        (some (some segment ∷ []))
        routes
      ≡ loaded after)
    × (get_routes_by_chain_pair_and_symbol after (pos 10) (pos 20) (text "ETH")
        ≡ find_all
            (λ r.
              (r.from_chain_id == pos 10 && r.to_chain_id == pos 20)
              && to_upper r.from_token_symbol == to_upper (trim_space (text "ETH")))
            (used_rows good (some route ∷ none ∷ [])))
    × (get_fee_segments after (pos 3)
        ≡ find_all (λ s. s.route_id == pos 3) (used_rows good (some segment ∷ [])))
load_all-lists_example =
    load_all-lists [] [] (some route ∷ none ∷ []) (some segment ∷ []) routes (pos 10) (pos 20)
      (pos 3) (text "ETH")
