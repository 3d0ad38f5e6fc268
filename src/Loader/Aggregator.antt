-- ===== src/Loader/Aggregator.antt =====
-- loader/aggregator_route.go: the queries of AggregatorManager and FindBestRoute.
pub mod Fees
pub mod Routes
pub mod Best
pub mod Load
pub mod Chains
use utils_go.Base.{
  ℕ, ◌+◌, ◌*◌, ◌≤◌, ◌≡◌, refl, Option, none, some, Bool, true, false, List, [], ◌∷◌, ◌++◌, map,
  if◌then◌else◌, ◌==◌, ◌&&◌, ◌||◌, not,
}
use utils_go.Base.Int.{
  ℤ, pos, pos_part, neg_part, ◌+ℤ◌, ◌*ℤ◌, div_ℤ, ltb_ℤ, leb_ℤ, exp_10, exp_10-pos, int_eq,
}
use native.Mathlib.Omega.{arith}
use utils_go.Base.Text.{Text, text, text_eq, trim_space, to_lower, to_upper}
use utils_go.Base.GoMap.{GoMap, lookup, insert}
use utils_go.Base.Nested.{lookup2, insert2}
pub use utils_go.Loader.AggregatorConfig.{
  AggregatorConfig, AggregateChainConfig, RouteConfig, FeeSegment, FeeResult, BestRouteResult,
  AggregatorManager,
}

-- big.Rat, not in lowest terms: comparison and the quotient of Num by Denom do not depend on it.
pub record Rat : Type 0 where
  pub num : ℤ
  pub den : ℕ
  pub den_pos : 1 ≤ den

-- Rat.SetString and Rat.FloatString of math/big, any functions here.
pub record RatText : Type 0 where
  pub set_string : Text → Option Rat
  -- what a Rat holds after a SetString that failed
  pub after_failure : Text → Rat
  pub float_string : Rat → ℤ → Text

-- a.Cmp(b) < 0
abbrev pub rat_lt : Rat → Rat → Bool
rat_lt a b = ltb_ℤ (a.num *ℤ pos b.den) (b.num *ℤ pos a.den)

abbrev pub zero_rat : Rat
zero_rat = record { num = pos 0; den = 1; den_pos = omega arith }

abbrev pub new_aggregator_manager : AggregatorManager
new_aggregator_manager = record {
  aggregator_configs = [];
  chain_configs = [];
  chain_configs_by_name = [];
  routes_by_chain_pair = [];
  routes_by_symbol = [];
  routes_by_id = [];
  fee_segments_by_route_id = [];
  alerts = [];
}

-- GetAllRoutes
abbrev pub get_all_routes : AggregatorManager → List RouteConfig
get_all_routes mgr = map (λ (id, route). route) mgr.routes_by_id

-- GetRoutesByChainPair; a nil slice is []
unfoldable pub get_routes_by_chain_pair : AggregatorManager → ℤ → ℤ → List RouteConfig
get_routes_by_chain_pair mgr from to = elim (lookup2 from to mgr.routes_by_chain_pair) [
  | none ↦ []
  | some routes ↦ routes
]

unfoldable pub filter_symbol : Text → List RouteConfig → List RouteConfig
filter_symbol token_upper [] = []
filter_symbol token_upper (r ∷ rs) =
    let rest = filter_symbol token_upper rs in
    if to_upper r.from_token_symbol == token_upper then r ∷ rest else rest

-- GetRoutesByChainPairAndSymbol
unfoldable pub get_routes_by_chain_pair_and_symbol :
    AggregatorManager → ℤ → ℤ → Text → List RouteConfig
unfolding filter_symbol
get_routes_by_chain_pair_and_symbol mgr from to symbol =
    elim (lookup2 from to mgr.routes_by_chain_pair) [
      | none ↦ []
      | some rs ↦ filter_symbol (to_upper (trim_space symbol)) rs
    ]

unfoldable pub get_fee_segments : AggregatorManager → ℤ → List FeeSegment
get_fee_segments mgr route_id = elim (lookup route_id mgr.fee_segments_by_route_id) [
  | none ↦ []
  | some segments ↦ segments
]

-- s == "" || s == "0"
abbrev pub is_open : Text → Bool
is_open s = s == [] || s == text "0"

-- the amount in the smallest unit: the floor of amt * 10^decimals
unfoldable pub to_wei : Rat → ℤ → ℤ
to_wei amt decimals = div_ℤ (amt.num *ℤ pos (exp_10 decimals)) amt.den

-- amount * bps / 10000, for a positive rate
unfoldable pub bps_of : ℤ → ℤ → ℤ
bps_of wei bps = if ltb_ℤ (pos 0) bps then div_ℤ (wei *ℤ bps) 10000 else pos 0

-- lowestFee == nil || feeRat.Cmp(lowestFee) < 0; lowestFee is the fee of bestResult
unfoldable pub keep_lower : Option BestRouteResult → Option BestRouteResult → Option BestRouteResult
keep_lower best none = best
keep_lower none (some found) = some found
keep_lower (some best) (some found) =
    if ltb_ℤ found.fee_result.total_gas_fee best.fee_result.total_gas_fee
    then some found
    else some best

pub data FindError : Type 0 where
  no_routes invalid_amount no_segment : FindError

pub data Found : Type 0 where
  found : BestRouteResult → Found
  not_found : FindError → Found

module _ (rt : RatText) where
  -- isAmountInRouteRange
  unfoldable pub is_amount_in_route_range : Rat → RouteConfig → Bool
  is_amount_in_route_range amt route =
      let above : Bool =
        if is_open route.min_amount then true else (elim (rt.set_string route.min_amount) [
          | none ↦ false
          | some min_rat ↦ not (rat_lt amt min_rat)
        ]) in
      let below : Bool =
        if is_open route.max_amount then true else (elim (rt.set_string route.max_amount) [
          | none ↦ false
          | some max_rat ↦ not (rat_lt max_rat amt)
        ]) in
      if above then below else false

  -- the body of findMatchingSegment's loop: whether the segment is returned
  unfoldable pub segment_matches : Rat → FeeSegment → Bool
  segment_matches amt seg =
      let min_rat : Option Rat =
        if seg.min_amount_ui == [] then some zero_rat else rt.set_string seg.min_amount_ui in
      let unlimited = is_open seg.max_amount_ui in
      let max_rat : Option Rat =
        if unlimited then some zero_rat else rt.set_string seg.max_amount_ui in
      elim min_rat [
        | none ↦ false
        | some lo ↦ elim max_rat [
          | none ↦ false
          | some hi ↦ if rat_lt amt lo then false else (unlimited || rat_lt amt hi)
        ]
      ]

  unfoldable pub first_segment : Rat → List FeeSegment → Option FeeSegment
  first_segment amt [] = none
  first_segment amt (seg ∷ segs) =
      if segment_matches amt seg then some seg else first_segment amt segs

  -- findMatchingSegment
  unfoldable pub find_matching_segment : AggregatorManager → ℤ → Rat → Option FeeSegment
  unfolding first_segment
  find_matching_segment mgr route_id amt = first_segment amt (get_fee_segments mgr route_id)

  -- weiToUI, of a non-nil amount
  unfoldable pub wei_to_ui : ℤ → ℤ → Text
  wei_to_ui wei decimals =
      if wei == pos 0
      then text "0"
      else rt.float_string
          (record { num = wei; den = exp_10 decimals; den_pos = exp_10-pos decimals }) decimals

  -- the fixed fee, read without asking whether SetString succeeds
  unfoldable pub fixed_fee_ui : FeeSegment → Rat
  fixed_fee_ui seg =
      if is_open seg.owlto_fee_fixed_ui
      then zero_rat
      else (elim (rt.set_string seg.owlto_fee_fixed_ui) [
        | none ↦ rt.after_failure seg.owlto_fee_fixed_ui
        | some r ↦ r
      ])

  -- calculateFee, which never returns nil
  unfoldable pub calculate_fee : Rat → FeeSegment → ℤ → FeeResult
  unfolding to_wei bps_of fixed_fee_ui
  calculate_fee amt seg decimals =
      let amt_wei = to_wei amt decimals in
      let owlto_fixed_wei = to_wei (fixed_fee_ui seg) decimals in
      let owlto_rate_wei = bps_of amt_wei seg.owlto_fee_rate_bps in
      let owlto_fee = owlto_fixed_wei +ℤ owlto_rate_wei in
      let channel_fee = owlto_fixed_wei in
      let total_gas_fee = channel_fee +ℤ owlto_fee in
      record {
        best_aggregator = pos 0;
        channel_fee = channel_fee;
        owlto_fee = owlto_fee;
        total_gas_fee = total_gas_fee;
        protocol_fee = bps_of amt_wei seg.protocol_fee_rate_bps;
        channel_fee_ui = wei_to_ui channel_fee decimals;
        owlto_fee_ui = wei_to_ui owlto_fee decimals;
        total_gas_fee_ui = wei_to_ui total_gas_fee decimals;
        protocol_fee_rate_bps = seg.protocol_fee_rate_bps;
      }

  -- the result for one route, or `none` where the loop continues
  unfoldable pub price_route : AggregatorManager → Rat → ℤ → RouteConfig → Option BestRouteResult
  price_route mgr amt decimals route =
      if is_amount_in_route_range amt route
      then (elim (find_matching_segment mgr route.id amt) [
        | none ↦ none
        | some segment ↦
            let fees = calculate_fee amt segment decimals in
            some (record {
              aggregator = route.aggregate_id;
              route = route;
              fee_segment = segment;
              fee_result = record fees { best_aggregator = route.aggregate_id };
              is_aggregator = true;
            })
      ])
      else none

  -- the loop over the routes
  unfoldable pub best_of :
      AggregatorManager
      → Rat
      → ℤ
      → List RouteConfig
      → Option BestRouteResult
      → Option BestRouteResult
  unfolding keep_lower
  best_of mgr amt decimals [] best = best
  best_of mgr amt decimals (route ∷ routes) best =
      best_of mgr amt decimals routes (keep_lower best (price_route mgr amt decimals route))

  -- FindBestRoute
  unfoldable pub find_best_route : AggregatorManager → ℤ → ℤ → Text → Text → ℤ → Found
  unfolding best_of
  find_best_route mgr from to symbol amount_ui decimals =
      elim (get_routes_by_chain_pair_and_symbol mgr from to symbol) [
        | [] ↦ not_found no_routes
        | r ∷ rs ↦ elim (rt.set_string amount_ui) [
          | none ↦ not_found invalid_amount
          | some amt ↦
              let best = best_of mgr amt decimals (r ∷ rs) none in
              if leb_ℤ amt.num (pos 0)
              then not_found invalid_amount
              else (elim best [ none ↦ not_found no_segment | some b ↦ found b ])
        ]
      ]
