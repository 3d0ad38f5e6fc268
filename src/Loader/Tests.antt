-- ===== src/Loader/Tests.antt =====
-- loader/: decimal digits for the numbers of the packages that parse them; in the children, the
-- theorems at concrete tables.
pub mod Lanes
pub mod Fees
pub mod Chains
pub mod Routes
pub mod Ratios
pub mod Users
pub mod Cctp
pub mod Ids
pub mod Nodes
use utils_go.Base.{
  ℕ, ◌+◌, ◌-◌, ◌*◌, ◌≤◌, ◌<◌, ◌%◌, ◌≡◌, ◌≢◌, ◌↔◌, refl, Option, none, some, true, false, List, [],
  ◌∷◌, ◌==◌, ◌&&◌, if◌then◌else◌, leb, arith, In,
}
use utils_go.Base.Int.{ℤ, pos, ◌+ℤ◌, ◌-ℤ◌, ◌*ℤ◌, ◌≤ℤ◌, div_ℤ, mod_ℤ, exp_10, wrap_i32, int_eq}
use utils_go.Base.Text.{Text, text, text_beq, text_eq, trim_space, to_lower, to_upper}
use utils_go.Base.GoMap.{lookup}
use utils_go.Base.Nested.{lookup2, lookup3}
use utils_go.Base.Outcome.{ok, panic}
use utils_go.Base.Find.{find_last, find_all}
use utils_go.Loader.Rows.{key, Float, Decimal, from_ui_string, Rows, good, used_rows}
use utils_go.Loader.Dtc.{
  Dtc, DtcRow, DtcManager, get_dtc, build_dtc, load_all_dtc, mgr_from_ui_string,
  get_included_dtc_big_int, get_dtc_to_include_big_int, get_min_value_include_gas_fee,
}
use utils_go.Loader.Dtc.Load.{is_lane, get_dtc-load_all_dtc}
use utils_go.Loader.Dtc.Tiers.{
  Covers, tiers, included-to_include, get_min_value-Covers, get_min_value-first,
}
use utils_go.Loader.ChainInfo.{
  NullString, ChainRow, ChainInfo, Clients, ChainInfoManager, new_chain_info_manager,
  get_chain_info_by_id, load_all_chains, no_chains,
}
use utils_go.Loader.ChainInfo.Load.{IsCoherent, no_chains-IsCoherent, load_all_chains-IsCoherent}
use utils_go.Loader.TokenInfo.{
  new_token_info_manager, get_by_chain_id_token_name, get_all_tokens, made_token, add_token,
  load_all_token, get_by_chain_name_token_name, get_by_chain_name_token_addr,
}
use utils_go.Loader.TokenInfo.Tokens.{get-add_token}
use utils_go.Loader.TokenInfo.Gas.{load_all_token-IsGasToken}
use utils_go.Loader.BridgeFee.{
  BridgeFee, BridgeFeeRow, BridgeFeeManager, get_bridge_fee, load_decimals, build_bridge_fee,
  load_all_bridge_fee, kept_decimal, fee_from_ui_string, get_included_bridge_fee_big_int,
  get_bridge_fee_detail,
}
use utils_go.Loader.BridgeFee.Load.{is_fee_lane}
use utils_go.Loader.BridgeFee.Fee.{get_bridge_fee_detail-rounds}
use utils_go.Loader.Aggregator.{
  AggregatorConfig, RouteConfig, FeeSegment, AggregatorManager, Rat, RatText, zero_rat,
  calculate_fee, get_routes_by_chain_pair_and_symbol, filter_symbol, get_fee_segments,
}
use utils_go.Loader.Aggregator.Best.{AnswersFor, find_best_route-least}
use utils_go.Loader.Aggregator.Fees.{calculate_fee-mono}
use utils_go.Loader.Aggregator.Load.{ChainConfigRow, loaded, load_all}
use utils_go.Loader.Aggregator.Routes.{load_all-ok, load_all-lists}

-- Texts of decimal digits.
abbrev pub digits : ℕ → Text → Option ℕ
digits n [] = some n
digits n (c ∷ cs) =
    let rest = digits (10 * n + (c - 48)) cs in
    if leb 48 c then (if leb c 57 then rest else none) else none

abbrev pub numbers : Float
numbers = record {
  F = ℕ;
  parse_float = digits 0;
  zero_float = 0;
  add = λ x y. x + y;
  greater = λ x y. if leb x y then false else true;
}

abbrev pub whole : Decimal
whole = record {
  D = ℤ;
  from_string = λ s. elim (digits 0 s) [ none ↦ none | some n ↦ some (pos n) ];
  shift = λ d k. d *ℤ pos (exp_10 k);
  big_int = λ d. d;
}

abbrev pub rat_of : ℕ → Rat
rat_of n = record { num = pos n; den = 1; den_pos = zero_rat.den_pos }

abbrev pub rat_text : RatText
rat_text = record {
  set_string = λ s. elim (digits 0 s) [ none ↦ none | some n ↦ some (rat_of n) ];
  after_failure = λ s. zero_rat;
  float_string = λ r k. [];
}

abbrev pub eth : Text
eth = text "eth"
