-- ===== src/Loader/Tests/Fees.antt =====
-- loader/bridge_fee.go: the theorems at a concrete table.
use utils_go.Base.{ℕ, ◌+◌, ◌*◌, ◌≤◌, ◌<◌, ◌%◌, ◌≡◌, refl, Option, some, false, List, [], ◌∷◌, arith}
use utils_go.Base.Int.{ℤ, pos, ◌-ℤ◌, ◌*ℤ◌, div_ℤ, mod_ℤ, exp_10, wrap_i32, int_eq}
use utils_go.Base.Text.{Text, text, text_beq, text_eq, trim_space, to_lower}
use utils_go.Base.GoMap.{lookup}
use utils_go.Base.Nested.{lookup2, lookup3}
use utils_go.Loader.Rows.{key, from_ui_string, Rows}
use utils_go.Loader.BridgeFee.{
  BridgeFee, BridgeFeeRow, BridgeFeeManager, get_bridge_fee, fee_from_ui_string,
  get_included_bridge_fee_big_int, get_bridge_fee_detail,
}
use utils_go.Loader.BridgeFee.Fee.{IsKept, get_bridge_fee_detail-rounds}
use utils_go.Loader.Tests.{whole, eth}

-- A lane with a ratio of 1 percent, kept to a tenth of the smallest two decimals.
abbrev fee_lane : BridgeFee ℕ
fee_lane = record {
  token_name = eth;
  from_chain_name = text "a";
  to_chain_name = text "b";
  bridge_fee_ratio_lv1 = pos 1000000;
  bridge_fee_ratio_lv2 = pos 500000;
  bridge_fee_ratio_lv3 = pos 400000;
  bridge_fee_ratio_lv4 = pos 300000;
  amount_lv1 = 1000;
  amount_lv2 = 2000;
  amount_lv3 = 3000;
  amount_lv4 = 4000;
  keep_decimal = pos 1;
  amount_lv1_str = text "1000";
  amount_lv2_str = text "2000";
  amount_lv3_str = text "3000";
  amount_lv4_str = text "4000";
}

abbrev fees : BridgeFeeManager ℕ
fees = record {
  token_from_to_bridge_fees = (eth, (text "a", (text "b", fee_lane) ∷ []) ∷ []) ∷ [];
  alerts = [];
}

get_bridge_fee_detail-rounds_example :
    (keep : ℤ) × IsKept fee_lane (pos 2) keep
    × ((f : ℕ) × (get_bridge_fee_detail whole fees eth (text "a") (text "b") (pos 4567) (pos 2)
          ≡ (pos 1000000, pos f))
        × (f ≤ 4567)
        × (f % exp_10 (wrap_i32 (pos 2 -ℤ keep)) ≡ 0)
        × (f * 100000000 ≤ 4567 * 1000000)
        × (4567 * 1000000 < (f + exp_10 (wrap_i32 (pos 2 -ℤ keep))) * 100000000))
unfolding get_bridge_fee get_included_bridge_fee_big_int lookup3 lookup text_beq key to_lower
    trim_space lookup2 from_ui_string fee_from_ui_string ◌-ℤ◌ div_ℤ ◌*ℤ◌ mod_ℤ exp_10 wrap_i32
get_bridge_fee_detail-rounds_example =
    get_bridge_fee_detail-rounds whole fees eth (text "a") (text "b") fee_lane 4567 1000000 (pos 2)
      refl refl (omega arith)

abbrev fee_row : BridgeFeeRow
fee_row = record {
  token_name = eth;
  from_chain = text "a";
  to_chain = text "b";
  ratio_lv1 = pos 1;
  ratio_lv2 = pos 1;
  ratio_lv3 = pos 1;
  ratio_lv4 = pos 1;
  amount_lv1 = text "1";
  amount_lv2 = text "2";
  amount_lv3 = text "3";
  amount_lv4 = text "4";
}

abbrev fee_rows : Rows BridgeFeeRow
fee_rows = record { scans = some fee_row ∷ []; rows_err = false }

abbrev kept_rows : List (Option (Text × ℤ))
kept_rows = some (eth, pos 4) ∷ []

abbrev query : Option (Rows BridgeFeeRow)
query = some fee_rows
