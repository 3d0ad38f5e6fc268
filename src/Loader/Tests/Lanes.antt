-- ===== src/Loader/Tests/Lanes.antt =====
-- loader/dtc.go: the theorems at a concrete table.
use utils_go.Base.{ℕ, ◌≡◌, refl, none, some, false, [], ◌∷◌, arith}
use utils_go.Base.Int.{pos, ◌+ℤ◌, ◌*ℤ◌, exp_10, int_eq}
use utils_go.Base.Text.{text, text_beq, text_eq, trim_space, to_lower}
use utils_go.Base.GoMap.{lookup}
use utils_go.Base.Nested.{lookup2, lookup3}
use utils_go.Base.Find.{find_last}
use utils_go.Loader.Rows.{key, from_ui_string, Rows, used_rows}
use utils_go.Loader.Dtc.{
  Dtc, DtcRow, DtcManager, get_dtc, build_dtc, load_all_dtc, mgr_from_ui_string,
  get_included_dtc_big_int, get_dtc_to_include_big_int, get_min_value_include_gas_fee,
}
use utils_go.Loader.Dtc.Load.{is_lane, get_dtc-load_all_dtc}
use utils_go.Loader.Dtc.Tiers.{included-to_include, get_min_value-first}
use utils_go.Loader.Tests.{numbers, whole, eth}

-- A lane whose fees are 1, 2, 3 and 4 for amounts up to 10, 20 and 30.
abbrev lane : Dtc ℕ
lane = record {
  token_name = eth;
  from_chain_name = text "a";
  to_chain_name = text "b";
  dtc_lv1 = 1;
  dtc_lv2 = 2;
  dtc_lv3 = 3;
  dtc_lv4 = 4;
  amount_lv1 = 10;
  amount_lv2 = 20;
  amount_lv3 = 30;
  amount_lv4 = 40;
  dtc_lv1_str = text "1";
  dtc_lv2_str = text "2";
  dtc_lv3_str = text "3";
  dtc_lv4_str = text "4";
  amount_lv1_str = text "10";
  amount_lv2_str = text "20";
  amount_lv3_str = text "30";
  amount_lv4_str = text "40";
}

abbrev dtcs : DtcManager ℕ
dtcs = record {
  token_from_to_dtcs = (eth, (text "a", (text "b", lane) ∷ []) ∷ []) ∷ [];
  alerts = [];
}

-- The same lane without fees that cover themselves.
abbrev dear : DtcManager ℕ
dear = record {
  token_from_to_dtcs =
      (
        eth,
        (
          text "a",
          (text "b", record lane { amount_lv1_str = []; amount_lv2_str = []; amount_lv3_str = [] })
              ∷ [],
        )
            ∷ [],
      )
      ∷ [];
  alerts = [];
}

abbrev dtc_row : DtcRow
dtc_row = record {
  token_name = text " ETH ";
  from_chain = text "a";
  to_chain = text "b";
  dtc_lv1 = text "1";
  dtc_lv2 = text "2";
  dtc_lv3 = text "3";
  dtc_lv4 = text "4";
  amount_lv1 = text "10";
  amount_lv2 = text "20";
  amount_lv3 = text "30";
  amount_lv4 = text "40";
}

abbrev dtc_rows : Rows DtcRow
dtc_rows = record { scans = some dtc_row ∷ none ∷ []; rows_err = false }

get_dtc-load_all_dtc_example :
    get_dtc (load_all_dtc numbers (some dtc_rows) dear) eth (text "A") (text "b ")
    ≡ find_last
        (is_lane (key eth) (key (text "A")) (key (text "b ")))
        (used_rows (build_dtc numbers) dtc_rows.scans)
get_dtc-load_all_dtc_example =
    get_dtc-load_all_dtc numbers dear dtc_rows eth (text "A") (text "b ") refl

included-to_include_example :
    get_included_dtc_big_int whole dtcs eth (text "a") (text "b") (pos 15 +ℤ pos 2) (pos 0)
    ≡ some (pos 2)
unfolding get_dtc get_dtc_to_include_big_int mgr_from_ui_string lookup3 lookup text_beq key to_lower
    trim_space lookup2 ◌+ℤ◌ from_ui_string ◌*ℤ◌ exp_10
included-to_include_example =
    included-to_include whole dtcs eth (text "a") (text "b") (pos 0) lane (pos 15) (pos 2) refl
      (omega arith, omega arith, omega arith) refl

get_min_value-first_example :
    get_min_value_include_gas_fee whole dtcs eth (text "a") (text "b") (pos 0) ≡ some (text "1")
unfolding get_dtc mgr_from_ui_string lookup3 lookup text_beq key to_lower trim_space lookup2 ◌+ℤ◌
    from_ui_string ◌*ℤ◌ exp_10
get_min_value-first_example =
    get_min_value-first whole dtcs eth (text "a") (text "b") (pos 0) lane refl (omega arith)
