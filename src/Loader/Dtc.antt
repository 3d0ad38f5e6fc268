-- ===== src/Loader/Dtc.antt =====
-- loader/dtc.go: DtcManager. A dtc is the fixed fee of a bridge lane, tiered by the amount.
pub mod Load
pub mod Tiers
use utils_go.Base.{
  ◌≡◌, refl, Option, none, some, Bool, true, false, List, [], ◌∷◌, ◌++◌, if◌then◌else◌, ◌==◌, leb,
  ◌+◌,
}
use utils_go.Base.Int.{ℤ, pos, pos_part, neg_part, ◌+ℤ◌, leb_ℤ}
use utils_go.Base.Text.{Text, text, text_eq, trim_space, to_lower}
use utils_go.Base.GoMap.{GoMap}
use utils_go.Base.Nested.{lookup3, insert3}
use utils_go.Loader.Rows.{
  key, Float, Decimal, from_ui_string, Rows, Checked, good, skip, ◌>>=◌, check_float, load_loop,
}

pub record Dtc (F : Type 0) : Type 0 where
  pub token_name : Text
  pub from_chain_name : Text
  pub to_chain_name : Text
  pub dtc_lv1 : F
  pub dtc_lv2 : F
  pub dtc_lv3 : F
  pub dtc_lv4 : F
  pub amount_lv1 : F
  pub amount_lv2 : F
  pub amount_lv3 : F
  pub amount_lv4 : F
  pub dtc_lv1_str : Text
  pub dtc_lv2_str : Text
  pub dtc_lv3_str : Text
  pub dtc_lv4_str : Text
  pub amount_lv1_str : Text
  pub amount_lv2_str : Text
  pub amount_lv3_str : Text
  pub amount_lv4_str : Text

-- A row of t_dynamic_dtc.
pub record DtcRow : Type 0 where
  pub token_name : Text
  pub from_chain : Text
  pub to_chain : Text
  pub dtc_lv1 : Text
  pub dtc_lv2 : Text
  pub dtc_lv3 : Text
  pub dtc_lv4 : Text
  pub amount_lv1 : Text
  pub amount_lv2 : Text
  pub amount_lv3 : Text
  pub amount_lv4 : Text

abbrev pub DtcTable : Type 0 → Type 0
DtcTable F = GoMap Text (GoMap Text (GoMap Text (Dtc F)))

-- `alerts` holds the texts given to AlertText, in order.
pub record DtcManager (F : Type 0) : Type 0 where
  pub token_from_to_dtcs : DtcTable F
  pub alerts : List Text

abbrev pub new_dtc_manager : {F : Type 0} → DtcManager F
new_dtc_manager = record { token_from_to_dtcs = []; alerts = [] }

abbrev pub get_dtcs : {F : Type 0} → DtcManager F → DtcTable F
get_dtcs mgr = mgr.token_from_to_dtcs

unfoldable pub get_dtc : {F : Type 0} → DtcManager F → Text → Text → Text → Option (Dtc F)
get_dtc mgr token from to = lookup3 (key token) (key from) (key to) mgr.token_from_to_dtcs

-- The Dtc of a scanned row.
unfoldable pub build_dtc : (fl : Float) → DtcRow → Checked (Dtc fl.F)
build_dtc fl row = do
  dtc1 ← check_float fl row.dtc_lv1 (text "t_dynamic_dtc dtc1 not float")
  dtc2 ← check_float fl row.dtc_lv2 (text "t_dynamic_dtc dtc2 not float")
  dtc3 ← check_float fl row.dtc_lv3 (text "t_dynamic_dtc dtc3 not float")
  dtc4 ← check_float fl row.dtc_lv4 (text "t_dynamic_dtc dtc4 not float")
  amount1 ← check_float fl row.amount_lv1 (text "t_dynamic_dtc amount1 not float")
  amount2 ← check_float fl row.amount_lv2 (text "t_dynamic_dtc amount2 not float")
  amount3 ← check_float fl row.amount_lv3 (text "t_dynamic_dtc amount3 not float")
  amount4 ← check_float fl row.amount_lv4 (text "t_dynamic_dtc amount4 not float")
  good (record {
    token_name = trim_space row.token_name;
    from_chain_name = trim_space row.from_chain;
    to_chain_name = trim_space row.to_chain;
    dtc_lv1 = dtc1;
    dtc_lv2 = dtc2;
    dtc_lv3 = dtc3;
    dtc_lv4 = dtc4;
    amount_lv1 = amount1;
    amount_lv2 = amount2;
    amount_lv3 = amount3;
    amount_lv4 = amount4;
    dtc_lv1_str = row.dtc_lv1;
    dtc_lv2_str = row.dtc_lv2;
    dtc_lv3_str = row.dtc_lv3;
    dtc_lv4_str = row.dtc_lv4;
    amount_lv1_str = row.amount_lv1;
    amount_lv2_str = row.amount_lv2;
    amount_lv3_str = row.amount_lv3;
    amount_lv4_str = row.amount_lv4;
  })

module _ (fl : Float) where
  abbrev pub store_dtc : Dtc fl.F → DtcTable fl.F → DtcTable fl.F
  store_dtc dtc table =
      insert3 (to_lower dtc.token_name) (to_lower dtc.from_chain_name) (to_lower dtc.to_chain_name)
        dtc table

  abbrev pub load_rows :
      List (Option DtcRow) → DtcTable fl.F → List Text → DtcTable fl.F × List Text
  load_rows = load_loop (build_dtc fl) store_dtc (text "scan t_dynamic_dtc row error")

  -- LoadAllDtc; `none` is a query that fails
  unfoldable pub load_all_dtc : Option (Rows DtcRow) → DtcManager fl.F → DtcManager fl.F
  unfolding load_loop
  load_all_dtc none mgr = record mgr {
    alerts = mgr.alerts ++ text "select t_dynamic_dtc error" ∷ [];
  }
  load_all_dtc (some rows) mgr =
      let (table, alerts) = load_rows rows.scans [] mgr.alerts in
      if rows.rows_err
      then record mgr { alerts = alerts ++ text "get next t_dynamic_dtc row error" ∷ [] }
      else record { token_from_to_dtcs = table; alerts = alerts }

  -- GetIncludedDtc
  unfoldable pub get_included_dtc : DtcManager fl.F → Text → Text → Text → fl.F → fl.F × Text × Bool
  get_included_dtc mgr token from to value = elim (get_dtc mgr token from to) [
    | none ↦ (fl.zero_float, [], false)
    | some dtc ↦
        if fl.greater value (fl.add dtc.amount_lv3 dtc.dtc_lv3)
        then (dtc.dtc_lv4, dtc.dtc_lv4_str, true)
        else if fl.greater value (fl.add dtc.amount_lv2 dtc.dtc_lv2)
        then (dtc.dtc_lv3, dtc.dtc_lv3_str, true)
        else if fl.greater value (fl.add dtc.amount_lv1 dtc.dtc_lv1)
        then (dtc.dtc_lv2, dtc.dtc_lv2_str, true)
        else (dtc.dtc_lv1, dtc.dtc_lv1_str, true)
  ]

  -- GetDtcToInclude
  unfoldable pub get_dtc_to_include :
      DtcManager fl.F → Text → Text → Text → fl.F → fl.F × Text × Bool
  get_dtc_to_include mgr token from to value = elim (get_dtc mgr token from to) [
    | none ↦ (fl.zero_float, [], false)
    | some dtc ↦
        if fl.greater value dtc.amount_lv3
        then (dtc.dtc_lv4, dtc.dtc_lv4_str, true)
        else if fl.greater value dtc.amount_lv2
        then (dtc.dtc_lv3, dtc.dtc_lv3_str, true)
        else if fl.greater value dtc.amount_lv1
        then (dtc.dtc_lv2, dtc.dtc_lv2_str, true)
        else (dtc.dtc_lv1, dtc.dtc_lv1_str, true)
  ]

module _ (dec : Decimal) where
  -- if s != "" { v, err := util.FromUiString(s, decimals); if err == nil { value.Add(value, v) } }
  abbrev pub ui_part : Text → ℤ → ℤ
  ui_part s decimals =
      if s == [] then pos 0 else elim (from_ui_string dec s decimals) [ none ↦ pos 0 | some v ↦ v ]

  -- DtcManager.FromUiString
  unfoldable pub mgr_from_ui_string : Text → Text → ℤ → ℤ
  mgr_from_ui_string amount dtc decimals = pos 0 +ℤ ui_part amount decimals +ℤ ui_part dtc decimals

  -- GetIncludedDtcBigInt
  unfoldable pub get_included_dtc_big_int :
      {F : Type 0} → DtcManager F → Text → Text → Text → ℤ → ℤ → Option ℤ
  get_included_dtc_big_int mgr token from to value decimals = elim (get_dtc mgr token from to) [
    | none ↦ none
    | some dtc ↦
        if leb_ℤ value (mgr_from_ui_string dtc.amount_lv1_str dtc.dtc_lv1_str decimals)
        then some (mgr_from_ui_string [] dtc.dtc_lv1_str decimals)
        else if leb_ℤ value (mgr_from_ui_string dtc.amount_lv2_str dtc.dtc_lv2_str decimals)
        then some (mgr_from_ui_string [] dtc.dtc_lv2_str decimals)
        else if leb_ℤ value (mgr_from_ui_string dtc.amount_lv3_str dtc.dtc_lv3_str decimals)
        then some (mgr_from_ui_string [] dtc.dtc_lv3_str decimals)
        else some (mgr_from_ui_string [] dtc.dtc_lv4_str decimals)
  ]

  -- GetDtcToIncludeBigInt
  unfoldable pub get_dtc_to_include_big_int :
      {F : Type 0} → DtcManager F → Text → Text → Text → ℤ → ℤ → Option ℤ
  get_dtc_to_include_big_int mgr token from to value decimals = elim (get_dtc mgr token from to) [
    | none ↦ none
    | some dtc ↦
        if leb_ℤ value (mgr_from_ui_string dtc.amount_lv1_str [] decimals)
        then some (mgr_from_ui_string [] dtc.dtc_lv1_str decimals)
        else if leb_ℤ value (mgr_from_ui_string dtc.amount_lv2_str [] decimals)
        then some (mgr_from_ui_string [] dtc.dtc_lv2_str decimals)
        else if leb_ℤ value (mgr_from_ui_string dtc.amount_lv3_str [] decimals)
        then some (mgr_from_ui_string [] dtc.dtc_lv3_str decimals)
        else some (mgr_from_ui_string [] dtc.dtc_lv4_str decimals)
  ]

  -- the loop of GetMinValueIncludeGasFee
  unfoldable pub first_covering :
      {F : Type 0} → DtcManager F → Text → Text → Text → ℤ → List Text → Option Text
  first_covering mgr token from to decimals [] = none
  first_covering mgr token from to decimals (val ∷ vals) =
      let value = mgr_from_ui_string [] val decimals in
      let rest = first_covering mgr token from to decimals vals in
      elim (get_included_dtc_big_int mgr token from to value decimals) [
        | none ↦ rest
        | some included ↦ if leb_ℤ included value then some val else rest
      ]

  -- GetMinValueIncludeGasFee
  unfoldable pub get_min_value_include_gas_fee :
      {F : Type 0} → DtcManager F → Text → Text → Text → ℤ → Option Text
  unfolding first_covering
  get_min_value_include_gas_fee mgr token from to decimals = elim (get_dtc mgr token from to) [
    | none ↦ none
    | some dtc ↦
        first_covering mgr token from to decimals
          (dtc.dtc_lv1_str ∷ dtc.dtc_lv2_str ∷ dtc.dtc_lv3_str ∷ dtc.dtc_lv4_str ∷ [])
  ]
