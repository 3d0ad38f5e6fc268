-- ===== src/Loader/BridgeFee.antt =====
-- loader/bridge_fee.go: BridgeFeeManager. The ratio of a lane is tiered by the amount, in units of
-- 10^-8; a fee is rounded down to the decimals that the lane keeps.
pub mod Fee
pub mod Load
use utils_go.Base.{
  ℕ, ◌+◌, ◌^◌, ◌≡◌, refl, Option, none, some, Bool, true, false, List, [], ◌∷◌, ◌++◌, if◌then◌else◌,
  ◌==◌, ltb,
}
use utils_go.Base.Int.{
  ℤ, pos, negsuc, pos_part, neg_part, ◌+ℤ◌, ◌-ℤ◌, ◌*ℤ◌, div_ℤ, mod_ℤ, ltb_ℤ, wrap_i32, exp_10,
}
use utils_go.Base.Text.{Text, text, text_eq, trim_space, to_lower}
use utils_go.Base.Outcome.{Outcome, ok, panic}
use utils_go.Base.GoMap.{GoMap, lookup, insert}
use utils_go.Base.Nested.{lookup3, insert3}
use utils_go.Loader.Rows.{
  key, Float, Decimal, from_ui_string, Rows, Checked, good, skip, ◌>>=◌, check_float, load_loop,
}
use utils_go.Loader.TokenInfo.{TokenInfo, TokenInfoManager, get_by_chain_name_token_name}

pub record BridgeFee (F : Type 0) : Type 0 where
  pub token_name : Text
  pub from_chain_name : Text
  pub to_chain_name : Text
  pub bridge_fee_ratio_lv1 : ℤ
  pub bridge_fee_ratio_lv2 : ℤ
  pub bridge_fee_ratio_lv3 : ℤ
  pub bridge_fee_ratio_lv4 : ℤ
  pub amount_lv1 : F
  pub amount_lv2 : F
  pub amount_lv3 : F
  pub amount_lv4 : F
  pub keep_decimal : ℤ
  pub amount_lv1_str : Text
  pub amount_lv2_str : Text
  pub amount_lv3_str : Text
  pub amount_lv4_str : Text

-- A row of t_dynamic_bridge_fee.
pub record BridgeFeeRow : Type 0 where
  pub token_name : Text
  pub from_chain : Text
  pub to_chain : Text
  pub ratio_lv1 : ℤ
  pub ratio_lv2 : ℤ
  pub ratio_lv3 : ℤ
  pub ratio_lv4 : ℤ
  pub amount_lv1 : Text
  pub amount_lv2 : Text
  pub amount_lv3 : Text
  pub amount_lv4 : Text

abbrev pub BridgeFeeTable : Type 0 → Type 0
BridgeFeeTable F = GoMap Text (GoMap Text (GoMap Text (BridgeFee F)))

pub record BridgeFeeManager (F : Type 0) : Type 0 where
  pub token_from_to_bridge_fees : BridgeFeeTable F
  pub alerts : List Text

abbrev pub new_bridge_fee_manager : {F : Type 0} → BridgeFeeManager F
new_bridge_fee_manager = record { token_from_to_bridge_fees = []; alerts = [] }

unfoldable pub get_bridge_fee :
    {F : Type 0} → BridgeFeeManager F → Text → Text → Text → Option (BridgeFee F)
get_bridge_fee mgr token from to =
    lookup3 (key token) (key from) (key to) mgr.token_from_to_bridge_fees

-- A row of t_bridge_fee_decimal: the token and its keep_decimal (int64).
unfoldable pub load_decimals :
    List (Option (Text × ℤ)) → GoMap Text ℤ → List Text → GoMap Text ℤ × List Text
load_decimals rows =
    load_loop good (λ (token, keep) m. insert (key token) keep m)
      (text "scan t_bridge_fee_decimal row error") rows

-- The KeepDecimal of a row: that of t_bridge_fee_decimal, else the decimals of the token.
unfoldable pub keep_decimal_of : GoMap Text ℤ → TokenInfoManager → Text → Text → Option ℤ
keep_decimal_of decimals tokens token from =
    let token_info = get_by_chain_name_token_name tokens (to_lower from) (to_lower token) in
    elim (lookup (to_lower token) decimals) [
      | some keep ↦ some (wrap_i32 keep)
      | none ↦ elim token_info [ none ↦ none | some info ↦ some info.decimals ]
    ]

-- The BridgeFee of a scanned row.
unfoldable pub build_bridge_fee :
    (fl : Float) → GoMap Text ℤ → TokenInfoManager → BridgeFeeRow → Checked (BridgeFee fl.F)
unfolding keep_decimal_of
build_bridge_fee fl decimals tokens row = do
  let token = trim_space row.token_name
  let from = trim_space row.from_chain
  amount1 ← check_float fl row.amount_lv1 (text "t_dynamic_bridge_fee amount1 not float")
  amount2 ← check_float fl row.amount_lv2 (text "t_dynamic_bridge_fee amount2 not float")
  amount3 ← check_float fl row.amount_lv3 (text "t_dynamic_bridge_fee amount3 not float")
  amount4 ← check_float fl row.amount_lv4 (text "t_dynamic_bridge_fee amount4 not float")
  keep ← elim (keep_decimal_of decimals tokens token from) [
    | some k ↦ good k
    | none ↦ skip (
        text "t_dynamic_bridge_fee keep decimal not found: token "
        ++ (token ++ (text " chain " ++ from)))
  ]
  good (record {
    token_name = token;
    from_chain_name = from;
    to_chain_name = trim_space row.to_chain;
    bridge_fee_ratio_lv1 = row.ratio_lv1;
    bridge_fee_ratio_lv2 = row.ratio_lv2;
    bridge_fee_ratio_lv3 = row.ratio_lv3;
    bridge_fee_ratio_lv4 = row.ratio_lv4;
    amount_lv1 = amount1;
    amount_lv2 = amount2;
    amount_lv3 = amount3;
    amount_lv4 = amount4;
    keep_decimal = keep;
    amount_lv1_str = row.amount_lv1;
    amount_lv2_str = row.amount_lv2;
    amount_lv3_str = row.amount_lv3;
    amount_lv4_str = row.amount_lv4;
  })

abbrev pub store_bridge_fee : {F : Type 0} → BridgeFee F → BridgeFeeTable F → BridgeFeeTable F
store_bridge_fee fee table =
    insert3 (to_lower fee.token_name) (to_lower fee.from_chain_name) (to_lower fee.to_chain_name)
      fee table

-- LoadAllBridgeFee. The first query is `none` where it fails; where the second one fails, its rows
-- are nil, and kdrows.Next() panics after the alert. Nothing asks for the error of its rows.
unfoldable pub load_all_bridge_fee :
    (fl : Float)
    → TokenInfoManager
    → Option (Rows BridgeFeeRow)
    → Option (List (Option (Text × ℤ)))
    → BridgeFeeManager fl.F
    → Outcome (BridgeFeeManager fl.F)
unfolding load_decimals load_loop build_bridge_fee
load_all_bridge_fee fl tokens none kept mgr =
    ok (record mgr { alerts = mgr.alerts ++ text "select t_dynamic_bridge_fee error" ∷ [] })
load_all_bridge_fee fl tokens (some rows) none mgr = panic
load_all_bridge_fee fl tokens (some rows) (some kept) mgr =
    let (decimals, alerts) = load_decimals kept [] mgr.alerts in
    let (table, alerts') =
      load_loop (build_bridge_fee fl decimals tokens) store_bridge_fee
        (text "scan t_dynamic_bridge_fee row error") rows.scans [] alerts in
    ok (
      if rows.rows_err
      then record mgr { alerts = alerts' ++ text "get next t_dynamic_bridge_fee row error" ∷ [] }
      else record { token_from_to_bridge_fees = table; alerts = alerts' })

-- BridgeFeeManager.FromUiString: the amount less its fee.
unfoldable pub fee_from_ui_string : ℤ → ℤ → ℤ → ℤ → ℤ
fee_from_ui_string amount bridge_fee decimal keep_decimal =
    if ltb_ℤ (pos 0) bridge_fee
    then (let raw = div_ℤ (amount *ℤ bridge_fee) 100000000 in
        let scale = exp_10 (wrap_i32 (decimal -ℤ keep_decimal)) in
        amount -ℤ (raw -ℤ mod_ℤ raw scale))
    else amount

-- keepDecimal := decimal; if bridgeFee.KeepDecimal < decimal { ... }
abbrev pub kept_decimal : {F : Type 0} → BridgeFee F → ℤ → ℤ
kept_decimal fee decimal = if ltb_ℤ fee.keep_decimal decimal then fee.keep_decimal else decimal

module _ {F : Type 0} (dec : Decimal) (mgr : BridgeFeeManager F) where
  -- the tests of GetIncludedBridgeFeeBigInt, once the three amounts are parsed
  unfoldable pub ratio_of_tiers : BridgeFee F → ℤ → ℤ → ℤ → ℤ → ℤ → ℤ
  ratio_of_tiers fee a1 a2 a3 value decimal =
      let net = λ (ratio : ℤ). fee_from_ui_string value ratio decimal (kept_decimal fee decimal) in
      if ltb_ℤ (net fee.bridge_fee_ratio_lv1) a1
      then fee.bridge_fee_ratio_lv1
      else if ltb_ℤ (net fee.bridge_fee_ratio_lv2) a2
      then fee.bridge_fee_ratio_lv2
      else if ltb_ℤ (net fee.bridge_fee_ratio_lv3) a3
      then fee.bridge_fee_ratio_lv3
      else fee.bridge_fee_ratio_lv4

  -- GetIncludedBridgeFeeBigInt; `none` is (0, false)
  unfoldable pub get_included_bridge_fee_big_int : Text → Text → Text → ℤ → ℤ → Option ℤ
  unfolding ratio_of_tiers
  get_included_bridge_fee_big_int token from to value decimal =
      elim (get_bridge_fee mgr token from to) [
        | none ↦ none
        | some fee ↦ elim (from_ui_string dec fee.amount_lv1_str decimal) [
          | none ↦ none
          | some a1 ↦ elim (from_ui_string dec fee.amount_lv2_str decimal) [
            | none ↦ none
            | some a2 ↦ elim (from_ui_string dec fee.amount_lv3_str decimal) [
              | none ↦ none
              | some a3 ↦ some (ratio_of_tiers fee a1 a2 a3 value decimal)
            ]
          ]
        ]
      ]

  -- GetBridgeFeeDetail
  unfoldable pub get_bridge_fee_detail : Text → Text → Text → ℤ → ℤ → ℤ × ℤ
  get_bridge_fee_detail token from to value decimal = elim (get_bridge_fee mgr token from to) [
    | none ↦ (pos 0, pos 0)
    | some fee ↦ elim (get_included_bridge_fee_big_int token from to value decimal) [
      | none ↦ (pos 0, pos 0)
      | some ratio ↦
          (ratio, value -ℤ fee_from_ui_string value ratio decimal (kept_decimal fee decimal))
    ]
  ]

-- GetBridgeFeeNotIncluded; `none` is (0, false)
unfoldable pub get_bridge_fee_not_included :
    (fl : Float) → BridgeFeeManager fl.F → Text → Text → Text → fl.F → Option ℤ
get_bridge_fee_not_included fl mgr token from to value = elim (get_bridge_fee mgr token from to) [
  | none ↦ none
  | some fee ↦ some (
      if fl.greater fee.amount_lv1 value
      then fee.bridge_fee_ratio_lv1
      else if fl.greater fee.amount_lv2 value
      then fee.bridge_fee_ratio_lv2
      else if fl.greater fee.amount_lv3 value
      then fee.bridge_fee_ratio_lv3
      else fee.bridge_fee_ratio_lv4)
]
