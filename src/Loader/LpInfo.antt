-- ===== src/Loader/LpInfo.antt =====
-- loader/lp_info.go: LpInfoManager. float64 is a parameter.
use utils_go.Base.{Option, none, some, List, [], ◌∷◌, ◌++◌, if◌then◌else◌, ◌==◌, ◌&&◌}
use utils_go.Base.Int.{ℤ, int_eq}
use utils_go.Base.Text.{Text, text, text_eq, trim_space, to_lower, to_upper}
use utils_go.Base.GoMap.{GoMap, lookup}
use utils_go.Base.Nested.{inner_map, lookup2, insert2, lookup3, insert3}
use utils_go.Base.Find.{any}
use utils_go.Loader.Rows.{Float, Rows, Checked, good, ◌>>=◌, check_float, key}
use utils_go.Loader.Table.{Manager, LoadTexts, load_table}

pub record LpInfo (F : Type 0) : Type 0 where
  pub version : ℤ
  pub token_name : Text
  pub from_chain_name : Text
  pub to_chain_name : Text
  pub min_value : F
  pub max_value : F
  pub bridge_fee_ratio : F
  pub min_value_str : Text
  pub max_value_str : Text
  pub bridge_fee_ratio_str : Text
  pub maker_address : Text
  pub is_disabled : ℤ

-- A row of t_lp_info.
pub record LpRow : Type 0 where
  pub version : ℤ
  pub token_name : Text
  pub from_chain_name : Text
  pub to_chain_name : Text
  pub maker_address : Text
  pub min_value_str : Text
  pub max_value_str : Text
  pub is_disabled : ℤ
  pub bridge_fee_ratio_str : Text

-- from chain, to chain, maker address
abbrev pub LpLanes : Type 0 → Type 0
LpLanes F = GoMap Text (GoMap Text (GoMap Text (LpInfo F)))

pub record LpTables (F : Type 0) : Type 0 where
  pub lp_infos : GoMap ℤ (GoMap Text (LpLanes F))
  pub all_lp_infos : List (LpInfo F)

abbrev pub no_lp_infos : {F : Type 0} → LpTables F
no_lp_infos = record { lp_infos = []; all_lp_infos = [] }

abbrev pub new_lp_info_manager : {F : Type 0} → Manager (LpTables F)
new_lp_info_manager = record { tables = no_lp_infos; alerts = [] }

module _ {F : Type 0} where
  unfoldable pub get_all_lp_infos : Manager (LpTables F) → List (LpInfo F)
  get_all_lp_infos mgr = mgr.tables.all_lp_infos

  unfoldable pub get_lp_infos :
      Manager (LpTables F) → ℤ → Text → Text → Text → Option (GoMap Text (LpInfo F))
  unfolding lookup2 key
  get_lp_infos mgr version token from to = elim (lookup2 version (key token) mgr.tables.lp_infos) [
    | none ↦ none
    | some lanes ↦ lookup2 (key from) (key to) lanes
  ]

  unfoldable pub get_lp_info :
      Manager (LpTables F) → ℤ → Text → Text → Text → Text → Option (LpInfo F)
  unfolding lookup2 lookup3 key
  get_lp_info mgr version token from to maker =
      elim (lookup2 version (key token) mgr.tables.lp_infos) [
        | none ↦ none
        | some lanes ↦ lookup3 (key from) (key to) (key maker) lanes
      ]

  -- The loop over the from chains of one token: the token once for each that is meant and leads to
  -- the to chain.
  unfoldable pub tokens_of : Text → Text → Text → LpLanes F → List Text
  unfolding any to_upper
  tokens_of from to token [] = []
  tokens_of from to token ((from_name, ft_info) ∷ lanes) =
      let rest = tokens_of from to token lanes in
      if from_name == from && any (λ entry. entry.0 == to) ft_info
      then to_upper token ∷ rest
      else rest

  unfoldable pub tokens_by_lp : Text → Text → GoMap Text (LpLanes F) → List Text
  unfolding tokens_of
  tokens_by_lp from to [] = []
  tokens_by_lp from to ((token, lanes) ∷ infos) =
      tokens_of from to token lanes ++ tokens_by_lp from to infos

  unfoldable pub get_tokens_by_lp : Manager (LpTables F) → ℤ → Text → Text → Option (List Text)
  unfolding lookup key tokens_by_lp
  get_tokens_by_lp mgr version from to = elim (lookup version mgr.tables.lp_infos) [
    | none ↦ none
    | some infos ↦ some (tokens_by_lp (key from) (key to) infos)
  ]

  unfoldable pub put_lp_info : LpInfo F → LpTables F → LpTables F
  unfolding lookup2 insert2 insert3 to_lower
  put_lp_info info t =
      let token = to_lower info.token_name in
      record {
        lp_infos =
            insert2 info.version token
              (insert3 (to_lower info.from_chain_name) (to_lower info.to_chain_name)
                (to_lower info.maker_address) info
                (inner_map (lookup2 info.version token t.lp_infos)))
              t.lp_infos;
        all_lp_infos = t.all_lp_infos ++ info ∷ [];
      }

abbrev pub lp_texts : LoadTexts
lp_texts = record {
  on_query = text "select t_lp_info error";
  on_scan = text "scan t_lp_info row error";
  on_rows = text "get next t_lp_info row error";
}

unfoldable pub build_lp_info : (fl : Float) → LpRow → Checked (LpInfo fl.F)
unfolding trim_space
build_lp_info fl row = do
  min ← check_float fl row.min_value_str (text "t_lp_info min not float")
  max ← check_float fl row.max_value_str (text "t_lp_info max not float")
  bdgfee ← check_float fl row.bridge_fee_ratio_str (text "t_lp_info bridge fee not float")
  good (record {
    version = row.version;
    token_name = trim_space row.token_name;
    from_chain_name = trim_space row.from_chain_name;
    to_chain_name = trim_space row.to_chain_name;
    min_value = min;
    max_value = max;
    bridge_fee_ratio = bdgfee;
    min_value_str = row.min_value_str;
    max_value_str = row.max_value_str;
    bridge_fee_ratio_str = row.bridge_fee_ratio_str;
    maker_address = trim_space row.maker_address;
    is_disabled = row.is_disabled;
  })

unfoldable pub load_all_lp_info :
    (fl : Float) → Option (Rows LpRow) → Manager (LpTables fl.F) → Manager (LpTables fl.F)
unfolding load_table build_lp_info put_lp_info
load_all_lp_info fl = load_table lp_texts (build_lp_info fl) put_lp_info no_lp_infos
