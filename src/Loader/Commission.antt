-- ===== src/Loader/Commission.antt =====
-- loader/channel_commission_ratio.go: ChannelCommissionRatioManager. int64 values are not computed
-- with, so they are integers; sort.Slice is any function that gives a sorted permutation.
pub mod Thresholds
use utils_go.Base.{Option, none, some, List, [], ◌∷◌, ◌++◌, if◌then◌else◌}
use utils_go.Base.Int.{ℤ, ltb_ℤ, int_eq}
use utils_go.Base.Text.{Text, text}
use utils_go.Base.Outcome.{Outcome, ok, panic}
use utils_go.Base.GoMap.{GoMap, lookup, insert, update_all}
use utils_go.Loader.Rows.{Rows, good, load_loop}

pub record ChannelCommissionRatio : Type 0 where
  pub tx_count : ℤ
  pub ratio : ℤ

pub record ChannelCommissionRatioManager : Type 0 where
  pub channelid_to_count_to_ratio : GoMap ℤ (GoMap ℤ ℤ)
  pub channelid_to_ratio_arr : GoMap ℤ (List ChannelCommissionRatio)
  pub alerts : List Text

abbrev pub new_channel_commission_ratio_manager : ChannelCommissionRatioManager
new_channel_commission_ratio_manager = record {
  channelid_to_count_to_ratio = [];
  channelid_to_ratio_arr = [];
  alerts = [];
}

-- A row of t_channel_commission_ratio.
pub record CommissionRow : Type 0 where
  pub channel_id : ℤ
  pub tx_count : ℤ
  pub ratio : ℤ

-- sortList[len(sortList)-1].ratio, which panics on an empty slice
unfoldable pub last_ratio : List ChannelCommissionRatio → Outcome ℤ
last_ratio [] = panic
last_ratio (kv ∷ []) = ok kv.ratio
last_ratio (kv ∷ next ∷ rest) = last_ratio (next ∷ rest)

-- the loop of GetRatioByChannelidAndCount over `rest`, a suffix of the list `whole`
unfoldable pub ratio_loop :
    List ChannelCommissionRatio → ℤ → List ChannelCommissionRatio → Outcome ℤ
unfolding last_ratio
ratio_loop whole txcount [] = last_ratio whole
ratio_loop whole txcount (kv ∷ rest) =
    if ltb_ℤ txcount kv.tx_count then ok kv.ratio else ratio_loop whole txcount rest

-- GetRatioByChannelidAndCount; `ok none` is (0, false)
unfoldable pub get_ratio_by_channelid_and_count :
    ChannelCommissionRatioManager → ℤ → ℤ → Outcome (Option ℤ)
unfolding ratio_loop
get_ratio_by_channelid_and_count mgr channelid txcount =
    elim (lookup channelid mgr.channelid_to_ratio_arr) [
      | none ↦ ok none
      | some sort_list ↦ elim (ratio_loop sort_list txcount sort_list) [
        | panic ↦ panic
        | ok ratio ↦ ok (some ratio)
      ]
    ]

-- What the loop of LoadAllCommissionRatio has collected.
pub record Collected : Type 0 where
  pub counts : GoMap ℤ (GoMap ℤ ℤ)
  pub arrays : GoMap ℤ (List ChannelCommissionRatio)

abbrev pub ratio_arr : Option (List ChannelCommissionRatio) → List ChannelCommissionRatio
ratio_arr none = []
ratio_arr (some xs) = xs

-- one row: the inner map is made anew
unfoldable pub put_ratio : CommissionRow → Collected → Collected
put_ratio row c = record {
  counts = insert row.channel_id (insert row.tx_count row.ratio []) c.counts;
  arrays =
      insert row.channel_id
        (ratio_arr (lookup row.channel_id c.arrays)
          ++ record { tx_count = row.tx_count; ratio = row.ratio } ∷ [])
        c.arrays;
}

-- LoadAllCommissionRatio; the query is `none` where it fails
module _ (sort : List ChannelCommissionRatio → List ChannelCommissionRatio) where
  unfoldable pub load_all_commission_ratio :
      Option (Rows CommissionRow) → ChannelCommissionRatioManager → ChannelCommissionRatioManager
  unfolding load_loop put_ratio update_all
  load_all_commission_ratio none mgr = record mgr {
    alerts = mgr.alerts ++ text "select t_channel_commission_ratio error" ∷ [];
  }
  load_all_commission_ratio (some rows) mgr =
      let (c, alerts) =
        load_loop good put_ratio (text "scan t_channel_commission_ratio row error") rows.scans
          (record { counts = []; arrays = [] }) mgr.alerts in
      if rows.rows_err
      then record mgr {
        alerts = alerts ++ text "get next t_channel_commission_ratio row error" ∷ [];
      }
      else record {
        channelid_to_count_to_ratio = c.counts;
        channelid_to_ratio_arr = update_all (λ k arr. some (sort arr)) c.arrays;
        alerts = alerts;
      }
