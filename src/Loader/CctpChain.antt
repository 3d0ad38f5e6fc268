-- ===== src/Loader/CctpChain.antt =====
-- loader/circle_cctp_chain.go: CircleCctpChainManager. SetString of math/big with base 0 is a parameter;
-- Mul of a nil *big.Int panics.
pub mod MinValue
use utils_go.Base.{
  ℕ, Option, none, some, Bool, not, ◌&&◌, ◌||◌, List, [], ◌∷◌, ◌++◌, map, if◌then◌else◌, ◌==◌,
}
use utils_go.Base.Int.{ℤ, pos, ◌*ℤ◌, int_eq}
use utils_go.Base.Text.{Text, text, text_beq, trim_space}
use utils_go.Base.GoMap.{GoMap, lookup, insert}
use utils_go.Base.Decimal.{format_int}
use utils_go.Base.Outcome.{Outcome, ok, panic}
use utils_go.Loader.Rows.{Rows, Checked, good, skip}
use utils_go.Loader.Table.{Manager, LoadTexts, load_table}

pub record CircleCctpChain : Type 0 where
  pub chain_id : ℤ
  pub min_value : Text
  pub domain : ℤ
  pub token_messenger : Text
  pub message_transmitter : Text
  pub token_messenger_v2 : Text
  pub message_transmitter_v2 : Text

-- s != ""
unfoldable pub is_set : Text → Bool
is_set s = not (text_beq s [])

-- The first chain is the receiver, the source of a transfer.
unfoldable pub get_cctp_version : CircleCctpChain → CircleCctpChain → ℕ
unfolding is_set
get_cctp_version src dst =
    if is_set dst.token_messenger && is_set src.token_messenger
    then 1
    else if is_set dst.token_messenger_v2 && is_set src.token_messenger_v2
    then 2
    else 0

unfoldable pub get_dtc_unit : ℤ → ℤ → ℤ
get_dtc_unit src_chain_id dst_chain_id =
    if src_chain_id == pos 1 || dst_chain_id == pos 1 then pos 10000000 else pos 5000000

abbrev pub new_circle_cctp_chain_manager : Manager (GoMap ℤ CircleCctpChain)
new_circle_cctp_chain_manager = record { tables = []; alerts = [] }

unfoldable pub get_chain_by_chain_id :
    Manager (GoMap ℤ CircleCctpChain) → ℤ → Option CircleCctpChain
unfolding lookup
get_chain_by_chain_id mgr id = lookup id mgr.tables

unfoldable pub get_chain_ids : Manager (GoMap ℤ CircleCctpChain) → List ℤ
get_chain_ids mgr = map (λ entry. entry.0) mgr.tables

abbrev pub cctp_texts : LoadTexts
cctp_texts = record {
  on_query = text "select t_cctp_support_chain error";
  on_scan = text "scan t_cctp_support_chain row error";
  on_rows = text "get next t_cctp_support_chain row error";
}

unfoldable pub put_cctp_chain : CircleCctpChain → GoMap ℤ CircleCctpChain → GoMap ℤ CircleCctpChain
unfolding insert
put_cctp_chain chain t = insert chain.chain_id chain t

module _ (set_string : Text → Option ℤ) where
  unfoldable pub get_min_value_unit : CircleCctpChain → Outcome ℤ
  unfolding ◌*ℤ◌
  get_min_value_unit chain = elim (set_string chain.min_value) [
    | none ↦ panic
    | some min ↦ ok (min *ℤ pos 1000000)
  ]

  -- a row whose minimal value is no number is reported and passed over
  unfoldable pub build_cctp_chain : CircleCctpChain → Checked CircleCctpChain
  unfolding trim_space
  build_cctp_chain row =
      let min = trim_space row.min_value in
      elim (set_string min) [
        | none ↦ skip (text "scan t_cctp_support_chain min value error ")
        | some n ↦ good (record row {
          min_value = min;
          token_messenger = trim_space row.token_messenger;
          message_transmitter = trim_space row.message_transmitter;
        })
      ]

  unfoldable pub load_all_cctp_chains :
      Option (Rows CircleCctpChain)
      → Manager (GoMap ℤ CircleCctpChain)
      → Manager (GoMap ℤ CircleCctpChain)
  unfolding load_table build_cctp_chain put_cctp_chain
  load_all_cctp_chains = load_table cctp_texts build_cctp_chain put_cctp_chain []
