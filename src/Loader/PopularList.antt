-- ===== src/Loader/PopularList.antt =====
-- loader/popular_list.go: PopularListManager. The weights of a chain are one map, which each row of the
-- chain writes to; GetPopularWeight copies it into the map of the caller.
use mathlib.Core.List.{foldl}
use utils_go.Base.{Option, none, some, Bool, true, false, []}
use utils_go.Base.Int.{ℤ}
use utils_go.Base.Text.{Text, text, text_eq, trim_space}
use utils_go.Base.GoMap.{GoMap, lookup, insert}
use utils_go.Loader.Rows.{Rows, Checked, good, key}
use utils_go.Loader.Table.{Manager, LoadTexts, load_table}

pub record PopularList : Type 0 where
  pub chain_name : Text
  pub popular_weight : GoMap Text ℤ

-- A row of t_popular_list.
pub record PopularRow : Type 0 where
  pub chain_name : Text
  pub weight : ℤ
  pub tag : Text

abbrev pub new_popular_list_manager : Manager (GoMap Text PopularList)
new_popular_list_manager = record { tables = []; alerts = [] }

-- weights[t] = w for each entry, on the caller's map; and whether the chain is known
unfoldable pub get_popular_weight :
    Manager (GoMap Text PopularList) → GoMap Text ℤ → Text → GoMap Text ℤ × Bool
unfolding lookup insert key
get_popular_weight mgr weights chain = elim (lookup (key chain) mgr.tables) [
  | none ↦ (weights, false)
  | some pl_info ↦
      (foldl (λ w entry. insert entry.0 entry.1 w) weights pl_info.popular_weight, true)
]

unfoldable pub build_popular : PopularRow → Checked PopularRow
unfolding trim_space key
build_popular row = good (record row { chain_name = key row.chain_name; tag = trim_space row.tag })

unfoldable pub weights_of : Option PopularList → GoMap Text ℤ
weights_of none = []
weights_of (some pl) = pl.popular_weight

unfoldable pub put_popular : PopularRow → GoMap Text PopularList → GoMap Text PopularList
unfolding lookup insert weights_of
put_popular row t =
    insert row.chain_name
      (record {
        chain_name = row.chain_name;
        popular_weight = insert row.tag row.weight (weights_of (lookup row.chain_name t));
      })
      t

abbrev pub popular_texts : LoadTexts
popular_texts = record {
  on_query = text "select t_popular_list error";
  on_scan = text "scan t_popular_list row error";
  on_rows = text "get next t_popular_list row error";
}

unfoldable pub load_all_popular_list :
    Option (Rows PopularRow) → Manager (GoMap Text PopularList) → Manager (GoMap Text PopularList)
unfolding load_table build_popular put_popular
load_all_popular_list = load_table popular_texts build_popular put_popular []
