-- ===== src/Loader/Exchange.antt =====
-- loader/exchange_info.go and loader/update_price.go: ExchangeInfoManager and UpdatePriceManager.
use utils_go.Base.{Option, List, [], ◌∷◌, ◌++◌}
use utils_go.Base.Int.{ℤ, int_eq}
use utils_go.Base.Text.{Text, text, text_eq, trim_space, to_lower}
use utils_go.Base.GoMap.{GoMap, lookup, insert}
use utils_go.Loader.Rows.{Rows, Checked, good, key}
use utils_go.Loader.Table.{Manager, LoadTexts, load_table}

pub record ExchangeInfo : Type 0 where
  pub id : ℤ
  pub name : Text
  pub icon : Text
  pub disabled : ℤ
  pub official_url : Text
  pub order_weight : ℤ

pub record Exchanges : Type 0 where
  pub id_exchanges : GoMap ℤ ExchangeInfo
  pub name_exchanges : GoMap Text ExchangeInfo
  pub all_exchanges : List ExchangeInfo

abbrev pub no_exchanges : Exchanges
no_exchanges = record { id_exchanges = []; name_exchanges = []; all_exchanges = [] }

abbrev pub new_exchange_info_manager : Manager Exchanges
new_exchange_info_manager = record { tables = no_exchanges; alerts = [] }

unfoldable pub get_all_exchanges : Manager Exchanges → List ExchangeInfo
get_all_exchanges mgr = mgr.tables.all_exchanges

unfoldable pub get_exchange_info_by_id : Manager Exchanges → ℤ → Option ExchangeInfo
unfolding lookup
get_exchange_info_by_id mgr id = lookup id mgr.tables.id_exchanges

unfoldable pub get_exchange_info_by_name : Manager Exchanges → Text → Option ExchangeInfo
unfolding lookup key
get_exchange_info_by_name mgr name = lookup (key name) mgr.tables.name_exchanges

unfoldable pub build_exchange : ExchangeInfo → Checked ExchangeInfo
unfolding trim_space
build_exchange row = good (record row { name = trim_space row.name })

unfoldable pub put_exchange : ExchangeInfo → Exchanges → Exchanges
unfolding insert to_lower
put_exchange xchg t = record {
  id_exchanges = insert xchg.id xchg t.id_exchanges;
  name_exchanges = insert (to_lower xchg.name) xchg t.name_exchanges;
  all_exchanges = t.all_exchanges ++ xchg ∷ [];
}

abbrev pub exchange_texts : LoadTexts
exchange_texts = record {
  on_query = text "select t_exchange_info error";
  on_scan = text "scan t_exchange_info row error";
  on_rows = text "get next t_exchange_info row error";
}

unfoldable pub load_all_exchanges :
    Option (Rows ExchangeInfo) → Manager Exchanges → Manager Exchanges
unfolding load_table build_exchange put_exchange
load_all_exchanges = load_table exchange_texts build_exchange put_exchange no_exchanges

pub record UpdatePrice : Type 0 where
  pub token_name : Text
  pub price : Text
  pub update_timestamp : Text

abbrev pub new_update_price_manager : Manager (GoMap Text UpdatePrice)
new_update_price_manager = record { tables = []; alerts = [] }

unfoldable pub get_update_price : Manager (GoMap Text UpdatePrice) → Text → Option UpdatePrice
unfolding lookup key
get_update_price mgr token_name = lookup (key token_name) mgr.tables

unfoldable pub build_price : UpdatePrice → Checked UpdatePrice
unfolding trim_space
build_price row = good (record {
  token_name = trim_space row.token_name;
  price = trim_space row.price;
  update_timestamp = trim_space row.update_timestamp;
})

unfoldable pub put_price : UpdatePrice → GoMap Text UpdatePrice → GoMap Text UpdatePrice
unfolding insert to_lower
put_price prices t = insert (to_lower prices.token_name) prices t

abbrev pub price_texts : LoadTexts
price_texts = record {
  on_query = text "select t_update error";
  on_scan = text "scan t_update_price row error";
  on_rows = text "get next t_update_price row error";
}

unfoldable pub load_all_price :
    Option (Rows UpdatePrice) → Manager (GoMap Text UpdatePrice) → Manager (GoMap Text UpdatePrice)
unfolding load_table build_price put_price
load_all_price = load_table price_texts build_price put_price []
