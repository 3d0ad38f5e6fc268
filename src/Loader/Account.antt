-- ===== src/Loader/Account.antt =====
-- loader/account.go: AccountManager.
use utils_go.Base.{Option, none, some, Bool, true, false, List, [], map}
use utils_go.Base.Int.{ℤ, int_eq}
use utils_go.Base.Text.{Text, text, text_eq, trim_space, to_lower}
use utils_go.Base.GoMap.{GoMap, lookup, insert}
use utils_go.Base.Nested.{lookup2, insert2}
use utils_go.Loader.Rows.{Rows, Checked, good, key}
use utils_go.Loader.Table.{Manager, LoadTexts, load_table}

pub record Account : Type 0 where
  pub id : ℤ
  pub chain_info_id : ℤ
  pub address : Text

pub record AccountTables : Type 0 where
  pub id_accounts : GoMap ℤ Account
  pub address_cid_accounts : GoMap Text (GoMap ℤ Account)
  pub cid_address_accounts : GoMap ℤ (GoMap Text Account)

abbrev pub no_accounts : AccountTables
no_accounts = record { id_accounts = []; address_cid_accounts = []; cid_address_accounts = [] }

abbrev pub new_account_manager : Manager AccountTables
new_account_manager = record { tables = no_accounts; alerts = [] }

unfoldable pub get_account_by_id : Manager AccountTables → ℤ → Option Account
unfolding lookup
get_account_by_id mgr id = lookup id mgr.tables.id_accounts

unfoldable pub has_address : Manager AccountTables → Text → Bool
unfolding lookup key
has_address mgr address = elim (lookup (key address) mgr.tables.address_cid_accounts) [
  | none ↦ false
  | some accs ↦ true
]

unfoldable pub get_addresses : Manager AccountTables → ℤ → List Text
unfolding lookup
get_addresses mgr cid = elim (lookup cid mgr.tables.cid_address_accounts) [
  | none ↦ []
  | some accs ↦ map (λ entry. entry.1.address) accs
]

unfoldable pub get_account_by_address_cid : Manager AccountTables → Text → ℤ → Option Account
unfolding lookup2 key
get_account_by_address_cid mgr address cid =
    lookup2 (key address) cid mgr.tables.address_cid_accounts

unfoldable pub build_account : Account → Checked Account
unfolding trim_space
build_account row = good (record row { address = trim_space row.address })

unfoldable pub put_account : Account → AccountTables → AccountTables
unfolding insert insert2 to_lower
put_account acc t = record {
  id_accounts = insert acc.id acc t.id_accounts;
  address_cid_accounts =
      insert2 (to_lower acc.address) acc.chain_info_id acc t.address_cid_accounts;
  cid_address_accounts =
      insert2 acc.chain_info_id (to_lower acc.address) acc t.cid_address_accounts;
}

abbrev pub account_texts : LoadTexts
account_texts = record {
  on_query = text "select t_account error";
  on_scan = text "scan t_account row error";
  on_rows = text "get next t_account row error";
}

unfoldable pub load_all_accounts :
    Option (Rows Account) → Manager AccountTables → Manager AccountTables
unfolding load_table build_account put_account
load_all_accounts = load_table account_texts build_account put_account no_accounts
