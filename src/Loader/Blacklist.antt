-- ===== src/Loader/Blacklist.antt =====
-- loader/blacklist_address.go: BlacklistAddressManager. Times are only stored.
use utils_go.Base.{Option, none, some, Bool, false, List, [], map, if◌then◌else◌, ◌==◌}
use utils_go.Base.Int.{ℤ, pos, int_eq}
use utils_go.Base.Text.{Text, text, text_eq, trim_space, to_lower}
use utils_go.Base.GoMap.{GoMap, lookup, insert}
use utils_go.Base.Find.{find_all}
use utils_go.Loader.Rows.{Rows, Checked, good, key}
use utils_go.Loader.Table.{Manager, LoadTexts, load_table}

pub record BlacklistAddress : Type 0 where
  pub id : ℤ
  pub address : Text
  pub risk_desc : Text
  pub status : ℤ
  pub created_at : ℤ
  pub updated_at : ℤ

pub record Blacklists : Type 0 where
  pub id_blacklists : GoMap ℤ BlacklistAddress
  pub address_blacklists : GoMap Text BlacklistAddress

abbrev pub no_blacklists : Blacklists
no_blacklists = record { id_blacklists = []; address_blacklists = [] }

abbrev pub new_blacklist_address_manager : Manager Blacklists
new_blacklist_address_manager = record { tables = no_blacklists; alerts = [] }

unfoldable pub get_blacklist_by_id : Manager Blacklists → ℤ → Option BlacklistAddress
unfolding lookup
get_blacklist_by_id mgr id = lookup id mgr.tables.id_blacklists

-- blacklist.Status == 1
unfoldable pub is_active : BlacklistAddress → Bool
is_active b = b.status == pos 1

unfoldable pub is_blacklisted : Manager Blacklists → Text → Bool
unfolding lookup key is_active
is_blacklisted mgr address = elim (lookup (key address) mgr.tables.address_blacklists) [
  | none ↦ false
  | some b ↦ is_active b
]

unfoldable pub get_blacklist_by_address : Manager Blacklists → Text → Option BlacklistAddress
unfolding lookup key is_active
get_blacklist_by_address mgr address = elim (lookup (key address) mgr.tables.address_blacklists) [
  | none ↦ none
  | some b ↦ if is_active b then some b else none
]

unfoldable pub get_all_blacklists : Manager Blacklists → List BlacklistAddress
unfolding find_all is_active
get_all_blacklists mgr = find_all is_active (map (λ entry. entry.1) mgr.tables.address_blacklists)

unfoldable pub build_blacklist : BlacklistAddress → Checked BlacklistAddress
unfolding trim_space
build_blacklist row =
    good (record row { address = trim_space row.address; risk_desc = trim_space row.risk_desc })

unfoldable pub put_blacklist : BlacklistAddress → Blacklists → Blacklists
unfolding insert to_lower
put_blacklist b t = record {
  id_blacklists = insert b.id b t.id_blacklists;
  address_blacklists = insert (to_lower b.address) b t.address_blacklists;
}

abbrev pub blacklist_texts : LoadTexts
blacklist_texts = record {
  on_query = text "select t_blacklist_address error";
  on_scan = text "scan t_blacklist_address row error";
  on_rows = text "get next t_blacklist_address row error";
}

unfoldable pub load_all_blacklists :
    Option (Rows BlacklistAddress) → Manager Blacklists → Manager Blacklists
unfolding load_table build_blacklist put_blacklist
load_all_blacklists = load_table blacklist_texts build_blacklist put_blacklist no_blacklists
