-- ===== src/Loader/MakerAddress.antt =====
-- loader/maker_address.go: MakerAddressManager. A group is one object that two maps hold; nothing writes
-- to it after the load, so both maps hold its value. What the load reports goes to the log only.
use mathlib.Core.List.{foldl}
use utils_go.Base.{Option, none, some, List, [], ◌∷◌, ◌++◌, if◌then◌else◌}
use utils_go.Base.Int.{ℤ, pos, int_eq}
use utils_go.Base.Text.{Text, text_eq}
use utils_go.Base.GoMap.{GoMap, lookup, insert}
use utils_go.Base.Nested.{lookup2, insert2}
use utils_go.Loader.Rows.{Rows, good, used_rows}
use utils_go.Loader.Groups.{slice, append_at}

pub record MakerAddressGroupPo : Type 0 where
  pub id : ℤ
  pub group_name : Text
  pub env : Text

-- The backend is the number of its type.
pub record MakerAddressPo : Type 0 where
  pub id : ℤ
  pub group_id : ℤ
  pub backend : ℤ
  pub address : Text

pub record MakerAddress : Type 0 where
  pub group_id : ℤ
  pub group_name : Text
  pub env : Text
  pub addresses : List MakerAddressPo
  pub security_addresses : List MakerAddressPo

pub record MakerAddressManager : Type 0 where
  pub group_id_address : GoMap ℤ MakerAddress
  pub env_group : GoMap Text (List MakerAddress)
  pub backend_address_to_group : GoMap ℤ (GoMap Text ℤ)

abbrev pub new_maker_address_manager : MakerAddressManager
new_maker_address_manager = record {
  group_id_address = [];
  env_group = [];
  backend_address_to_group = [];
}

-- The rows that scan, where the query and the iteration succeed.
unfoldable pub scanned : {R : Type 0} → Option (Rows R) → Option (List R)
unfolding used_rows
scanned none = none
scanned (some rows) = if rows.rows_err then none else some (used_rows good rows.scans)

unfoldable pub put_group : GoMap ℤ MakerAddress → MakerAddressGroupPo → GoMap ℤ MakerAddress
unfolding insert
put_group groups group =
    insert group.id
      (record {
        group_id = group.id;
        group_name = group.group_name;
        env = group.env;
        addresses = [];
        security_addresses = [];
      })
      groups

unfoldable pub put_address : GoMap ℤ MakerAddress → MakerAddressPo → GoMap ℤ MakerAddress
unfolding lookup insert
put_address groups address = elim (lookup address.group_id groups) [
  | none ↦ groups
  | some group ↦
      insert address.group_id (record group { addresses = group.addresses ++ address ∷ [] }) groups
]

unfoldable pub put_security_address : GoMap ℤ MakerAddress → MakerAddressPo → GoMap ℤ MakerAddress
unfolding lookup insert
put_security_address groups address = elim (lookup address.group_id groups) [
  | none ↦ groups
  | some group ↦
      insert address.group_id
        (record group { security_addresses = group.security_addresses ++ address ∷ [] }) groups
]

-- backendAddressToGroup, for every address, also one of a group that is not there
unfoldable pub put_backend : GoMap ℤ (GoMap Text ℤ) → MakerAddressPo → GoMap ℤ (GoMap Text ℤ)
unfolding insert2
put_backend m address = insert2 address.backend address.address address.group_id m

unfoldable pub by_env : GoMap ℤ MakerAddress → GoMap Text (List MakerAddress)
unfolding append_at
by_env groups = foldl (λ m entry. append_at (λ g. g.env) entry.1 m) [] groups

-- LoadAllMakerAddresses, with the queries of the groups, the addresses and the security addresses.
unfoldable pub load_all_maker_addresses :
    Option (Rows MakerAddressGroupPo)
    → Option (Rows MakerAddressPo)
    → Option (Rows MakerAddressPo)
    → MakerAddressManager
    → MakerAddressManager
unfolding scanned put_group put_address put_security_address put_backend by_env
load_all_maker_addresses group_query address_query security_query mgr = elim (scanned group_query) [
  | none ↦ mgr
  | some group_rows ↦ elim (scanned address_query) [
    | none ↦ mgr
    | some addresses ↦ elim (scanned security_query) [
      | none ↦ mgr
      | some securities ↦
          let groups =
            foldl put_security_address (foldl put_address (foldl put_group [] group_rows) addresses)
              securities in
          record {
            group_id_address = groups;
            env_group = by_env groups;
            backend_address_to_group = foldl put_backend [] addresses;
          }
    ]
  ]
]

unfoldable pub get_maker_addresses_by_env : MakerAddressManager → Text → List MakerAddress
unfolding lookup
get_maker_addresses_by_env mgr env = slice (lookup env mgr.env_group)

-- A missing group is nil.
unfoldable pub get_maker_address_by_group_id : MakerAddressManager → ℤ → Option MakerAddress
unfolding lookup
get_maker_address_by_group_id mgr group_id = lookup group_id mgr.group_id_address

unfoldable pub get_group_id_by_backend_and_address : MakerAddressManager → ℤ → Text → ℤ
unfolding lookup2
get_group_id_by_backend_and_address mgr backend address =
    elim (lookup2 backend address mgr.backend_address_to_group) [
      | none ↦ pos 0
      | some group_id ↦ group_id
    ]
