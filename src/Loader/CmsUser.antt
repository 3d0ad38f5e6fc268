-- ===== src/Loader/CmsUser.antt =====
-- loader/cms_user.go: CmsUserManager. The load returns at the first row that does not scan, and changes
-- the manager only at its end. strings.EqualFold compares ASCII texts in small letters.
pub mod Roles
use mathlib.Core.List.{foldl}
use utils_go.Base.{
  ℕ, Option, none, some, Bool, true, false, List, [], ◌∷◌, ◌++◌, map, if◌then◌else◌, ◌==◌, ◌&&◌,
}
use utils_go.Base.Int.{ℤ, int_eq}
use utils_go.Base.Text.{Text, text_eq, to_lower}
use utils_go.Base.Find.{any, find_first, find_all}
use utils_go.Loader.Rows.{Rows}

pub record DevRole : Type 0 where
  pub user_id : ℤ
  pub role_id : ℤ

pub record CmsRole : Type 0 where
  pub id : ℤ
  pub name : Text

pub record CmsUser : Type 0 where
  pub id : ℤ
  pub name : Text
  pub address : Text
  pub roles : List CmsRole

abbrev pub CmsUserManager : Type 0
CmsUserManager = List CmsUser

abbrev pub new_cms_user_manager : CmsUserManager
new_cms_user_manager = []

unfoldable pub has_role : CmsUserManager → Text → Text → Bool
unfolding any to_lower
has_role all_users user_address role_name =
    any
      (λ user.
        to_lower user.address == to_lower user_address
        && any (λ role. role.name == role_name) user.roles)
      all_users

unfoldable pub get_address_name : CmsUserManager → Text → Text
unfolding find_first to_lower
get_address_name all_users address =
    elim (find_first (λ user. to_lower user.address == to_lower address) all_users) [
      | none ↦ []
      | some user ↦ user.name
    ]

unfoldable pub get_all_cms_users : CmsUserManager → List CmsUser
get_all_cms_users all_users = all_users

-- The rows of a query up to its end: nothing where the query or a row fails, or rows.Err says so.
unfoldable pub scan_all : {R : Type 0} → List (Option R) → Option (List R)
scan_all [] = some []
scan_all (none ∷ scans) = none
scan_all (some r ∷ scans) = elim (scan_all scans) [ none ↦ none | some rs ↦ some (r ∷ rs) ]

unfoldable pub query_all : {R : Type 0} → Option (Rows R) → Option (List R)
unfolding scan_all
query_all none = none
query_all (some rows) = if rows.rows_err then none else scan_all rows.scans

-- A row of dev_white_admin.
pub record AdminRow : Type 0 where
  pub id : ℤ
  pub name : Text
  pub address : Text

unfoldable pub user_of : AdminRow → CmsUser
user_of row = record { id = row.id; name = row.name; address = row.address; roles = [] }

-- The loop over the roles, for one user and one row of dev_roles.
unfoldable pub attach : List CmsRole → DevRole → CmsUser → CmsUser
unfolding find_all
attach all_roles dev_role user = record user {
  roles =
      user.roles
      ++ find_all (λ role. user.id == dev_role.user_id && role.id == dev_role.role_id) all_roles;
}

unfoldable pub attach_all : List CmsRole → List DevRole → List CmsUser → List CmsUser
unfolding attach
attach_all all_roles dev_roles all_users =
    foldl (λ users dev_role. map (attach all_roles dev_role) users) all_users dev_roles

-- LoadAllCmsUsers, with the three queries.
unfoldable pub load_all_cms_users :
    Option (Rows CmsRole)
    → Option (Rows AdminRow)
    → Option (Rows DevRole)
    → CmsUserManager
    → CmsUserManager
unfolding query_all user_of attach_all
load_all_cms_users role_query admin_query dev_query mgr = elim (query_all role_query) [
  | none ↦ mgr
  | some all_roles ↦ elim (query_all admin_query) [
    | none ↦ mgr
    | some admins ↦ elim (query_all dev_query) [
      | none ↦ mgr
      | some dev_roles ↦ attach_all all_roles dev_roles (map user_of admins)
    ]
  ]
]
