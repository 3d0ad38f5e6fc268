-- ===== src/Loader/Tests/Users.antt =====
-- loader/cms_user.go: the theorem at concrete users and roles.
use utils_go.Base.{◌≡◌, ◌↔◌, refl, Option, none, some, true, false, List, [], ◌∷◌, map, In}
use utils_go.Base.Int.{pos}
use utils_go.Base.Text.{text, text_beq, to_lower}
use utils_go.Loader.Rows.{Rows}
use utils_go.Loader.CmsUser.{
  DevRole, CmsRole, new_cms_user_manager, has_role, get_address_name, query_all, AdminRow,
  load_all_cms_users,
}
use utils_go.Loader.CmsUser.Roles.{load_all_cms_users-has_role}

abbrev role_list : List CmsRole
role_list =
    record { id = pos 1; name = text "admin" } ∷ record { id = pos 2; name = text "ops" } ∷ []

abbrev admin_list : List AdminRow
admin_list =
    record { id = pos 7; name = text "ann"; address = text "0xAB" }
    ∷ record { id = pos 8; name = text "bob"; address = text "0xcd" }
    ∷ []

abbrev dev_list : List DevRole
dev_list =
    record { user_id = pos 7; role_id = pos 2 } ∷ record { user_id = pos 9; role_id = pos 1 } ∷ []

abbrev all_of : {R : Type 0} → List R → Option (Rows R)
all_of rs = some (record { scans = map some rs; rows_err = false })

load_all_cms_users-has_role_example :
    (has_role
        (load_all_cms_users
          (all_of role_list)
          (all_of admin_list)
          (all_of dev_list)
          new_cms_user_manager)
        (text "0xab")
        (text "ops")
      ≡ true)
    ↔ ((a : AdminRow) × In a admin_list
        × (to_lower a.address ≡ to_lower (text "0xab"))
        × ((r : CmsRole) × (d : DevRole) × In r role_list
            × In d dev_list
            × (a.id ≡ d.user_id)
            × (r.id ≡ d.role_id)
            × (r.name ≡ text "ops")))
unfolding query_all
load_all_cms_users-has_role_example =
    load_all_cms_users-has_role (all_of role_list) (all_of admin_list) (all_of dev_list) role_list
      admin_list dev_list new_cms_user_manager (text "0xab") (text "ops") refl refl refl

ann_is_ops :
    has_role
      (load_all_cms_users
        (all_of role_list)
        (all_of admin_list)
        (all_of dev_list)
        new_cms_user_manager)
      (text "0xab")
      (text "ops")
    ≡ true
unfolding has_role load_all_cms_users text_beq
ann_is_ops = refl

-- A row that does not scan leaves the manager as it is.
broken_row :
    get_address_name
      (load_all_cms_users
        (all_of role_list)
        (some (record { scans = none ∷ []; rows_err = false }))
        (all_of dev_list)
        (record { id = pos 7; name = text "ann"; address = text "0xAB"; roles = [] } ∷ []))
      (text "0xab")
    ≡ text "ann"
unfolding get_address_name load_all_cms_users text_beq
broken_row = refl
