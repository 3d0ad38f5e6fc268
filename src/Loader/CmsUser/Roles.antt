-- ===== src/Loader/CmsUser/Roles.antt =====
-- loader/cms_user.go: whom HasRole gives a role after a load.

use utils_go.Base.{
  ◌≡◌, ◌↔◌, ◌⊎◌, inl, inr, refl, sym, ap, ◌∙◌, Option, some, Bool, true, List, [], ◌∷◌, ◌++◌, map,
  ◌==◌, ◌&&◌, arith, In,
}
use utils_go.Base.Int.{int_eq, int_beq_iff}
use utils_go.Base.Text.{Text, text_eq, text_beq_iff, to_lower}
use utils_go.Base.Find.{any, any_iff, find_all, In-find_all}
use utils_go.Loader.Rows.{Rows}
use utils_go.Loader.CmsUser.{
  DevRole, CmsRole, CmsUser, CmsUserManager, has_role, query_all, AdminRow, user_of, attach,
  attach_all, load_all_cms_users,
}

module _ {A B : Type 0} (f : A → B) where
  In-map : (xs : List A) (y : B) → In y (map f xs) ↔ ((x : A) × In x xs × (f x ≡ y))
  In-map [] y = (λ i. elim i [ ], λ h. elim h.1 [ ])
  In-map (x ∷ xs) y =
      let (out, back) = In-map xs y in
      (
        λ i. elim i [ inl e ↦ (x, inl refl, e) | inr j ↦ let (z, k, e) = out j in (z, inr k, e) ],
        λ h. elim h.1 [ inl e ↦ inl (ap f e ∙ h.2) | inr j ↦ inr (back (h.0, j, h.2)) ],
      )

In-append : {A : Type 0} (xs ys : List A) (z : A) → In z (xs ++ ys) ↔ (In z xs ⊎ In z ys)
In-append [] ys z = (λ i. inr i, λ h. elim h [ inl i ↦ elim i [ ] | inr i ↦ i ])
In-append (x ∷ xs) ys z =
    let (out, back) = In-append xs ys z in
    (
      λ i. elim i [
        | inl e ↦ inl (inl e)
        | inr j ↦ elim (out j) [ inl k ↦ inl (inr k) | inr k ↦ inr k ]
      ],
      λ h. elim h [
        | inl i ↦ elim i [ inl e ↦ inl e | inr j ↦ inr (back (inl j)) ]
        | inr i ↦ inr (back (inr i))
      ],
    )

-- A user after all rows of dev_roles.
abbrev with_roles : List CmsRole → List DevRole → CmsUser → CmsUser
with_roles all_roles [] user = user
with_roles all_roles (d ∷ ds) user = with_roles all_roles ds (attach all_roles d user)

attach_all-eq :
    (all_roles : List CmsRole) (ds : List DevRole) (users : List CmsUser)
    → attach_all all_roles ds users ≡ map (with_roles all_roles ds) users
unfolding attach_all
attach_all-eq all_roles [] users = sym (map_same users)
  where
    map_same : (us : List CmsUser) → map (with_roles all_roles []) us ≡ us
    map_same [] = refl
    map_same (u ∷ us) = ap (λ rest. u ∷ rest) (map_same us)
attach_all-eq all_roles (d ∷ ds) users =
    attach_all-eq all_roles ds (map (attach all_roles d) users) ∙ map_twice users
  where
    map_twice :
        (us : List CmsUser)
        → map (with_roles all_roles ds) (map (attach all_roles d) us)
          ≡ map (with_roles all_roles (d ∷ ds)) us
    map_twice [] = refl
    map_twice (u ∷ us) = ap (λ rest. with_roles all_roles (d ∷ ds) u ∷ rest) (map_twice us)

with_roles_address :
    (all_roles : List CmsRole) (ds : List DevRole) (user : CmsUser)
    → (with_roles all_roles ds user).address ≡ user.address
unfolding attach
with_roles_address all_roles [] user = refl
with_roles_address all_roles (d ∷ ds) user =
    with_roles_address all_roles ds (attach all_roles d user)

-- A row of dev_roles that gives the role to the user.
abbrev Gives : CmsUser → CmsRole → DevRole → Type 0
Gives user r d = (user.id ≡ d.user_id) × (r.id ≡ d.role_id)

Gives-iff :
    (user : CmsUser) (r : CmsRole) (d : DevRole)
    → ((user.id == d.user_id && r.id == d.role_id) ≡ true) ↔ Gives user r d
Gives-iff user r d = ground (arith, int_beq_iff user.id d.user_id, int_beq_iff r.id d.role_id)

attach-In :
    (all_roles : List CmsRole) (d : DevRole) (user : CmsUser) (r : CmsRole)
    → In r (attach all_roles d user).roles ↔ (In r user.roles ⊎ (In r all_roles × Gives user r d))
unfolding attach
attach-In all_roles d user r =
    let chosen = find_all (λ role. user.id == d.user_id && role.id == d.role_id) all_roles in
    let (out, back) = In-append user.roles chosen r in
    let (found, find) =
      In-find_all (λ role. user.id == d.user_id && role.id == d.role_id) all_roles r in
    (
      λ i. elim (out i) [
        | inl old ↦ inl old
        | inr new ↦ let (known, given) = found new in inr (known, (Gives-iff user r d).0 given)
      ],
      λ h. back (elim h [
        | inl old ↦ inl old
        | inr new ↦ inr (find (new.0, (Gives-iff user r d).1 new.1))
      ]),
    )

-- The roles that rows of dev_roles give to a user.
with_roles-In :
    (all_roles : List CmsRole) (ds : List DevRole) (user : CmsUser) (r : CmsRole)
    → In r (with_roles all_roles ds user).roles
      ↔ (In r user.roles ⊎ ((d : DevRole) × In d ds × In r all_roles × Gives user r d))
unfolding attach
with_roles-In all_roles [] user r = (λ i. inl i, λ h. elim h [ inl i ↦ i | inr x ↦ elim x.1 [ ] ])
with_roles-In all_roles (d ∷ ds) user r =
    let (out, back) = with_roles-In all_roles ds (attach all_roles d user) r in
    let (out', back') = attach-In all_roles d user r in
    (
      λ i. elim (out i) [
        | inl j ↦ elim (out' j) [ inl old ↦ inl old | inr new ↦ inr (d, inl refl, new.0, new.1) ]
        | inr later ↦ let (x, k, known, given) = later in inr (x, inr k, known, given)
      ],
      λ h. elim h [
        | inl old ↦ back (inl (back' (inl old)))
        | inr there ↦
            let (x, k, known, given) = there in
            elim k [
              | inl here ↦ back (inl (back' (inr (known, rw here given))))
              | inr later ↦ back (inr (x, later, known, given))
            ]
      ],
    )

any-map :
    {A B : Type 0} (f : A → B) (p : B → Bool) (xs : List A)
    → any p (map f xs) ≡ any (λ x. p (f x)) xs
unfolding any
any-map f p [] = refl
any-map f p (x ∷ xs) = rw (any-map f p xs) refl

and_iff : (b c : Bool) → ((b && c) ≡ true) ↔ ((b ≡ true) × (c ≡ true))
and_iff b c = ground arith

module _ (all_roles : List CmsRole) (ds : List DevRole) (address role_name : Text) where
  abbrev passes : CmsUser → Bool
  passes user =
      to_lower user.address == to_lower address && any (λ role. role.name == role_name) user.roles

  -- One row of dev_white_admin, with its roles.
  admin_iff :
      (a : AdminRow)
      → (passes (with_roles all_roles ds (user_of a)) ≡ true) ↔ (
          (to_lower a.address ≡ to_lower address)
          × ((r : CmsRole) × (d : DevRole) × In r all_roles
              × In d ds
              × (a.id ≡ d.user_id)
              × (r.id ≡ d.role_id)
              × (r.name ≡ role_name)))
  unfolding user_of
  admin_iff a =
      let user = with_roles all_roles ds (user_of a) in
      let address_is : user.address ≡ a.address = with_roles_address all_roles ds (user_of a) in
      let (split, join) =
        and_iff (to_lower user.address == to_lower address)
          (any (λ role. role.name == role_name) user.roles) in
      let (same, same') = text_beq_iff (to_lower user.address) (to_lower address) in
      let (some_role, any_role) = any_iff (λ role. role.name == role_name) user.roles in
      (
        λ h.
            let (r, i, named) = some_role (split h).1 in
            (
              sym (ap to_lower address_is) ∙ same (split h).0,
              elim ((with_roles-In all_roles ds (user_of a) r).0 i) [
                | inl none_yet ↦ elim none_yet [ ]
                | inr there ↦
                    let (d, k, known, given) = there in
                    (r, d, known, k, given.0, given.1, (text_beq_iff r.name role_name).0 named)
              ],
            ),
        λ h.
            let (at, (r, d, known, k, of_user, of_role, named)) = h in
            join (
              same' (ap to_lower address_is ∙ at),
              any_role (
                r,
                (with_roles-In all_roles ds (user_of a) r).1
                    (inr (d, k, known, (of_user, of_role))),
                (text_beq_iff r.name role_name).1 named,
              ),
            ),
      )

-- After a load whose three queries give all their rows, HasRole holds exactly where a row of
-- dev_white_admin has the address, up to case, and a row of dev_roles joins its id with that of a row of
-- dev_role of the given name.
pub load_all_cms_users-has_role :
    (role_query : Option (Rows CmsRole)) (admin_query : Option (Rows AdminRow))
    (dev_query : Option (Rows DevRole)) (all_roles : List CmsRole) (admins : List AdminRow)
    (dev_roles : List DevRole) (mgr : CmsUserManager) (address role_name : Text)
    → query_all role_query ≡ some all_roles
    → query_all admin_query ≡ some admins
    → query_all dev_query ≡ some dev_roles
    → (has_role (load_all_cms_users role_query admin_query dev_query mgr) address role_name ≡ true)
      ↔ ((a : AdminRow) × In a admins
          × (to_lower a.address ≡ to_lower address)
          × ((r : CmsRole) × (d : DevRole) × In r all_roles
              × In d dev_roles
              × (a.id ≡ d.user_id)
              × (r.id ≡ d.role_id)
              × (r.name ≡ role_name)))
unfolding load_all_cms_users has_role
load_all_cms_users-has_role role_query admin_query dev_query all_roles admins dev_roles mgr address
      role_name h1 h2 h3 =
    let p = passes all_roles dev_roles address role_name in
    let loaded : load_all_cms_users role_query admin_query dev_query mgr
        ≡ map (with_roles all_roles dev_roles) (map user_of admins) =
      rw (load_all_cms_users, h1, h2, h3)
        (attach_all-eq all_roles dev_roles (map user_of admins)) in
    let answer : has_role (load_all_cms_users role_query admin_query dev_query mgr) address
          role_name
        ≡ any (λ a. p (with_roles all_roles dev_roles (user_of a))) admins =
      ap (λ users. has_role users address role_name) loaded
      ∙ any-map (with_roles all_roles dev_roles) p (map user_of admins)
      ∙ any-map user_of (λ u. p (with_roles all_roles dev_roles u)) admins in
    let (out, back) = any_iff (λ a. p (with_roles all_roles dev_roles (user_of a))) admins in
    (
      λ h.
          let (a, i, good) = out (sym answer ∙ h) in
          let (at, roles) = (admin_iff all_roles dev_roles address role_name a).0 good in
          (a, i, at, roles),
      λ h.
          let (a, i, at, roles) = h in
          answer ∙ back (a, i, (admin_iff all_roles dev_roles address role_name a).1 (at, roles)),
    )
