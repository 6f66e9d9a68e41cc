-- ===== src/App/Members.antt =====
-- Organizations and their members in crates/cloudledger-service/src/app.rs. A method returns the
-- membership that the source hands to `membership_dto`.
use cloud_ledger.Base.{
  ℕ, suc, ◌+◌, Bool, true, false, not, ◌&&◌, ◌||◌, Option, none, some, List, [], ◌∷◌, ◌++◌, ◌==◌,
  ◌!=◌, nat_eq, if◌then◌else◌, any, all, find, filter, count, push, map, length, leb, Text, text,
  trim, is_empty,
}
use cloud_ledger.Base.Map.{Map, lookup, insert, values, contains_key}
use cloud_ledger.Base.Exec.{Result, ok, err, Exec, commit}
use cloud_ledger.Base.Check.{◌>>=◌, ◌>>◌, ok_or, require, raise_if}
use cloud_ledger.Types.{
  Uuid, User, Organization, Membership, MembershipRole, Ledger, membership_role_eq, new_user,
  new_organization, new_membership, organization_public_ledger,
}
use cloud_ledger.App.State.{World, AppLedgerService, AppServiceError, Method}
use cloud_ledger.App.Setup.{furnish, ensure_personal_ledger_for_user, is_none}
use cloud_ledger.App.Identity.{
  and_then, unwrap_or, or_else, normalize_optional_email, normalize_optional_phone,
  find_user_id_by_email_or_phone, update_user, with_users,
}
pub mod Command
pub mod Frame
pub mod Ends
pub mod Owners
pub mod Unique
pub mod Ledgers

abbrev pub is_owner_of : Uuid → Membership → Bool
is_owner_of organization m = m.organization_id == organization && (m.role == MembershipRole.owner)

unfoldable pub owner_count : AppLedgerService → Uuid → ℕ
owner_count s organization = count (is_owner_of organization) s.memberships

pub record AppCreateOrganizationInput : Type 0 where
  pub organization_name : Text
  pub admin_user_id : Uuid
  pub admin_display_name : Text
  pub admin_email : Option Text
  pub admin_phone : Option Text

-- The early returns, and the administrator's addresses.
unfoldable pub organization_checks :
    World → AppCreateOrganizationInput → Result AppServiceError (Option Text × Option Text)
organization_checks w input = do
  raise_if (is_empty (trim input.organization_name)) AppServiceError.invalid_organization_name
  raise_if (is_empty (trim input.admin_display_name)) AppServiceError.invalid_user_display_name
  raise_if
      (is_none (and_then input.admin_email (normalize_optional_email w))
        && is_none (and_then input.admin_phone normalize_optional_phone))
      AppServiceError.setup_incomplete
  ok (
    and_then input.admin_email (normalize_optional_email w),
    and_then input.admin_phone normalize_optional_phone,
  )

-- The UUIDs and times are drawn for the user (time only), the organization, its ledger, the membership, and
-- then the accounts and categories of the ledger. The nil UUID is 0.
unfoldable pub establish :
    World
    → AppCreateOrganizationInput
    → Option Text × Option Text
    → AppLedgerService
    → Membership × AppLedgerService
unfolding new_organization organization_public_ledger new_membership
establish w input (email, phone) s =
    let admin : User = record {
      id = input.admin_user_id;
      display_name = trim input.admin_display_name;
      email = email;
      phone = phone;
      created_at = w.now_utc 0;
    } in
    let organization =
      new_organization (w.new_v4 1) (w.now_utc 1) (trim input.organization_name) admin.id in
    let ledger =
      organization_public_ledger (w.new_v4 2) (w.now_utc 2) organization.id
        (organization.name ++ text " 公账") in
    let membership =
      new_membership (w.new_v4 3) (w.now_utc 3) organization.id admin.id MembershipRole.owner in
    (
      membership,
      furnish w 4 ledger.id (record s {
        current_user_id = if s.current_user_id == 0 then admin.id else s.current_user_id;
        users = insert admin.id admin s.users;
        organizations = insert organization.id organization s.organizations;
        memberships = push membership s.memberships;
        ledgers = insert ledger.id ledger s.ledgers;
      }),
    )

unfoldable pub create_organization : World → AppCreateOrganizationInput → Method Membership
create_organization w input s = commit (organization_checks w input) (establish w input) s

pub record AppAddOrganizationMemberInput : Type 0 where
  pub organization_id : Uuid
  pub display_name : Text
  pub email : Option Text
  pub phone : Option Text
  pub role : MembershipRole

-- `iter().position(p)`, and a change or the removal of what is there.
abbrev pub set_first : {A : Type 0} → (A → Bool) → (A → A) → List A → List A
set_first p f [] = []
set_first p f (x ∷ xs) = let rest = set_first p f xs in if p x then f x ∷ xs else x ∷ rest

abbrev pub remove_first : {A : Type 0} → (A → Bool) → List A → List A
remove_first p [] = []
remove_first p (x ∷ xs) = let rest = remove_first p xs in if p x then xs else x ∷ rest

abbrev pub with_role : MembershipRole → Membership → Membership
with_role role m = record m { role = role }

-- A change away from owner is refused for the last owner of the organization.
abbrev pub role_change :
    AppLedgerService → Uuid → MembershipRole → Membership → Result AppServiceError (Unit {0})
role_change s organization role m =
    raise_if
      ((m.role == MembershipRole.owner)
        && (role != MembershipRole.owner)
        && leb (owner_count s organization) 1)
      AppServiceError.last_owner_denied

-- The early returns before anything is changed.
abbrev pub add_checks :
    AppAddOrganizationMemberInput → AppLedgerService → Result AppServiceError (Unit {0})
add_checks input s =
    require (contains_key input.organization_id s.organizations)
      AppServiceError.organization_not_found
    >> raise_if (is_empty (trim input.display_name)) AppServiceError.invalid_user_display_name

-- The user with one of the addresses.
abbrev pub known_user : World → Option Text → Option Text → AppLedgerService → Option Uuid
known_user w email phone s =
    or_else (and_then email (λ value. find_user_id_by_email_or_phone w (some value) none s))
      (and_then phone (λ value. find_user_id_by_email_or_phone w none (some value) s))

-- The user who is to be the member, who is entered if unknown.
unfoldable pub member_user :
    World → Text → Option Text → Option Text → AppLedgerService → Uuid × AppLedgerService
unfolding new_user
member_user w display_name email phone s = elim (known_user w email phone s) [
  | some user_id ↦ (user_id, s)
  | none ↦
      let user = new_user (w.new_v4 0) (w.now_utc 0) display_name email phone in
      (user.id, with_users (insert user.id user s.users) s)
]

abbrev pub is_elsewhere : Uuid → Uuid → Membership → Bool
is_elsewhere organization user m = m.user_id == user && m.organization_id != organization

abbrev pub is_member : Uuid → Uuid → Membership → Bool
is_member organization user m = m.organization_id == organization && m.user_id == user

abbrev pub with_memberships : List Membership → AppLedgerService → AppLedgerService
with_memberships memberships s = record s { memberships = memberships }

-- The end of `add_organization_member`: the membership is found and changed, or added.
unfoldable pub enrol : World → Uuid → MembershipRole → Uuid → Method Membership
unfolding new_membership
enrol w organization role user s = elim (find (is_member organization user) s.memberships) [
  | some m ↦
      commit (role_change s organization role m)
        (λ u s'. (
          with_role role m,
          with_memberships (set_first (is_member organization user) (with_role role) s'.memberships)
              s',
        ))
        s
  | none ↦
      let m = new_membership (w.new_v4 20) (w.now_utc 20) organization user role in
      (ok m, with_memberships (push m s.memberships) s)
]

-- The user's names and addresses, and the personal ledger, whose places are those from 1.
unfoldable pub welcome :
    World → Uuid → Text → Option Text → Option Text → AppLedgerService → AppLedgerService
welcome w user display_name email phone s =
    ensure_personal_ledger_for_user w 1 user display_name
      (with_users (update_user user display_name email phone s.users) s)

-- What follows the first early returns: the changes come before the later ones.
unfoldable pub admit : World → AppAddOrganizationMemberInput → Method Membership
admit w input s =
    let display_name = trim input.display_name in
    let email = and_then input.email (normalize_optional_email w) in
    let phone = and_then input.phone normalize_optional_phone in
    let (user, s1) = member_user w display_name email phone s in
    if any (is_elsewhere input.organization_id user) s1.memberships
    then (err AppServiceError.employee_belongs_to_another_organization, s1)
    else enrol w input.organization_id input.role user (welcome w user display_name email phone s1)

unfoldable pub add_organization_member : World → AppAddOrganizationMemberInput → Method Membership
add_organization_member w input s = elim (add_checks input s) [
  | ok u ↦ admit w input s
  | err e ↦ (err e, s)
]

pub record AppUpdateOrganizationMemberRoleInput : Type 0 where
  pub organization_id : Uuid
  pub membership_id : Uuid
  pub role : MembershipRole

abbrev pub is_membership : Uuid → Uuid → Membership → Bool
is_membership organization membership m = m.id == membership && m.organization_id == organization

abbrev pub found_membership : Uuid → Uuid → AppLedgerService → Result AppServiceError Membership
found_membership organization membership s =
    require (contains_key organization s.organizations) AppServiceError.organization_not_found
    >> ok_or (find (is_membership organization membership) s.memberships)
        AppServiceError.membership_not_found

unfoldable pub update_role_checks :
    AppUpdateOrganizationMemberRoleInput → AppLedgerService → Result AppServiceError Membership
update_role_checks input s = do
  m ← found_membership input.organization_id input.membership_id s
  role_change s input.organization_id input.role m
  ok m

unfoldable pub update_organization_member_role :
    AppUpdateOrganizationMemberRoleInput → Method Membership
update_organization_member_role input s =
    commit (update_role_checks input s)
      (λ m s'. (
        with_role input.role m,
        with_memberships
            (set_first (is_membership input.organization_id input.membership_id)
              (with_role input.role) s'.memberships)
            s',
      ))
      s

unfoldable pub remove_checks : Uuid → Uuid → AppLedgerService → Result AppServiceError (Unit {0})
remove_checks organization membership s = do
  m ← found_membership organization membership s
  raise_if ((m.role == MembershipRole.owner) && leb (owner_count s organization) 1)
      AppServiceError.last_owner_denied
  ok tt

unfoldable pub remove_organization_member : Uuid → Uuid → Method (Unit {0})
remove_organization_member organization membership s =
    commit (remove_checks organization membership s)
      (λ u s'. (
        tt,
        with_memberships (remove_first (is_membership organization membership) s'.memberships) s',
      ))
      s
