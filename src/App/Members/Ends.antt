-- ===== src/App/Members/Ends.antt =====
-- How the membership methods of crates/cloudledger-service/src/app.rs end: what they leave, and which
-- tests have passed.
use cloud_ledger.Base.{
  ◌≡◌, ◌⊎◌, inl, inr, true, false, ◌&&◌, none, some, arith, ◌==◌, nat_eq, eq_iff, any, find, push,
  leb, Bool-cases, Option-cases, trim,
}
use cloud_ledger.Base.Map.{contains_key}
use cloud_ledger.Base.Exec.{ok, err, Result-cases}
use cloud_ledger.Types.{Uuid, Membership, MembershipRole, membership_role_eq, new_membership}
use cloud_ledger.App.State.{World, AppLedgerService, AppServiceError}
use cloud_ledger.App.Identity.{and_then, normalize_optional_email, normalize_optional_phone}
use cloud_ledger.App.Members.{
  AppAddOrganizationMemberInput, AppUpdateOrganizationMemberRoleInput, owner_count, set_first,
  remove_first, with_role, with_memberships, role_change, is_member, is_elsewhere, is_membership,
  enrol, member_user, welcome, admit, add_checks, add_organization_member, found_membership,
  remove_checks, remove_organization_member, update_role_checks, update_organization_member_role,
}

pub member_organization :
    (organization user : Uuid) (m : Membership)
    → is_member organization user m ≡ true
    → m.organization_id ≡ organization
member_organization organization user m t = ground (arith, eq_iff m.organization_id organization)

-- The three ways in which an enrolment ends: it adds a membership, changes the role of the one
-- that is there, or is refused and leaves the state.
pub enrol-ends :
    (w : World) (organization : Uuid) (role : MembershipRole) (user : Uuid) (s : AppLedgerService)
    → ((find (is_member organization user) s.memberships ≡ none)
        × (enrol w organization role user s ≡ (
          ok (new_membership (w.new_v4 20) (w.now_utc 20) organization user role),
          with_memberships
              (push
                (new_membership (w.new_v4 20) (w.now_utc 20) organization user role)
                s.memberships)
              s,
        )))
      ⊎ ((m : Membership) × (find (is_member organization user) s.memberships ≡ some m)
          × (role_change s organization role m ≡ ok tt)
          × (enrol w organization role user s ≡ (
            ok (with_role role m),
            with_memberships
                (set_first (is_member organization user) (with_role role) s.memberships)
                s,
          )))
      ⊎ ((e : AppServiceError) × (enrol w organization role user s ≡ (err e, s)))
unfolding enrol
enrol-ends w organization role user s =
    elim (Option-cases (find (is_member organization user) s.memberships)) [
      | inl none_yet ↦ inl (none_yet, ground arith)
      | inr (m, e) ↦ elim (Result-cases (role_change s organization role m)) [
        | inl (u, fine) ↦ inr (inl (m, e, fine, ground arith))
        | inr (x, denied) ↦ inr (inr (x, ground arith))
      ]
    ]

pub membership_organization :
    (organization membership : Uuid) (m : Membership)
    → is_membership organization membership m ≡ true
    → m.organization_id ≡ organization
membership_organization organization membership m t =
    ground (arith, eq_iff m.organization_id organization)

-- A membership that is found stands among the memberships of its organization, which exists.
found_membership_lem :
    (organization membership : Uuid) (s : AppLedgerService) (m : Membership)
    → found_membership organization membership s ≡ ok m
    → find (is_membership organization membership) s.memberships ≡ some m
found_membership_lem organization membership s m h =
    elim (Bool-cases (contains_key organization s.organizations)) [
      | inl stored ↦
          elim (Option-cases (find (is_membership organization membership) s.memberships)) [
            | inl missing ↦ absurd (ground arith)
            | inr (m', e) ↦ ground arith
          ]
      | inr missing ↦ absurd (ground arith)
    ]

-- A change of a membership by its id: the role is changed, or the state is left.
pub update_role-ends :
    (input : AppUpdateOrganizationMemberRoleInput) (s : AppLedgerService)
    → ((m : Membership) × (find
            (is_membership input.organization_id input.membership_id)
            s.memberships
          ≡ some m)
        × (role_change s input.organization_id input.role m ≡ ok tt)
        × (update_organization_member_role input s ≡ (
          ok (with_role input.role m),
          with_memberships
              (set_first
                (is_membership input.organization_id input.membership_id)
                (with_role input.role)
                s.memberships)
              s,
        )))
      ⊎ ((e : AppServiceError) × (update_organization_member_role input s ≡ (err e, s)))
unfolding update_organization_member_role update_role_checks
update_role-ends input s =
    elim (Result-cases (found_membership input.organization_id input.membership_id s)) [
      | inl (m, e) ↦ elim (Result-cases (role_change s input.organization_id input.role m)) [
        | inl (u, fine) ↦ inl (
          m,
          found_membership_lem input.organization_id input.membership_id s m e,
          fine,
          ground arith,
        )
        | inr (x, denied) ↦ inr (x, ground arith)
      ]
      | inr (x, missing) ↦ inr (x, ground arith)
    ]

-- A removal: the membership goes, and is not that of a last owner; or the state is left.
pub remove-ends :
    (organization membership : Uuid) (s : AppLedgerService)
    → ((m : Membership) × (find (is_membership organization membership) s.memberships ≡ some m)
        × (((m.role == MembershipRole.owner) && leb (owner_count s organization) 1) ≡ false)
        × (remove_organization_member organization membership s ≡ (
          ok tt,
          with_memberships (remove_first (is_membership organization membership) s.memberships) s,
        )))
      ⊎ ((e : AppServiceError) × (remove_organization_member organization membership s
            ≡ (err e, s)))
unfolding remove_organization_member remove_checks
remove-ends organization membership s =
    elim (Result-cases (found_membership organization membership s)) [
      | inl (m, e) ↦
          elim (Bool-cases
            ((m.role == MembershipRole.owner) && leb (owner_count s organization) 1)) [
              | inl last ↦ inr (AppServiceError.last_owner_denied, ground arith)
              | inr fine ↦
                  inl (m, found_membership_lem organization membership s m e, fine, ground arith)
            ]
      | inr (x, missing) ↦ inr (x, ground arith)
    ]

-- An addition: refused with nothing changed; refused because the user, who may have been entered, is
-- a member of another organization; or an enrolment after the user is named.
pub add_member-ends :
    (w : World) (input : AppAddOrganizationMemberInput) (s : AppLedgerService)
    → let name = trim input.display_name in
      let email = and_then input.email (normalize_optional_email w) in
      let phone = and_then input.phone normalize_optional_phone in
      let entered = member_user w name email phone s in
      ((e : AppServiceError) × (add_organization_member w input s ≡ (err e, s)))
      ⊎ (add_organization_member w input s
          ≡ (err AppServiceError.employee_belongs_to_another_organization, entered.1))
      ⊎ ((any (is_elsewhere input.organization_id entered.0) entered.1.memberships ≡ false)
          × (add_organization_member w input s
              ≡ enrol w input.organization_id input.role entered.0
                  (welcome w entered.0 name email phone entered.1)))
unfolding add_organization_member admit
add_member-ends w input s =
    let name = trim input.display_name in
    let email = and_then input.email (normalize_optional_email w) in
    let phone = and_then input.phone normalize_optional_phone in
    let entered = member_user w name email phone s in
    elim (Result-cases (add_checks input s)) [
      | inl (u, fine) ↦
          elim (Bool-cases
            (any (is_elsewhere input.organization_id entered.0) entered.1.memberships)) [
              | inl other ↦ inr (inl (ground arith))
              | inr here ↦ inr (inr (here, ground arith))
            ]
      | inr (x, refused) ↦ inl (x, ground arith)
    ]
