-- ===== src/App/Members/Frame.antt =====
-- What the helpers of the membership methods leave alone (crates/cloudledger-service/src/app.rs).
use cloud_ledger.Base.{
  ℕ, ◌≡◌, refl, Option, Text, trim, push, is_empty, any, arith, Bool-cases, inl, inr, Option-cases,
}
use cloud_ledger.Base.Map.{values, insert}
use cloud_ledger.Types.{
  Uuid, Membership, MembershipRole, Organization, new_organization, new_membership,
}
use cloud_ledger.App.State.{World, AppLedgerService}
use cloud_ledger.App.Setup.{
  furnish, ensure_personal_ledger_for_user, is_personal_of, ensure_standard_accounts_for_ledger,
  ensure_default_categories_for_ledger, rename_personal_ledger_for_user,
}
use cloud_ledger.App.Identity.{
  identify, AppEnsureUserIdentityInput, and_then, unwrap_or, normalize_optional_email,
  normalize_optional_phone, find_user_id_by_email_or_phone, ensure_user_identity,
}
use cloud_ledger.App.Members.{
  AppCreateOrganizationInput, establish, member_user, known_user, welcome,
}

-- Organizations and memberships are as they were.
pub record SameMembers (s s' : AppLedgerService) : Type 0 where
  pub same_organizations : s'.organizations ≡ s.organizations
  pub same_memberships : s'.memberships ≡ s.memberships

pub furnish-SameMembers :
    (w : World) (place : ℕ) (ledger : Uuid) (s : AppLedgerService)
    → SameMembers s (furnish w place ledger s)
unfolding furnish ensure_standard_accounts_for_ledger ensure_default_categories_for_ledger
furnish-SameMembers w place ledger s = record { same_organizations = refl; same_memberships = refl }

pub ensure_personal-SameMembers :
    (w : World) (place : ℕ) (user : Uuid) (name : Text) (s : AppLedgerService)
    → SameMembers s (ensure_personal_ledger_for_user w place user name s)
unfolding ensure_personal_ledger_for_user furnish ensure_standard_accounts_for_ledger
    ensure_default_categories_for_ledger
ensure_personal-SameMembers w place user name s =
    elim (Bool-cases (any (is_personal_of user) (values s.ledgers))) [
      | inl has ↦ record { same_organizations = ground arith; same_memberships = ground arith }
      | inr new ↦ record { same_organizations = ground arith; same_memberships = ground arith }
    ]

pub member_user-SameMembers :
    (w : World) (name : Text) (email phone : Option Text) (s : AppLedgerService)
    → SameMembers s (member_user w name email phone s).1
unfolding member_user
member_user-SameMembers w name email phone s = elim (Option-cases (known_user w email phone s)) [
  | inl unknown ↦ record { same_organizations = ground arith; same_memberships = ground arith }
  | inr (user, e) ↦ record { same_organizations = ground arith; same_memberships = ground arith }
]

pub welcome-SameMembers :
    (w : World) (user : Uuid) (name : Text) (email phone : Option Text) (s : AppLedgerService)
    → SameMembers s (welcome w user name email phone s)
unfolding welcome
welcome-SameMembers w user name email phone s =
    let same = ensure_personal-SameMembers w 1 user name _ in
    record {
      same_organizations = same.same_organizations;
      same_memberships = same.same_memberships;
    }

pub identify-SameMembers :
    (w : World) (user : Uuid) (name : Text) (email phone : Option Text) (s : AppLedgerService)
    → SameMembers s (identify w user name email phone s)
unfolding identify rename_personal_ledger_for_user
identify-SameMembers w user name email phone s =
    let same = ensure_personal-SameMembers w 1 user name _ in
    record {
      same_organizations = same.same_organizations;
      same_memberships = same.same_memberships;
    }

pub ensure_user_identity-SameMembers :
    (w : World) (input : AppEnsureUserIdentityInput) (s : AppLedgerService)
    → SameMembers s (ensure_user_identity w input s).1
unfolding ensure_user_identity
ensure_user_identity-SameMembers w input s =
    elim (Bool-cases (is_empty (trim input.display_name))) [
      | inl refused ↦ record { same_organizations = ground arith; same_memberships = ground arith }
      | inr named ↦
          let email = and_then input.email (normalize_optional_email w) in
          let phone = and_then input.phone normalize_optional_phone in
          let user = unwrap_or (find_user_id_by_email_or_phone w email phone s) input.user_id in
          let same = identify-SameMembers w user (trim input.display_name) email phone s in
          let p = same.same_organizations in
          let q = same.same_memberships in
          record { same_organizations = ground arith; same_memberships = ground arith }
    ]

-- The organization that an administrator establishes, and the membership.
abbrev pub new_org : World → AppCreateOrganizationInput → Organization
new_org w input =
    new_organization (w.new_v4 1) (w.now_utc 1) (trim input.organization_name) input.admin_user_id

abbrev pub first_membership : World → AppCreateOrganizationInput → Membership
first_membership w input =
    new_membership (w.new_v4 3) (w.now_utc 3) (w.new_v4 1) input.admin_user_id MembershipRole.owner

pub establish-members :
    (w : World) (input : AppCreateOrganizationInput) (contact : Option Text × Option Text)
    (s : AppLedgerService)
    → ((establish w input contact s).1.organizations
        ≡ insert (w.new_v4 1) (new_org w input) s.organizations)
      × ((establish w input contact s).1.memberships
          ≡ push (first_membership w input) s.memberships)
unfolding establish furnish ensure_standard_accounts_for_ledger ensure_default_categories_for_ledger
establish-members w input (email, phone) s = (refl, refl)
