-- ===== src/App/Directory.antt =====
-- What crates/cloudledger-service/src/app.rs lists of users, organizations and members, and whether
-- it is set up. The lists hold the stored records that the source renders.
use cloud_ledger.Base.{
  ℕ, ◌+◌, ◌≤◌, ◌≡◌, ◌↔◌, inl, inr, Bool, true, false, Option, none, some, List, [], ◌∷◌, map, arith,
  ◌==◌, nat_eq, text_eq, if◌then◌else◌, any, filter, length, leb, Text, text, Bool-cases,
}
use cloud_ledger.Base.Map.{lookup, values, keys, contains_key, any-keys_iff}
use cloud_ledger.Base.Exec.{Result, ok}
use cloud_ledger.Base.Check.{◌>>◌, require}
use cloud_ledger.Base.Sorting.{text_leb, sort_by}
use cloud_ledger.Types.{Uuid, User, Organization, Membership, MembershipRole}
use cloud_ledger.App.State.{AppLedgerService, AppServiceError}
use cloud_ledger.App.Setup.{is_none}
use cloud_ledger.App.Members.{owner_count}
use cloud_ledger.App.Members.Owners.{AllOwned}

unfoldable pub users : AppLedgerService → List User
users s = sort_by (λ a b. text_leb a.display_name b.display_name) (values s.users)

-- By name, and by UUID among organizations of one name: the text of a UUID orders as the UUID does.
abbrev organization_leb : Organization → Organization → Bool
organization_leb a b = if a.name == b.name then leb a.id b.id else text_leb a.name b.name

unfoldable pub organizations : AppLedgerService → List Organization
organizations s = sort_by organization_leb (values s.organizations)

abbrev sum : List ℕ → ℕ
sum [] = 0
sum (n ∷ ns) = n + sum ns

pub record AppSetupStatus : Type 0 where
  pub initialized : Bool
  pub reason : Option Text
  pub organization_count : ℕ
  pub owner_count : ℕ

unfoldable pub setup_reason : AppLedgerService → Option Text
setup_reason s =
    if length s.organizations == 0
    then some (text "missing_organization")
    else if any (λ k. owner_count s k == 0) (keys s.organizations)
    then some (text "missing_owner")
    else none

unfoldable pub setup_status : AppLedgerService → AppSetupStatus
setup_status s = record {
  initialized = is_none (setup_reason s);
  reason = setup_reason s;
  organization_count = length s.organizations;
  owner_count = sum (map (λ k. owner_count s k) (keys s.organizations));
}

abbrev pub is_admin_role : MembershipRole → Bool
is_admin_role MembershipRole.owner = true
is_admin_role MembershipRole.admin = true
is_admin_role _ = false

unfoldable pub organization_admin_accounts : AppLedgerService → List (Uuid × Uuid)
organization_admin_accounts s =
    map (λ m. (m.user_id, m.organization_id)) (filter (λ m. is_admin_role m.role) s.memberships)

-- The name that a membership is shown under: that of its user, or the UUID if there is none.
abbrev shown_name : (Uuid → Text) → Option User → Uuid → Text
shown_name uuid_text none user = uuid_text user
shown_name uuid_text (some u) user = u.display_name

abbrev membership_leb : (Uuid → Text) → AppLedgerService → Membership → Membership → Bool
membership_leb uuid_text s a b =
    let name = λ (m : Membership). shown_name uuid_text (lookup m.user_id s.users) m.user_id in
    if name a == name b then leb a.user_id b.user_id else text_leb (name a) (name b)

-- `uuid_text` is the text of a UUID.
unfoldable pub organization_members :
    (Uuid → Text) → AppLedgerService → Uuid → Result AppServiceError (List Membership)
organization_members uuid_text s organization =
    require (contains_key organization s.organizations) AppServiceError.organization_not_found
    >> ok (
        sort_by (membership_leb uuid_text s)
          (filter (λ m. m.organization_id == organization) s.memberships))

no_owner_iff :
    (s : AppLedgerService)
    → (any (λ k. owner_count s k == 0) (keys s.organizations) ≡ false) ↔ AllOwned s
no_owner_iff s = (
  λ h k o stored. elim (Bool-cases (owner_count s k == 0)) [
    | inl zero ↦
        let found =
          (any-keys_iff (λ k. owner_count s k == 0) s.organizations).1 (k, o, stored, zero) in
        absurd (ground arith)
    | inr some_owner ↦ ground arith
  ],
  λ owned. elim (Bool-cases (any (λ k. owner_count s k == 0) (keys s.organizations))) [
    | inl found ↦
        let (k, o, stored, zero) =
          (any-keys_iff (λ k. owner_count s k == 0) s.organizations).0 found in
        let has = owned k o stored in absurd (ground arith)
    | inr fine ↦ fine
  ],
)

-- The service reports that it is set up exactly if it has an organization and every organization has
-- an owner.
pub setup_status_iff :
    (s : AppLedgerService)
    → ((setup_status s).initialized ≡ true) ↔ ((1 ≤ length s.organizations) × AllOwned s)
unfolding setup_status setup_reason
setup_status_iff s = ground (arith, no_owner_iff s)
