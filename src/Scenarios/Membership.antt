-- ===== src/Scenarios/Membership.antt =====
-- A company that is founded and hires, from an empty service on, and what is listed and stored of it.
use cloud_ledger.Base.{
  ℕ, ◌+◌, ◌≤◌, ◌≡◌, ◌↔◌, refl, true, none, some, [], ◌∷◌, List, length, arith, text,
}
use cloud_ledger.Base.{trim, trim_start}
use cloud_ledger.Base.Map.{insert}
use cloud_ledger.Types.{
  MembershipRole, new_account, new_membership, new_organization, new_user,
  organization_public_ledger, personal_ledger,
}
use cloud_ledger.App.State.{World, AppLedgerService, uninitialized}
use cloud_ledger.App.Create.{new_money}
use cloud_ledger.App.Setup.{
  furnish, ensure_default_categories_for_ledger, ensure_standard_accounts_for_ledger, add_account,
  ensure_personal_ledger_for_user,
}
use cloud_ledger.App.Identity.{
  normalize_optional_email, normalize_email, find_user_id_by_email_or_phone,
  normalize_optional_phone, normalize_phone,
}
use cloud_ledger.App.Members.{
  AppCreateOrganizationInput, AppAddOrganizationMemberInput, remove_organization_member,
  remove_checks, add_organization_member, create_organization, organization_checks, establish,
  admit, enrol, member_user, owner_count, welcome,
}
use cloud_ledger.App.Members.Command.{
  MemberCommand, create_org, add_member, remove_member, after_call, after_calls,
}
use cloud_ledger.App.Members.Owners.{AllOwned, after_calls-AllOwned}
use cloud_ledger.App.Members.Unique.{IsUnique, after_calls-IsUnique}
use cloud_ledger.App.Members.Ledgers.{OnePersonal, after_calls-OnePersonal}
use cloud_ledger.App.Directory.{setup_status, setup_status_iff}
use cloud_ledger.App.Snapshot.{snapshot, from_snapshot, IsIndexed, from_snapshot-snapshot}
use cloud_ledger.Scenarios.Company.{world, company}

-- The surroundings of the n-th call.
abbrev world_at : ℕ → World
world_at n = record world { new_v4 = λ place. n + place; now_utc = λ place. 5000 + place }

abbrev found : AppCreateOrganizationInput
found = record {
  organization_name = text "ACME";
  admin_user_id = 9;
  admin_display_name = text "Admin";
  admin_email = some (text "admin@acme.test");
  admin_phone = none;
}

abbrev hire : AppAddOrganizationMemberInput
hire = record {
  organization_id = 101;
  display_name = text "Employee";
  email = none;
  phone = some (text "555");
  role = MembershipRole.employee;
}

-- The founding, a new employee, who is hired again, and the try to remove the only owner.
abbrev founding : List (World × MemberCommand)
founding =
    (world_at 100, create_org found)
    ∷ (world_at 200, add_member hire)
    ∷ (world_at 300, add_member hire)
    ∷ (world_at 400, remove_member 101 103)
    ∷ []

abbrev founded : AppLedgerService
founded = after_calls founding uninitialized

-- Two members, a public and a personal ledger, each furnished; the only owner is still there.
founded_sizes :
    length founded.memberships
      ∷ length founded.ledgers
      ∷ length founded.accounts
      ∷ length founded.categories
      ∷ []
    ≡ 2 ∷ 2 ∷ 8 ∷ 18 ∷ []
unfolding after_calls after_call remove_organization_member remove_checks add_organization_member
    create_organization organization_checks trim normalize_optional_email normalize_email establish
    furnish ensure_default_categories_for_ledger ensure_standard_accounts_for_ledger insert
    uninitialized admit new_money find_user_id_by_email_or_phone normalize_optional_phone
    normalize_phone enrol member_user owner_count welcome add_account
    ensure_personal_ledger_for_user trim_start new_account new_membership new_organization new_user
    organization_public_ledger personal_ledger
founded_sizes = refl

after_calls-AllOwned_example : AllOwned founded
unfolding uninitialized
after_calls-AllOwned_example =
    after_calls-AllOwned founding uninitialized (λ k o e. absurd (ground arith))

after_calls-IsUnique_example : IsUnique founded.memberships
unfolding uninitialized
after_calls-IsUnique_example =
    after_calls-IsUnique founding uninitialized (refl, (tt, (tt, (tt, tt)))) (λ k u. omega arith)

after_calls-OnePersonal_example : OnePersonal founded.ledgers
unfolding uninitialized
after_calls-OnePersonal_example = after_calls-OnePersonal founding uninitialized (λ u. omega arith)

setup_status_iff_example :
    ((setup_status founded).initialized ≡ true)
    ↔ ((1 ≤ length founded.organizations) × AllOwned founded)
setup_status_iff_example = setup_status_iff founded

company-IsIndexed : IsIndexed company
company-IsIndexed = record {
  users_sorted = tt;
  users_keyed = ground arith;
  organizations_sorted = ground arith;
  organizations_keyed = ground arith;
  ledgers_sorted = ground arith;
  ledgers_keyed = ground arith;
  accounts_sorted = ground arith;
  accounts_keyed = ground arith;
  categories_sorted = ground arith;
  categories_keyed = ground arith;
  transactions_sorted = ground arith;
  transactions_keyed = ground arith;
}

from_snapshot-snapshot_example : from_snapshot world (snapshot company) ≡ company
from_snapshot-snapshot_example = from_snapshot-snapshot world company company-IsIndexed refl
