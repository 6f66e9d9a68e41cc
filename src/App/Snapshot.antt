-- ===== src/App/Snapshot.antt =====
-- The snapshot of the state that crates/cloudledger-service/src/app.rs stores and loads, and the
-- migration of an older one.
use cloud_ledger.Base.{
  ℕ, ◌≡◌, refl, Bool, false, ◌&&◌, Option, none, some, List, [], map, arith, ◌∙◌, ◌==◌,
  if◌then◌else◌, ltb, ap,
}
use cloud_ledger.Base.Map.{Map, lookup, values, modify_all}
use cloud_ledger.Base.Sorted.{IsSorted, collect, IsKeyed, collect-values}
use cloud_ledger.Types.{
  Uuid, User, Organization, Membership, MembershipRole, Ledger, LedgerKind, FinancialAccount,
  Category, Transaction, TransactionKind, ApprovalState, PaymentState, AuditLog,
  transaction_kind_eq, approval_state_eq, ledger_kind_eq,
}
use cloud_ledger.App.State.{World, AppLedgerService}
use cloud_ledger.App.Setup.{ensure_standard_setup}
use cloud_ledger.App.Identity.{unwrap_or}

abbrev pub app_state_schema_version : ℕ
app_state_schema_version = 3

pub record AppLedgerSnapshot : Type 0 where
  pub schema_version : ℕ
  pub current_user_id : Uuid
  pub users : List User
  pub organizations : List Organization
  pub memberships : List Membership
  pub ledgers : List Ledger
  pub accounts : List FinancialAccount
  pub categories : List Category
  pub transactions : List Transaction
  pub audit_logs : List AuditLog

unfoldable pub snapshot : AppLedgerService → AppLedgerSnapshot
snapshot s = record {
  schema_version = s.schema_version;
  current_user_id = s.current_user_id;
  users = values s.users;
  organizations = values s.organizations;
  memberships = s.memberships;
  ledgers = values s.ledgers;
  accounts = values s.accounts;
  categories = values s.categories;
  transactions = values s.transactions;
  audit_logs = s.audit_logs;
}

-- The service that a snapshot holds, before the migration.
unfoldable pub restored : AppLedgerSnapshot → AppLedgerService
restored d = record {
  schema_version = d.schema_version;
  current_user_id = d.current_user_id;
  users = collect (λ u. u.id) d.users [];
  organizations = collect (λ o. o.id) d.organizations [];
  memberships = d.memberships;
  ledgers = collect (λ l. l.id) d.ledgers [];
  accounts = collect (λ a. a.id) d.accounts [];
  categories = collect (λ c. c.id) d.categories [];
  transactions = collect (λ t. t.id) d.transactions [];
  audit_logs = d.audit_logs;
}

abbrev pub current_role : MembershipRole → MembershipRole
current_role MembershipRole.approver = MembershipRole.business_owner
current_role MembershipRole.accountant = MembershipRole.employee
current_role MembershipRole.member = MembershipRole.employee
current_role MembershipRole.viewer = MembershipRole.employee
current_role MembershipRole.owner = MembershipRole.owner
current_role MembershipRole.admin = MembershipRole.admin
current_role MembershipRole.business_owner = MembershipRole.business_owner
current_role MembershipRole.employee = MembershipRole.employee

abbrev is_public : Option Ledger → Bool
is_public none = false
is_public (some ledger) = ledger.kind == LedgerKind.organization_public

abbrev with_approval : Transaction → Transaction
with_approval t = record t { approved_at = some (unwrap_or t.approved_at t.updated_at) }

abbrev with_receipt : Transaction → Transaction
with_receipt t = record t {
  payment_state = PaymentState.received;
  received_by = some t.created_by;
  received_at = some t.updated_at;
}

-- What version 2 makes of an approved transaction.
abbrev pub settled : Map Ledger → Transaction → Transaction
settled ledgers t =
    if t.kind == TransactionKind.expense && is_public (lookup t.ledger_id ledgers)
    then with_receipt (with_approval t)
    else with_approval t

abbrev pub to_version_2 : AppLedgerService → AppLedgerService
to_version_2 s = record s {
  memberships = map (λ (m : Membership). record m { role = current_role m.role }) s.memberships;
  transactions =
      modify_all (λ t. t.approval_state == ApprovalState.approved) (settled s.ledgers)
        s.transactions;
}

unfoldable pub migrate_to_current_schema : World → AppLedgerService → AppLedgerService
migrate_to_current_schema w s =
    let s2 = if ltb s.schema_version 2 then to_version_2 s else s in
    let s3 = if ltb s.schema_version 3 then ensure_standard_setup w 0 s2 else s2 in
    record s3 { schema_version = app_state_schema_version }

unfoldable pub from_snapshot : World → AppLedgerSnapshot → AppLedgerService
from_snapshot w d = migrate_to_current_schema w (restored d)

-- The maps of the state are BTreeMaps that are keyed by the identifiers of their values.
pub record IsIndexed (s : AppLedgerService) : Type 0 where
  pub users_sorted : IsSorted s.users
  pub users_keyed : IsKeyed (λ u. u.id) s.users
  pub organizations_sorted : IsSorted s.organizations
  pub organizations_keyed : IsKeyed (λ o. o.id) s.organizations
  pub ledgers_sorted : IsSorted s.ledgers
  pub ledgers_keyed : IsKeyed (λ l. l.id) s.ledgers
  pub accounts_sorted : IsSorted s.accounts
  pub accounts_keyed : IsKeyed (λ a. a.id) s.accounts
  pub categories_sorted : IsSorted s.categories
  pub categories_keyed : IsKeyed (λ c. c.id) s.categories
  pub transactions_sorted : IsSorted s.transactions
  pub transactions_keyed : IsKeyed (λ t. t.id) s.transactions

restored-snapshot : (s : AppLedgerService) → IsIndexed s → restored (snapshot s) ≡ s
unfolding restored snapshot
restored-snapshot s h =
    rw
      (
        collect-values (λ (u : User). u.id) s.users h.users_sorted h.users_keyed,
        collect-values (λ (o : Organization). o.id) s.organizations h.organizations_sorted
            h.organizations_keyed,
        collect-values (λ (l : Ledger). l.id) s.ledgers h.ledgers_sorted h.ledgers_keyed,
        collect-values (λ (a : FinancialAccount). a.id) s.accounts h.accounts_sorted
            h.accounts_keyed,
        collect-values (λ (c : Category). c.id) s.categories h.categories_sorted h.categories_keyed,
        collect-values (λ (t : Transaction). t.id) s.transactions h.transactions_sorted
            h.transactions_keyed,
      )
      refl

migrate_current :
    (w : World) (s : AppLedgerService)
    → s.schema_version ≡ app_state_schema_version
    → migrate_to_current_schema w s ≡ s
unfolding migrate_to_current_schema
migrate_current w s e = ground arith

-- A service of the current schema whose maps are sorted and keyed by their values' identifiers is
-- loaded again from its snapshot as it was.
pub from_snapshot-snapshot :
    (w : World) (s : AppLedgerService)
    → IsIndexed s
    → s.schema_version ≡ app_state_schema_version
    → from_snapshot w (snapshot s) ≡ s
unfolding from_snapshot
from_snapshot-snapshot w s h e =
    ap (migrate_to_current_schema w) (restored-snapshot s h) ∙ migrate_current w s e
