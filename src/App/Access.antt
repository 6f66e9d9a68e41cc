-- ===== src/App/Access.antt =====
-- The private predicates of crates/cloudledger-service/src/app.rs that decide what an actor may do
-- and see.
use cloud_ledger.Base.{
  ℕ, Bool, true, false, ◌&&◌, ◌||◌, Option, none, some, ◌==◌, nat_eq, option_eq, find, count,
  if◌then◌else◌, text, text_eq,
}
use cloud_ledger.Base.Map.{lookup}
use cloud_ledger.Types.{
  Uuid, Membership, MembershipRole, Ledger, LedgerKind, Transaction, AuditLog, ledger_kind_eq,
}
use cloud_ledger.Permissions.{Action, can_perform}
use cloud_ledger.App.State.{AppLedgerService}

abbrev pub role_of : Option Membership → Option MembershipRole
role_of none = none
role_of (some m) = some m.role

abbrev pub belongs : Uuid → Uuid → Membership → Bool
belongs organization user m = m.organization_id == organization && m.user_id == user

unfoldable pub membership_role : AppLedgerService → Uuid → Uuid → Option MembershipRole
membership_role s actor organization = role_of (find (belongs organization actor) s.memberships)

-- `matches!(role, BusinessOwner | Approver)`
abbrev pub is_business_owner : MembershipRole → Bool
is_business_owner MembershipRole.business_owner = true
is_business_owner MembershipRole.approver = true
is_business_owner _ = false

abbrev pub role_is_business_owner : Option MembershipRole → Bool
role_is_business_owner none = false
role_is_business_owner (some role) = is_business_owner role

unfoldable pub business_owner_count : AppLedgerService → Uuid → ℕ
business_owner_count s organization =
    count (λ m. m.organization_id == organization && is_business_owner m.role) s.memberships

abbrev pub context_role : AppLedgerService → Uuid → Option Uuid → Option MembershipRole
context_role s actor none = none
context_role s actor (some organization) = membership_role s actor organization

unfoldable pub authorized : AppLedgerService → Uuid → Ledger → Action → Bool
authorized s actor ledger action =
    can_perform
      (record {
        actor_user_id = actor;
        ledger = ledger;
        membership_role = context_role s actor ledger.organization_id;
      })
      action

abbrev pub views_by_kind : LedgerKind → AppLedgerService → Uuid → Ledger → Bool
views_by_kind LedgerKind.personal s actor ledger = ledger.owner_user_id == some actor
views_by_kind LedgerKind.organization_public s actor ledger =
    role_is_business_owner (context_role s actor ledger.organization_id)

unfoldable pub can_view_balances : AppLedgerService → Uuid → Ledger → Bool
can_view_balances s actor ledger = views_by_kind ledger.kind s actor ledger

abbrev pub visible_by_kind : LedgerKind → AppLedgerService → Uuid → Ledger → Transaction → Bool
visible_by_kind LedgerKind.personal s actor ledger t = ledger.owner_user_id == some actor
visible_by_kind LedgerKind.organization_public s actor ledger t =
    if can_view_balances s actor ledger then true else t.created_by == actor

abbrev pub visible_in : Option Ledger → AppLedgerService → Uuid → Transaction → Bool
visible_in none s actor t = false
visible_in (some ledger) s actor t =
    if authorized s actor ledger Action.view_ledger
    then visible_by_kind ledger.kind s actor ledger t
    else false

unfoldable pub transaction_visible_to_actor : AppLedgerService → Uuid → Transaction → Bool
transaction_visible_to_actor s actor t = visible_in (lookup t.ledger_id s.ledgers) s actor t

abbrev resource_visible : Option Transaction → AppLedgerService → Uuid → Bool
resource_visible none s actor = false
resource_visible (some t) s actor = transaction_visible_to_actor s actor t

abbrev audit_visible_in : Option Ledger → AppLedgerService → Uuid → AuditLog → Bool
audit_visible_in none s actor audit = false
audit_visible_in (some ledger) s actor audit =
    if can_view_balances s actor ledger || ledger.kind == LedgerKind.personal
    then true
    else audit.resource_type == text "transaction"
      && resource_visible (lookup audit.resource_id s.transactions) s actor

unfoldable pub audit_visible_to_actor : AppLedgerService → Uuid → AuditLog → Bool
audit_visible_to_actor s actor audit =
    audit_visible_in (lookup audit.ledger_id s.ledgers) s actor audit
