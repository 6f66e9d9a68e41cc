-- ===== src/Permissions.antt =====
-- crates/cloudledger-core/src/permissions.rs: who may do what on a ledger of the application.
use cloud_ledger.Base.{
  Bool, true, false, Option, none, some, ◌==◌, option_eq, nat_eq, if◌then◌else◌,
}
use cloud_ledger.Types.{Uuid, Ledger, LedgerKind, MembershipRole}
pub mod Matrix

pub data Action : Type 0 where
  view_ledger create_transaction submit_transaction approve_transaction : Action
  mark_transaction_paid confirm_receipt edit_approved_transaction void_transaction : Action
  export_ledger manage_accounts manage_members view_audit_log view_financial_analytics : Action

pub record AuthorizationContext : Type 0 where
  pub actor_user_id : Uuid
  pub ledger : Ledger
  pub membership_role : Option MembershipRole

-- The actions that `matches!` lists for the owner of a personal ledger, and for each role.
abbrev pub personal_action : Action → Bool
personal_action Action.view_ledger = true
personal_action Action.create_transaction = true
personal_action Action.submit_transaction = true
personal_action Action.void_transaction = true
personal_action Action.export_ledger = true
personal_action Action.manage_accounts = true
personal_action Action.view_audit_log = true
personal_action _ = false

abbrev pub business_owner_action : Action → Bool
business_owner_action Action.edit_approved_transaction = false
business_owner_action Action.manage_members = false
business_owner_action _ = true

abbrev pub approver_action : Action → Bool
approver_action Action.view_ledger = true
approver_action Action.create_transaction = true
approver_action Action.submit_transaction = true
approver_action Action.approve_transaction = true
approver_action Action.mark_transaction_paid = true
approver_action Action.confirm_receipt = true
approver_action Action.export_ledger = true
approver_action Action.manage_accounts = true
approver_action Action.view_audit_log = true
approver_action Action.view_financial_analytics = true
approver_action _ = false

abbrev pub employee_action : Action → Bool
employee_action Action.view_ledger = true
employee_action Action.create_transaction = true
employee_action Action.submit_transaction = true
employee_action Action.confirm_receipt = true
employee_action Action.view_audit_log = true
employee_action _ = false

abbrev pub viewer_action : Action → Bool
viewer_action Action.view_ledger = true
viewer_action Action.view_audit_log = true
viewer_action _ = false

abbrev pub role_action : MembershipRole → Action → Bool
role_action MembershipRole.owner action = false
role_action MembershipRole.admin action = false
role_action MembershipRole.business_owner action = business_owner_action action
role_action MembershipRole.approver action = approver_action action
role_action MembershipRole.employee action = employee_action action
role_action MembershipRole.accountant action = employee_action action
role_action MembershipRole.member action = employee_action action
role_action MembershipRole.viewer action = viewer_action action

unfoldable pub can_perform_personal : AuthorizationContext → Action → Bool
can_perform_personal ctx action =
    if ctx.ledger.owner_user_id == some ctx.actor_user_id then personal_action action else false

abbrev pub allowed_role : Option MembershipRole → Action → Bool
allowed_role none action = false
allowed_role (some role) action = role_action role action

unfoldable pub can_perform_organization : AuthorizationContext → Action → Bool
can_perform_organization ctx action = allowed_role ctx.membership_role action

abbrev by_kind : LedgerKind → AuthorizationContext → Action → Bool
by_kind LedgerKind.personal ctx action = can_perform_personal ctx action
by_kind LedgerKind.organization_public ctx action = can_perform_organization ctx action

unfoldable pub can_perform : AuthorizationContext → Action → Bool
unfolding can_perform_personal can_perform_organization
can_perform ctx action = by_kind ctx.ledger.kind ctx action
