-- ===== src/Permissions/Matrix.antt =====
-- What the permission matrix of crates/cloudledger-core/src/permissions.rs guarantees.
use cloud_ledger.Base.{
  ℕ, ◌≤◌, ◌≡◌, ◌≢◌, ◌↔◌, true, false, Option, none, some, arith, option_beq_iff, nat_eq,
}
use cloud_ledger.Types.{Uuid, LedgerKind, MembershipRole}
use cloud_ledger.Permissions.{Action, AuthorizationContext, can_perform, allowed_role}

abbrev pub owner_id : AuthorizationContext → Option Uuid
owner_id ctx = ctx.ledger.owner_user_id

-- On a personal ledger an action is allowed exactly when the actor is the ledger's owner and the
-- action is no approval, payment, receipt, member or analytics action and no edit of an approved
-- transaction; a membership of any role makes no difference.
pub can_perform-personal_iff :
    (ctx : AuthorizationContext) (action : Action)
    → ctx.ledger.kind ≡ LedgerKind.personal
    → (can_perform ctx action ≡ true) ↔ (
        (ctx.ledger.owner_user_id ≡ some ctx.actor_user_id)
        × (action ≢ Action.approve_transaction)
        × (action ≢ Action.mark_transaction_paid)
        × (action ≢ Action.confirm_receipt)
        × (action ≢ Action.edit_approved_transaction)
        × (action ≢ Action.manage_members)
        × (action ≢ Action.view_financial_analytics))
unfolding can_perform
can_perform-personal_iff ctx action h =
    ground (arith, option_beq_iff (owner_id ctx) (some ctx.actor_user_id))

-- How far a membership reaches on a public ledger: none, and the technical roles, reach nothing.
abbrev pub reach : Option MembershipRole → ℕ
reach none = 0
reach (some MembershipRole.owner) = 0
reach (some MembershipRole.admin) = 0
reach (some MembershipRole.viewer) = 1
reach (some MembershipRole.employee) = 2
reach (some MembershipRole.accountant) = 2
reach (some MembershipRole.member) = 2
reach (some MembershipRole.approver) = 3
reach (some MembershipRole.business_owner) = 4

allowed_role_mono :
    (low high : Option MembershipRole) (action : Action)
    → reach low ≤ reach high
    → allowed_role low action ≡ true
    → allowed_role high action ≡ true
allowed_role_mono none high action le ok = cc
allowed_role_mono (some r) high action le ok = ground arith

-- On a public ledger the memberships form a chain, from those that allow nothing (no membership,
-- technical owner, technical admin) over viewer, the three employee roles and approver to business
-- owner: whatever a membership allows, a membership that is not below it in the chain allows too,
-- for any actor.
pub can_perform-organization_mono :
    (low high : AuthorizationContext) (action : Action)
    → low.ledger.kind ≡ LedgerKind.organization_public
    → high.ledger.kind ≡ LedgerKind.organization_public
    → reach low.membership_role ≤ reach high.membership_role
    → can_perform low action ≡ true
    → can_perform high action ≡ true
unfolding can_perform
can_perform-organization_mono low high action kl kh le ok =
    let allowed : allowed_role low.membership_role action ≡ true = ground arith in
    rw kh (allowed_role_mono low.membership_role high.membership_role action le allowed)

-- On a public ledger approving and marking paid are allowed exactly to a business owner or an
-- approver, and voiding exactly to a business owner.
pub can_perform-approval_iff :
    (ctx : AuthorizationContext)
    → ctx.ledger.kind ≡ LedgerKind.organization_public
    → ((can_perform ctx Action.approve_transaction ≡ true) ↔ (3 ≤ reach ctx.membership_role))
      × ((can_perform ctx Action.mark_transaction_paid ≡ true) ↔ (3 ≤ reach ctx.membership_role))
      × ((can_perform ctx Action.void_transaction ≡ true) ↔ (4 ≤ reach ctx.membership_role))
unfolding can_perform
can_perform-approval_iff ctx kind = ground arith

-- No actor may edit an approved transaction or manage members through a ledger, on either kind of
-- ledger and under any membership.
pub can_perform_never :
    (ctx : AuthorizationContext)
    → (can_perform ctx Action.edit_approved_transaction ≡ false)
      × (can_perform ctx Action.manage_members ≡ false)
unfolding can_perform
can_perform_never ctx = ground arith
