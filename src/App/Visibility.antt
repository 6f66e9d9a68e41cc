-- ===== src/App/Visibility.antt =====
-- Who sees a transaction (crates/cloudledger-service/src/app.rs).
use cloud_ledger.Base.{
  ◌≤◌, ◌≡◌, ◌↔◌, ◌⊎◌, inl, inr, true, some, arith, option_beq_iff, nat_eq, Option-cases,
}
use cloud_ledger.Base.Map.{lookup}
use cloud_ledger.Types.{Uuid, Ledger, LedgerKind, Transaction}
use cloud_ledger.Permissions.{can_perform}
use cloud_ledger.Permissions.Matrix.{reach}
use cloud_ledger.App.State.{AppLedgerService}
use cloud_ledger.App.Access.{
  authorized, can_view_balances, context_role, transaction_visible_to_actor, visible_in,
}

-- The two ways to see a transaction of a ledger.
abbrev pub Sees : AppLedgerService → Uuid → Ledger → Transaction → Type 0
Sees s actor ledger t =
    ((ledger.kind ≡ LedgerKind.personal) × (ledger.owner_user_id ≡ some actor))
    ⊎ ((ledger.kind ≡ LedgerKind.organization_public)
        × (1 ≤ reach (context_role s actor ledger.organization_id))
        × ((3 ≤ reach (context_role s actor ledger.organization_id)) ⊎ (t.created_by ≡ actor)))

visible_in_iff :
    (s : AppLedgerService) (actor : Uuid) (ledger : Ledger) (t : Transaction)
    → (visible_in (some ledger) s actor t ≡ true) ↔ Sees s actor ledger t
unfolding authorized can_perform can_view_balances
visible_in_iff s actor ledger t = (
  λ h. ground (arith, option_beq_iff ledger.owner_user_id (some actor)),
  λ h. ground (arith, option_beq_iff ledger.owner_user_id (some actor)),
)

-- A transaction is visible to an actor exactly if its ledger is stored and is the actor's personal
-- ledger, or is a public ledger of which the actor is a member (not only a technical owner or
-- admin), and the actor is a business owner or approver there or has created the transaction:
-- employees and viewers never see one another's entries.
pub transaction_visible_to_actor_iff :
    (s : AppLedgerService) (actor : Uuid) (t : Transaction)
    → (transaction_visible_to_actor s actor t ≡ true)
      ↔ ((ledger : Ledger) × (lookup t.ledger_id s.ledgers ≡ some ledger) × Sees s actor ledger t)
unfolding transaction_visible_to_actor
transaction_visible_to_actor_iff s actor t = (
  λ h. elim (Option-cases (lookup t.ledger_id s.ledgers)) [
    | inl missing ↦ absurd (ground arith)
    | inr (ledger, e) ↦ (ledger, e, (visible_in_iff s actor ledger t).0 (rw e at h))
  ],
  λ (ledger, e, sees). rw e ((visible_in_iff s actor ledger t).1 sees),
)
