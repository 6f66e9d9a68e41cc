-- ===== src/App/Soundness.antt =====
-- The invariant of a stored transaction: the states of approval, payment and the people who took
-- part in them fit together. Each change of crates/cloudledger-service/src/app.rs keeps it.
use cloud_ledger.Base.{◌≡◌, ◌≢◌, ◌⊎◌, none, some, arith, nat_eq, option_eq}
use cloud_ledger.Types.{
  Uuid, Ledger, LedgerKind, Money, Transaction, TransactionKind, ApprovalState, PaymentState,
  draft_transaction,
}
use cloud_ledger.App.State.{World, AppLedgerService}
use cloud_ledger.App.Transactions.{
  AppDecideApprovalInput, AppMarkTransactionPaidInput, AppConfirmTransactionReceiptInput,
  ApprovalDecision, decided, approve_change, reject_change, void_change, pay_change, receive_change,
}
use cloud_ledger.App.Outcomes.{MayDecide, MayPay, MayReceive}
use cloud_ledger.App.Create.{
  AppCreateTransactionInput, draft_for, auto_approved, handed_in, privately_approved,
}

-- On a ledger of the kind:
pub record IsSound (kind : LedgerKind) (t : Transaction) : Type 0 where
  -- drafts, transfers and deleted transactions are not stored;
  pub entered : t.approval_state ≢ ApprovalState.draft
  pub no_transfer : t.kind ≢ TransactionKind.transfer
  pub kept : t.deleted_at ≡ none
  -- nothing is to be paid before an approval, and only expenses are;
  pub unpaid :
      (t.approval_state ≡ ApprovalState.submitted) ⊎ (t.approval_state ≡ ApprovalState.rejected)
      → t.payment_state ≡ PaymentState.not_applicable
  pub only_expenses :
      t.payment_state ≢ PaymentState.not_applicable → t.kind ≡ TransactionKind.expense
  -- on a personal ledger nothing is to be paid, and on a public one every approved or voided
  -- expense is;
  pub private_unpaid : kind ≡ LedgerKind.personal → t.payment_state ≡ PaymentState.not_applicable
  pub public_payable :
      kind ≡ LedgerKind.organization_public
      → t.kind ≡ TransactionKind.expense
      → (t.approval_state ≡ ApprovalState.approved) ⊎ (t.approval_state ≡ ApprovalState.voided)
      → t.payment_state ≢ PaymentState.not_applicable
  -- a payment has a payer and a time, a receipt has them too and was confirmed by the creator;
  pub paid :
      (t.payment_state ≡ PaymentState.paid_pending_receipt)
        ⊎ (t.payment_state ≡ PaymentState.received)
      → (t.paid_by ≢ none) × (t.paid_at ≢ none)
  pub received :
      t.payment_state ≡ PaymentState.received
      → (t.received_by ≡ some t.created_by) × (t.received_at ≢ none)
  -- an approval has a time;
  pub dated : t.approval_state ≡ ApprovalState.approved → t.approved_at ≢ none
  -- on a public ledger the creator has submitted the transaction and has not approved it.
  pub own_submission : kind ≡ LedgerKind.organization_public → t.submitted_by ≡ some t.created_by
  pub separate_approval : kind ≡ LedgerKind.organization_public → t.approved_by ≢ some t.created_by

-- What no change touches.
pub record KeepsIdentity (old t : Transaction) : Type 0 where
  pub same_id : t.id ≡ old.id
  pub same_ledger : t.ledger_id ≡ old.ledger_id

pub decided-KeepsIdentity :
    (w : World) (decision : ApprovalDecision) (actor : Uuid) (old : Transaction)
    → KeepsIdentity old (decided decision w actor old)
unfolding decided approve_change reject_change
decided-KeepsIdentity w decision actor old = ground arith

module _ (w : World) (s : AppLedgerService) (old : Transaction) (ledger : Ledger) where
  pub decided-IsSound :
      (input : AppDecideApprovalInput)
      → MayDecide s old ledger input
      → ledger.kind ≡ LedgerKind.organization_public
      → IsSound ledger.kind old
      → IsSound ledger.kind (decided input.decision w input.actor_user_id old)
  unfolding decided approve_change reject_change
  decided-IsSound input may public sound = ground arith

  pub void_change-IsSound :
      IsSound ledger.kind old
      → old.approval_state ≡ ApprovalState.approved
      → IsSound ledger.kind (void_change w old)
  unfolding void_change
  void_change-IsSound sound may = ground arith

  pub pay_change-IsSound :
      (input : AppMarkTransactionPaidInput)
      → MayPay s old ledger input
      → IsSound ledger.kind old
      → IsSound ledger.kind (pay_change w input.actor_user_id old)
  unfolding pay_change
  pay_change-IsSound input may sound = ground arith

  pub receive_change-IsSound :
      (input : AppConfirmTransactionReceiptInput)
      → MayReceive s old ledger input
      → IsSound ledger.kind old
      → IsSound ledger.kind (receive_change w input.actor_user_id old)
  unfolding receive_change
  receive_change-IsSound input may sound = ground arith

module _ (w : World) (input : AppCreateTransactionInput) (category : Uuid) (amount : Money)
    (entry : input.kind ≢ TransactionKind.transfer) where
  pub privately_approved-IsSound :
      IsSound LedgerKind.personal
        (privately_approved w input.actor_user_id (draft_for w input category amount))
  unfolding privately_approved draft_for draft_transaction
  privately_approved-IsSound = ground arith

  pub auto_approved-IsSound :
      IsSound LedgerKind.organization_public
        (auto_approved w input.actor_user_id (draft_for w input category amount))
  unfolding auto_approved draft_for draft_transaction
  auto_approved-IsSound = ground arith

  pub handed_in-IsSound :
      IsSound LedgerKind.organization_public
        (handed_in input.actor_user_id (draft_for w input category amount))
  unfolding handed_in draft_for draft_transaction
  handed_in-IsSound = ground arith
