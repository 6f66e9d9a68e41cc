-- ===== src/App/Outcomes.antt =====
-- When the methods on a stored transaction succeed: for each method of
-- crates/cloudledger-service/src/app.rs the exact conditions, in terms of the transaction that is
-- stored and the ledger that it names.
use cloud_ledger.Base.{
  ◌≤◌, ◌≡◌, ◌≢◌, ◌↔◌, ◌⊎◌, true, none, some, arith, Text, trim, length, [], nat_eq, option_eq,
  option_beq_iff,
}
use cloud_ledger.Base.Map.{lookup}
use cloud_ledger.Base.Exec.{ok}
use cloud_ledger.Types.{Uuid, Ledger, LedgerKind, Transaction, ApprovalState, PaymentState}
use cloud_ledger.Permissions.{Action}
use cloud_ledger.App.State.{AppLedgerService}
use cloud_ledger.App.Access.{authorized}
use cloud_ledger.App.Transactions.{
  ApprovalDecision, AppDecideApprovalInput, AppVoidTransactionInput, AppMarkTransactionPaidInput,
  AppConfirmTransactionReceiptInput, decide_checks, void_checks, pay_checks, receive_checks,
  normalize_decision_note, normalize_void_reason,
}

module _ (s : AppLedgerService) (old : Transaction) (ledger : Ledger) where
  -- The transaction is stored under the id, and the ledger that it names is stored.
  pub record IsTarget (id : Uuid) : Type 0 where
    pub stored : lookup id s.transactions ≡ some old
    pub in_ledger : lookup old.ledger_id s.ledgers ≡ some ledger

  pub record MayDecide (input : AppDecideApprovalInput) : Type 0 where
    pub target : IsTarget input.transaction_id
    pub waiting : old.approval_state ≡ ApprovalState.submitted
    pub allowed : authorized s input.actor_user_id ledger Action.approve_transaction ≡ true
    pub not_submitter : old.submitted_by ≢ some input.actor_user_id
    pub not_creator : old.created_by ≢ input.actor_user_id
    pub reasoned :
        (input.decision ≡ ApprovalDecision.approve)
        ⊎ (normalize_decision_note input.decision_note ≢ none)

  pub record MayVoid (input : AppVoidTransactionInput) : Type 0 where
    pub target : IsTarget input.transaction_id
    pub public : ledger.kind ≡ LedgerKind.organization_public
    pub allowed : authorized s input.actor_user_id ledger Action.void_transaction ≡ true
    pub approved : old.approval_state ≡ ApprovalState.approved
    pub kept : old.deleted_at ≡ none
    pub reason_given : trim input.void_reason ≢ []
    pub reason_short : length (trim input.void_reason) ≤ 200

  pub record MayPay (input : AppMarkTransactionPaidInput) : Type 0 where
    pub target : IsTarget input.transaction_id
    pub allowed : authorized s input.actor_user_id ledger Action.mark_transaction_paid ≡ true
    pub approved : old.approval_state ≡ ApprovalState.approved
    pub pending : old.payment_state ≡ PaymentState.pending_payment

  pub record MayReceive (input : AppConfirmTransactionReceiptInput) : Type 0 where
    pub target : IsTarget input.transaction_id
    pub creator : old.created_by ≡ input.actor_user_id
    pub allowed : authorized s input.actor_user_id ledger Action.confirm_receipt ≡ true
    pub approved : old.approval_state ≡ ApprovalState.approved
    pub paid : old.payment_state ≡ PaymentState.paid_pending_receipt

  pub decide_checks_iff :
      (input : AppDecideApprovalInput)
      → (decide_checks input s ≡ ok (old, ledger)) ↔ MayDecide input
  unfolding decide_checks
  decide_checks_iff input = (
    λ h. ground (arith, option_beq_iff old.submitted_by (some input.actor_user_id)),
    λ h. ground (arith, option_beq_iff old.submitted_by (some input.actor_user_id)),
  )

  normalize_void_reason_iff :
      (reason r : Text)
      → (normalize_void_reason reason ≡ ok r)
        ↔ ((trim reason ≢ []) × (length (trim reason) ≤ 200) × (r ≡ trim reason))
  unfolding normalize_void_reason
  normalize_void_reason_iff reason r = ground arith

  pub void_checks_iff :
      (input : AppVoidTransactionInput) (reason : Text)
      → (void_checks input s ≡ ok (old, ledger, reason))
        ↔ (MayVoid input × (reason ≡ trim input.void_reason))
  unfolding void_checks
  void_checks_iff input reason = (
    λ h. ground (arith, normalize_void_reason_iff input.void_reason reason),
    λ h. ground (arith, normalize_void_reason_iff input.void_reason reason),
  )

  pub pay_checks_iff :
      (input : AppMarkTransactionPaidInput) → (pay_checks input s ≡ ok (old, ledger)) ↔ MayPay input
  unfolding pay_checks
  pay_checks_iff input = (λ h. ground arith, λ h. ground arith)

  pub receive_checks_iff :
      (input : AppConfirmTransactionReceiptInput)
      → (receive_checks input s ≡ ok (old, ledger)) ↔ MayReceive input
  unfolding receive_checks
  receive_checks_iff input = (λ h. ground arith, λ h. ground arith)
