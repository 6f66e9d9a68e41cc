-- ===== src/App/Methods.antt =====
-- The methods on a stored transaction of crates/cloudledger-service/src/app.rs as a whole: exactly
-- when each succeeds, what it returns and what it leaves behind.
use cloud_ledger.Base.{◌≡◌, ◌↔◌, refl, inl, inr, arith, trim, nat_eq, option_eq}
use cloud_ledger.Base.Exec.{ok, Result-cases}
use cloud_ledger.Types.{Ledger, Transaction}
use cloud_ledger.App.State.{World, AppLedgerService}
use cloud_ledger.App.Transactions.{
  AppDecideApprovalInput, AppVoidTransactionInput, AppMarkTransactionPaidInput,
  AppConfirmTransactionReceiptInput, decide_approval, void_transaction, mark_transaction_paid,
  confirm_transaction_receipt, decide_checks, void_checks, pay_checks, receive_checks, decided,
  void_change, pay_change, receive_change, decision_log, void_log, pay_log, receive_log, store,
}
use cloud_ledger.App.Outcomes.{
  MayDecide, MayVoid, MayPay, MayReceive, decide_checks_iff, void_checks_iff, pay_checks_iff,
  receive_checks_iff,
}

module _ (w : World) (s : AppLedgerService) (t : Transaction) (s' : AppLedgerService) where
  -- A decision returns a transaction and leaves a state exactly when some stored transaction may be
  -- decided so: it is submitted, the actor may approve on its ledger and neither created nor
  -- submitted it, and a rejection has a note that is not blank. What it returns is that
  -- transaction, approved or rejected; the state differs in that transaction, and in one more audit
  -- log.
  pub decide_approval_iff :
      (input : AppDecideApprovalInput)
      → (decide_approval w input s ≡ (ok t, s')) ↔ (
          (old : Transaction) × (ledger : Ledger) × MayDecide s old ledger input
          × (t ≡ decided input.decision w input.actor_user_id old)
          × (s' ≡ store input.transaction_id t (decision_log w input ledger t) s))
  unfolding decide_approval
  decide_approval_iff input = (
    λ h. elim (Result-cases (decide_checks input s)) [
      | inl ((old, ledger), e) ↦
          (old, ledger, (decide_checks_iff s old ledger input).0 e, ground arith, ground arith)
      | inr (x, e) ↦ ground arith
    ],
    λ (old, ledger, may, et, es).
        let e : decide_checks input s ≡ ok (old, ledger) =
          (decide_checks_iff s old ledger input).1 may in
        rw (e, es, et) refl,
  )

  -- Voiding succeeds exactly on a stored transaction that is approved and not deleted, on a public
  -- ledger on which the actor may void, with a reason of 1 to 200 characters once trimmed. It returns
  -- the voided transaction; the state differs in that transaction, and in one more audit log.
  pub void_transaction_iff :
      (input : AppVoidTransactionInput)
      → (void_transaction w input s ≡ (ok t, s')) ↔ (
          (old : Transaction) × (ledger : Ledger) × MayVoid s old ledger input
          × (t ≡ void_change w old)
          × (s'
              ≡ store input.transaction_id t
                  (void_log w input ledger (trim input.void_reason) t)
                  s))
  unfolding void_transaction
  void_transaction_iff input = (
    λ h. elim (Result-cases (void_checks input s)) [
      | inl ((old, ledger, reason), e) ↦
          let (may, er) = (void_checks_iff s old ledger input reason).0 e in
          (old, ledger, may, ground arith, ground arith)
      | inr (x, e) ↦ ground arith
    ],
    λ (old, ledger, may, et, es).
        let e : void_checks input s ≡ ok (old, ledger, trim input.void_reason) =
          (void_checks_iff s old ledger input (trim input.void_reason)).1 (may, refl) in
        rw (e, es, et) refl,
  )

  -- Marking paid succeeds exactly on a stored transaction that is approved and waits for payment, by
  -- an actor who may mark payments on its ledger. It returns the paid transaction; the state differs
  -- in that transaction, and in one more audit log.
  pub mark_transaction_paid_iff :
      (input : AppMarkTransactionPaidInput)
      → (mark_transaction_paid w input s ≡ (ok t, s')) ↔ (
          (old : Transaction) × (ledger : Ledger) × MayPay s old ledger input
          × (t ≡ pay_change w input.actor_user_id old)
          × (s' ≡ store input.transaction_id t (pay_log w input ledger t) s))
  unfolding mark_transaction_paid
  mark_transaction_paid_iff input = (
    λ h. elim (Result-cases (pay_checks input s)) [
      | inl ((old, ledger), e) ↦
          (old, ledger, (pay_checks_iff s old ledger input).0 e, ground arith, ground arith)
      | inr (x, e) ↦ ground arith
    ],
    λ (old, ledger, may, et, es).
        let e : pay_checks input s ≡ ok (old, ledger) = (pay_checks_iff s old ledger input).1 may in
        rw (e, es, et) refl,
  )

  -- Confirming a receipt succeeds exactly on a stored transaction that is approved and marked paid,
  -- by its creator, if the creator may confirm receipts on its ledger. It returns the received
  -- transaction; the state differs in that transaction, and in one more audit log.
  pub confirm_transaction_receipt_iff :
      (input : AppConfirmTransactionReceiptInput)
      → (confirm_transaction_receipt w input s ≡ (ok t, s')) ↔ (
          (old : Transaction) × (ledger : Ledger) × MayReceive s old ledger input
          × (t ≡ receive_change w input.actor_user_id old)
          × (s' ≡ store input.transaction_id t (receive_log w input ledger t) s))
  unfolding confirm_transaction_receipt
  confirm_transaction_receipt_iff input = (
    λ h. elim (Result-cases (receive_checks input s)) [
      | inl ((old, ledger), e) ↦
          (old, ledger, (receive_checks_iff s old ledger input).0 e, ground arith, ground arith)
      | inr (x, e) ↦ ground arith
    ],
    λ (old, ledger, may, et, es).
        let e : receive_checks input s ≡ ok (old, ledger) =
          (receive_checks_iff s old ledger input).1 may in
        rw (e, es, et) refl,
  )
