-- ===== src/App/Balance/Effects.antt =====
-- What each method on a stored transaction does to the balances of accounts.
use cloud_ledger.Base.{
  trim, ◌≡◌, ◌≢◌, refl, sym, ◌∙◌, ap, subst, none, some, arith, if◌then◌else◌, ◌==◌, nat_eq,
}
use cloud_ledger.Base.Int.{ℤ, pos, ◌+ℤ◌, ◌-ℤ◌, int_laws}
use cloud_ledger.Base.Map.{lookup}
use cloud_ledger.Base.Sorted.{IsSorted, sum_of-insert}
use cloud_ledger.Base.Exec.{ok}
use cloud_ledger.Types.{
  Uuid, FinancialAccount, Transaction, TransactionKind, ApprovalState, PaymentState, AuditLog,
  transaction_kind_eq,
}
use cloud_ledger.App.State.{World, AppLedgerService}
use cloud_ledger.App.Transactions.{
  ApprovalDecision, AppDecideApprovalInput, AppVoidTransactionInput, AppMarkTransactionPaidInput,
  AppConfirmTransactionReceiptInput, decide_approval, void_transaction, mark_transaction_paid,
  confirm_transaction_receipt, store, decided, approve_change, reject_change, void_change,
  pay_change, receive_change, decision_log, void_log, pay_log, receive_log,
}
use cloud_ledger.App.Methods.{
  decide_approval_iff, void_transaction_iff, mark_transaction_paid_iff,
  confirm_transaction_receipt_iff,
}
use cloud_ledger.App.Balance.{counts_for}
use cloud_ledger.App.Balance.Exact.{+ℤ_assoc, +ℤ_zero, effect, exact_balance}

zero_-ℤ_zero : pos 0 -ℤ pos 0 ≡ pos 0
unfolding ◌-ℤ◌
zero_-ℤ_zero = refl

-- The amount, on the account that the transaction is booked on.
abbrev pub booked : FinancialAccount → Transaction → ℤ
booked account t = if t.account_id == account.id then t.amount.amount_minor else pos 0

-- What a decision adds to the account: the amount of an approved income.
abbrev pub gain : FinancialAccount → ApprovalDecision → Transaction → ℤ
gain account ApprovalDecision.reject t = pos 0
gain account ApprovalDecision.approve t =
    if t.kind == TransactionKind.income then booked account t else pos 0

+ℤ_neg : (a b : ℤ) → a +ℤ (pos 0 -ℤ b) ≡ a -ℤ b
+ℤ_neg a b = omega int_laws

minus_of_plus : (a b c : ℤ) → a +ℤ c ≡ b → a ≡ b -ℤ c
unfolding ◌+ℤ◌ ◌-ℤ◌
minus_of_plus a b c h = ground arith

+ℤ_cancel : (a b c : ℤ) → a +ℤ c ≡ b +ℤ c → a ≡ b
unfolding ◌+ℤ◌
+ℤ_cancel a b c h = ground arith

module _ (account : FinancialAccount) where
  -- Replacing a transaction replaces its effect.
  store_balance :
      (s : AppLedgerService) (k : Uuid) (old t : Transaction) (log : AuditLog)
      → IsSorted s.transactions
      → lookup k s.transactions ≡ some old
      → exact_balance (store k t log s) account +ℤ effect account old
        ≡ exact_balance s account +ℤ effect account t
  unfolding exact_balance
  store_balance s k old t log sorted e =
      let h = sum_of-insert (effect account) k old t s.transactions sorted e in
      let opening = account.opening_balance.amount_minor in
      +ℤ_assoc opening _ _ ∙ ap (λ (x : ℤ). opening +ℤ x) h ∙ sym (+ℤ_assoc opening _ _)

  effect-pending :
      (t : Transaction)
      → t.approval_state ≡ ApprovalState.approved
      → t.payment_state ≡ PaymentState.pending_payment
      → t.kind ≡ TransactionKind.expense
      → effect account t ≡ pos 0
  unfolding effect counts_for
  effect-pending t ea ep ek = ground arith

  effect-submitted :
      (t : Transaction) → t.approval_state ≡ ApprovalState.submitted → effect account t ≡ pos 0
  unfolding effect counts_for
  effect-submitted t ea = ground arith

  effect-pay_change :
      (w : World) (actor : Uuid) (t : Transaction)
      → t.approval_state ≡ ApprovalState.approved
      → t.kind ≡ TransactionKind.expense
      → t.deleted_at ≡ none
      → effect account (pay_change w actor t) ≡ pos 0 -ℤ booked account t
  unfolding effect counts_for pay_change
  effect-pay_change w actor t ea ek ed = ground (arith, zero_-ℤ_zero)

  -- The effect of an approval: an expense does not count before it is paid.
  effect-decided :
      (w : World) (decision : ApprovalDecision) (actor : Uuid) (t : Transaction)
      → t.deleted_at ≡ none
      → t.kind ≢ TransactionKind.transfer
      → effect account (decided decision w actor t)
        ≡ gain account decision (decided decision w actor t)
  unfolding effect counts_for decided approve_change reject_change
  effect-decided w decision actor t ed ek = ground arith

  effect-receive_change :
      (w : World) (actor : Uuid) (t : Transaction)
      → t.payment_state ≡ PaymentState.paid_pending_receipt
      → effect account (receive_change w actor t) ≡ effect account t
  unfolding effect counts_for receive_change
  effect-receive_change w actor t ep = ground arith

  effect-void_change : (w : World) (t : Transaction) → effect account (void_change w t) ≡ pos 0
  unfolding effect counts_for void_change
  effect-void_change w t = ground arith

  -- The balance after a change from a transaction that had no effect.
  new_effect_balance :
      (s s' : AppLedgerService) (k : Uuid) (old t : Transaction) (log : AuditLog) (x : ℤ)
      → IsSorted s.transactions
      → lookup k s.transactions ≡ some old
      → s' ≡ store k t log s
      → effect account old ≡ pos 0
      → effect account t ≡ x
      → exact_balance s' account ≡ exact_balance s account +ℤ x
  new_effect_balance s s' k old t log x sorted e es eo ex =
      let stored = store_balance s k old t log sorted e in
      let stored' : exact_balance (store k t log s) account +ℤ pos 0
          ≡ exact_balance s account +ℤ x =
        rw (eo, ex) at stored in
      rw es (sym (+ℤ_zero _) ∙ stored')

-- Where the transactions are stored in key order, a decision on a stored transaction that is not
-- deleted and no transfer adds to an account exactly the amount of an approved income that is booked
-- on it; approving an expense, and rejecting anything, moves no balance.
pub decide_approval-balance :
    (w : World) (s s' : AppLedgerService) (input : AppDecideApprovalInput) (old t : Transaction)
    (account : FinancialAccount)
    → IsSorted s.transactions
    → lookup input.transaction_id s.transactions ≡ some old
    → old.deleted_at ≡ none
    → old.kind ≢ TransactionKind.transfer
    → decide_approval w input s ≡ (ok t, s')
    → exact_balance s' account ≡ exact_balance s account +ℤ gain account input.decision t
decide_approval-balance w s s' input stored t account sorted e kept no_transfer h =
    let (old, ledger, may, et, es) = (decide_approval_iff w s t s' input).0 h in
    let same : stored ≡ old = ground (arith, may.target.stored) in
    let after =
      effect-decided account w input.decision input.actor_user_id old (rw (sym same) kept)
        (rw (sym same) no_transfer) in
    new_effect_balance account s s' input.transaction_id old t (decision_log w input ledger t)
      (gain account input.decision t) sorted may.target.stored es
      (effect-submitted account old may.waiting)
      (subst (λ x. effect account x ≡ gain account input.decision x) (sym et) after)

-- Where the transactions are stored in key order, marking a stored expense that is not deleted paid
-- takes its amount from the account that it is booked on, and from no other.
pub mark_transaction_paid-balance :
    (w : World) (s s' : AppLedgerService) (input : AppMarkTransactionPaidInput)
    (old t : Transaction) (account : FinancialAccount)
    → IsSorted s.transactions
    → lookup input.transaction_id s.transactions ≡ some old
    → old.deleted_at ≡ none
    → old.kind ≡ TransactionKind.expense
    → mark_transaction_paid w input s ≡ (ok t, s')
    → exact_balance s' account ≡ exact_balance s account -ℤ booked account t
unfolding pay_change
mark_transaction_paid-balance w s s' input stored t account sorted e kept is_expense h =
    let (old, ledger, may, et, es) = (mark_transaction_paid_iff w s t s' input).0 h in
    let same : stored ≡ old = ground (arith, may.target.stored) in
    let expense : old.kind ≡ TransactionKind.expense = rw (sym same) is_expense in
    let after =
      effect-pay_change account w input.actor_user_id old may.approved expense
        (rw (sym same) kept) in
    let moved =
      new_effect_balance account s s' input.transaction_id old t (pay_log w input ledger t)
        (pos 0 -ℤ booked account t) sorted may.target.stored es
        (effect-pending account old may.approved may.pending expense)
        (subst (λ x. effect account x ≡ pos 0 -ℤ booked account x) (sym et) after) in
    moved ∙ +ℤ_neg _ _

-- Confirming a receipt moves no balance.
pub confirm_transaction_receipt-balance :
    (w : World) (s s' : AppLedgerService) (input : AppConfirmTransactionReceiptInput)
    (t : Transaction) (account : FinancialAccount)
    → IsSorted s.transactions
    → confirm_transaction_receipt w input s ≡ (ok t, s')
    → exact_balance s' account ≡ exact_balance s account
confirm_transaction_receipt-balance w s s' input t account sorted h =
    let (old, ledger, may, et, es) = (confirm_transaction_receipt_iff w s t s' input).0 h in
    let same = effect-receive_change account w input.actor_user_id old may.paid in
    let stored =
      store_balance account s input.transaction_id old t (receive_log w input ledger t) sorted
        may.target.stored in
    rw es (
      +ℤ_cancel _ _ (effect account old)
        (stored ∙ ap (λ (x : ℤ). exact_balance s account +ℤ x) (rw et same)))

-- Voiding takes back exactly what the transaction had added to an account: the amount of an income
-- or of a paid expense, and nothing for an expense that was still to be paid.
pub void_transaction-balance :
    (w : World) (s s' : AppLedgerService) (input : AppVoidTransactionInput) (t : Transaction)
    (account : FinancialAccount)
    → IsSorted s.transactions
    → void_transaction w input s ≡ (ok t, s')
    → (old : Transaction) × (lookup input.transaction_id s.transactions ≡ some old)
      × (exact_balance s' account ≡ exact_balance s account -ℤ effect account old)
      × (effect account t ≡ pos 0)
void_transaction-balance w s s' input t account sorted h =
    let (old, ledger, may, et, es) = (void_transaction_iff w s t s' input).0 h in
    let none_left : effect account t ≡ pos 0 = rw et (effect-void_change account w old) in
    let stored =
      store_balance account s input.transaction_id old t
        (void_log w input ledger (trim input.void_reason) t) sorted may.target.stored in
    (
      old,
      may.target.stored,
      rw es (
          minus_of_plus _ _ (effect account old)
            (stored ∙ ap (λ (x : ℤ). exact_balance s account +ℤ x) none_left ∙ +ℤ_zero _)),
      none_left,
    )
