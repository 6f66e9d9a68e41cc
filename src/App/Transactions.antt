-- ===== src/App/Transactions.antt =====
-- The methods of `AppLedgerService` that move a stored transaction through approval, payment,
-- receipt and voiding (crates/cloudledger-service/src/app.rs). Each first makes its tests, which
-- only read (`decide_checks` and the like, in the order of the source), then changes the
-- transaction that it has looked up (`get_mut` finds what `get` found), stores it and appends an
-- audit log. A method returns the transaction that the source hands to `transaction_dto`.
use cloud_ledger.Base.{
  Bool, true, false, ◌&&◌, ◌||◌, Option, none, some, ◌++◌, ◌==◌, ◌!=◌, nat_eq, option_eq,
  if◌then◌else◌, length, push, Text, text, trim, is_empty, ltb,
}
use cloud_ledger.Base.Int.{ℤ, pos, add_i64}
use cloud_ledger.Base.Map.{lookup, insert}
use cloud_ledger.Base.Exec.{Result, ok, err, commit}
use cloud_ledger.Base.Check.{◌>>=◌, ◌>>◌, ok_or, require, raise_if}
use cloud_ledger.Types.{
  Uuid, OffsetDateTime, Ledger, LedgerKind, Transaction, TransactionKind, ApprovalState,
  PaymentState, AuditLog, new_audit_log, ledger_kind_eq, transaction_kind_eq, approval_state_eq,
  payment_state_eq,
}
use cloud_ledger.Permissions.{Action}
use cloud_ledger.App.State.{World, AppLedgerService, AppServiceError, Method}
use cloud_ledger.App.Access.{authorized}

pub data ApprovalDecision : Type 0 where
  approve reject : ApprovalDecision

pub record AppDecideApprovalInput : Type 0 where
  pub actor_user_id : Uuid
  pub transaction_id : Uuid
  pub decision : ApprovalDecision
  pub decision_note : Option Text

pub record AppMarkTransactionPaidInput : Type 0 where
  pub actor_user_id : Uuid
  pub transaction_id : Uuid

pub record AppConfirmTransactionReceiptInput : Type 0 where
  pub actor_user_id : Uuid
  pub transaction_id : Uuid

pub record AppVoidTransactionInput : Type 0 where
  pub actor_user_id : Uuid
  pub transaction_id : Uuid
  pub void_reason : Text

abbrev non_empty : Text → Option Text
non_empty value = if is_empty value then none else some value

unfoldable pub normalize_decision_note : Option Text → Option Text
normalize_decision_note none = none
normalize_decision_note (some value) = non_empty (trim value)

unfoldable pub normalize_void_reason : Text → Result AppServiceError Text
normalize_void_reason reason =
    let normalized = trim reason in
    if is_empty normalized
    then err AppServiceError.void_reason_required
    else if ltb 200 (length normalized)
    then err AppServiceError.invalid_void_reason
    else ok normalized

-- `transaction.version += 1`
abbrev pub next_version : Transaction → ℤ
next_version t = add_i64 t.version (pos 1)

-- The changed transaction is stored under its key, and an audit log is appended.
abbrev pub store : Uuid → Transaction → AuditLog → AppLedgerService → AppLedgerService
store key t audit s = record s {
  transactions = insert key t s.transactions;
  audit_logs = push audit s.audit_logs;
}

unfoldable pub log_for :
    Uuid → OffsetDateTime → Ledger → Uuid → Text → Transaction → Text → AuditLog
log_for fresh now ledger actor action t summary =
    new_audit_log fresh now ledger.organization_id ledger.id actor action (text "transaction") t.id
      summary

abbrev pub find_transaction : AppLedgerService → Uuid → Result AppServiceError Transaction
find_transaction s id = ok_or (lookup id s.transactions) AppServiceError.transaction_not_found

abbrev pub find_ledger : AppLedgerService → Uuid → Result AppServiceError Ledger
find_ledger s id = ok_or (lookup id s.ledgers) AppServiceError.ledger_not_found

-- The changes that `decide_approval` makes to the transaction.
unfoldable pub approve_change : World → Uuid → Transaction → Transaction
approve_change w actor t = record t {
  updated_at = w.now_utc 0;
  approval_state = ApprovalState.approved;
  approved_by = some actor;
  approved_at = some (w.now_utc 1);
  payment_state =
      if t.kind == TransactionKind.expense then PaymentState.pending_payment else t.payment_state;
  version = next_version t;
}

unfoldable pub reject_change : World → Transaction → Transaction
reject_change w t = record t {
  updated_at = w.now_utc 0;
  approval_state = ApprovalState.rejected;
  version = next_version t;
}

-- What the match on the decision does to the transaction, and the action and summary that it logs;
-- a rejection has a note, which the tests have made sure of.
unfoldable pub decided : ApprovalDecision → World → Uuid → Transaction → Transaction
decided ApprovalDecision.approve w actor t = approve_change w actor t
decided ApprovalDecision.reject w actor t = reject_change w t

unfoldable pub decision_action : ApprovalDecision → Text
decision_action ApprovalDecision.approve = text "transaction.approved"
decision_action ApprovalDecision.reject = text "transaction.rejected"

abbrev note_text : Option Text → Text
note_text none = text ""
note_text (some value) = value

unfoldable pub decision_summary : ApprovalDecision → Option Text → Text → Text
decision_summary ApprovalDecision.approve decision_note description =
    text "批准公账流水，等待打款：" ++ description
decision_summary ApprovalDecision.reject decision_note description =
    text "驳回公账流水：" ++ (description ++ (text "，原因：" ++ note_text decision_note))

abbrev is_reject : ApprovalDecision → Bool
is_reject ApprovalDecision.approve = false
is_reject ApprovalDecision.reject = true

abbrev is_none : Option Text → Bool
is_none none = true
is_none (some _) = false

unfoldable pub decide_checks :
    AppDecideApprovalInput → AppLedgerService → Result AppServiceError (Transaction × Ledger)
decide_checks input s = do
  transaction ← find_transaction s input.transaction_id
  raise_if (transaction.approval_state != ApprovalState.submitted)
      AppServiceError.invalid_approval_state
  ledger ← find_ledger s transaction.ledger_id
  require (authorized s input.actor_user_id ledger Action.approve_transaction)
      AppServiceError.unauthorized
  raise_if
      (transaction.submitted_by == some input.actor_user_id
        || transaction.created_by == input.actor_user_id)
      AppServiceError.self_approval_denied
  raise_if (is_reject input.decision && is_none (normalize_decision_note input.decision_note))
      AppServiceError.decision_note_required
  ok (transaction, ledger)

unfoldable pub decision_log : World → AppDecideApprovalInput → Ledger → Transaction → AuditLog
decision_log w input ledger updated =
    log_for (w.new_v4 0) (w.now_utc 2) ledger input.actor_user_id (decision_action input.decision)
      updated
      (decision_summary input.decision (normalize_decision_note input.decision_note)
        updated.description)

unfoldable pub decide_approval : World → AppDecideApprovalInput → Method Transaction
decide_approval w input s =
    commit (decide_checks input s)
      (λ (old, ledger) s.
        let updated = decided input.decision w input.actor_user_id old in
        (updated, store input.transaction_id updated (decision_log w input ledger updated) s))
      s

unfoldable pub void_change : World → Transaction → Transaction
void_change w t = record t {
  approval_state = ApprovalState.voided;
  updated_at = w.now_utc 0;
  version = next_version t;
}

abbrev pub is_deleted : Transaction → Bool
is_deleted t = elim t.deleted_at [ none ↦ false | some _ ↦ true ]

unfoldable pub void_checks :
    AppVoidTransactionInput
    → AppLedgerService
    → Result AppServiceError (Transaction × Ledger × Text)
void_checks input s = do
  transaction ← find_transaction s input.transaction_id
  ledger ← find_ledger s transaction.ledger_id
  raise_if (ledger.kind != LedgerKind.organization_public) AppServiceError.public_ledger_only
  require (authorized s input.actor_user_id ledger Action.void_transaction)
      AppServiceError.unauthorized
  raise_if (is_deleted transaction || transaction.approval_state != ApprovalState.approved)
      AppServiceError.invalid_void_state
  reason ← normalize_void_reason input.void_reason
  ok (transaction, ledger, reason)

unfoldable pub void_log : World → AppVoidTransactionInput → Ledger → Text → Transaction → AuditLog
void_log w input ledger reason updated =
    log_for (w.new_v4 0) (w.now_utc 1) ledger input.actor_user_id (text "transaction.voided")
      updated (text "作废公账流水：" ++ (updated.description ++ (text "，原因：" ++ reason)))

unfoldable pub void_transaction : World → AppVoidTransactionInput → Method Transaction
void_transaction w input s =
    commit (void_checks input s)
      (λ (old, ledger, reason) s.
        let updated = void_change w old in
        (updated, store input.transaction_id updated (void_log w input ledger reason updated) s))
      s

unfoldable pub pay_change : World → Uuid → Transaction → Transaction
pay_change w actor t = record t {
  payment_state = PaymentState.paid_pending_receipt;
  paid_by = some actor;
  paid_at = some (w.now_utc 0);
  updated_at = w.now_utc 0;
  version = next_version t;
}

unfoldable pub pay_checks :
    AppMarkTransactionPaidInput → AppLedgerService → Result AppServiceError (Transaction × Ledger)
pay_checks input s = do
  transaction ← find_transaction s input.transaction_id
  ledger ← find_ledger s transaction.ledger_id
  require (authorized s input.actor_user_id ledger Action.mark_transaction_paid)
      AppServiceError.unauthorized
  raise_if
      (transaction.approval_state != ApprovalState.approved
        || transaction.payment_state != PaymentState.pending_payment)
      AppServiceError.invalid_payment_state
  ok (transaction, ledger)

unfoldable pub pay_log : World → AppMarkTransactionPaidInput → Ledger → Transaction → AuditLog
pay_log w input ledger updated =
    log_for (w.new_v4 0) (w.now_utc 1) ledger input.actor_user_id (text "transaction.paid") updated
      (text "标记公账申请已打款：" ++ updated.description)

unfoldable pub mark_transaction_paid : World → AppMarkTransactionPaidInput → Method Transaction
mark_transaction_paid w input s =
    commit (pay_checks input s)
      (λ (old, ledger) s.
        let updated = pay_change w input.actor_user_id old in
        (updated, store input.transaction_id updated (pay_log w input ledger updated) s))
      s

unfoldable pub receive_change : World → Uuid → Transaction → Transaction
receive_change w actor t = record t {
  payment_state = PaymentState.received;
  received_by = some actor;
  received_at = some (w.now_utc 0);
  updated_at = w.now_utc 0;
  version = next_version t;
}

unfoldable pub receive_checks :
    AppConfirmTransactionReceiptInput
    → AppLedgerService
    → Result AppServiceError (Transaction × Ledger)
receive_checks input s = do
  transaction ← find_transaction s input.transaction_id
  ledger ← find_ledger s transaction.ledger_id
  raise_if (transaction.created_by != input.actor_user_id)
      AppServiceError.receipt_confirmation_denied
  require (authorized s input.actor_user_id ledger Action.confirm_receipt)
      AppServiceError.unauthorized
  raise_if
      (transaction.approval_state != ApprovalState.approved
        || transaction.payment_state != PaymentState.paid_pending_receipt)
      AppServiceError.invalid_payment_state
  ok (transaction, ledger)

unfoldable pub receive_log :
    World → AppConfirmTransactionReceiptInput → Ledger → Transaction → AuditLog
receive_log w input ledger updated =
    log_for (w.new_v4 0) (w.now_utc 1) ledger input.actor_user_id (text "transaction.received")
      updated (text "申请人确认收到款项：" ++ updated.description)

unfoldable pub confirm_transaction_receipt :
    World → AppConfirmTransactionReceiptInput → Method Transaction
confirm_transaction_receipt w input s =
    commit (receive_checks input s)
      (λ (old, ledger) s.
        let updated = receive_change w input.actor_user_id old in
        (updated, store input.transaction_id updated (receive_log w input ledger updated) s))
      s
