-- ===== src/App/Atomic.antt =====
-- A method that fails changes nothing, and no method of the transaction lifecycle touches anything
-- but the transactions and the audit trail.
use mathlib.Core.List.{append-nil, append_assoc}
use cloud_ledger.Base.{◌≤◌, ◌≡◌, arith, inl, inr, List, [], ◌∷◌, ◌++◌, length, length-append}
use cloud_ledger.Base.Map.{Map}
use cloud_ledger.Base.Exec.{err, Result-cases}
use cloud_ledger.Types.{AuditLog, Transaction}
use cloud_ledger.App.State.{World, AppLedgerService, AppServiceError}
use cloud_ledger.App.Transactions.{
  decide_approval, void_transaction, mark_transaction_paid, confirm_transaction_receipt,
  decide_checks, void_checks, pay_checks, receive_checks, decision_log, decided, void_log,
  void_change, pay_log, pay_change, receive_log, receive_change,
}
use cloud_ledger.App.Create.{create_transaction, create_checks, replay, enter, create_logs}
use cloud_ledger.App.Command.{Command, create, decide, void, pay, receive, run, run_all}

-- A call of any of the five methods that returns an error leaves the service as it was.
pub run_atomic :
    (w : World) (c : Command) (s : AppLedgerService) (e : AppServiceError)
    → (run w c s).0 ≡ err e
    → (run w c s).1 ≡ s
unfolding run decide_approval void_transaction mark_transaction_paid confirm_transaction_receipt
    create_transaction
run_atomic w (create input) s e h = ground arith
run_atomic w (decide input) s e h = ground arith
run_atomic w (void input) s e h = ground arith
run_atomic w (pay input) s e h = ground arith
run_atomic w (receive input) s e h = ground arith

-- What a call may have changed: nothing but the transactions, and the audit trail at its end.
pub record Extends (s s' : AppLedgerService) (logs : List AuditLog) : Type 0 where
  pub same_version : s'.schema_version ≡ s.schema_version
  pub same_user : s'.current_user_id ≡ s.current_user_id
  pub same_users : s'.users ≡ s.users
  pub same_organizations : s'.organizations ≡ s.organizations
  pub same_memberships : s'.memberships ≡ s.memberships
  pub same_ledgers : s'.ledgers ≡ s.ledgers
  pub same_accounts : s'.accounts ≡ s.accounts
  pub same_categories : s'.categories ≡ s.categories
  pub appended : s'.audit_logs ≡ s.audit_logs ++ logs

Extends-refl : (s : AppLedgerService) → Extends s s []
Extends-refl s = ground (arith, append-nil s.audit_logs)

Extends-trans :
    (a b c : AppLedgerService) (l m : List AuditLog)
    → Extends a b l
    → Extends b c m
    → Extends a c (l ++ m)
Extends-trans a b c l m h k = ground (arith, append_assoc a.audit_logs l m)

-- A change of the transactions and the audit trail alone.
Extends-change :
    (s : AppLedgerService) (ts : Map Transaction) (logs : List AuditLog)
    → Extends s (record s { transactions = ts; audit_logs = s.audit_logs ++ logs }) logs
Extends-change s ts logs = ground arith

-- One call appends at most one audit log, and changes nothing but the transactions besides.
run-Extends :
    (w : World) (c : Command) (s : AppLedgerService)
    → (logs : List AuditLog) × (length logs ≤ 1) × Extends s (run w c s).1 logs
unfolding run decide_approval void_transaction mark_transaction_paid confirm_transaction_receipt
    create_transaction
run-Extends w (create input) s = elim (Result-cases (create_checks w input s)) [
  | inl (replay t, e) ↦ ([], omega arith, rw e (Extends-refl s))
  | inl (enter t logs, e) ↦ (logs, create_logs w input s t logs e, rw e (Extends-change s _ logs))
  | inr (x, e) ↦ ([], omega arith, rw e (Extends-refl s))
]
run-Extends w (decide input) s = elim (Result-cases (decide_checks input s)) [
  | inl ((t, l), e) ↦ (
    decision_log w input l (decided input.decision w input.actor_user_id t) ∷ [],
    omega arith,
    rw e (Extends-change s _ _),
  )
  | inr (x, e) ↦ ([], omega arith, rw e (Extends-refl s))
]
run-Extends w (void input) s = elim (Result-cases (void_checks input s)) [
  | inl ((t, l, r), e) ↦
      (void_log w input l r (void_change w t) ∷ [], omega arith, rw e (Extends-change s _ _))
  | inr (x, e) ↦ ([], omega arith, rw e (Extends-refl s))
]
run-Extends w (pay input) s = elim (Result-cases (pay_checks input s)) [
  | inl ((t, l), e) ↦ (
    pay_log w input l (pay_change w input.actor_user_id t) ∷ [],
    omega arith,
    rw e (Extends-change s _ _),
  )
  | inr (x, e) ↦ ([], omega arith, rw e (Extends-refl s))
]
run-Extends w (receive input) s = elim (Result-cases (receive_checks input s)) [
  | inl ((t, l), e) ↦ (
    receive_log w input l (receive_change w input.actor_user_id t) ∷ [],
    omega arith,
    rw e (Extends-change s _ _),
  )
  | inr (x, e) ↦ ([], omega arith, rw e (Extends-refl s))
]

-- Over any session the audit trail only grows at its end, by at most one log for each call, and
-- users, organizations, memberships, ledgers, accounts, categories, the current user and the schema
-- version stay as they were.
pub run_all-Extends :
    (cs : List (World × Command)) (s : AppLedgerService)
    → (logs : List AuditLog) × (length logs ≤ length cs) × Extends s (run_all cs s) logs
unfolding run_all
run_all-Extends [] s = ([], omega arith, Extends-refl s)
run_all-Extends ((w, c) ∷ cs) s =
    let (l, le, e) = run-Extends w c s in
    let (m, le', e') = run_all-Extends cs (run w c s).1 in
    (
      l ++ m,
      omega (arith, length-append l m),
      Extends-trans s (run w c s).1 (run_all cs (run w c s).1) l m e e',
    )
