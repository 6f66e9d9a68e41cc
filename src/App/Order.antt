-- ===== src/App/Order.antt =====
-- The transactions of the service stay in ascending order of their UUIDs, as in a `BTreeMap`.
use cloud_ledger.Base.{inl, inr, List, [], ◌∷◌}
use cloud_ledger.Base.Sorted.{IsSorted, insert-IsSorted}
use cloud_ledger.Base.Exec.{Result-cases}
use cloud_ledger.App.State.{World, AppLedgerService}
use cloud_ledger.App.Transactions.{
  decide_approval, void_transaction, mark_transaction_paid, confirm_transaction_receipt,
  decide_checks, void_checks, pay_checks, receive_checks,
}
use cloud_ledger.App.Create.{create_transaction, create_checks, replay, enter}
use cloud_ledger.App.Command.{Command, create, decide, void, pay, receive, run, run_all}

run-IsSorted :
    (w : World) (c : Command) (s : AppLedgerService)
    → IsSorted s.transactions
    → IsSorted (run w c s).1.transactions
unfolding run decide_approval void_transaction mark_transaction_paid confirm_transaction_receipt
    create_transaction
run-IsSorted w (create input) s h = elim (Result-cases (create_checks w input s)) [
  | inl (replay t, e) ↦ rw e h
  | inl (enter t logs, e) ↦ rw e (insert-IsSorted _ _ s.transactions h)
  | inr (x, e) ↦ rw e h
]
run-IsSorted w (decide input) s h = elim (Result-cases (decide_checks input s)) [
  | inl ((t, l), e) ↦ rw e (insert-IsSorted _ _ s.transactions h)
  | inr (x, e) ↦ rw e h
]
run-IsSorted w (void input) s h = elim (Result-cases (void_checks input s)) [
  | inl ((t, l, r), e) ↦ rw e (insert-IsSorted _ _ s.transactions h)
  | inr (x, e) ↦ rw e h
]
run-IsSorted w (pay input) s h = elim (Result-cases (pay_checks input s)) [
  | inl ((t, l), e) ↦ rw e (insert-IsSorted _ _ s.transactions h)
  | inr (x, e) ↦ rw e h
]
run-IsSorted w (receive input) s h = elim (Result-cases (receive_checks input s)) [
  | inl ((t, l), e) ↦ rw e (insert-IsSorted _ _ s.transactions h)
  | inr (x, e) ↦ rw e h
]

-- Every session keeps the transactions in ascending order of their keys.
pub run_all-IsSorted :
    (cs : List (World × Command)) (s : AppLedgerService)
    → IsSorted s.transactions
    → IsSorted (run_all cs s).transactions
unfolding run_all
run_all-IsSorted [] s h = h
run_all-IsSorted ((w, c) ∷ cs) s h = run_all-IsSorted cs (run w c s).1 (run-IsSorted w c s h)
