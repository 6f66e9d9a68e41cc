-- ===== src/App/Command.antt =====
-- The five methods that change transactions, as one command language.
use cloud_ledger.Base.{List, [], ◌∷◌}
use cloud_ledger.Types.{Transaction}
use cloud_ledger.App.State.{World, AppLedgerService, Method}
use cloud_ledger.App.Transactions.{
  AppDecideApprovalInput, AppVoidTransactionInput, AppMarkTransactionPaidInput,
  AppConfirmTransactionReceiptInput, decide_approval, void_transaction, mark_transaction_paid,
  confirm_transaction_receipt,
}
use cloud_ledger.App.Create.{AppCreateTransactionInput, create_transaction}

pub data Command : Type 0 where
  create : AppCreateTransactionInput → Command
  decide : AppDecideApprovalInput → Command
  void : AppVoidTransactionInput → Command
  pay : AppMarkTransactionPaidInput → Command
  receive : AppConfirmTransactionReceiptInput → Command

-- One call, in the surroundings `w`.
unfoldable pub run : World → Command → Method Transaction
run w (create input) = create_transaction w input
run w (decide input) = decide_approval w input
run w (void input) = void_transaction w input
run w (pay input) = mark_transaction_paid w input
run w (receive input) = confirm_transaction_receipt w input

-- A session: the calls in the order in which the service's lock serialises them. A call that fails
-- hands its state on as it left it.
unfoldable pub run_all : List (World × Command) → AppLedgerService → AppLedgerService
run_all [] s = s
run_all ((w, c) ∷ rest) s = run_all rest (run w c s).1
