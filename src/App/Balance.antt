-- ===== src/App/Balance.antt =====
-- `account_balance_minor` of crates/cloudledger-service/src/app.rs, in `i64` arithmetic that wraps
-- around (as a release build does; a debug build stops at an overflow).
use cloud_ledger.Base.{
  ℕ, Bool, true, false, ◌&&◌, not, Option, none, some, List, [], ◌∷◌, map, ◌==◌, ◌!=◌, nat_eq,
  filter,
}
use cloud_ledger.Base.Int.{ℤ, pos, add_i64, neg_i64}
use cloud_ledger.Base.Map.{values}
use cloud_ledger.Types.{
  FinancialAccount, Transaction, TransactionKind, ApprovalState, PaymentState, approval_state_eq,
  payment_state_eq,
}
use cloud_ledger.App.State.{AppLedgerService}
use cloud_ledger.App.Transactions.{is_deleted}
pub mod Exact
pub mod Effects

abbrev kind_affects : TransactionKind → PaymentState → Bool
kind_affects TransactionKind.income payment = true
kind_affects TransactionKind.expense payment = payment != PaymentState.pending_payment
kind_affects TransactionKind.transfer payment = false

unfoldable pub transaction_affects_balance : Transaction → Bool
transaction_affects_balance t =
    t.approval_state == ApprovalState.approved && kind_affects t.kind t.payment_state

abbrev signed_by_kind : TransactionKind → ℤ → ℤ
signed_by_kind TransactionKind.income amount = amount
signed_by_kind TransactionKind.expense amount = neg_i64 amount
signed_by_kind TransactionKind.transfer amount = pos 0

-- The closure of `map`: what a counted transaction adds.
unfoldable pub signed_amount : Transaction → ℤ
signed_amount t = signed_by_kind t.kind t.amount.amount_minor

-- The closure of `filter`.
unfoldable pub counts_for : FinancialAccount → Transaction → Bool
unfolding transaction_affects_balance
counts_for account t =
    t.account_id == account.id && not (is_deleted t) && transaction_affects_balance t

-- `Iterator::sum` for `i64`
pub sum_i64 : ℤ → List ℤ → ℤ
sum_i64 acc [] = acc
sum_i64 acc (x ∷ xs) = sum_i64 (add_i64 acc x) xs

unfoldable pub account_balance_minor : AppLedgerService → FinancialAccount → ℤ
unfolding sum_i64 signed_amount counts_for
account_balance_minor s account =
    let transaction_delta =
      sum_i64 (pos 0) (map signed_amount (filter (counts_for account) (values s.transactions))) in
    add_i64 account.opening_balance.amount_minor transaction_delta
