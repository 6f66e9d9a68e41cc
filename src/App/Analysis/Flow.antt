-- ===== src/App/Analysis/Flow.antt =====
-- What a transaction adds to the variables of `financial_analysis` (crates/cloudledger-service/src/
-- app.rs).
use cloud_ledger.Base.{
  ℕ, zero, suc, ◌||◌, Option, none, some, List, [], ◌∷◌, ◌==◌, ◌!=◌, nat_eq, if◌then◌else◌, Text,
}
use cloud_ledger.Base.Int.{ℤ, pos, add_i64, int_eq}
use cloud_ledger.Base.Map.{Map, lookup, insert}
use cloud_ledger.Types.{
  Uuid, OffsetDateTime, User, Transaction, TransactionKind, ApprovalState, PaymentState,
  transaction_kind_eq, approval_state_eq, payment_state_eq,
}
use cloud_ledger.App.Transactions.{is_deleted}
use cloud_ledger.App.Identity.{unwrap_or, or_else}

abbrev pub income_time : Transaction → OffsetDateTime
income_time t = unwrap_or t.approved_at t.occurred_at

abbrev pub expense_time : Transaction → OffsetDateTime
expense_time t = unwrap_or (or_else t.paid_at t.received_at) t.occurred_at

abbrev pub effective_by_kind : TransactionKind → Transaction → Option OffsetDateTime
effective_by_kind TransactionKind.income t = some (income_time t)
effective_by_kind TransactionKind.expense t =
    if t.payment_state != PaymentState.pending_payment then some (expense_time t) else none
effective_by_kind TransactionKind.transfer t = none

unfoldable pub transaction_cash_effective_at : Transaction → Option OffsetDateTime
transaction_cash_effective_at t =
    if is_deleted t || t.approval_state != ApprovalState.approved
    then none
    else effective_by_kind t.kind t

pub record FinancialExposure : Type 0 where
  pub count : ℕ
  pub amount_minor : ℤ

unfoldable pub add_exposure : FinancialExposure → Transaction → FinancialExposure
add_exposure exposure t = record {
  count = suc exposure.count;
  amount_minor = add_i64 exposure.amount_minor t.amount.amount_minor;
}

pub record AnalysisExpense : Type 0 where
  pub transaction_id : Uuid
  pub description : Text
  pub submitted_by : Text
  pub amount_minor : ℤ
  pub paid_at : OffsetDateTime

-- The key and the label are those of the month that begins at `start`.
pub record TrendPoint : Type 0 where
  pub start : OffsetDateTime
  pub income_minor : ℤ
  pub expense_minor : ℤ
  pub net_cash_flow_minor : ℤ

-- The variables of the loop.
pub record Tally : Type 0 where
  pub income_minor : ℤ
  pub expense_minor : ℤ
  pub previous_income_minor : ℤ
  pub previous_expense_minor : ℤ
  pub transaction_count : ℕ
  pub pending_approval : FinancialExposure
  pub pending_payment : FinancialExposure
  pub paid_pending_receipt : FinancialExposure
  pub trend : List TrendPoint
  pub member_expenses : Map (ℤ × ℕ)
  pub largest_expenses : List AnalysisExpense

abbrev pub exposed : ApprovalState → PaymentState → Transaction → Tally → Tally
exposed ApprovalState.submitted payment t tally = record tally {
  pending_approval = add_exposure tally.pending_approval t;
}
exposed ApprovalState.approved PaymentState.pending_payment t tally = record tally {
  pending_payment = add_exposure tally.pending_payment t;
}
exposed ApprovalState.approved PaymentState.paid_pending_receipt t tally = record tally {
  paid_pending_receipt = add_exposure tally.paid_pending_receipt t;
}
exposed ApprovalState.approved PaymentState.not_applicable t tally = tally
exposed ApprovalState.approved PaymentState.received t tally = tally
exposed ApprovalState.draft payment t tally = tally
exposed ApprovalState.rejected payment t tally = tally
exposed ApprovalState.voided payment t tally = tally

abbrev pub expose : Transaction → Tally → Tally
expose t tally =
    if t.kind == TransactionKind.expense
    then exposed t.approval_state t.payment_state t tally
    else tally

-- The income and the expense of a transaction.
abbrev pub flows : TransactionKind → ℤ → ℤ × ℤ
flows TransactionKind.income amount = (amount, pos 0)
flows TransactionKind.expense amount = (pos 0, amount)
flows TransactionKind.transfer amount = (pos 0, pos 0)

abbrev pub add_point : ℤ → ℤ → TrendPoint → TrendPoint
add_point income expense point = record point {
  income_minor = add_i64 point.income_minor income;
  expense_minor = add_i64 point.expense_minor expense;
}

-- `if let Some(point) = trend.get_mut(index) { … }`
abbrev pub add_at : ℕ → ℤ → ℤ → List TrendPoint → List TrendPoint
add_at index income expense [] = []
add_at zero income expense (point ∷ points) = add_point income expense point ∷ points
add_at (suc index) income expense (point ∷ points) = point ∷ add_at index income expense points

abbrev pub add_to_trend : Option ℕ → ℤ → ℤ → List TrendPoint → List TrendPoint
add_to_trend none income expense trend = trend
add_to_trend (some index) income expense trend = add_at index income expense trend

-- `entry(member).or_default()`, and what it adds.
abbrev pub add_member_expense : Uuid → ℤ → Map (ℤ × ℕ) → Map (ℤ × ℕ)
add_member_expense member amount members =
    let (expense, count) = unwrap_or (lookup member members) (pos 0, 0) in
    insert member (add_i64 expense amount, suc count) members

-- The name that a user is shown under.
abbrev pub name_or : (Uuid → Text) → Option User → Uuid → Text
name_or uuid_text none id = uuid_text id
name_or uuid_text (some user) id = user.display_name
