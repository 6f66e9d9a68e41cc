-- ===== src/App/Analysis/Loop.antt =====
-- The loop of `financial_analysis` (crates/cloudledger-service/src/app.rs) over the transactions.
use cloud_ledger.Base.{
  suc, ◌+◌, ◌-◌, Bool, ◌&&◌, ◌||◌, Option, none, some, List, [], ◌∷◌, nat_eq, if◌then◌else◌, ltb,
  leb, Text, push,
}
use cloud_ledger.Base.Int.{ℤ, pos, add_i64, ltb_ℤ, int_eq}
use cloud_ledger.Base.Map.{Map, lookup}
use cloud_ledger.Types.{
  Uuid, OffsetDateTime, User, Transaction, transaction_kind_eq, approval_state_eq, payment_state_eq,
}
use cloud_ledger.App.Calendar.{Calendar, month_start, month_distance}
use cloud_ledger.App.Analysis.Flow.{
  transaction_cash_effective_at, AnalysisExpense, Tally, expose, flows, add_to_trend,
  add_member_expense, name_or,
}

module _ (uuid_text : Uuid → Text) (calendar : Calendar) (users : Map User)
    (period_start now : OffsetDateTime) where
  abbrev pub expense_of : Transaction → OffsetDateTime → AnalysisExpense
  expense_of t effective_at = record {
    transaction_id = t.id;
    description = t.description;
    submitted_by = name_or uuid_text (lookup t.created_by users) t.created_by;
    amount_minor = t.amount.amount_minor;
    paid_at = effective_at;
  }

  -- The expenses of the members, and the single ones.
  abbrev pub add_expense : Transaction → OffsetDateTime → ℤ → Tally → Tally
  add_expense t effective_at expense tally =
      if ltb_ℤ (pos 0) expense
      then record tally {
        member_expenses = add_member_expense t.created_by expense tally.member_expenses;
        largest_expenses = push (expense_of t effective_at) tally.largest_expenses;
      }
      else tally

  -- The totals and the trend.
  abbrev pub add_totals : OffsetDateTime → ℤ → ℤ → Tally → Tally
  add_totals effective_at income expense tally = record tally {
    income_minor = add_i64 tally.income_minor income;
    expense_minor = add_i64 tally.expense_minor expense;
    transaction_count = suc tally.transaction_count;
    trend =
        add_to_trend (month_distance calendar period_start (month_start calendar effective_at))
          income expense tally.trend;
  }

  abbrev pub add_current : Transaction → OffsetDateTime → ℤ × ℤ → Tally → Tally
  add_current t effective_at (income, expense) tally =
      add_expense t effective_at expense (add_totals effective_at income expense tally)

  -- The period before has the length of this one.
  abbrev pub is_previous : OffsetDateTime → Bool
  is_previous effective_at =
      leb period_start (effective_at + (now - period_start)) && ltb effective_at period_start

  abbrev pub add_previous : OffsetDateTime → ℤ × ℤ → Tally → Tally
  add_previous effective_at (income, expense) tally =
      if is_previous effective_at
      then record tally {
        previous_income_minor = add_i64 tally.previous_income_minor income;
        previous_expense_minor = add_i64 tally.previous_expense_minor expense;
      }
      else tally

  abbrev pub add_effective : Option OffsetDateTime → Transaction → Tally → Tally
  add_effective none t tally = tally
  add_effective (some effective_at) t tally =
      let flow = flows t.kind t.amount.amount_minor in
      let tally' = add_previous effective_at flow tally in
      if ltb effective_at period_start || ltb now effective_at
      then tally'
      else add_current t effective_at flow tally'

  -- One round of the loop over the transactions, and the loop.
  abbrev pub analyse_transaction : Transaction → Tally → Tally
  analyse_transaction t tally = add_effective (transaction_cash_effective_at t) t (expose t tally)

  abbrev pub analyse_transactions : List Transaction → Tally → Tally
  analyse_transactions [] tally = tally
  analyse_transactions (t ∷ ts) tally = analyse_transactions ts (analyse_transaction t tally)
