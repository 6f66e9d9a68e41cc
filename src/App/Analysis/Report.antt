-- ===== src/App/Analysis/Report.antt =====
-- The result of `financial_analysis` (crates/cloudledger-service/src/app.rs).
use cloud_ledger.Base.{
  ℕ, zero, suc, ◌-◌, Bool, true, false, not, ◌&&◌, ◌||◌, Option, none, some, List, [], ◌∷◌, map,
  filter, ◌==◌, nat_eq, if◌then◌else◌, Text,
}
use cloud_ledger.Base.Int.{ℤ, pos, add_i64, neg_i64, leb_ℤ, int_eq}
use cloud_ledger.Base.Map.{Map, lookup, insert, values}
use cloud_ledger.Base.Exec.{Result, ok}
use cloud_ledger.Base.Check.{◌>>=◌, ◌>>◌, ok_or, require}
use cloud_ledger.Base.Sorting.{text_leb, sort_by}
use cloud_ledger.Types.{
  Uuid, OffsetDateTime, User, Ledger, Membership, MembershipRole, FinancialAccount,
  FinancialAccountKind, transaction_kind_eq, approval_state_eq, payment_state_eq,
}
use cloud_ledger.Permissions.{Action}
use cloud_ledger.App.State.{AppLedgerService, AppServiceError}
use cloud_ledger.App.Access.{authorized}
use cloud_ledger.App.Transactions.{is_deleted}
use cloud_ledger.App.Balance.{account_balance_minor, sum_i64}
use cloud_ledger.App.Setup.{is_none, ledger_money}
use cloud_ledger.App.Calendar.{Calendar, month_start, earlier_month_start, later_month_start}
use cloud_ledger.App.Analysis.Flow.{FinancialExposure, AnalysisExpense, TrendPoint, Tally, name_or}
use cloud_ledger.App.Analysis.Loop.{analyse_transactions}

abbrev pub is_business_member_role : MembershipRole → Bool
is_business_member_role MembershipRole.owner = false
is_business_member_role MembershipRole.admin = false
is_business_member_role MembershipRole.viewer = false
is_business_member_role _ = true

abbrev pub zero_members : Uuid → List Membership → Map (ℤ × ℕ)
zero_members organization [] = []
zero_members organization (m ∷ ms) =
    let rest = zero_members organization ms in
    if m.organization_id == organization && is_business_member_role m.role
    then insert m.user_id (pos 0, 0) rest
    else rest

abbrev pub members_of_organization : Option Uuid → List Membership → Map (ℤ × ℕ)
members_of_organization none ms = []
members_of_organization (some organization) ms = zero_members organization ms

unfoldable pub business_members_for_ledger : AppLedgerService → Ledger → Map (ℤ × ℕ)
business_members_for_ledger s ledger = members_of_organization ledger.organization_id s.memberships

pub record MemberExpense : Type 0 where
  pub user_id : Uuid
  pub display_name : Text
  pub expense_minor : ℤ
  pub transaction_count : ℕ

abbrev pub member_rows : (Uuid → Text) → Map User → Map (ℤ × ℕ) → List MemberExpense
member_rows uuid_text users [] = []
member_rows uuid_text users ((id, (expense, count)) ∷ rest) =
    record {
      user_id = id;
      display_name = name_or uuid_text (lookup id users) id;
      expense_minor = expense;
      transaction_count = count;
    }
    ∷ member_rows uuid_text users rest

abbrev pub member_expense_leb : MemberExpense → MemberExpense → Bool
member_expense_leb a b =
    if a.expense_minor == b.expense_minor
    then text_leb a.display_name b.display_name
    else leb_ℤ b.expense_minor a.expense_minor

unfoldable pub member_expense_dtos : (Uuid → Text) → Map User → Map (ℤ × ℕ) → List MemberExpense
member_expense_dtos uuid_text users members =
    sort_by member_expense_leb (member_rows uuid_text users members)

pub record AnalysisAccount : Type 0 where
  pub id : Uuid
  pub name : Text
  pub kind : FinancialAccountKind
  pub balance_minor : ℤ

abbrev pub analysis_account : AppLedgerService → FinancialAccount → AnalysisAccount
analysis_account s account = record {
  id = account.id;
  name = account.name;
  kind = account.kind;
  balance_minor = account_balance_minor s account;
}

abbrev pub analysis_account_leb : AnalysisAccount → AnalysisAccount → Bool
analysis_account_leb a b =
    if a.balance_minor == b.balance_minor
    then text_leb a.name b.name
    else leb_ℤ b.balance_minor a.balance_minor

unfoldable pub analysis_accounts : AppLedgerService → Uuid → List AnalysisAccount
analysis_accounts s ledger = sort_by analysis_account_leb (
    map (analysis_account s) (
      filter (λ account. account.ledger_id == ledger && is_none account.deleted_at)
        (values s.accounts)))

pub record FinancialAnalysis : Type 0 where
  pub currency : Text
  pub months : ℕ
  pub period_start : OffsetDateTime
  pub period_end : OffsetDateTime
  pub current_balance_minor : ℤ
  pub income_minor : ℤ
  pub expense_minor : ℤ
  pub net_cash_flow_minor : ℤ
  pub previous_income_minor : ℤ
  pub previous_expense_minor : ℤ
  pub previous_net_cash_flow_minor : ℤ
  pub transaction_count : ℕ
  pub pending_approval : FinancialExposure
  pub pending_payment : FinancialExposure
  pub paid_pending_receipt : FinancialExposure
  pub trend : List TrendPoint
  pub accounts : List AnalysisAccount
  pub member_expenses : List MemberExpense
  pub largest_expenses : List AnalysisExpense

abbrev pub no_exposure : FinancialExposure
no_exposure = record { count = 0; amount_minor = pos 0 }

abbrev pub zero_point : OffsetDateTime → TrendPoint
zero_point start = record {
  start = start;
  income_minor = pos 0;
  expense_minor = pos 0;
  net_cash_flow_minor = pos 0;
}

-- The points of the months from one on.
abbrev pub zero_trend : Calendar → OffsetDateTime → ℕ → ℕ → List TrendPoint
zero_trend calendar period_start offset zero = []
zero_trend calendar period_start offset (suc months) =
    zero_point (later_month_start calendar period_start offset)
    ∷ zero_trend calendar period_start (suc offset) months

abbrev pub sub_i64 : ℤ → ℤ → ℤ
sub_i64 a b = add_i64 a (neg_i64 b)

abbrev pub with_net : TrendPoint → TrendPoint
with_net point = record point {
  net_cash_flow_minor = sub_i64 point.income_minor point.expense_minor;
}

-- The five first.
abbrev pub truncate : {A : Type 0} → ℕ → List A → List A
truncate zero xs = []
truncate (suc n) [] = []
truncate (suc n) (x ∷ xs) = x ∷ truncate n xs

abbrev pub expense_leb : (OffsetDateTime → Text) → AnalysisExpense → AnalysisExpense → Bool
expense_leb format_time a b =
    if a.amount_minor == b.amount_minor
    then text_leb (format_time b.paid_at) (format_time a.paid_at)
    else leb_ℤ b.amount_minor a.amount_minor

abbrev pub first_tally : List TrendPoint → Map (ℤ × ℕ) → Tally
first_tally trend members = record {
  income_minor = pos 0;
  expense_minor = pos 0;
  previous_income_minor = pos 0;
  previous_expense_minor = pos 0;
  transaction_count = 0;
  pending_approval = no_exposure;
  pending_payment = no_exposure;
  paid_pending_receipt = no_exposure;
  trend = trend;
  member_expenses = members;
  largest_expenses = [];
}

-- `matches!(months, 3 | 6 | 12)`
abbrev pub is_range : ℕ → Bool
is_range months = months == 3 || months == 6 || months == 12

unfoldable pub analytics_ledger : AppLedgerService → Uuid → Uuid → Result AppServiceError Ledger
analytics_ledger s actor ledger_id = do
  ledger ← ok_or (lookup ledger_id s.ledgers) AppServiceError.ledger_not_found
  require (authorized s actor ledger Action.view_financial_analytics) AppServiceError.unauthorized
  ok ledger

module _ (uuid_text : Uuid → Text) (format_time : OffsetDateTime → Text) (calendar : Calendar) where
  -- The loop over the transactions of a ledger, at a time.
  abbrev pub tallied : AppLedgerService → Ledger → Uuid → ℕ → OffsetDateTime → Tally
  tallied s ledger ledger_id months now =
      let period_start = earlier_month_start calendar (month_start calendar now) (months - 1) in
      analyse_transactions uuid_text calendar s.users period_start now
        (filter (λ t. t.ledger_id == ledger_id && not (is_deleted t)) (values s.transactions))
        (first_tally (zero_trend calendar period_start 0 months)
          (business_members_for_ledger s ledger))

  unfoldable pub analysis_of :
      AppLedgerService → Uuid → ℕ → OffsetDateTime → Tally → FinancialAnalysis
  analysis_of s ledger_id months now tally = record {
    currency = ledger_money ledger_id s.accounts;
    months = months;
    period_start = earlier_month_start calendar (month_start calendar now) (months - 1);
    period_end = now;
    current_balance_minor =
        sum_i64 (pos 0) (map (λ account. account.balance_minor) (analysis_accounts s ledger_id));
    income_minor = tally.income_minor;
    expense_minor = tally.expense_minor;
    net_cash_flow_minor = sub_i64 tally.income_minor tally.expense_minor;
    previous_income_minor = tally.previous_income_minor;
    previous_expense_minor = tally.previous_expense_minor;
    previous_net_cash_flow_minor = sub_i64 tally.previous_income_minor tally.previous_expense_minor;
    transaction_count = tally.transaction_count;
    pending_approval = tally.pending_approval;
    pending_payment = tally.pending_payment;
    paid_pending_receipt = tally.paid_pending_receipt;
    trend = map with_net tally.trend;
    accounts = analysis_accounts s ledger_id;
    member_expenses = member_expense_dtos uuid_text s.users tally.member_expenses;
    largest_expenses = truncate 5 (sort_by (expense_leb format_time) tally.largest_expenses);
  }

  unfoldable pub financial_analysis :
      AppLedgerService → OffsetDateTime → Uuid → Uuid → ℕ → Result AppServiceError FinancialAnalysis
  financial_analysis s now actor ledger_id months =
      require (is_range months) AppServiceError.invalid_analysis_range >>= λ u.
      analytics_ledger s actor ledger_id >>= λ ledger.
      ok (analysis_of s ledger_id months now (tallied s ledger ledger_id months now))
