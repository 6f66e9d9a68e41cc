-- ===== src/Scenarios/Reports.antt =====
-- The analysis of the company's ledger after the employee's expense has been paid.
use cloud_ledger.Base.{
  ℕ, ◌+◌, ◌-◌, ◌*◌, ◌/◌, ◌%◌, ◌≡◌, refl, none, some, [], ◌∷◌, length, arith, Text, text,
}
use cloud_ledger.Base.Int.{pos, add_i64}
use cloud_ledger.Base.Exec.{ok}
use cloud_ledger.Base.Map.{insert}
use cloud_ledger.Types.{Uuid, LedgerKind, draft_transaction}
use cloud_ledger.App.Transactions.{pay_change, decided, approve_change}
use cloud_ledger.App.Create.{handed_in, draft_for}
use cloud_ledger.App.Access.{authorized, membership_role}
use cloud_ledger.Permissions.{can_perform}
use cloud_ledger.App.Calendar.{Calendar, IsCalendar, month_start, earlier_month_start}
use cloud_ledger.App.Analysis.Flow.{transaction_cash_effective_at}
use cloud_ledger.App.Analysis.Report.{
  FinancialAnalysis, analytics_ledger, tallied, analysis_of, financial_analysis,
}
use cloud_ledger.App.Analysis.Points.{incomes, expenses}
use cloud_ledger.App.Analysis.Trend.{financial_analysis-trend}
use cloud_ledger.Base.{trim, trim_start}
use cloud_ledger.Types.{CategoryKind}
use cloud_ledger.App.Categories.{AppCreateCategoryInput, create_category, category_checks}
use cloud_ledger.App.Categories.Distinct.{NamesDiffer, create_category-NamesDiffer}
use cloud_ledger.Scenarios.Company.{world, company}
use cloud_ledger.Scenarios.Lifecycle.{after_pay}

-- A calendar whose months last 100 units, from the first one of the year 1 on.
abbrev calendar : Calendar
calendar = record {
  year = λ t. t / 1_200 + 1;
  month = λ t. t / 100 % 12 + 1;
  calendar_month_start = λ year month. (year - 1) * 1_200 + (month - 1) * 100;
}

calendar-IsCalendar : IsCalendar calendar
calendar-IsCalendar = record {
  year_low = λ t. omega arith;
  month_low = λ t. omega arith;
  month_high = λ t. omega arith;
  start_index = λ year month low1 low2 high. omega arith;
  ordered = λ t u le. omega arith;
}

abbrev uuid_text : Uuid → Text
uuid_text id = id ∷ []

abbrev format_time : ℕ → Text
format_time t = t ∷ []

-- The analysis that the business owner asks for.
abbrev analysis : FinancialAnalysis
analysis = analysis_of uuid_text format_time calendar after_pay 21 3 5_250 (
    tallied uuid_text format_time calendar after_pay
      (record {
        id = 21;
        name = text "public";
        kind = LedgerKind.organization_public;
        owner_user_id = none;
        organization_id = some 1;
        created_at = 0;
        deleted_at = none;
      })
      21 3 5_250)

analysis_runs :
    financial_analysis uuid_text format_time calendar after_pay 5_250 10 21 3 ≡ ok analysis
unfolding financial_analysis analytics_ledger authorized can_perform membership_role
analysis_runs = refl

-- The paid expense is counted, in the first of the three months.
analysis_expense : analysis.expense_minor ≡ pos 300
unfolding analysis_of month_start earlier_month_start transaction_cash_effective_at insert handed_in
    draft_for draft_transaction pay_change decided approve_change add_i64
analysis_expense = refl

financial_analysis-trend_example :
    (length analysis.trend ≡ 3)
    × (incomes analysis.trend ≡ analysis.income_minor)
    × (expenses analysis.trend ≡ analysis.expense_minor)
financial_analysis-trend_example =
    financial_analysis-trend uuid_text format_time calendar after_pay 5_250 10 21 3 analysis
      calendar-IsCalendar (omega arith) analysis_runs

abbrev travel : AppCreateCategoryInput
travel = record {
  actor_user_id = 12;
  ledger_id = 21;
  name = text " travel ";
  kind = CategoryKind.expense;
}

travel_runs : length (create_category world travel company).1.categories ≡ 3
unfolding create_category category_checks authorized can_perform membership_role trim trim_start
    insert
travel_runs = refl

company-NamesDiffer : NamesDiffer (λ t. t) company.categories
company-NamesDiffer k j a b ea eb ledger kind name = ground arith

create_category-NamesDiffer_example :
    NamesDiffer (λ t. t) (create_category world travel company).1.categories
create_category-NamesDiffer_example =
    create_category-NamesDiffer world travel company company-NamesDiffer
