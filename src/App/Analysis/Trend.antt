-- ===== src/App/Analysis/Trend.antt =====
-- The trend of `financial_analysis` (crates/cloudledger-service/src/app.rs) adds up to its totals.
use cloud_ledger.Base.{
  ℕ, suc, ◌+◌, ◌-◌, ◌*◌, ◌≤◌, ◌<◌, ◌≡◌, refl, sym, ap, ◌∙◌, inl, inr, ◌&&◌, ◌||◌, not, Option, none,
  some, List, [], ◌∷◌, map, filter, arith, ◌==◌, nat_eq, ltb, Text, Bool-cases, length,
}
use cloud_ledger.Base.Int.{ℤ, add_i64}
use cloud_ledger.Base.Map.{Map, values}
use cloud_ledger.Base.Exec.{ok, Result-cases}
use cloud_ledger.Types.{
  Uuid, OffsetDateTime, User, Transaction, Ledger, ApprovalState, PaymentState,
}
use cloud_ledger.App.State.{AppLedgerService}
use cloud_ledger.App.Transactions.{is_deleted}
use cloud_ledger.App.Calendar.{
  Calendar, IsCalendar, month_start, month_index, earlier_month_start, earlier_month_start-index,
  month_distance,
}
use cloud_ledger.App.Analysis.Flow.{
  transaction_cash_effective_at, TrendPoint, Tally, exposed, expose, flows, add_to_trend,
}
use cloud_ledger.App.Analysis.Loop.{
  add_expense, add_totals, add_current, add_previous, add_effective, analyse_transactions,
}
use cloud_ledger.App.Analysis.Report.{
  business_members_for_ledger, FinancialAnalysis, zero_trend, with_net, first_tally, is_range,
  analytics_ledger, tallied, analysis_of, financial_analysis,
}
use cloud_ledger.App.Analysis.Points.{
  incomes, expenses, length-add_at, incomes-add_at, expenses-add_at, zero_income, zero_expense,
  length-zero_trend, AddsUp,
}

-- Nothing but the exposures differs.
abbrev Same : Tally → Tally → Type 0
Same a b =
    (a.trend ≡ b.trend) × (a.income_minor ≡ b.income_minor) × (a.expense_minor ≡ b.expense_minor)

Same-AddsUp : (months : ℕ) (a b : Tally) → Same a b → AddsUp months b → AddsUp months a
Same-AddsUp months a b (e1, e2, e3) h = record {
  points = ap length e1 ∙ h.points;
  income = ap incomes e1 ∙ h.income ∙ sym e2;
  expense = ap expenses e1 ∙ h.expense ∙ sym e3;
}

exposed-Same :
    (approval : ApprovalState) (payment : PaymentState) (t : Transaction) (tally : Tally)
    → Same (exposed approval payment t tally) tally
exposed-Same ApprovalState.submitted payment t tally = (refl, refl, refl)
exposed-Same ApprovalState.approved PaymentState.pending_payment t tally = (refl, refl, refl)
exposed-Same ApprovalState.approved PaymentState.paid_pending_receipt t tally = (refl, refl, refl)
exposed-Same ApprovalState.approved PaymentState.not_applicable t tally = (refl, refl, refl)
exposed-Same ApprovalState.approved PaymentState.received t tally = (refl, refl, refl)
exposed-Same ApprovalState.draft payment t tally = (refl, refl, refl)
exposed-Same ApprovalState.rejected payment t tally = (refl, refl, refl)
exposed-Same ApprovalState.voided payment t tally = (refl, refl, refl)

expose-Same : (t : Transaction) (tally : Tally) → Same (expose t tally) tally
expose-Same t tally = ground (arith, exposed-Same t.approval_state t.payment_state t tally)

module _ (uuid_text : Uuid → Text) (calendar : Calendar) (users : Map User) (months : ℕ)
    (period_start now : OffsetDateTime) (laws : IsCalendar calendar)
    (first : month_index calendar period_start + (months - 1) ≡ month_index calendar now)
    (positive : 1 ≤ months) where
  expense-Same :
      (t : Transaction) (at : OffsetDateTime) (expense : ℤ) (tally : Tally)
      → Same (add_expense uuid_text calendar users period_start now t at expense tally) tally
  expense-Same t at expense tally = ground arith

  previous-Same :
      (at : OffsetDateTime) (flow : ℤ × ℤ) (tally : Tally)
      → Same (add_previous uuid_text calendar users period_start now at flow tally) tally
  previous-Same at (income, expense) tally = ground arith

  -- A time in the period lies in one of its months.
  distance-fits :
      (at : OffsetDateTime)
      → period_start ≤ at
      → at ≤ now
      → (k : ℕ) × (month_distance calendar period_start (month_start calendar at) ≡ some k)
        × (k < months)
  unfolding month_start
  distance-fits at after before =
      let same =
        laws.start_index (calendar.year at) (calendar.month at) (laws.year_low at)
          (laws.month_low at) (laws.month_high at) in
      (
        month_index calendar at - month_index calendar period_start,
        ground (arith, laws.ordered period_start at after),
        omega (arith, laws.ordered at now before),
      )

  current-AddsUp :
      (t : Transaction) (at : OffsetDateTime) (flow : ℤ × ℤ) (tally : Tally)
      → period_start ≤ at
      → at ≤ now
      → AddsUp months tally
      → AddsUp months (add_current uuid_text calendar users period_start now t at flow tally)
  current-AddsUp t at (income, expense) tally after before h =
      let (k, e, lt) = distance-fits at after before in
      let totals = add_totals uuid_text calendar users period_start now at income expense tally in
      let fits : k < length tally.trend = omega (arith, h.points) in
      Same-AddsUp months (add_expense uuid_text calendar users period_start now t at expense totals)
        totals (expense-Same t at expense totals)
        (rw (add_totals, add_to_trend, e)
          (record {
            points = length-add_at k income expense tally.trend ∙ h.points;
            income =
                incomes-add_at k income expense tally.trend fits
                ∙ ap (λ x. add_i64 x income) h.income;
            expense =
                expenses-add_at k income expense tally.trend fits
                ∙ ap (λ x. add_i64 x expense) h.expense;
          }))

  effective-AddsUp :
      (at : Option OffsetDateTime) (t : Transaction) (tally : Tally)
      → AddsUp months tally
      → AddsUp months (add_effective uuid_text calendar users period_start now at t tally)
  effective-AddsUp none t tally h = h
  effective-AddsUp (some at) t tally h =
      let flow = flows t.kind t.amount.amount_minor in
      let tally' = add_previous uuid_text calendar users period_start now at flow tally in
      let before = Same-AddsUp months tally' tally (previous-Same at flow tally) h in
      elim (Bool-cases (ltb at period_start || ltb now at)) [
        | inl outside ↦ rw (add_effective, outside) before
        | inr inside ↦
            rw (add_effective, inside)
              (current-AddsUp t at flow tally' (ground arith) (ground arith) before)
      ]

  analyse_transactions-AddsUp :
      (ts : List Transaction) (tally : Tally)
      → AddsUp months tally
      → AddsUp months (analyse_transactions uuid_text calendar users period_start now ts tally)
  analyse_transactions-AddsUp [] tally h = h
  analyse_transactions-AddsUp (t ∷ ts) tally h = analyse_transactions-AddsUp ts _ (
      effective-AddsUp (transaction_cash_effective_at t) t (expose t tally)
        (Same-AddsUp months _ _ (expose-Same t tally) h))

incomes-with_net : (trend : List TrendPoint) → incomes (map with_net trend) ≡ incomes trend
incomes-with_net [] = refl
incomes-with_net (point ∷ points) = ap (add_i64 point.income_minor) (incomes-with_net points)

expenses-with_net : (trend : List TrendPoint) → expenses (map with_net trend) ≡ expenses trend
expenses-with_net [] = refl
expenses-with_net (point ∷ points) = ap (add_i64 point.expense_minor) (expenses-with_net points)

length-with_net : (trend : List TrendPoint) → length (map with_net trend) ≡ length trend
length-with_net [] = refl
length-with_net (point ∷ points) = ap suc (length-with_net points)

tallied-AddsUp :
    (uuid_text : Uuid → Text) (format_time : OffsetDateTime → Text) (calendar : Calendar)
    (s : AppLedgerService) (ledger : Ledger) (id : Uuid) (months : ℕ) (now : OffsetDateTime)
    → IsCalendar calendar
    → 1 ≤ months
    → 11 + months ≤ calendar.year now * 12
    → AddsUp months (tallied uuid_text format_time calendar s ledger id months now)
unfolding month_start
tallied-AddsUp uuid_text format_time calendar s ledger id months now laws positive late =
    let current = month_start calendar now in
    let start = earlier_month_start calendar current (months - 1) in
    let same =
      laws.start_index (calendar.year now) (calendar.month now) (laws.year_low now)
        (laws.month_low now) (laws.month_high now) in
    let enough : 12 + (months - 1) ≤ calendar.year current * 12 = omega (
      arith,
      same,
      laws.month_low now,
      laws.month_high now,
      laws.month_low current,
      laws.month_high current,
    ) in
    let first = earlier_month_start-index calendar current (months - 1) laws enough ∙ same in
    analyse_transactions-AddsUp uuid_text calendar s.users months start now laws first positive
      (filter (λ t. t.ledger_id == id && not (is_deleted t)) (values s.transactions))
      (first_tally (zero_trend calendar start 0 months) (business_members_for_ledger s ledger))
      (record {
        points = length-zero_trend calendar start 0 months;
        income = zero_income calendar start 0 months;
        expense = zero_expense calendar start 0 months;
      })

-- In the analysis of a ledger, given a calendar by which it can be made, the trend has as many points as
-- months are asked for, and the incomes and the expenses of its points sum up to the income and the
-- expense of the analysis.
pub financial_analysis-trend :
    (uuid_text : Uuid → Text) (format_time : OffsetDateTime → Text) (calendar : Calendar)
    (s : AppLedgerService) (now : OffsetDateTime) (actor id : Uuid) (months : ℕ)
    (analysis : FinancialAnalysis)
    → IsCalendar calendar
    → 11 + months ≤ calendar.year now * 12
    → financial_analysis uuid_text format_time calendar s now actor id months ≡ ok analysis
    → (length analysis.trend ≡ months)
      × (incomes analysis.trend ≡ analysis.income_minor)
      × (expenses analysis.trend ≡ analysis.expense_minor)
unfolding financial_analysis analysis_of
financial_analysis-trend uuid_text format_time calendar s now actor id months analysis laws late e =
    elim (Bool-cases (is_range months)) [
      | inr other ↦ absurd (ground arith)
      | inl range ↦ elim (Result-cases (analytics_ledger s actor id)) [
        | inr (failure, e1) ↦ absurd (ground arith)
        | inl (ledger, e1) ↦
            let tally = tallied uuid_text format_time calendar s ledger id months now in
            let h =
              tallied-AddsUp uuid_text format_time calendar s ledger id months now laws
                (ground arith) late in
            let same : analysis ≡ analysis_of uuid_text format_time calendar s id months now tally =
              ground arith in
            rw same (
              length-with_net tally.trend ∙ h.points,
              incomes-with_net tally.trend ∙ h.income,
              expenses-with_net tally.trend ∙ h.expense,
            )
      ]
    ]
