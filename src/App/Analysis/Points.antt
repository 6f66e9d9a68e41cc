-- ===== src/App/Analysis/Points.antt =====
-- Sums over the points of a trend (crates/cloudledger-service/src/app.rs).
use cloud_ledger.Base.{
  ℕ, zero, suc, ◌+◌, ◌%◌, ◌<◌, ◌≡◌, refl, ap, List, [], ◌∷◌, map, arith, nat_eq, length,
}
use cloud_ledger.Base.Int.{ℤ, pos, add_i64, i64_bits, of_i64_bits, i64_bits-of}
use cloud_ledger.Types.{OffsetDateTime}
use cloud_ledger.App.Calendar.{Calendar}
use cloud_ledger.App.Analysis.Flow.{TrendPoint, Tally, add_at}
use cloud_ledger.App.Analysis.Report.{zero_trend}

-- The sum of the amounts, as an `i64` is summed up.
abbrev pub total : List ℤ → ℤ
total [] = pos 0
total (x ∷ xs) = add_i64 x (total xs)

add_i64_exchange : (a b c : ℤ) → add_i64 (add_i64 a b) c ≡ add_i64 (add_i64 a c) b
unfolding add_i64
add_i64_exchange a b c =
    rw
      (
        i64_bits-of ((i64_bits a + i64_bits b) % 18446744073709551616) (omega arith),
        i64_bits-of ((i64_bits a + i64_bits c) % 18446744073709551616) (omega arith),
      )
      (ap of_i64_bits (omega arith))

add_i64_assoc : (a b c : ℤ) → add_i64 a (add_i64 b c) ≡ add_i64 (add_i64 a b) c
unfolding add_i64
add_i64_assoc a b c =
    rw
      (
        i64_bits-of ((i64_bits a + i64_bits b) % 18446744073709551616) (omega arith),
        i64_bits-of ((i64_bits b + i64_bits c) % 18446744073709551616) (omega arith),
      )
      (ap of_i64_bits (omega arith))

abbrev pub incomes : List TrendPoint → ℤ
incomes trend = total (map (λ point. point.income_minor) trend)

abbrev pub expenses : List TrendPoint → ℤ
expenses trend = total (map (λ point. point.expense_minor) trend)

pub length-add_at :
    (index : ℕ) (income expense : ℤ) (trend : List TrendPoint)
    → length (add_at index income expense trend) ≡ length trend
length-add_at index income expense [] = refl
length-add_at zero income expense (point ∷ points) = refl
length-add_at (suc index) income expense (point ∷ points) =
    ap suc (length-add_at index income expense points)

pub incomes-add_at :
    (index : ℕ) (income expense : ℤ) (trend : List TrendPoint)
    → index < length trend
    → incomes (add_at index income expense trend) ≡ add_i64 (incomes trend) income
incomes-add_at index income expense [] lt = absurd (ground arith)
incomes-add_at zero income expense (point ∷ points) lt =
    add_i64_exchange point.income_minor income (incomes points)
incomes-add_at (suc index) income expense (point ∷ points) lt =
    rw (incomes-add_at index income expense points (omega arith))
      (add_i64_assoc point.income_minor (incomes points) income)

pub expenses-add_at :
    (index : ℕ) (income expense : ℤ) (trend : List TrendPoint)
    → index < length trend
    → expenses (add_at index income expense trend) ≡ add_i64 (expenses trend) expense
expenses-add_at index income expense [] lt = absurd (ground arith)
expenses-add_at zero income expense (point ∷ points) lt =
    add_i64_exchange point.expense_minor expense (expenses points)
expenses-add_at (suc index) income expense (point ∷ points) lt =
    rw (expenses-add_at index income expense points (omega arith))
      (add_i64_assoc point.expense_minor (expenses points) expense)

module _ (calendar : Calendar) (period_start : OffsetDateTime) where
  pub zero_income : (offset n : ℕ) → incomes (zero_trend calendar period_start offset n) ≡ pos 0
  unfolding add_i64
  zero_income offset zero = refl
  zero_income offset (suc n) = rw (zero_income (suc offset) n) refl

  pub zero_expense : (offset n : ℕ) → expenses (zero_trend calendar period_start offset n) ≡ pos 0
  unfolding add_i64
  zero_expense offset zero = refl
  zero_expense offset (suc n) = rw (zero_expense (suc offset) n) refl

  pub length-zero_trend : (offset n : ℕ) → length (zero_trend calendar period_start offset n) ≡ n
  length-zero_trend offset zero = refl
  length-zero_trend offset (suc n) = ap suc (length-zero_trend (suc offset) n)

-- The points, as many as months, add up to the totals.
pub record AddsUp (months : ℕ) (tally : Tally) : Type 0 where
  pub points : length tally.trend ≡ months
  pub income : incomes tally.trend ≡ tally.income_minor
  pub expense : expenses tally.trend ≡ tally.expense_minor
