-- ===== src/App/Calendar.antt =====
-- Months of crates/cloudledger-service/src/app.rs. The calendar of the `time` crate, in Beijing's time, is
-- a parameter: the year and the month of an instant, and the instant at which a month begins. Years
-- are positive.
use cloud_ledger.Base.{
  ℕ, ◌+◌, ◌-◌, ◌*◌, ◌/◌, ◌%◌, ◌≤◌, ◌≡◌, Option, none, some, if◌then◌else◌, leb, arith,
}
use cloud_ledger.Types.{OffsetDateTime}

pub record Calendar : Type 0 where
  pub year : OffsetDateTime → ℕ
  pub month : OffsetDateTime → ℕ
  pub calendar_month_start : ℕ → ℕ → OffsetDateTime

module _ (calendar : Calendar) where
  unfoldable pub month_start : OffsetDateTime → OffsetDateTime
  month_start value = calendar.calendar_month_start (calendar.year value) (calendar.month value)

  -- `shift_month_start`, to `back` months earlier.
  unfoldable pub earlier_month_start : OffsetDateTime → ℕ → OffsetDateTime
  earlier_month_start value back =
      let absolute_month = calendar.year value * 12 + calendar.month value - 1 - back in
      calendar.calendar_month_start (absolute_month / 12) (absolute_month % 12 + 1)

  -- `shift_month_start`, to `ahead` months later.
  unfoldable pub later_month_start : OffsetDateTime → ℕ → OffsetDateTime
  later_month_start value ahead =
      let absolute_month = calendar.year value * 12 + calendar.month value - 1 + ahead in
      calendar.calendar_month_start (absolute_month / 12) (absolute_month % 12 + 1)

  abbrev pub month_index : OffsetDateTime → ℕ
  month_index value = calendar.year value * 12 + calendar.month value

  -- `month_distance`, as the `usize::try_from` of its caller takes it.
  abbrev pub month_distance : OffsetDateTime → OffsetDateTime → Option ℕ
  month_distance start end =
      if leb (month_index start) (month_index end)
      then some (month_index end - month_index start)
      else none

-- What is relied on: years are positive, months are 1 to 12, a month begins in itself, and time does not go back.
pub record IsCalendar (calendar : Calendar) : Type 0 where
  pub year_low : (t : OffsetDateTime) → 1 ≤ calendar.year t
  pub month_low : (t : OffsetDateTime) → 1 ≤ calendar.month t
  pub month_high : (t : OffsetDateTime) → calendar.month t ≤ 12
  pub start_index :
      (year month : ℕ)
      → 1 ≤ year
      → 1 ≤ month
      → month ≤ 12
      → month_index calendar (calendar.calendar_month_start year month) ≡ year * 12 + month
  pub ordered : (t u : OffsetDateTime) → t ≤ u → month_index calendar t ≤ month_index calendar u

-- The month that begins `back` months before the one of a time.
pub earlier_month_start-index :
    (calendar : Calendar) (now : OffsetDateTime) (back : ℕ)
    → IsCalendar calendar
    → 12 + back ≤ calendar.year now * 12
    → month_index calendar (earlier_month_start calendar now back) + back ≡ month_index calendar now
unfolding earlier_month_start
earlier_month_start-index calendar now back laws late =
    let absolute_month = calendar.year now * 12 + calendar.month now - 1 - back in
    omega (
      arith,
      laws.month_low now,
      laws.start_index (absolute_month / 12) (absolute_month % 12 + 1)
          (omega (arith, laws.month_low now)) (omega arith) (omega arith),
    )
