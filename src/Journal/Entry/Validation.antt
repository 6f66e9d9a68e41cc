-- ===== src/Journal/Entry/Validation.antt =====
-- Validation accepts exactly the balanced entries of double-entry bookkeeping, and its totals
-- cannot overflow (crates/cloudledger-core/src/journal.rs).
use cloud_ledger.Base.{
  ◌≤◌, ◌≡◌, ◌≢◌, ◌↔◌, ◌⊎◌, inl, inr, refl, sym, ap, ap₂, ◌∙◌, true, some, List, [], ◌∷◌, arith,
  length, All, Option-cases, Bool-cases, ◌==◌,
}
use cloud_ledger.Base.Int.{ℤ, pos, ◌+ℤ◌, int_laws, int_beq_iff}
use cloud_ledger.Base.Exec.{Result, ok, err, Result-cases}
use cloud_ledger.Journal.Amount.{CurrencyCode, is_positive, currency_beq_iff, currency_eq}
use cloud_ledger.Journal.Entry.{
  JournalLine, JournalEntry, PostingSide, JournalValidationError, unbalanced, totals, validate,
  balance_test, non_positive_amount, mixed_currencies, on_side, first_currency,
}

-- A line that validation accepts.
pub record Fits (currency : CurrencyCode) (line : JournalLine) : Type 0 where
  pub positive : is_positive line.amount ≡ true
  pub same : line.amount.currency ≡ currency

-- The sum of the amounts of one side.
abbrev pub side_sum : PostingSide → List JournalLine → ℤ
side_sum side [] = pos 0
side_sum side (line ∷ lines) = on_side side line +ℤ side_sum side lines

+ℤ_assoc : (a b c : ℤ) → a +ℤ b +ℤ c ≡ a +ℤ (b +ℤ c)
+ℤ_assoc a b c = omega int_laws

+ℤ_zero : (a : ℤ) → a +ℤ pos 0 ≡ a
+ℤ_zero a = omega int_laws

module _ (currency : CurrencyCode) where
  totals_fit :
      (lines : List JournalLine) (d k : ℤ) (r : ℤ × ℤ)
      → totals currency d k lines ≡ ok r
      → All (Fits currency) lines
  unfolding totals
  totals_fit [] d k r h = tt
  totals_fit (line ∷ lines) d k r h = (
    ground (arith, currency_beq_iff line.amount.currency currency),
    totals_fit lines (d +ℤ on_side PostingSide.debit line) (k +ℤ on_side PostingSide.credit line) r
        (ground arith),
  )

  -- Over lines that fit, the loop computes the two sums.
  totals_sum :
      (lines : List JournalLine) (d k : ℤ)
      → All (Fits currency) lines
      → totals currency d k lines
        ≡ ok (d +ℤ side_sum PostingSide.debit lines, k +ℤ side_sum PostingSide.credit lines)
  unfolding totals
  totals_sum [] d k h = rw (+ℤ_zero d, +ℤ_zero k) refl
  totals_sum (line ∷ lines) d k h =
      rw
        (
          ← +ℤ_assoc d (on_side PostingSide.debit line) (side_sum PostingSide.debit lines),
          ← +ℤ_assoc k (on_side PostingSide.credit line) (side_sum PostingSide.credit lines),
        )
        (ground (
          arith,
          currency_beq_iff line.amount.currency currency,
          totals_sum lines (d +ℤ on_side PostingSide.debit line)
              (k +ℤ on_side PostingSide.credit line) h.1,
        ))

-- The lines fit together: two or more, positive, of one currency.
abbrev pub WellFormed : List JournalLine → Type 0
WellFormed lines = (2 ≤ length lines) × (c : CurrencyCode) × All (Fits c) lines

-- What validation says of lines of one currency.
validate_in_one :
    (entry : JournalEntry) (c : CurrencyCode)
    → 2 ≤ length entry.lines
    → first_currency entry.lines ≡ some c
    → All (Fits c) entry.lines
    → validate entry
      ≡ balance_test (
        pos 0 +ℤ side_sum PostingSide.debit entry.lines,
        pos 0 +ℤ side_sum PostingSide.credit entry.lines,
      )
unfolding validate
validate_in_one entry c two first fits =
    ground (arith, totals_sum c entry.lines (pos 0) (pos 0) fits)

first_currency-Fits :
    (c : CurrencyCode) (lines : List JournalLine)
    → 2 ≤ length lines
    → All (Fits c) lines
    → first_currency lines ≡ some c
unfolding first_currency
first_currency-Fits c [] two fits = absurd (omega arith)
first_currency-Fits c (line ∷ lines) two fits = ap some fits.0.same

zero_+ℤ : (a : ℤ) → pos 0 +ℤ a ≡ a
zero_+ℤ a = omega int_laws

validate-WellFormed :
    (entry : JournalEntry)
    → WellFormed entry.lines
    → validate entry
      ≡ balance_test
          (side_sum PostingSide.debit entry.lines, side_sum PostingSide.credit entry.lines)
validate-WellFormed entry (two, c, fits) =
    validate_in_one entry c two (first_currency-Fits c entry.lines two fits) fits
    ∙ ap₂ (λ d k. balance_test (d, k)) (zero_+ℤ _) (zero_+ℤ _)

-- The loop only stops at a line that does not fit.
totals_error :
    (currency : CurrencyCode) (lines : List JournalLine) (d k : ℤ) (x : JournalValidationError)
    → totals currency d k lines ≡ err x
    → (x ≡ non_positive_amount) ⊎ (x ≡ mixed_currencies)
unfolding totals
totals_error currency [] d k x h = absurd (ground arith)
totals_error currency (line ∷ lines) d k x h = elim (Bool-cases (is_positive line.amount)) [
  | inl p ↦ elim (Bool-cases (line.amount.currency == currency)) [
    | inl q ↦
        totals_error currency lines (d +ℤ on_side PostingSide.debit line)
          (k +ℤ on_side PostingSide.credit line) x (ground arith)
    | inr q ↦ inr (ground arith)
  ]
  | inr p ↦ inl (ground arith)
]

-- Validation goes through to the test of the balance only over lines that fit together.
totals_reached :
    (entry : JournalEntry) (r : Result JournalValidationError (Unit {0}))
    → validate entry ≡ r
    → (r ≡ ok tt) ⊎ ((d : ℤ) × (k : ℤ) × (r ≡ err (unbalanced d k)))
    → WellFormed entry.lines
unfolding validate
totals_reached entry r h final = elim (Option-cases (first_currency entry.lines)) [
  | inl missing ↦ absurd (ground arith)
  | inr (c, e) ↦ elim (Result-cases (totals c (pos 0) (pos 0) entry.lines)) [
    | inl (p, e') ↦ (ground arith, c, totals_fit c entry.lines (pos 0) (pos 0) p e')
    | inr (x, e') ↦ elim (totals_error c entry.lines (pos 0) (pos 0) x e') [
      | inl e'' ↦ absurd (ground arith)
      | inr e'' ↦ absurd (ground arith)
    ]
  ]
]

sums_equal : (d k : ℤ) → (balance_test (d, k) ≡ ok tt) ↔ (d ≡ k)
sums_equal d k = ground (arith, int_beq_iff d k)

-- Validation accepts an entry exactly when it has two lines or more, every line has a positive
-- amount, all amounts are of one currency, and the debits sum up to the credits.
pub validate_iff :
    (entry : JournalEntry)
    → (validate entry ≡ ok tt) ↔ (
        WellFormed entry.lines
        × (side_sum PostingSide.debit entry.lines ≡ side_sum PostingSide.credit entry.lines))
validate_iff entry = (
  λ h.
      let formed = totals_reached entry (ok tt) h (inl refl) in
      (formed, (sums_equal _ _).0 (sym (validate-WellFormed entry formed) ∙ h)),
  λ (formed, same). validate-WellFormed entry formed ∙ (sums_equal _ _).1 same,
)

unbalanced_sums :
    (d k d' k' : ℤ) → balance_test (d, k) ≡ err (unbalanced d' k') → (d ≡ d') × (k ≡ k') × (d ≢ k)
unbalanced_sums d k d' k' h = ground (arith, int_beq_iff d k)

sums_unbalanced : (d k : ℤ) → d ≢ k → balance_test (d, k) ≡ err (unbalanced d k)
sums_unbalanced d k h = ground (arith, int_beq_iff d k)

-- Validation refuses an entry as unbalanced exactly when its lines fit together and the debits do
-- not sum up to the credits, and the error carries the two sums.
pub validate_unbalanced_iff :
    (entry : JournalEntry) (d k : ℤ)
    → (validate entry ≡ err (unbalanced d k)) ↔ (
        WellFormed entry.lines
        × (side_sum PostingSide.debit entry.lines ≡ d)
        × (side_sum PostingSide.credit entry.lines ≡ k)
        × (d ≢ k))
validate_unbalanced_iff entry d k = (
  λ h.
      let formed = totals_reached entry (err (unbalanced d k)) h (inr (d, k, refl)) in
      let (same_d, same_k, differ) =
        unbalanced_sums _ _ d k (sym (validate-WellFormed entry formed) ∙ h) in
      (formed, same_d, same_k, λ e. differ (same_d ∙ e ∙ sym same_k)),
  λ (formed, same_d, same_k, differ).
      validate-WellFormed entry formed
      ∙ ap₂ (λ x y. balance_test (x, y)) same_d same_k
      ∙ sums_unbalanced d k differ,
)
