-- ===== src/Journal/Entry.antt =====
-- crates/cloudledger-core/src/journal.rs: journal entries and their validation. Identifiers are the
-- texts of ids.rs. The totals are `i128` in the source, which no vector of `i64` amounts can overflow.
use cloud_ledger.Base.{
  ℕ, ◌≡◌, ◌↔◌, Bool, true, false, not, Option, none, some, List, [], ◌∷◌, map, arith, ◌==◌, ◌!=◌,
  nat_eq, nat_beq, PartialEq, Text, if◌then◌else◌, length, ltb,
}
use cloud_ledger.Base.Int.{ℤ, pos, ◌+ℤ◌, ltb_ℤ, int_eq}
use cloud_ledger.Base.Exec.{Result, ok, err}
use cloud_ledger.Base.Check.{◌>>=◌}
use cloud_ledger.Journal.Amount.{CurrencyCode, LedgerMoney, currency_eq, is_positive}
pub mod Validation
pub mod Largest

pub data PostingSide : Type 0 where
  debit credit : PostingSide

pub record JournalLine : Type 0 where
  pub account_id : Text
  pub side : PostingSide
  pub amount : LedgerMoney
  pub memo : Option Text

pub data JournalStatus : Type 0 where
  draft pending_approval posted rejected voided : JournalStatus

pub record JournalEntry : Type 0 where
  pub id : Text
  pub ledger_id : Text
  pub created_by : Text
  pub description : Text
  pub lines : List JournalLine
  pub status : JournalStatus

-- `JournalEntry::new`
unfoldable pub new_entry : Text → Text → Text → Text → List JournalLine → JournalEntry
new_entry id ledger creator description lines = record {
  id = id;
  ledger_id = ledger;
  created_by = creator;
  description = description;
  lines = lines;
  status = JournalStatus.draft;
}

pub data JournalValidationError : Type 0 where
  too_few_lines non_positive_amount mixed_currencies : JournalValidationError
  unbalanced : ℤ → ℤ → JournalValidationError

-- `JournalEntry::currency`, of the entry's lines
unfoldable pub first_currency : List JournalLine → Option CurrencyCode
first_currency [] = none
first_currency (line ∷ lines) = some line.amount.currency

-- What a line adds to the total of a side.
abbrev pub on_side : PostingSide → JournalLine → ℤ
on_side PostingSide.debit line = elim line.side [ debit ↦ line.amount.minor_units | credit ↦ pos 0 ]
on_side PostingSide.credit line = elim line.side [
  | debit ↦ pos 0
  | credit ↦ line.amount.minor_units
]

-- The loop of `validate`, over the debit and the credit total so far.
unfoldable pub totals :
    CurrencyCode → ℤ → ℤ → List JournalLine → Result JournalValidationError (ℤ × ℤ)
totals currency debit_total credit_total [] = ok (debit_total, credit_total)
totals currency debit_total credit_total (line ∷ lines) =
    let rest =
      totals currency (debit_total +ℤ on_side PostingSide.debit line)
        (credit_total +ℤ on_side PostingSide.credit line) lines in
    if not (is_positive line.amount)
    then err non_positive_amount
    else if line.amount.currency != currency
    then err mixed_currencies
    else rest

abbrev pub balance_test : ℤ × ℤ → Result JournalValidationError (Unit {0})
balance_test (debit_total, credit_total) =
    if debit_total != credit_total then err (unbalanced debit_total credit_total) else ok tt

abbrev validate_in :
    Option CurrencyCode → List JournalLine → Result JournalValidationError (Unit {0})
validate_in none lines = err too_few_lines
validate_in (some currency) lines = totals currency (pos 0) (pos 0) lines >>= balance_test

unfoldable pub validate : JournalEntry → Result JournalValidationError (Unit {0})
unfolding first_currency
validate entry =
    let checked = validate_in (first_currency entry.lines) entry.lines in
    if ltb (length entry.lines) 2 then err too_few_lines else checked

-- `max_by_key(|amount| amount.minor_units)`: of several largest amounts the last one.
abbrev larger : LedgerMoney → LedgerMoney → LedgerMoney
larger best m = if ltb_ℤ m.minor_units best.minor_units then best else m

unfoldable pub largest_from : LedgerMoney → List JournalLine → LedgerMoney
largest_from best [] = best
largest_from best (line ∷ lines) = largest_from (larger best line.amount) lines

abbrev largest_of : List JournalLine → Option LedgerMoney
largest_of [] = none
largest_of (line ∷ lines) = some (largest_from line.amount lines)

unfoldable pub largest_line_amount : JournalEntry → Option LedgerMoney
unfolding largest_from
largest_line_amount entry = largest_of entry.lines
