-- ===== src/Journal/Amount.antt =====
-- crates/cloudledger-core/src/amount.rs: currency codes and amounts of the journal.
use cloud_ledger.Base.{
  ℕ, ◌≡◌, ◌≢◌, ◌↔◌, ◌⊎◌, inl, inr, refl, ap, Bool, true, false, not, ◌&&◌, ◌||◌, Option, none, some,
  List, [], ◌∷◌, arith, ◌==◌, ◌!=◌, nat_eq, PartialEq, Text, text_eq, text_beq, text_beq_iff,
  if◌then◌else◌, trim, is_empty, byte_len, all, is_ascii_uppercase, to_ascii_uppercase, eq_iff,
}
use cloud_ledger.Base.Int.{ℤ, pos, ltb_ℤ, checked_add_i64}
use cloud_ledger.Base.Exec.{Result, ok, err}
pub mod Codes

-- `CurrencyCode(String)`
pub record CurrencyCode : Type 0 where
  pub as_str : Text

pub data CurrencyCodeError : Type 0 where
  empty : CurrencyCodeError
  invalid_format : Text → CurrencyCodeError

unfoldable pub try_new : Text → Result CurrencyCodeError CurrencyCode
try_new value =
    let normalized = to_ascii_uppercase (trim value) in
    if is_empty (trim value)
    then err empty
    else if byte_len normalized != 3 || not (all is_ascii_uppercase normalized)
    then err (invalid_format value)
    else ok (record { as_str = normalized })

abbrev pub currency_beq : CurrencyCode → CurrencyCode → Bool
currency_beq c d = text_beq c.as_str d.as_str

pub currency_beq_iff : (c d : CurrencyCode) → (currency_beq c d ≡ true) ↔ (c ≡ d)
currency_beq_iff c d = ground (arith, text_beq_iff c.as_str d.as_str)

instance abbrev pub currency_eq : PartialEq CurrencyCode
currency_eq = record { same = currency_beq; same_iff = currency_beq_iff }

-- The crate's `LedgerMoney`, there declared as `Money`.
pub record LedgerMoney : Type 0 where
  pub currency : CurrencyCode
  pub minor_units : ℤ

unfoldable pub zero_money : CurrencyCode → LedgerMoney
zero_money currency = record { currency = currency; minor_units = pos 0 }

unfoldable pub is_positive : LedgerMoney → Bool
is_positive m = ltb_ℤ (pos 0) m.minor_units

unfoldable pub same_currency : LedgerMoney → LedgerMoney → Bool
same_currency m n = m.currency == n.currency

abbrev with_units : CurrencyCode → Option ℤ → Option LedgerMoney
with_units currency none = none
with_units currency (some units) = some (record { currency = currency; minor_units = units })

unfoldable pub add_same_currency : LedgerMoney → LedgerMoney → Option LedgerMoney
unfolding same_currency
add_same_currency m n =
    if not (same_currency m n)
    then none
    else with_units m.currency (checked_add_i64 m.minor_units n.minor_units)
