-- ===== src/Journal/Book.antt =====
-- crates/cloudledger-core/src/ledger.rs (there `book`): ledgers and their approval policies. The
-- approval numbers are `u8`.
use cloud_ledger.Base.{
  ℕ, Bool, true, false, Option, none, some, max, Text, if◌then◌else◌, ◌==◌, ◌^◌, ◌-◌,
}
use cloud_ledger.Base.Int.{ℤ, pos}
use cloud_ledger.Journal.Amount.{CurrencyCode, LedgerMoney, currency_eq}

-- `LedgerKind` of ledger.rs
pub data AccountingLedgerKind : Type 0 where
  personal_private : Text → AccountingLedgerKind
  company_public : Text → AccountingLedgerKind

pub record ApprovalPolicy : Type 0 where
  pub company_entries_require_approval : Bool
  pub high_value_threshold : LedgerMoney
  pub min_approvals : ℕ

abbrev pub i64_max : ℤ
i64_max = pos (2 ^ 63 - 1)

-- `ApprovalPolicy::personal`
unfoldable pub personal_policy : CurrencyCode → ApprovalPolicy
personal_policy base_currency = record {
  company_entries_require_approval = false;
  high_value_threshold = record { currency = base_currency; minor_units = i64_max };
  min_approvals = 0;
}

-- `ApprovalPolicy::company`
unfoldable pub company_policy : LedgerMoney → ApprovalPolicy
company_policy high_value_threshold = record {
  company_entries_require_approval = true;
  high_value_threshold = high_value_threshold;
  min_approvals = 1;
}

unfoldable pub with_min_approvals : ℕ → ApprovalPolicy → ApprovalPolicy
with_min_approvals n policy = record policy { min_approvals = max n 1 }

-- `Ledger` of ledger.rs
pub record AccountingLedger : Type 0 where
  pub id : Text
  pub name : Text
  pub base_currency : CurrencyCode
  pub kind : AccountingLedgerKind
  pub approval_policy : ApprovalPolicy

-- `Ledger::personal`
unfoldable pub personal_accounting_ledger : Text → Text → Text → CurrencyCode → AccountingLedger
unfolding personal_policy
personal_accounting_ledger id owner name base_currency = record {
  id = id;
  name = name;
  base_currency = base_currency;
  kind = personal_private owner;
  approval_policy = personal_policy base_currency;
}

-- `Ledger::company`; none for the panic of its `assert!`.
unfoldable pub company_accounting_ledger :
    Text → Text → Text → CurrencyCode → LedgerMoney → Option AccountingLedger
unfolding company_policy
company_accounting_ledger id company name base_currency high_value_threshold =
    if base_currency == high_value_threshold.currency
    then some (record {
      id = id;
      name = name;
      base_currency = base_currency;
      kind = company_public company;
      approval_policy = company_policy high_value_threshold;
    })
    else none
