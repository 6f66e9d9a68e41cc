-- ===== src/Journal/Approval/Required.antt =====
-- Which entries need an approval (crates/cloudledger-core/src/approval.rs), in terms of the lines.
use cloud_ledger.Base.{
  ◌≡◌, ◌≢◌, ◌↔◌, ◌⊎◌, inl, inr, sym, ap, subst, ◌∙◌, true, false, Option, List, arith, eq_iff,
  contains, Has, All, Some, contains_iff, All-Has, Has-Some, Some-Has,
}
use cloud_ledger.Base.Int.{◌≤ℤ◌}
use cloud_ledger.Base.Exec.{ok}
use cloud_ledger.Journal.Amount.{CurrencyCode, LedgerMoney, currency_eq}
use cloud_ledger.Journal.Book.{
  AccountingLedgerKind, personal_private, company_public, ApprovalPolicy, AccountingLedger,
}
use cloud_ledger.Journal.Entry.{JournalLine, JournalEntry, validate, largest_line_amount}
use cloud_ledger.Journal.Entry.Validation.{Fits, validate_iff}
use cloud_ledger.Journal.Entry.Largest.{AtMost, IsLargest, largest_line_amount-cases}
use cloud_ledger.Journal.Roles.{LedgerRole, role_eq}
use cloud_ledger.Journal.Approval.{
  not_required, reaches, high_value, company_requirement, requirement_of, approval_requirement,
}

abbrev pub IsPersonal : AccountingLedgerKind → Type 0
IsPersonal (personal_private owner) = Unit
IsPersonal (company_public company) = ⊥

-- The line's amount has the threshold's currency and is at least the threshold.
abbrev pub Reaches : ApprovalPolicy → JournalLine → Type 0
Reaches policy line = reaches policy line.amount ≡ true

reaches-larger :
    (policy : ApprovalPolicy) (c : CurrencyCode) (a b : LedgerMoney)
    → a.currency ≡ c
    → b.currency ≡ c
    → a.minor_units ≤ℤ b.minor_units
    → reaches policy a ≡ true
    → reaches policy b ≡ true
reaches-larger policy c a b p q le h = ground (
  arith,
  eq_iff a.currency policy.high_value_threshold.currency,
  eq_iff b.currency policy.high_value_threshold.currency,
)

largest_reaches_iff :
    (policy : ApprovalPolicy) (lines : List JournalLine) (c : CurrencyCode) (m : LedgerMoney)
    → All (Fits c) lines
    → IsLargest m lines
    → (reaches policy m ≡ true) ↔ Some (Reaches policy) lines
largest_reaches_iff policy lines c m fits ((line, found, same), most) = (
  λ h. Has-Some (Reaches policy) lines line found (subst (λ a. reaches policy a ≡ true) same h),
  λ h.
      let (other, there, reached) = Some-Has (Reaches policy) lines h in
      reaches-larger policy c other.amount m (All-Has (Fits c) lines other fits there).same
        (ap (λ a. a.currency) same ∙ (All-Has (Fits c) lines line fits found).same)
        (All-Has (AtMost m) lines other most there) reached,
)

high_value_iff :
    (policy : ApprovalPolicy) (entry : JournalEntry)
    → validate entry ≡ ok tt
    → (high_value policy (largest_line_amount entry) ≡ true) ↔ Some (Reaches policy) entry.lines
high_value_iff policy entry valid =
    let ((two, c, fits), balanced) = (validate_iff entry).0 valid in
    elim (largest_line_amount-cases entry) [
      | inl (missing, empty) ↦ absurd (ground arith)
      | inr (m, found, largest) ↦
          subst (λ o. (high_value policy o ≡ true) ↔ Some (Reaches policy) entry.lines) (sym found)
            (largest_reaches_iff policy entry.lines c m fits largest)
    ]

company_requirement_iff :
    (policy : ApprovalPolicy) (actor_roles : List LedgerRole) (largest : Option LedgerMoney)
    → (company_requirement policy actor_roles largest ≡ not_required) ↔ (
        (high_value policy largest ≢ true)
        × ((policy.company_entries_require_approval ≡ false)
            ⊎ (contains actor_roles LedgerRole.owner ≡ true)))
company_requirement_iff policy actor_roles largest = ground arith

requirement_of_iff :
    (kind : AccountingLedgerKind) (policy : ApprovalPolicy) (actor_roles : List LedgerRole)
    (largest : Option LedgerMoney)
    → (requirement_of kind policy actor_roles largest ≡ not_required)
      ↔ (IsPersonal kind ⊎ (company_requirement policy actor_roles largest ≡ not_required))
requirement_of_iff (personal_private owner) policy actor_roles largest = ground arith
requirement_of_iff (company_public company) policy actor_roles largest = ground arith

-- An entry that passes validation needs no approval exactly if its ledger is personal, or no line
-- of it reaches the threshold of the ledger's policy and either that policy asks for none or the
-- actor is an owner of the ledger.
pub approval_requirement_iff :
    (ledger : AccountingLedger) (actor_roles : List LedgerRole) (entry : JournalEntry)
    → validate entry ≡ ok tt
    → (approval_requirement ledger actor_roles entry ≡ not_required) ↔ (
        IsPersonal ledger.kind
        ⊎ (¬ Some (Reaches ledger.approval_policy) entry.lines
            × ((ledger.approval_policy.company_entries_require_approval ≡ false)
                ⊎ Has LedgerRole.owner actor_roles)))
unfolding approval_requirement
approval_requirement_iff ledger actor_roles entry valid =
    let largest = largest_line_amount entry in
    let policy = ledger.approval_policy in
    ground (
      arith,
      requirement_of_iff ledger.kind policy actor_roles largest,
      company_requirement_iff policy actor_roles largest,
      high_value_iff policy entry valid,
      contains_iff actor_roles LedgerRole.owner,
    )
