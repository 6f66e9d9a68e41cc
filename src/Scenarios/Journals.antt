-- ===== src/Scenarios/Journals.antt =====
-- A company ledger of the double-entry journal, and the results at it.
use cloud_ledger.Base.{
  ℕ, ◌≤◌, ◌≡◌, ◌≢◌, ◌↔◌, ◌⊎◌, refl, true, false, none, List, [], ◌∷◌, Text, text, trim, Has, Some,
  arith,
}
use cloud_ledger.Base.Int.{pos, ◌+ℤ◌}
use cloud_ledger.Base.Exec.{ok, err}
use cloud_ledger.Journal.Amount.{CurrencyCode, LedgerMoney, is_positive, try_new}
use cloud_ledger.Journal.Book.{AccountingLedger, company_public}
use cloud_ledger.Journal.Entry.{
  PostingSide, JournalLine, JournalStatus, JournalEntry, totals, validate, unbalanced,
}
use cloud_ledger.Journal.Entry.Validation.{
  WellFormed, side_sum, validate_iff, validate_unbalanced_iff,
}
use cloud_ledger.Journal.Roles.{LedgerRole, LedgerMember, LedgerAction, has_permission, role_allows}
use cloud_ledger.Journal.Roles.Holds.{Holds, has_permission_iff}
use cloud_ledger.Journal.Approval.{
  ApprovalRequirementDetail, ApprovalReason, ApprovalVote, ApprovalStatus, ApprovalDecision,
  ApprovalRequest, new_request, add_decision, not_required, approval_requirement,
}
use cloud_ledger.Journal.Approval.Required.{IsPersonal, Reaches, approval_requirement_iff}
use cloud_ledger.Journal.Approval.Votes.{IsValid, vote_all, vote_all-IsValid, vote_all-closed}

abbrev pub yuan : CurrencyCode
yuan = record { as_str = text "CNY" }

abbrev pub cny : ℕ → LedgerMoney
cny units = record { currency = yuan; minor_units = pos units }

abbrev pub posting : PostingSide → ℕ → JournalLine
posting side units = record {
  account_id = text "cash";
  side = side;
  amount = cny units;
  memo = none;
}

abbrev pub expense : ℕ → ℕ → JournalEntry
expense debits credits = record {
  id = text "entry";
  ledger_id = text "company";
  created_by = text "bookkeeper";
  description = text "Expense";
  lines = posting PostingSide.debit debits ∷ posting PostingSide.credit credits ∷ [];
  status = JournalStatus.draft;
}

trimmed_yuan : try_new (text " cny ") ≡ ok yuan
unfolding try_new trim
trimmed_yuan = refl

validate_iff_example : (validate (expense 20 20) ≡ ok tt) ↔ (
    WellFormed (expense 20 20).lines
    × (side_sum PostingSide.debit (expense 20 20).lines
        ≡ side_sum PostingSide.credit (expense 20 20).lines))
validate_iff_example = validate_iff (expense 20 20)

validate_unbalanced_iff_example :
    (validate (expense 20 30) ≡ err (unbalanced (pos 20) (pos 30))) ↔ (
      WellFormed (expense 20 30).lines
      × (side_sum PostingSide.debit (expense 20 30).lines ≡ pos 20)
      × (side_sum PostingSide.credit (expense 20 30).lines ≡ pos 30)
      × (pos 20 ≢ pos 30))
validate_unbalanced_iff_example = validate_unbalanced_iff (expense 20 30) (pos 20) (pos 30)

valid_expense : validate (expense 20 20) ≡ ok tt
unfolding validate totals is_positive ◌+ℤ◌
valid_expense = refl

abbrev pub company_books : AccountingLedger
company_books = record {
  id = text "company";
  name = text "ACME";
  base_currency = yuan;
  kind = company_public (text "acme");
  approval_policy = record {
    company_entries_require_approval = true;
    high_value_threshold = cny 10000;
    min_approvals = 1;
  };
}

abbrev pub company_members : List LedgerMember
company_members =
    record { ledger_id = text "company"; user_id = text "bookkeeper"; role = LedgerRole.bookkeeper }
    ∷ record { ledger_id = text "company"; user_id = text "approver"; role = LedgerRole.approver }
    ∷ []

has_permission_iff_example :
    (has_permission company_books company_members (text "bookkeeper") LedgerAction.submit_entry
      ≡ true)
    ↔ ((role : LedgerRole) × Holds company_books company_members (text "bookkeeper") role
        × (role_allows role LedgerAction.submit_entry ≡ true))
has_permission_iff_example =
    has_permission_iff company_books company_members (text "bookkeeper") LedgerAction.submit_entry

approval_requirement_iff_example :
    (approval_requirement company_books (LedgerRole.owner ∷ []) (expense 20 20) ≡ not_required) ↔ (
      IsPersonal company_books.kind
      ⊎ (¬ Some (Reaches company_books.approval_policy) (expense 20 20).lines
          × ((company_books.approval_policy.company_entries_require_approval ≡ false)
              ⊎ Has LedgerRole.owner (LedgerRole.owner ∷ []))))
approval_requirement_iff_example =
    approval_requirement_iff company_books (LedgerRole.owner ∷ []) (expense 20 20) valid_expense

abbrev pub needed : ApprovalRequirementDetail
needed = record {
  min_approvals = 1;
  required_roles = LedgerRole.approver ∷ LedgerRole.owner ∷ [];
  reason = ApprovalReason.company_ledger;
}

abbrev pub vote_of : Text → ApprovalVote → ApprovalDecision
vote_of user vote = record {
  approver_id = user;
  role = LedgerRole.approver;
  vote = vote;
  note = none;
}

abbrev pub votes : List ApprovalDecision
votes =
    vote_of (text "approver") ApprovalVote.approve
    ∷ vote_of (text "approver") ApprovalVote.reject
    ∷ []

abbrev pub new_vote : ApprovalRequest
new_vote = record {
  id = text "approval:entry";
  ledger_id = text "company";
  entry_id = text "entry";
  submitted_by = text "bookkeeper";
  requirement = needed;
  status = ApprovalStatus.pending;
  decisions = [];
}

abbrev pub closed_request : ApprovalRequest
closed_request = record {
  id = text "approval:entry";
  ledger_id = text "company";
  entry_id = text "entry";
  submitted_by = text "bookkeeper";
  requirement = needed;
  status = ApprovalStatus.approved;
  decisions = vote_of (text "approver") ApprovalVote.approve ∷ [];
}

-- The first vote approves the request; the second comes too late.
votes_close : vote_all votes new_vote ≡ closed_request
unfolding vote_all add_decision
votes_close = refl

one_is_enough : 1 ≤ needed.min_approvals
one_is_enough = ground arith

vote_all-IsValid_example : IsValid (
    vote_all votes (
      new_request
        (text "approval:entry")
        (text "company")
        (text "entry")
        (text "bookkeeper")
        needed))
vote_all-IsValid_example =
    vote_all-IsValid votes (text "approval:entry") (text "company") (text "entry")
      (text "bookkeeper") needed one_is_enough

closed_differs : closed_request.status ≢ ApprovalStatus.pending
closed_differs e = cc

vote_all-closed_example : vote_all votes closed_request ≡ closed_request
vote_all-closed_example = vote_all-closed votes closed_request closed_differs
