-- ===== src/Scenarios/Submission.antt =====
-- An entry of the company's journal, from its submission to its posting, in the memory repository.
use cloud_ledger.Base.{◌≡◌, refl, ap, true, none, List, [], ◌∷◌, text}
use cloud_ledger.Base.Int.{◌+ℤ◌}
use cloud_ledger.Base.Exec.{ok, err}
use cloud_ledger.Journal.Amount.{is_positive}
use cloud_ledger.Journal.Book.{AccountingLedger}
use cloud_ledger.Journal.Entry.{JournalStatus, validate, totals, largest_line_amount, largest_from}
use cloud_ledger.Journal.Roles.{LedgerMember, LedgerRole, LedgerAction, roles_for, has_permission}
use cloud_ledger.Journal.Approval.{ApprovalVote, add_decision, approval_requirement}
use cloud_ledger.Journal.Memory.{MemoryState, memory_repository, memory_repository-IsLawful}
use cloud_ledger.Journal.Service.{
  actor_mismatch, permission_denied, posted, pending_approval, ApprovalOutcome, with_status,
  request_for, books, stored_request, decide_request, submit_checks, submit_entry, approval_checks,
  decide_entry_approval,
}
use cloud_ledger.Journal.Service.Submit.{HasBooks, NeedsNone, submit_entry-posted}
use cloud_ledger.Journal.Service.Stored.{HasBoth, decide_entry_approval-HasBoth}
use cloud_ledger.Journal.Service.Decide.{Decided, decide_entry_approval-Decided}
use cloud_ledger.Scenarios.Journals.{
  company_books, company_members, expense, new_vote, closed_request,
}

abbrev store : List LedgerMember → MemoryState
store members = record {
  ledgers = (text "company", company_books) ∷ [];
  members = members;
  entries = [];
  approvals = [];
}

abbrev only_owner : List LedgerMember
only_owner =
    record { ledger_id = text "company"; user_id = text "bookkeeper"; role = LedgerRole.owner } ∷ []

abbrev waiting : MemoryState
waiting = record {
  ledgers = (text "company", company_books) ∷ [];
  members = company_members;
  entries = (text "entry", with_status JournalStatus.pending_approval (expense 20 20)) ∷ [];
  approvals = (text "approval:entry", new_vote) ∷ [];
}

-- The bookkeeper's entry waits for approval.
bookkeeper_waits :
    submit_entry memory_repository (text "bookkeeper") (expense 20 20) (store company_members)
    ≡ (ok (pending_approval new_vote), waiting)
unfolding submit_entry submit_checks request_for books has_permission roles_for validate totals
    is_positive ◌+ℤ◌ approval_requirement largest_line_amount largest_from
bookkeeper_waits = refl

-- An owner's entry is posted at once.
owner_posts :
    (submit_entry memory_repository (text "bookkeeper") (expense 20 20) (store only_owner)).0
    ≡ ok (posted (with_status JournalStatus.posted (expense 20 20)))
unfolding submit_entry submit_checks books has_permission roles_for validate totals is_positive ◌+ℤ◌
    approval_requirement largest_line_amount largest_from
owner_posts = refl

submit_entry-posted_example :
    (ledger : AccountingLedger) × (members : List LedgerMember) × HasBooks memory_repository
      (store only_owner)
      (text "company")
      ledger
      members
    × (with_status JournalStatus.posted (expense 20 20)
        ≡ with_status JournalStatus.posted (expense 20 20))
    × ((expense 20 20).created_by ≡ text "bookkeeper")
    × (validate (expense 20 20) ≡ ok tt)
    × (has_permission ledger members (text "bookkeeper") LedgerAction.submit_entry ≡ true)
    × (has_permission ledger members (text "bookkeeper") LedgerAction.post_without_approval ≡ true)
    × NeedsNone (text "bookkeeper") (expense 20 20) ledger members
submit_entry-posted_example =
    submit_entry-posted memory_repository (store only_owner) (text "bookkeeper") (expense 20 20)
      (with_status JournalStatus.posted (expense 20 20)) owner_posts

other_refused :
    (submit_entry memory_repository (text "approver") (expense 20 20) (store only_owner)).0
    ≡ err actor_mismatch
unfolding submit_entry submit_checks
other_refused = refl

abbrev approval : ApprovalOutcome
approval = record {
  request = closed_request;
  entry = with_status JournalStatus.posted (expense 20 20);
}

approver_approves :
    (decide_entry_approval memory_repository
      (text "approver")
      (text "approval:entry")
      ApprovalVote.approve
      none
      waiting).0
    ≡ ok approval
unfolding decide_entry_approval approval_checks stored_request books decide_request has_permission
    roles_for add_decision
approver_approves = refl

decide_entry_approval-Decided_example :
    Decided memory_repository waiting
      (text "approver")
      (text "approval:entry")
      ApprovalVote.approve
      none
      approval
decide_entry_approval-Decided_example =
    decide_entry_approval-Decided memory_repository waiting (text "approver")
      (text "approval:entry") ApprovalVote.approve none approval approver_approves

decide_entry_approval-HasBoth_example :
    HasBoth memory_repository
      (decide_entry_approval memory_repository
        (text "approver")
        (text "approval:entry")
        ApprovalVote.approve
        none
        waiting).1
      approval.entry
      approval.request
decide_entry_approval-HasBoth_example =
    decide_entry_approval-HasBoth memory_repository memory_repository-IsLawful waiting
      (text "approver") (text "approval:entry") ApprovalVote.approve none approval approver_approves

bookkeeper_refused :
    (decide_entry_approval memory_repository
      (text "bookkeeper")
      (text "approval:entry")
      ApprovalVote.approve
      none
      waiting).0
    ≡ err permission_denied
unfolding decide_entry_approval approval_checks stored_request books decide_request has_permission
    roles_for
bookkeeper_refused = refl

bookkeeper_waits_outcome :
    (submit_entry memory_repository (text "bookkeeper") (expense 20 20) (store company_members)).0
    ≡ ok (pending_approval new_vote)
bookkeeper_waits_outcome = ap (λ p. p.0) bookkeeper_waits
