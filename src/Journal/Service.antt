-- ===== src/Journal/Service.antt =====
-- `LedgerService` of crates/cloudledger-service/src/service.rs, over any repository. A method reads
-- and tests first (`_checks`), then saves; each save may fail, and one that has succeeded stays.
use cloud_ledger.Base.{
  Bool, true, false, Option, none, some, List, Text, text, text_eq, ◌++◌, ◌==◌, ◌!=◌,
}
use cloud_ledger.Base.Exec.{Result, ok, err, Exec}
use cloud_ledger.Base.Check.{◌>>=◌, ◌>>◌, ok_or, require, raise_if}
use cloud_ledger.Journal.Book.{AccountingLedger}
use cloud_ledger.Journal.Entry.{JournalEntry, JournalStatus, JournalValidationError, validate}
use cloud_ledger.Journal.Roles.{LedgerMember, LedgerAction, LedgerRole, has_permission, roles_for}
use cloud_ledger.Journal.Approval.{
  ApprovalRequest, ApprovalRequirement, ApprovalRequirementDetail, required, not_required,
  ApprovalDecision, ApprovalDecisionError, ApprovalVote, ApprovalStatus, accepted_role,
  add_decision, approval_requirement, new_request,
}
use cloud_ledger.Journal.Repository.{RepositoryError, LedgerRepository}
pub mod Saves
pub mod Submit
pub mod Decide
pub mod Stored

-- crates/cloudledger-service/src/error.rs
pub data ServiceError : Type 0 where
  repository : RepositoryError → ServiceError
  ledger_not_found journal_entry_not_found approval_request_not_found : ServiceError
  actor_mismatch permission_denied : ServiceError
  invalid_journal : JournalValidationError → ServiceError
  approval_decision : ApprovalDecisionError → ServiceError
  self_approval_denied role_not_accepted : ServiceError

pub data SubmissionOutcome : Type 0 where
  posted : JournalEntry → SubmissionOutcome
  pending_approval : ApprovalRequest → SubmissionOutcome

pub record ApprovalOutcome : Type 0 where
  pub request : ApprovalRequest
  pub entry : JournalEntry

-- The `From` conversions that `?` applies.
abbrev pub map_err {ℓ} :
    {E : Type 0} {A : Type ℓ} → (E → ServiceError) → Result E A → Result ServiceError A
map_err f (ok a) = ok a
map_err f (err e) = err (f e)

-- `self.repository.save_…(…)?`, and what follows.
abbrev pub save_then :
    {R B : Type 0}
    → Exec R RepositoryError (Unit {0})
    → Exec R ServiceError B
    → Exec R ServiceError B
save_then save next s =
    let (r, s') = save s in elim r [ ok done ↦ next s' | err e ↦ (err (repository e), s') ]

-- `Ok(b)`, after the saves.
abbrev pub finish : {R B : Type 0} → B → Exec R ServiceError B
finish b s = (ok b, s)

abbrev pub with_status : JournalStatus → JournalEntry → JournalEntry
with_status status entry = record entry { status = status }

-- The request for an entry that needs approval.
unfoldable pub request_for : Text → JournalEntry → ApprovalRequirementDetail → ApprovalRequest
unfolding new_request
request_for actor entry requirement =
    new_request (text "approval:" ++ entry.id) entry.ledger_id entry.id actor requirement

-- Posting without approval needs a permission of its own.
abbrev pub may_post :
    Text
    → AccountingLedger
    → List LedgerMember
    → ApprovalRequirement
    → Result ServiceError (Unit {0})
may_post actor ledger members (required requirement) = ok tt
may_post actor ledger members not_required =
    require (has_permission ledger members actor LedgerAction.post_without_approval)
      permission_denied

-- `request.add_decision(…)?`, on a copy of the request.
abbrev pub decided_request :
    ApprovalDecision → ApprovalRequest → Result ServiceError ApprovalRequest
decided_request decision request =
    let (r, request') = add_decision decision request in
    elim r [ ok done ↦ ok request' | err e ↦ err (approval_decision e) ]

-- The tests on the actor, and the vote.
unfoldable pub decide_request :
    Text
    → ApprovalVote
    → Option Text
    → AccountingLedger
    → List LedgerMember
    → ApprovalRequest
    → Result ServiceError ApprovalRequest
decide_request actor vote comment ledger members request = do
  require (has_permission ledger members actor LedgerAction.approve_entry) permission_denied
  raise_if (request.submitted_by == actor) self_approval_denied
  role ←
      ok_or (accepted_role request.requirement (roles_for ledger members actor)) role_not_accepted
  decided_request (record { approver_id = actor; role = role; vote = vote; note = comment }) request

abbrev pub decided_entry : ApprovalStatus → JournalEntry → JournalEntry
decided_entry ApprovalStatus.approved entry = with_status JournalStatus.posted entry
decided_entry ApprovalStatus.rejected entry = with_status JournalStatus.rejected entry
decided_entry ApprovalStatus.pending entry = entry
decided_entry ApprovalStatus.cancelled entry = entry

module _ {R : Type 0} (repo : LedgerRepository R) where
  -- The ledger and its members.
  unfoldable pub books : Text → R → Result ServiceError (AccountingLedger × List LedgerMember)
  books ledger_id s = do
    found ← map_err repository (repo.get_ledger ledger_id s)
    ledger ← ok_or found ledger_not_found
    members ← map_err repository (repo.list_members ledger.id s)
    ok (ledger, members)

  unfoldable pub submit_checks : Text → JournalEntry → R → Result ServiceError ApprovalRequirement
  submit_checks actor entry s = do
    raise_if (entry.created_by != actor) actor_mismatch
    (ledger, members) ← books entry.ledger_id s
    require (has_permission ledger members actor LedgerAction.submit_entry) permission_denied
    map_err invalid_journal (validate entry)
    may_post actor ledger members
        (approval_requirement ledger (roles_for ledger members actor) entry)
    ok (approval_requirement ledger (roles_for ledger members actor) entry)

  -- What is saved, and the outcome.
  abbrev pub submit_saves :
      Text → JournalEntry → ApprovalRequirement → Exec R ServiceError SubmissionOutcome
  submit_saves actor entry (required requirement) =
      save_then (repo.save_journal_entry (with_status JournalStatus.pending_approval entry)) (
        save_then (repo.save_approval_request (request_for actor entry requirement))
          (finish (pending_approval (request_for actor entry requirement))))
  submit_saves actor entry not_required =
      save_then (repo.save_journal_entry (with_status JournalStatus.posted entry))
        (finish (posted (with_status JournalStatus.posted entry)))

  unfoldable pub submit_entry : Text → JournalEntry → Exec R ServiceError SubmissionOutcome
  submit_entry actor entry s = elim (submit_checks actor entry s) [
    | ok requirement ↦ submit_saves actor entry requirement s
    | err e ↦ (err e, s)
  ]

  -- The request and its entry.
  unfoldable pub stored_request : Text → R → Result ServiceError (ApprovalRequest × JournalEntry)
  stored_request approval_id s = do
    found_request ← map_err repository (repo.get_approval_request approval_id s)
    request ← ok_or found_request approval_request_not_found
    found_entry ← map_err repository (repo.get_journal_entry request.entry_id s)
    entry ← ok_or found_entry journal_entry_not_found
    ok (request, entry)

  unfoldable pub approval_checks :
      Text → Text → ApprovalVote → Option Text → R → Result ServiceError ApprovalOutcome
  approval_checks actor approval_id vote comment s = do
    (request, entry) ← stored_request approval_id s
    (ledger, members) ← books request.ledger_id s
    request' ← decide_request actor vote comment ledger members request
    ok (record { request = request'; entry = decided_entry request'.status entry })

  abbrev pub approval_saves : ApprovalOutcome → Exec R ServiceError ApprovalOutcome
  approval_saves outcome =
      save_then (repo.save_journal_entry outcome.entry)
        (save_then (repo.save_approval_request outcome.request) (finish outcome))

  -- `LedgerService::decide_approval`
  unfoldable pub decide_entry_approval :
      Text → Text → ApprovalVote → Option Text → Exec R ServiceError ApprovalOutcome
  decide_entry_approval actor approval_id vote comment s =
      elim (approval_checks actor approval_id vote comment s) [
        | ok outcome ↦ approval_saves outcome s
        | err e ↦ (err e, s)
      ]
