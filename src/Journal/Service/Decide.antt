-- ===== src/Journal/Service/Decide.antt =====
-- Deciding an approval request (crates/cloudledger-service/src/service.rs): who can decide, what is
-- recorded, and what a refusal leaves.
use cloud_ledger.Base.{
  ◌≡◌, ◌≢◌, ◌⊎◌, inl, inr, ap, subst, true, false, Option, some, List, Text, text_eq, arith,
  Option-cases, eq_iff, find_test, contains_iff, contains, Has, push,
}
use cloud_ledger.Base.Exec.{ok, err, Result-cases}
use cloud_ledger.Journal.Book.{AccountingLedger}
use cloud_ledger.Journal.Entry.{JournalEntry, JournalStatus}
use cloud_ledger.Journal.Roles.{
  LedgerMember, LedgerAction, LedgerRole, role_eq, has_permission, roles_for,
}
use cloud_ledger.Journal.Roles.Holds.{Holds, roles_for_iff}
use cloud_ledger.Journal.Approval.{
  ApprovalRequest, ApprovalRequirementDetail, ApprovalVote, ApprovalStatus, ApprovalDecision,
  accepted_role, add_change, add_decision,
}
use cloud_ledger.Journal.Approval.Votes.{
  voted, add_decision_taken, add_decision_iff, IsDue, add_change-IsDue,
}
use cloud_ledger.Journal.Repository.{RepositoryError, LedgerRepository}
use cloud_ledger.Journal.Service.{
  ServiceError, repository, ApprovalOutcome, books, stored_request, decide_request, decided_request,
  decided_entry, approval_checks, decide_entry_approval,
}
use cloud_ledger.Journal.Service.Saves.{save_two}
use cloud_ledger.Journal.Service.Submit.{HasBooks, books-HasBooks}

decided_request-change :
    (decision : ApprovalDecision) (request request' : ApprovalRequest)
    → decided_request decision request ≡ ok request'
    → (request' ≡ add_change decision request)
      × (request.status ≡ ApprovalStatus.pending)
      × (voted decision.approver_id request.decisions ≡ false)
      × Has decision.role request.requirement.required_roles
decided_request-change decision request request' h =
    elim (Result-cases (add_decision decision request).0) [
      | inl (u, e) ↦
          let change = add_decision_taken decision request e in
          let (is_pending, fresh, role) = (add_decision_iff decision request).0.0 e in
          (ground arith, is_pending, fresh, role)
      | inr (x, e) ↦ absurd (ground arith)
    ]

accepted_role-held :
    (requirement : ApprovalRequirementDetail) (roles : List LedgerRole) (role : LedgerRole)
    → accepted_role requirement roles ≡ some role
    → Has role roles
accepted_role-held requirement roles role h =
    (contains_iff roles role).0 (find_test (contains roles) requirement.required_roles role h)

-- The actor may decide the request in this role.
pub record MayDecide (actor : Text) (ledger : AccountingLedger) (members : List LedgerMember)
    (request : ApprovalRequest) (role : LedgerRole) : Type 0 where
  pub permitted : has_permission ledger members actor LedgerAction.approve_entry ≡ true
  pub not_submitter : request.submitted_by ≢ actor
  pub held : Holds ledger members actor role
  pub is_required : Has role request.requirement.required_roles
  pub is_pending : request.status ≡ ApprovalStatus.pending
  pub fresh : voted actor request.decisions ≡ false

-- The decision that an actor takes in a role.
abbrev pub cast_vote : Text → LedgerRole → ApprovalVote → Option Text → ApprovalDecision
cast_vote actor role vote comment = record {
  approver_id = actor;
  role = role;
  vote = vote;
  note = comment;
}

decide_request-MayDecide :
    (actor : Text) (vote : ApprovalVote) (comment : Option Text) (ledger : AccountingLedger)
    (members : List LedgerMember) (request request' : ApprovalRequest)
    → decide_request actor vote comment ledger members request ≡ ok request'
    → (role : LedgerRole) × MayDecide actor ledger members request role
      × (request' ≡ add_change (cast_vote actor role vote comment) request)
unfolding decide_request
decide_request-MayDecide actor vote comment ledger members request request' h =
    let roles = roles_for ledger members actor in
    elim (Option-cases (accepted_role request.requirement roles)) [
      | inl missing ↦ absurd (ground arith)
      | inr (role, e) ↦
          let (change, is_pending, fresh, is_required) =
            decided_request-change
              (record { approver_id = actor; role = role; vote = vote; note = comment }) request
              request' (ground arith) in
          (
            role,
            record {
              permitted = ground arith;
              not_submitter = ground (arith, eq_iff request.submitted_by actor);
              held =
                  (roles_for_iff ledger members actor role).0
                    (accepted_role-held request.requirement roles role e);
              is_required = is_required;
              is_pending = is_pending;
              fresh = fresh;
            },
            change,
          )
    ]

module _ {R : Type 0} (repo : LedgerRepository R) (s : R) where
  -- The repository has the request under its id, and the entry that it is for.
  abbrev pub HasRequest : Text → ApprovalRequest → JournalEntry → Type 0
  HasRequest approval_id request entry =
      (repo.get_approval_request approval_id s ≡ ok (some request))
      × (repo.get_journal_entry request.entry_id s ≡ ok (some entry))

  stored_request-HasRequest :
      (approval_id : Text) (request : ApprovalRequest) (entry : JournalEntry)
      → stored_request repo approval_id s ≡ ok (request, entry)
      → HasRequest approval_id request entry
  unfolding stored_request
  stored_request-HasRequest approval_id request entry h =
      elim (Result-cases (repo.get_approval_request approval_id s)) [
        | inl (found, e) ↦ elim (Option-cases found) [
          | inl n ↦ absurd (ground arith)
          | inr (r, e') ↦ elim (Result-cases (repo.get_journal_entry r.entry_id s)) [
            | inl (found', e'') ↦ elim (Option-cases found') [
              | inl n ↦ absurd (ground arith)
              | inr (t, e3) ↦ ground arith
            ]
            | inr (x, e'') ↦ absurd (ground arith)
          ]
        ]
        | inr (x, e) ↦ absurd (ground arith)
      ]

  -- The entry after a decision: only its status can change, and only when the request is closed.
  pub record IsSettled (status : ApprovalStatus) (entry entry' : JournalEntry) : Type 0 where
    pub posts :
        status ≡ ApprovalStatus.approved → entry' ≡ record entry { status = JournalStatus.posted }
    pub rejects :
        status ≡ ApprovalStatus.rejected → entry' ≡ record entry { status = JournalStatus.rejected }
    pub waits : status ≡ ApprovalStatus.pending → entry' ≡ entry

  decided_entry-IsSettled :
      (status : ApprovalStatus) (entry : JournalEntry)
      → IsSettled status entry (decided_entry status entry)
  decided_entry-IsSettled ApprovalStatus.pending entry = ground arith
  decided_entry-IsSettled ApprovalStatus.approved entry = ground arith
  decided_entry-IsSettled ApprovalStatus.rejected entry = ground arith
  decided_entry-IsSettled ApprovalStatus.cancelled entry = ground arith

  -- A decision that is taken: what the repository had, who took it, and the outcome.
  pub record Decided (actor approval_id : Text) (vote : ApprovalVote) (comment : Option Text)
      (outcome : ApprovalOutcome) : Type 0 where
    pub request : ApprovalRequest
    pub entry : JournalEntry
    pub ledger : AccountingLedger
    pub members : List LedgerMember
    pub role : LedgerRole
    pub has_request : HasRequest approval_id request entry
    pub has_books : HasBooks repo s request.ledger_id ledger members
    pub may : MayDecide actor ledger members request role
    pub request_decided : outcome.request ≡ record request {
      status = outcome.request.status;
      decisions = push (cast_vote actor role vote comment) request.decisions;
    }
    pub status_due :
        IsDue outcome.request.status request.requirement.min_approvals
          (push (cast_vote actor role vote comment) request.decisions)
    pub entry_settled : IsSettled outcome.request.status entry outcome.entry

  approval_checks-Decided :
      (actor approval_id : Text) (vote : ApprovalVote) (comment : Option Text)
      (outcome : ApprovalOutcome)
      → approval_checks repo actor approval_id vote comment s ≡ ok outcome
      → Decided actor approval_id vote comment outcome
  unfolding approval_checks
  approval_checks-Decided actor approval_id vote comment outcome h =
      elim (Result-cases (stored_request repo approval_id s)) [
        | inl ((request, entry), e) ↦ elim (Result-cases (books repo request.ledger_id s)) [
          | inl ((ledger, members), e') ↦
              elim (Result-cases (decide_request actor vote comment ledger members request)) [
                | inl (request', e'') ↦
                    let (role, may, decided) =
                      decide_request-MayDecide actor vote comment ledger members request request'
                        e'' in
                    let vote' = cast_vote actor role vote comment in
                    let closed = decided_entry-IsSettled request'.status entry in
                    record {
                      request = request;
                      entry = entry;
                      ledger = ledger;
                      members = members;
                      role = role;
                      has_request = stored_request-HasRequest approval_id request entry e;
                      has_books = books-HasBooks repo s request.ledger_id ledger members e';
                      may = may;
                      request_decided = ground arith;
                      status_due =
                          let due = add_change-IsDue vote' request may.is_pending in ground arith;
                      entry_settled = ground arith;
                    }
                | inr (x, e'') ↦ absurd (ground arith)
              ]
          | inr (x, e') ↦ absurd (ground arith)
        ]
        | inr (x, e) ↦ absurd (ground arith)
      ]

  decide_entry_approval-ends :
      (actor approval_id : Text) (vote : ApprovalVote) (comment : Option Text)
      → ((outcome : ApprovalOutcome) × Decided actor approval_id vote comment outcome
          × ((decide_entry_approval repo actor approval_id vote comment s).0 ≡ ok outcome))
        ⊎ ((x : RepositoryError) × ((decide_entry_approval repo actor approval_id vote comment s).0
              ≡ err (repository x)))
        ⊎ ((e : ServiceError) × (decide_entry_approval repo actor approval_id vote comment s
              ≡ (err e, s)))
  unfolding decide_entry_approval
  decide_entry_approval-ends actor approval_id vote comment =
      elim (Result-cases (approval_checks repo actor approval_id vote comment s)) [
        | inl (outcome, e) ↦
            let decided = approval_checks-Decided actor approval_id vote comment outcome e in
            elim (save_two (repo.save_journal_entry outcome.entry)
              (repo.save_approval_request outcome.request) outcome s) [
                | inl done ↦ inl (outcome, decided, ground arith)
                | inr (x, failed) ↦ inr (inl (x, ground arith))
              ]
        | inr (x, e) ↦ inr (inr (x, ground arith))
      ]

  -- A decision on an approval request is taken only by somebody other than its submitter, who may
  -- approve in the ledger, holds one of the roles required and has not voted, while the request is
  -- pending. The request of the outcome is the stored one with that vote at the end of its decisions
  -- and the status that these call for, and the entry of the outcome is the stored one, posted if the
  -- request is then approved, rejected if it is rejected, and as it was if it is still pending.
  pub decide_entry_approval-Decided :
      (actor approval_id : Text) (vote : ApprovalVote) (comment : Option Text)
      (outcome : ApprovalOutcome)
      → (decide_entry_approval repo actor approval_id vote comment s).0 ≡ ok outcome
      → Decided actor approval_id vote comment outcome
  decide_entry_approval-Decided actor approval_id vote comment outcome h =
      elim (decide_entry_approval-ends actor approval_id vote comment) [
        | inl (outcome', decided, done) ↦
            subst (Decided actor approval_id vote comment) (ground arith) decided
        | inr (inl (x, failed)) ↦ absurd (ground arith)
        | inr (inr (x, refused)) ↦ absurd (ground arith)
      ]

  -- A decision that is refused by anything but the repository leaves the repository as it was.
  pub decide_entry_approval_refused :
      (actor approval_id : Text) (vote : ApprovalVote) (comment : Option Text) (e : ServiceError)
      → (decide_entry_approval repo actor approval_id vote comment s).0 ≡ err e
      → ((x : RepositoryError) × (e ≡ repository x))
        ⊎ ((decide_entry_approval repo actor approval_id vote comment s).1 ≡ s)
  decide_entry_approval_refused actor approval_id vote comment e h =
      elim (decide_entry_approval-ends actor approval_id vote comment) [
        | inl (outcome, decided, done) ↦ absurd (ground arith)
        | inr (inl (x, failed)) ↦ inl (x, ground arith)
        | inr (inr (x, refused)) ↦ inr (ap (λ r. r.1) refused)
      ]
