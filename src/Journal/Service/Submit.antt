-- ===== src/Journal/Service/Submit.antt =====
-- Submitting an entry (crates/cloudledger-service/src/service.rs): what is posted at once, and what a
-- refusal leaves.
use cloud_ledger.Base.{
  ◌≡◌, ◌⊎◌, inl, inr, refl, ap, ◌∙◌, true, false, some, List, Text, text_eq, arith, Option-cases,
  eq_iff, Some, Has,
}
use cloud_ledger.Base.Exec.{ok, err, Result-cases}
use cloud_ledger.Journal.Book.{AccountingLedger}
use cloud_ledger.Journal.Entry.{JournalEntry, JournalStatus, validate}
use cloud_ledger.Journal.Roles.{LedgerMember, LedgerAction, LedgerRole, has_permission, roles_for}
use cloud_ledger.Journal.Roles.Holds.{Holds, roles_for_iff}
use cloud_ledger.Journal.Approval.{
  ApprovalRequirement, required, not_required, approval_requirement,
}
use cloud_ledger.Journal.Approval.Required.{IsPersonal, Reaches, approval_requirement_iff}
use cloud_ledger.Journal.Repository.{RepositoryError, LedgerRepository}
use cloud_ledger.Journal.Service.Saves.{save_one, save_two}
use cloud_ledger.Journal.Service.{
  ServiceError, repository, SubmissionOutcome, posted, pending_approval, with_status, request_for,
  books, may_post, submit_checks, submit_saves, submit_entry,
}

-- The outcome that a requirement leads to.
abbrev outcome_for : Text → JournalEntry → ApprovalRequirement → SubmissionOutcome
outcome_for actor entry (required requirement) =
    pending_approval (request_for actor entry requirement)
outcome_for actor entry not_required = posted (with_status JournalStatus.posted entry)

-- The entry needs no approval, for this actor.
abbrev pub NeedsNone : Text → JournalEntry → AccountingLedger → List LedgerMember → Type 0
NeedsNone actor entry ledger members =
    IsPersonal ledger.kind
    ⊎ (¬ Some (Reaches ledger.approval_policy) entry.lines
        × ((ledger.approval_policy.company_entries_require_approval ≡ false)
            ⊎ Holds ledger members actor LedgerRole.owner))

posted_requirement :
    (actor : Text) (entry e : JournalEntry) (requirement : ApprovalRequirement)
    → outcome_for actor entry requirement ≡ posted e
    → (requirement ≡ not_required) × (e ≡ with_status JournalStatus.posted entry)
posted_requirement actor entry e (required requirement) h = absurd (ground arith)
posted_requirement actor entry e not_required h = (refl, ground arith)

may_post_none :
    (actor : Text) (ledger : AccountingLedger) (members : List LedgerMember)
    (requirement : ApprovalRequirement)
    → requirement ≡ not_required
    → may_post actor ledger members requirement ≡ ok tt
    → has_permission ledger members actor LedgerAction.post_without_approval ≡ true
may_post_none actor ledger members requirement e h = ground arith

owner_held :
    (actor : Text) (entry : JournalEntry) (ledger : AccountingLedger) (members : List LedgerMember)
    → IsPersonal ledger.kind
      ⊎ (¬ Some (Reaches ledger.approval_policy) entry.lines
          × ((ledger.approval_policy.company_entries_require_approval ≡ false)
              ⊎ Has LedgerRole.owner (roles_for ledger members actor)))
    → NeedsNone actor entry ledger members
owner_held actor entry ledger members h =
    ground (arith, roles_for_iff ledger members actor LedgerRole.owner)

module _ {R : Type 0} (repo : LedgerRepository R) (s : R) where
  -- The repository has the ledger, with these members.
  abbrev pub HasBooks : Text → AccountingLedger → List LedgerMember → Type 0
  HasBooks ledger_id ledger members =
      (repo.get_ledger ledger_id s ≡ ok (some ledger))
      × (repo.list_members ledger.id s ≡ ok members)

  pub books-HasBooks :
      (ledger_id : Text) (ledger : AccountingLedger) (members : List LedgerMember)
      → books repo ledger_id s ≡ ok (ledger, members)
      → HasBooks ledger_id ledger members
  unfolding books
  books-HasBooks ledger_id ledger members h = elim (Result-cases (repo.get_ledger ledger_id s)) [
    | inl (found, e) ↦ elim (Option-cases found) [
      | inl n ↦ absurd (ground arith)
      | inr (l, e') ↦ elim (Result-cases (repo.list_members l.id s)) [
        | inl (m, e'') ↦ ground arith
        | inr (x, e'') ↦ absurd (ground arith)
      ]
    ]
    | inr (x, e) ↦ absurd (ground arith)
  ]

  -- The actor may submit the entry, and this is what it requires.
  abbrev pub MaySubmit :
      Text → JournalEntry → AccountingLedger → List LedgerMember → ApprovalRequirement → Type 0
  MaySubmit actor entry ledger members requirement =
      (entry.created_by ≡ actor)
      × HasBooks entry.ledger_id ledger members
      × (has_permission ledger members actor LedgerAction.submit_entry ≡ true)
      × (validate entry ≡ ok tt)
      × (may_post actor ledger members requirement ≡ ok tt)
      × (approval_requirement ledger (roles_for ledger members actor) entry ≡ requirement)

  submit_checks-MaySubmit :
      (actor : Text) (entry : JournalEntry) (requirement : ApprovalRequirement)
      → submit_checks repo actor entry s ≡ ok requirement
      → (ledger : AccountingLedger) × (members : List LedgerMember) × MaySubmit actor entry ledger
          members requirement
  unfolding submit_checks
  submit_checks-MaySubmit actor entry requirement h =
      elim (Result-cases (books repo entry.ledger_id s)) [
        | inl ((ledger, members), e) ↦
            let has = books-HasBooks entry.ledger_id ledger members e in
            (ledger, members, ground (arith, eq_iff entry.created_by actor))
        | inr (x, e) ↦ absurd (ground arith)
      ]

  submit_checks-cases :
      (actor : Text) (entry : JournalEntry)
      → ((requirement : ApprovalRequirement) × (submit_checks repo actor entry s ≡ ok requirement)
          × (submit_entry repo actor entry s ≡ submit_saves repo actor entry requirement s))
        ⊎ ((e : ServiceError) × (submit_entry repo actor entry s ≡ (err e, s)))
  unfolding submit_entry
  submit_checks-cases actor entry = elim (Result-cases (submit_checks repo actor entry s)) [
    | inl (requirement, e) ↦ inl (requirement, e, ground arith)
    | inr (x, e) ↦ inr (x, ground arith)
  ]

  submit_saves-ends :
      (actor : Text) (entry : JournalEntry) (requirement : ApprovalRequirement)
      → ((submit_saves repo actor entry requirement s).0 ≡ ok (outcome_for actor entry requirement))
        ⊎ ((x : RepositoryError) × ((submit_saves repo actor entry requirement s).0
              ≡ err (repository x)))
  submit_saves-ends actor entry (required requirement) =
      save_two (repo.save_journal_entry (with_status JournalStatus.pending_approval entry))
        (repo.save_approval_request (request_for actor entry requirement))
        (pending_approval (request_for actor entry requirement)) s
  submit_saves-ends actor entry not_required =
      let save = repo.save_journal_entry (with_status JournalStatus.posted entry) in
      save_one save (posted (with_status JournalStatus.posted entry)) s

  -- A submission ends in one of three ways: it is saved and its outcome is the one that its
  -- requirement leads to; the repository fails; or it is refused, and the repository is as it was.
  submit_entry-ends :
      (actor : Text) (entry : JournalEntry)
      → ((requirement : ApprovalRequirement) × (submit_checks repo actor entry s ≡ ok requirement)
          × ((submit_entry repo actor entry s).0 ≡ ok (outcome_for actor entry requirement)))
        ⊎ ((x : RepositoryError) × ((submit_entry repo actor entry s).0 ≡ err (repository x)))
        ⊎ ((e : ServiceError) × (submit_entry repo actor entry s ≡ (err e, s)))
  submit_entry-ends actor entry = elim (submit_checks-cases actor entry) [
    | inl (requirement, checked, run) ↦ elim (submit_saves-ends actor entry requirement) [
      | inl done ↦ inl (requirement, checked, ap (λ r. r.0) run ∙ done)
      | inr (x, failed) ↦ inr (inl (x, ap (λ r. r.0) run ∙ failed))
    ]
    | inr refused ↦ inr (inr refused)
  ]

  -- A submission that is refused by anything but the repository leaves the repository as it was.
  pub submit_entry_refused :
      (actor : Text) (entry : JournalEntry) (e : ServiceError)
      → (submit_entry repo actor entry s).0 ≡ err e
      → ((x : RepositoryError) × (e ≡ repository x)) ⊎ ((submit_entry repo actor entry s).1 ≡ s)
  submit_entry_refused actor entry e h = elim (submit_entry-ends actor entry) [
    | inl (requirement, checked, done) ↦ absurd (ground arith)
    | inr (inl (x, failed)) ↦ inl (x, ground arith)
    | inr (inr (x, run)) ↦ inr (ap (λ r. r.1) run)
  ]

  -- An entry is posted at once only for its creator, who may submit and may post without approval in
  -- its ledger; it is valid, and needs no approval: the ledger is personal, or no line reaches
  -- the threshold and the policy asks for none or the creator is an owner.
  pub submit_entry-posted :
      (actor : Text) (entry e : JournalEntry)
      → (submit_entry repo actor entry s).0 ≡ ok (posted e)
      → (ledger : AccountingLedger) × (members : List LedgerMember) × HasBooks entry.ledger_id
          ledger members
        × (e ≡ with_status JournalStatus.posted entry)
        × (entry.created_by ≡ actor)
        × (validate entry ≡ ok tt)
        × (has_permission ledger members actor LedgerAction.submit_entry ≡ true)
        × (has_permission ledger members actor LedgerAction.post_without_approval ≡ true)
        × NeedsNone actor entry ledger members
  submit_entry-posted actor entry e h = elim (submit_entry-ends actor entry) [
    | inl (requirement, checked, done) ↦
        let (none_needed, same) = posted_requirement actor entry e requirement (ground arith) in
        let (ledger, members, (creator, has, submits, valid, posts, decision)) =
          submit_checks-MaySubmit actor entry requirement checked in
        let needs =
          (approval_requirement_iff ledger (roles_for ledger members actor) entry valid).0
            (decision ∙ none_needed) in
        let may = may_post_none actor ledger members requirement none_needed posts in
        (
          ledger,
          members,
          has,
          same,
          creator,
          valid,
          submits,
          may,
          owner_held actor entry ledger members needs,
        )
    | inr (inl (x, failed)) ↦ absurd (ground arith)
    | inr (inr (x, run)) ↦ absurd (ground arith)
  ]
