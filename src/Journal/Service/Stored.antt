-- ===== src/Journal/Service/Stored.antt =====
-- What a repository that keeps its promises holds after a method of `LedgerService` has succeeded
-- (crates/cloudledger-service/src/service.rs).
use cloud_ledger.Base.{
  ◌≡◌, inl, inr, sym, ap, subst, ◌∙◌, Option, some, Text, text_eq, arith, eq_refl,
}
use cloud_ledger.Base.Exec.{ok, Result-cases}
use cloud_ledger.Journal.Entry.{JournalEntry, JournalStatus}
use cloud_ledger.Journal.Approval.{
  ApprovalRequest, ApprovalVote, ApprovalRequirement, required, not_required,
}
use cloud_ledger.Journal.Repository.{LedgerRepository, IsLawful}
use cloud_ledger.Journal.Service.{
  ApprovalOutcome, posted, pending_approval, save_then, finish, with_status, request_for,
  approval_checks, approval_saves, decide_entry_approval, submit_checks, submit_saves, submit_entry,
}
use cloud_ledger.Journal.Service.Saves.{save_one, save_two}

module _ {R : Type 0} (repo : LedgerRepository R) where
  -- The repository has the entry and the request, each under its id.
  abbrev pub HasBoth : R → JournalEntry → ApprovalRequest → Type 0
  HasBoth s' entry request =
      (repo.get_journal_entry entry.id s' ≡ ok (some entry))
      × (repo.get_approval_request request.id s' ≡ ok (some request))

module _ {R : Type 0} (repo : LedgerRepository R) (lawful : IsLawful repo) (s : R) where
  both_saved :
      {B : Type 0} (b c : B) (entry : JournalEntry) (request : ApprovalRequest)
      → (save_then
          (repo.save_journal_entry entry)
          (save_then (repo.save_approval_request request) (finish b))
          s).0
        ≡ ok c
      → HasBoth repo
          (save_then
            (repo.save_journal_entry entry)
            (save_then (repo.save_approval_request request) (finish b))
            s).1
          entry
          request
  both_saved b c entry request h =
      let s1 = (repo.save_journal_entry entry s).1 in
      elim (Result-cases (repo.save_journal_entry entry s).0) [
        | inl (u, e) ↦ elim (Result-cases (repo.save_approval_request request s1).0) [
          | inl (u', e') ↦ (
            ground (
              arith,
              (lawful.request_saved request s1 e').3.0 entry.id,
              (lawful.entry_saved entry s e).0 entry.id,
              eq_refl entry.id,
            ),
            ground (arith, (lawful.request_saved request s1 e').0 request.id, eq_refl request.id),
          )
          | inr (x, e') ↦ absurd (ground arith)
        ]
        | inr (x, e) ↦ absurd (ground arith)
      ]

  approval_saves-HasBoth :
      (taken outcome : ApprovalOutcome)
      → (approval_saves repo taken s).0 ≡ ok outcome
      → HasBoth repo (approval_saves repo taken s).1 outcome.entry outcome.request
  approval_saves-HasBoth taken outcome h =
      elim (save_two (repo.save_journal_entry taken.entry)
        (repo.save_approval_request taken.request) taken s) [
          | inl done ↦
              subst
                (λ (o : ApprovalOutcome).
                  HasBoth repo (approval_saves repo taken s).1 o.entry o.request)
                (ground arith) (both_saved taken outcome taken.entry taken.request h)
          | inr (x, failed) ↦ absurd (ground arith)
        ]

  decide_run :
      (actor approval_id : Text) (vote : ApprovalVote) (comment : Option Text)
      (taken : ApprovalOutcome)
      → approval_checks repo actor approval_id vote comment s ≡ ok taken
      → decide_entry_approval repo actor approval_id vote comment s ≡ approval_saves repo taken s
  unfolding decide_entry_approval
  decide_run actor approval_id vote comment taken e = ground arith

  -- After a decision that is taken, a repository that keeps its promises has the entry and the request of
  -- the outcome, each under its id.
  pub decide_entry_approval-HasBoth :
      (actor approval_id : Text) (vote : ApprovalVote) (comment : Option Text)
      (outcome : ApprovalOutcome)
      → (decide_entry_approval repo actor approval_id vote comment s).0 ≡ ok outcome
      → HasBoth repo
          (decide_entry_approval repo actor approval_id vote comment s).1
          outcome.entry
          outcome.request
  unfolding decide_entry_approval
  decide_entry_approval-HasBoth actor approval_id vote comment outcome h =
      elim (Result-cases (approval_checks repo actor approval_id vote comment s)) [
        | inl (taken, e) ↦
            let run = decide_run actor approval_id vote comment taken e in
            subst (λ p. HasBoth repo p.1 outcome.entry outcome.request) (sym run)
              (approval_saves-HasBoth taken outcome (sym (ap (λ p. p.0) run) ∙ h))
        | inr (x, e) ↦ absurd (ground arith)
      ]

  submit_run :
      (actor : Text) (entry : JournalEntry) (requirement : ApprovalRequirement)
      → submit_checks repo actor entry s ≡ ok requirement
      → submit_entry repo actor entry s ≡ submit_saves repo actor entry requirement s
  unfolding submit_entry
  submit_run actor entry requirement e = ground arith

  submit_saves-HasBoth :
      (actor : Text) (entry : JournalEntry) (requirement : ApprovalRequirement)
      (request : ApprovalRequest)
      → (submit_saves repo actor entry requirement s).0 ≡ ok (pending_approval request)
      → HasBoth repo
          (submit_saves repo actor entry requirement s).1
          (with_status JournalStatus.pending_approval entry)
          request
  submit_saves-HasBoth actor entry (required requirement) request h =
      let waiting = with_status JournalStatus.pending_approval entry in
      let made = request_for actor entry requirement in
      let save = repo.save_journal_entry waiting in
      elim (save_two save (repo.save_approval_request made) (pending_approval made) s) [
        | inl done ↦
            subst
              (λ (r : ApprovalRequest).
                HasBoth repo (submit_saves repo actor entry (required requirement) s).1 waiting r)
              (ground arith)
              (both_saved (pending_approval made) (pending_approval request) waiting made h)
        | inr (x, failed) ↦ absurd (ground arith)
      ]
  submit_saves-HasBoth actor entry not_required request h =
      let saved = with_status JournalStatus.posted entry in
      elim (save_one (repo.save_journal_entry saved) (posted saved) s) [
        | inl done ↦ absurd (ground arith)
        | inr (x, failed) ↦ absurd (ground arith)
      ]

  -- After a submission that waits for approval, a repository that keeps its promises has the entry,
  -- pending, and the request of the outcome, each under its id.
  pub submit_entry-HasBoth :
      (actor : Text) (entry : JournalEntry) (request : ApprovalRequest)
      → (submit_entry repo actor entry s).0 ≡ ok (pending_approval request)
      → HasBoth repo
          (submit_entry repo actor entry s).1
          (with_status JournalStatus.pending_approval entry)
          request
  unfolding submit_entry
  submit_entry-HasBoth actor entry request h =
      elim (Result-cases (submit_checks repo actor entry s)) [
        | inl (requirement, e) ↦
            let run = submit_run actor entry requirement e in
            subst (λ p. HasBoth repo p.1 (with_status JournalStatus.pending_approval entry) request)
              (sym run)
              (submit_saves-HasBoth actor entry requirement request (sym (ap (λ p. p.0) run) ∙ h))
        | inr (x, e) ↦ absurd (ground arith)
      ]
