-- ===== src/Journal/Repository.antt =====
-- The trait `LedgerRepository` of crates/cloudledger-db/src/repository.rs: each
-- operation reads a store or changes it, and may fail.
use cloud_ledger.Base.{◌≡◌, ◌↔◌, ◌⊎◌, Has, Option, some, List, Text, text_eq, ◌==◌, if◌then◌else◌}
use cloud_ledger.Base.Exec.{Result, ok, Exec}
use cloud_ledger.Journal.Book.{AccountingLedger}
use cloud_ledger.Journal.Entry.{JournalEntry}
use cloud_ledger.Journal.Roles.{LedgerMember}
use cloud_ledger.Journal.Approval.{ApprovalRequest}

-- crates/cloudledger-db/src/error.rs
pub data RepositoryError : Type 0 where
  backend : Text → RepositoryError

-- A read of a store.
abbrev pub Read : Type 0 → Type 0 → Type 0
Read R A = R → Result RepositoryError A

pub record LedgerRepository (R : Type 0) : Type 0 where
  pub save_ledger : AccountingLedger → Exec R RepositoryError (Unit {0})
  pub get_ledger : Text → Read R (Option AccountingLedger)
  pub save_member : LedgerMember → Exec R RepositoryError (Unit {0})
  pub list_members : Text → Read R (List LedgerMember)
  pub save_journal_entry : JournalEntry → Exec R RepositoryError (Unit {0})
  pub get_journal_entry : Text → Read R (Option JournalEntry)
  pub list_journal_entries : Text → Read R (List JournalEntry)
  pub save_approval_request : ApprovalRequest → Exec R RepositoryError (Unit {0})
  pub get_approval_request : Text → Read R (Option ApprovalRequest)
  pub list_approval_requests : Text → Read R (List ApprovalRequest)

module _ {R : Type 0} (repo : LedgerRepository R) where
  -- What is read of each kind is the same in both states.
  abbrev pub SameLedgers : R → R → Type 0
  SameLedgers s s' = (id : Text) → repo.get_ledger id s' ≡ repo.get_ledger id s

  abbrev pub SameMembers : R → R → Type 0
  SameMembers s s' = (id : Text) → repo.list_members id s' ≡ repo.list_members id s

  abbrev pub SameEntries : R → R → Type 0
  SameEntries s s' =
      ((id : Text) → repo.get_journal_entry id s' ≡ repo.get_journal_entry id s)
      × ((id : Text) → repo.list_journal_entries id s' ≡ repo.list_journal_entries id s)

  abbrev pub SameRequests : R → R → Type 0
  SameRequests s s' =
      ((id : Text) → repo.get_approval_request id s' ≡ repo.get_approval_request id s)
      × ((id : Text) → repo.list_approval_requests id s' ≡ repo.list_approval_requests id s)

  -- The member is listed for the ledger.
  abbrev pub Listed : LedgerMember → Text → R → Type 0
  Listed member ledger_id s =
      (members : List LedgerMember) × (repo.list_members ledger_id s ≡ ok members)
      × Has member members

  -- What a repository promises of each save that succeeds: a ledger, an entry and a request are read
  -- again under their id and no other id is changed; the members listed are those that were listed
  -- and the new one, in its own ledger; and no other kind of record is changed.
  pub record IsLawful : Type 0 where
    pub ledger_saved :
        (ledger : AccountingLedger) (s : R)
        → (repo.save_ledger ledger s).0 ≡ ok tt
        → ((id : Text)
            → repo.get_ledger id (repo.save_ledger ledger s).1
              ≡ (if ledger.id == id then ok (some ledger) else repo.get_ledger id s))
          × SameMembers s (repo.save_ledger ledger s).1
          × SameEntries s (repo.save_ledger ledger s).1
          × SameRequests s (repo.save_ledger ledger s).1
    pub member_saved :
        (member : LedgerMember) (s : R)
        → (repo.save_member member s).0 ≡ ok tt
        → ((other : LedgerMember) (id : Text)
            → Listed other id (repo.save_member member s).1
              ↔ (Listed other id s ⊎ ((other ≡ member) × (member.ledger_id ≡ id))))
          × SameLedgers s (repo.save_member member s).1
          × SameEntries s (repo.save_member member s).1
          × SameRequests s (repo.save_member member s).1
    pub entry_saved :
        (entry : JournalEntry) (s : R)
        → (repo.save_journal_entry entry s).0 ≡ ok tt
        → ((id : Text)
            → repo.get_journal_entry id (repo.save_journal_entry entry s).1
              ≡ (if entry.id == id then ok (some entry) else repo.get_journal_entry id s))
          × SameLedgers s (repo.save_journal_entry entry s).1
          × SameMembers s (repo.save_journal_entry entry s).1
          × SameRequests s (repo.save_journal_entry entry s).1
    pub request_saved :
        (request : ApprovalRequest) (s : R)
        → (repo.save_approval_request request s).0 ≡ ok tt
        → ((id : Text)
            → repo.get_approval_request id (repo.save_approval_request request s).1
              ≡ (if request.id == id then ok (some request) else repo.get_approval_request id s))
          × SameLedgers s (repo.save_approval_request request s).1
          × SameMembers s (repo.save_approval_request request s).1
          × SameEntries s (repo.save_approval_request request s).1
