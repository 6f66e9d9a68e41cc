-- ===== src/App/Creation.antt =====
-- What `create_transaction` of crates/cloudledger-service/src/app.rs enters, and when.
use cloud_ledger.Base.{
  ◌≡◌, ◌≢◌, ◌⊎◌, inl, inr, none, some, List, [], ◌∷◌, arith, Bool-cases, true, false, nat_eq,
  text_eq, Option-cases,
}
use cloud_ledger.Base.Map.{lookup}
use cloud_ledger.Base.Exec.{ok, Result-cases}
use cloud_ledger.Types.{Uuid, Money, Ledger, LedgerKind, Transaction, TransactionKind, AuditLog}
use cloud_ledger.Permissions.{Action}
use cloud_ledger.App.State.{World, AppLedgerService}
use cloud_ledger.App.Access.{authorized}
use cloud_ledger.App.Create.{
  AppCreateTransactionInput, create_checks, enter, draft_checks, draft_for, category_kind_of,
  find_replay, auto_approve, auto_approved, handed_in, privately_approved, auto_log, submit_log,
  entry_plan, resolve_category, new_money,
}

kind_cases : (k : LedgerKind) → (k ≡ LedgerKind.personal) ⊎ (k ≡ LedgerKind.organization_public)
kind_cases k = ground arith

module _ (w : World) (input : AppCreateTransactionInput) (s : AppLedgerService) where
  -- A draft has passed the test on its kind.
  pub draft_checks-ok :
      (d : Transaction)
      → draft_checks w input s ≡ ok d
      → (category : Uuid) × (amount : Money) × (d ≡ draft_for w input category amount)
        × (input.kind ≢ TransactionKind.transfer)
  unfolding draft_checks
  draft_checks-ok d h = elim (Result-cases (category_kind_of input.kind)) [
    | inr (x, e) ↦ absurd (ground arith)
    | inl (kind, ek) ↦
        elim (Result-cases (resolve_category input.category_id input.ledger_id kind s)) [
          | inr (x, e) ↦ absurd (ground arith)
          | inl (category, ec) ↦
              elim (Result-cases (new_money w input.amount_minor input.currency)) [
                | inr (x, e) ↦ absurd (ground arith)
                | inl (amount, em) ↦ (category, amount, ground arith, ground arith)
              ]
        ]
  ]

  -- How an entry starts: approved on a personal ledger; on a public ledger approved if the
  -- single-owner policy applies, and submitted if not.
  pub data Starts (ledger : Ledger) (d t : Transaction) (logs : List AuditLog) : Type 0 where
    private :
        ledger.kind ≡ LedgerKind.personal
        → t ≡ privately_approved w input.actor_user_id d
        → logs ≡ []
        → Starts ledger d t logs
    automatic :
        (organization : Uuid)
        → ledger.kind ≡ LedgerKind.organization_public
        → ledger.organization_id ≡ some organization
        → auto_approve s input.actor_user_id organization ≡ true
        → t ≡ auto_approved w input.actor_user_id d
        → logs ≡ auto_log w input.actor_user_id ledger d ∷ []
        → Starts ledger d t logs
    waiting :
        (organization : Uuid)
        → ledger.kind ≡ LedgerKind.organization_public
        → ledger.organization_id ≡ some organization
        → auto_approve s input.actor_user_id organization ≡ false
        → t ≡ handed_in input.actor_user_id d
        → logs ≡ submit_log w input.actor_user_id ledger d ∷ []
        → Starts ledger d t logs

  entry_plan-Starts :
      (ledger : Ledger) (d t : Transaction) (logs : List AuditLog)
      → entry_plan ledger.kind w input.actor_user_id ledger d s ≡ ok (enter t logs)
      → Starts ledger d t logs
  entry_plan-Starts ledger d t logs h = elim (kind_cases ledger.kind) [
    | inl p ↦ Starts.private p (ground arith) (ground arith)
    | inr p ↦ elim (Option-cases ledger.organization_id) [
      | inl missing ↦ absurd (ground arith)
      | inr (organization, e) ↦
          elim (Bool-cases (auto_approve s input.actor_user_id organization)) [
            | inl holds ↦ Starts.automatic organization p e holds (ground arith) (ground arith)
            | inr fails ↦ Starts.waiting organization p e fails (ground arith) (ground arith)
          ]
    ]
  ]

  -- What the tests have made sure of when a new transaction is entered.
  pub record Entered (t : Transaction) (logs : List AuditLog) : Type 0 where
    pub ledger : Ledger
    pub drafted : Transaction
    pub found : lookup input.ledger_id s.ledgers ≡ some ledger
    pub allowed : authorized s input.actor_user_id ledger Action.create_transaction ≡ true
    pub first : find_replay input s ≡ none
    pub drafts : draft_checks w input s ≡ ok drafted
    pub starts : Starts ledger drafted t logs

  pub create_checks-enter :
      (t : Transaction) (logs : List AuditLog)
      → create_checks w input s ≡ ok (enter t logs)
      → Entered t logs
  unfolding create_checks
  create_checks-enter t logs h = elim (Option-cases (lookup input.ledger_id s.ledgers)) [
    | inl missing ↦ absurd (ground arith)
    | inr (ledger, e) ↦ elim (Result-cases (draft_checks w input s)) [
      | inl (d, e') ↦ record {
        ledger = ledger;
        drafted = d;
        found = e;
        allowed = ground arith;
        first = ground arith;
        drafts = e';
        starts = entry_plan-Starts ledger d t logs (ground arith);
      }
      | inr (x, e') ↦ absurd (ground arith)
    ]
  ]
