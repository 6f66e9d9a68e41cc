-- ===== src/App/Replay.antt =====
-- A client may repeat `create_transaction` (crates/cloudledger-service/src/app.rs) with the same
-- client mutation id.
use cloud_ledger.Base.{
  ◌≡◌, inl, inr, Option, none, some, List, arith, refl, true, nat_eq, option_eq, option_beq_iff,
  subst, sym,
}
use cloud_ledger.Permissions.{Action}
use cloud_ledger.Base.Map.{Map, lookup, insert, find-insert_first}
use cloud_ledger.Base.Exec.{ok, Result-cases}
use cloud_ledger.Types.{Uuid, Ledger, Transaction, AuditLog, draft_transaction}
use cloud_ledger.App.State.{World, AppLedgerService}
use cloud_ledger.App.Access.{authorized, membership_role}
use cloud_ledger.App.Create.{
  AppCreateTransactionInput, create_transaction, create_checks, replay, enter, carry_out,
  find_replay, is_replay, replay_for, draft_checks, draft_for, privately_approved, auto_approved,
  handed_in,
}
use cloud_ledger.App.Creation.{Starts, draft_checks-ok, create_checks-enter}

-- A replay does not depend on the surroundings.
replay_again :
    (w w' : World) (input : AppCreateTransactionInput) (s : AppLedgerService) (t : Transaction)
    → create_checks w input s ≡ ok (replay t)
    → create_checks w' input s ≡ ok (replay t)
unfolding create_checks
replay_again w w' input s t h = ground arith

-- A stored replay is found.
replay_found :
    (w : World) (input : AppCreateTransactionInput) (s : AppLedgerService) (ledger : Ledger)
    (t : Transaction)
    → lookup input.ledger_id s.ledgers ≡ some ledger
    → authorized s input.actor_user_id ledger Action.create_transaction ≡ true
    → find_replay input s ≡ some t
    → create_checks w input s ≡ ok (replay t)
unfolding create_checks
replay_found w input s ledger t el ea er = ground arith

module _ (w : World) (input : AppCreateTransactionInput) (s : AppLedgerService) where
  -- What a later call finds the entry by.
  record Answers (t : Transaction) : Type 0 where
    in_ledger : t.ledger_id ≡ input.ledger_id
    by_actor : t.created_by ≡ input.actor_user_id
    same_mutation : t.client_mutation_id ≡ input.client_mutation_id

  Starts-Answers :
      (ledger : Ledger) (d t : Transaction) (logs : List AuditLog)
      → draft_checks w input s ≡ ok d
      → Starts w input s ledger d t logs
      → Answers t
  unfolding draft_for draft_transaction privately_approved auto_approved handed_in
  Starts-Answers ledger d t logs h (Starts.private ek et el) =
      let (category, amount, ed, entry) = draft_checks-ok w input s d h in
      subst Answers (sym et) (
        subst (λ x. Answers (privately_approved w input.actor_user_id x)) (sym ed)
          (record { in_ledger = refl; by_actor = refl; same_mutation = refl }))
  Starts-Answers ledger d t logs h (Starts.automatic organization ek eo ea et el) =
      let (category, amount, ed, entry) = draft_checks-ok w input s d h in
      subst Answers (sym et) (
        subst (λ x. Answers (auto_approved w input.actor_user_id x)) (sym ed)
          (record { in_ledger = refl; by_actor = refl; same_mutation = refl }))
  Starts-Answers ledger d t logs h (Starts.waiting organization ek eo ea et el) =
      let (category, amount, ed, entry) = draft_checks-ok w input s d h in
      subst Answers (sym et) (
        subst (λ x. Answers (handed_in input.actor_user_id x)) (sym ed)
          (record { in_ledger = refl; by_actor = refl; same_mutation = refl }))

  -- The new entry is the first that a later call finds.
  replay_for-insert :
      (o : Option Uuid) (k mutation : Uuid) (t : Transaction) (ts : Map Transaction)
      → Answers t
      → o ≡ input.client_mutation_id
      → o ≡ some mutation
      → replay_for input o ts ≡ none
      → replay_for input o (insert k t ts) ≡ some t
  replay_for-insert none k mutation t ts answers eo em e = cc
  replay_for-insert (some m) k mutation t ts answers eo em e =
      find-insert_first (is_replay input m) k t ts e
        (ground (arith, option_beq_iff t.client_mutation_id (some m)))

-- After an entry, a call with the same input finds it.
enter_found :
    (w w' : World) (input : AppCreateTransactionInput) (mutation : Uuid) (s : AppLedgerService)
    (t : Transaction) (logs : List AuditLog)
    → input.client_mutation_id ≡ some mutation
    → create_checks w input s ≡ ok (enter t logs)
    → create_checks w' input (carry_out (enter t logs) s).1 ≡ ok (replay t)
unfolding find_replay authorized membership_role
enter_found w w' input mutation s t logs em e =
    let entered = create_checks-enter w input s t logs e in
    let answers =
      Starts-Answers w input s entered.ledger entered.drafted t logs entered.drafts
        entered.starts in
    replay_found w' input (carry_out (enter t logs) s).1 entered.ledger t entered.found
      entered.allowed
      (replay_for-insert w input s input.client_mutation_id t.id mutation t s.transactions answers
        refl em entered.first)

-- A repeated call finds what the first call entered or found, in any surroundings, and changes
-- nothing: creating with a client mutation id is idempotent once it has succeeded.
pub create_transaction_idempotent :
    (w w' : World) (input : AppCreateTransactionInput) (mutation : Uuid) (s s' : AppLedgerService)
    (t : Transaction)
    → input.client_mutation_id ≡ some mutation
    → create_transaction w input s ≡ (ok t, s')
    → create_transaction w' input s' ≡ (ok t, s')
unfolding create_transaction
create_transaction_idempotent w w' input mutation s s' t em h =
    elim (Result-cases (create_checks w input s)) [
      | inl (replay found, e) ↦
          let e' : create_checks w' input s ≡ ok (replay found) =
            replay_again w w' input s found e in
          ground arith
      | inl (enter t' logs, e) ↦
          let e' : create_checks w' input (carry_out (enter t' logs) s).1 ≡ ok (replay t') =
            enter_found w w' input mutation s t' logs em e in
          ground arith
      | inr (x, e) ↦ ground arith
    ]
