-- ===== src/App/Reachable.antt =====
-- The invariant of the whole service, and that every session of calls keeps it.
use cloud_ledger.Base.{
  ◌≡◌, inl, inr, some, List, [], ◌∷◌, arith, refl, ◌∙◌, subst, sym, nat_eq, option_eq, true,
}
use cloud_ledger.Base.Map.{Map, lookup, AllStored, AllStored-insert}
use cloud_ledger.Base.Exec.{ok, Result-cases}
use cloud_ledger.Types.{Uuid, Ledger, LedgerKind, Transaction, AuditLog, draft_transaction}
use cloud_ledger.Permissions.{Action, can_perform}
use cloud_ledger.App.State.{World, AppLedgerService}
use cloud_ledger.App.Access.{authorized}
use cloud_ledger.App.Transactions.{
  AppDecideApprovalInput, AppVoidTransactionInput, AppMarkTransactionPaidInput,
  AppConfirmTransactionReceiptInput, decide_approval, void_transaction, mark_transaction_paid,
  confirm_transaction_receipt, store, void_change, pay_change, receive_change,
}
use cloud_ledger.App.Create.{
  AppCreateTransactionInput, create_transaction, create_checks, replay, enter, draft_checks,
  draft_for, privately_approved, auto_approved, handed_in,
}
use cloud_ledger.App.Creation.{Starts, draft_checks-ok, create_checks-enter}
use cloud_ledger.App.Command.{Command, create, decide, void, pay, receive, run, run_all}
use cloud_ledger.App.Outcomes.{IsTarget}
use cloud_ledger.App.Methods.{
  decide_approval_iff, void_transaction_iff, mark_transaction_paid_iff,
  confirm_transaction_receipt_iff,
}
use cloud_ledger.App.Atomic.{run_atomic}
use cloud_ledger.App.Soundness.{
  IsSound, KeepsIdentity, decided-KeepsIdentity, decided-IsSound, void_change-IsSound,
  pay_change-IsSound, receive_change-IsSound, privately_approved-IsSound, auto_approved-IsSound,
  handed_in-IsSound,
}

-- A stored transaction stands under its id, in a ledger that is stored, and is sound for it.
abbrev pub SoundAt : Map Ledger → Uuid → Transaction → Type 0
SoundAt ledgers k t =
    (ledger : Ledger) × (t.id ≡ k)
    × (lookup t.ledger_id ledgers ≡ some ledger)
    × IsSound ledger.kind t

abbrev pub AllSound : AppLedgerService → Type 0
AllSound s = AllStored (SoundAt s.ledgers) s.transactions

authorized_public :
    (s : AppLedgerService) (actor : Uuid) (ledger : Ledger)
    → authorized s actor ledger Action.approve_transaction ≡ true
    → ledger.kind ≡ LedgerKind.organization_public
unfolding authorized can_perform
authorized_public s actor ledger h = ground arith

pair_eq : {A S : Type 0} (p : A × S) {a : A} → p.0 ≡ a → p ≡ (a, p.1)
pair_eq p e = λ i. (e i, p.1)

module _ (w : World) (s : AppLedgerService) (sound : AllSound s) where
  target-IsSound :
      (k : Uuid) (old : Transaction) (ledger : Ledger)
      → IsTarget s old ledger k
      → (old.id ≡ k) × IsSound ledger.kind old
  target-IsSound k old ledger target =
      let (l, ei, el, so) = sound k old target.stored in (ei, ground arith)

  -- A changed transaction that is sound for the ledger may be stored.
  change_sound :
      (k : Uuid) (old t : Transaction) (ledger : Ledger) (log : AuditLog) (s' : AppLedgerService)
      → IsTarget s old ledger k
      → KeepsIdentity old t
      → IsSound ledger.kind t
      → s' ≡ store k t log s
      → AllSound s'
  change_sound k old t ledger log s' target keeps new es = rw es (
      AllStored-insert (SoundAt s.ledgers) s.transactions k t sound (
        ledger,
        keeps.same_id ∙ (target-IsSound k old ledger target).0,
        rw keeps.same_ledger target.in_ledger,
        new,
      ))

  decide-AllSound :
      (input : AppDecideApprovalInput) (t : Transaction) (s' : AppLedgerService)
      → decide_approval w input s ≡ (ok t, s')
      → AllSound s'
  decide-AllSound input t s' h =
      let (old, ledger, may, et, es) = (decide_approval_iff w s t s' input).0 h in
      let (_, so) = target-IsSound input.transaction_id old ledger may.target in
      let public = authorized_public s input.actor_user_id ledger may.allowed in
      change_sound input.transaction_id old t ledger _ s' may.target
        (subst (KeepsIdentity old) (sym et)
          (decided-KeepsIdentity w input.decision input.actor_user_id old))
        (subst (IsSound ledger.kind) (sym et) (decided-IsSound w s old ledger input may public so))
        es

  void-AllSound :
      (input : AppVoidTransactionInput) (t : Transaction) (s' : AppLedgerService)
      → void_transaction w input s ≡ (ok t, s')
      → AllSound s'
  unfolding void_change
  void-AllSound input t s' h =
      let (old, ledger, may, et, es) = (void_transaction_iff w s t s' input).0 h in
      let (_, so) = target-IsSound input.transaction_id old ledger may.target in
      change_sound input.transaction_id old t ledger _ s' may.target
        (subst (KeepsIdentity old) (sym et) (omega arith))
        (subst (IsSound ledger.kind) (sym et) (void_change-IsSound w s old ledger so may.approved))
        es

  pay-AllSound :
      (input : AppMarkTransactionPaidInput) (t : Transaction) (s' : AppLedgerService)
      → mark_transaction_paid w input s ≡ (ok t, s')
      → AllSound s'
  unfolding pay_change
  pay-AllSound input t s' h =
      let (old, ledger, may, et, es) = (mark_transaction_paid_iff w s t s' input).0 h in
      let (_, so) = target-IsSound input.transaction_id old ledger may.target in
      change_sound input.transaction_id old t ledger _ s' may.target
        (subst (KeepsIdentity old) (sym et) (omega arith))
        (subst (IsSound ledger.kind) (sym et) (pay_change-IsSound w s old ledger input may so)) es

  receive-AllSound :
      (input : AppConfirmTransactionReceiptInput) (t : Transaction) (s' : AppLedgerService)
      → confirm_transaction_receipt w input s ≡ (ok t, s')
      → AllSound s'
  unfolding receive_change
  receive-AllSound input t s' h =
      let (old, ledger, may, et, es) = (confirm_transaction_receipt_iff w s t s' input).0 h in
      let (_, so) = target-IsSound input.transaction_id old ledger may.target in
      change_sound input.transaction_id old t ledger _ s' may.target
        (subst (KeepsIdentity old) (sym et) (omega arith))
        (subst (IsSound ledger.kind) (sym et) (receive_change-IsSound w s old ledger input may so))
        es

  -- A new entry is sound for its ledger, and stands in it.
  entry-IsSound :
      (input : AppCreateTransactionInput) (ledger : Ledger) (d t : Transaction)
      (logs : List AuditLog)
      → draft_checks w input s ≡ ok d
      → Starts w input s ledger d t logs
      → (t.ledger_id ≡ input.ledger_id) × IsSound ledger.kind t
  unfolding draft_for draft_transaction privately_approved auto_approved handed_in
  entry-IsSound input ledger d t logs h (Starts.private ek et el) =
      let (category, amount, ed, entry) = draft_checks-ok w input s d h in
      let sound_entry = privately_approved-IsSound w input category amount entry in
      (rw (et, ed) refl, rw (ek, et, ed) sound_entry)
  entry-IsSound input ledger d t logs h (Starts.automatic organization ek eo ea et el) =
      let (category, amount, ed, entry) = draft_checks-ok w input s d h in
      let sound_entry = auto_approved-IsSound w input category amount entry in
      (rw (et, ed) refl, rw (ek, et, ed) sound_entry)
  entry-IsSound input ledger d t logs h (Starts.waiting organization ek eo ea et el) =
      let (category, amount, ed, entry) = draft_checks-ok w input s d h in
      let sound_entry = handed_in-IsSound w input category amount entry in
      (rw (et, ed) refl, rw (ek, et, ed) sound_entry)

  create-AllSound : (input : AppCreateTransactionInput) → AllSound (create_transaction w input s).1
  unfolding create_transaction
  create-AllSound input = elim (Result-cases (create_checks w input s)) [
    | inl (replay t, e) ↦ rw e sound
    | inl (enter t logs, e) ↦
        let entered = create_checks-enter w input s t logs e in
        let (el, so) =
          entry-IsSound input entered.ledger entered.drafted t logs entered.drafts entered.starts in
        rw e (
          AllStored-insert (SoundAt s.ledgers) s.transactions t.id t sound
            (entered.ledger, refl, rw el entered.found, so))
    | inr (x, e) ↦ rw e sound
  ]

-- One call keeps the invariant, whether it succeeds or fails.
run-AllSound :
    (w : World) (c : Command) (s : AppLedgerService) → AllSound s → AllSound (run w c s).1
unfolding run
run-AllSound w (create input) s sound = create-AllSound w s sound input
run-AllSound w (decide input) s sound = elim (Result-cases (decide_approval w input s).0) [
  | inl (t, e) ↦ decide-AllSound w s sound input t _ (pair_eq _ e)
  | inr (x, e) ↦ subst AllSound (sym (run_atomic w (decide input) s x e)) sound
]
run-AllSound w (void input) s sound = elim (Result-cases (void_transaction w input s).0) [
  | inl (t, e) ↦ void-AllSound w s sound input t _ (pair_eq _ e)
  | inr (x, e) ↦ subst AllSound (sym (run_atomic w (void input) s x e)) sound
]
run-AllSound w (pay input) s sound = elim (Result-cases (mark_transaction_paid w input s).0) [
  | inl (t, e) ↦ pay-AllSound w s sound input t _ (pair_eq _ e)
  | inr (x, e) ↦ subst AllSound (sym (run_atomic w (pay input) s x e)) sound
]
run-AllSound w (receive input) s sound =
    elim (Result-cases (confirm_transaction_receipt w input s).0) [
      | inl (t, e) ↦ receive-AllSound w s sound input t _ (pair_eq _ e)
      | inr (x, e) ↦ subst AllSound (sym (run_atomic w (receive input) s x e)) sound
    ]

-- Every session of calls keeps the invariant: whatever the calls, their order, the UUIDs and the
-- times, if every stored transaction is sound before the session, then so is every one after it.
pub run_all-AllSound :
    (cs : List (World × Command)) (s : AppLedgerService) → AllSound s → AllSound (run_all cs s)
unfolding run_all
run_all-AllSound [] s sound = sound
run_all-AllSound ((w, c) ∷ cs) s sound =
    run_all-AllSound cs (run w c s).1 (run-AllSound w c s sound)
