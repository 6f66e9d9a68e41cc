-- ===== src/Scenarios/Results.antt =====
-- The results on whole sessions, at the company of `Company`.
use cloud_ledger.Base.{
  ◌≡◌, ◌≤◌, ◌↔◌, refl, inr, true, Option, none, some, List, [], ◌∷◌, arith, length,
}
use cloud_ledger.Base.Int.{pos, ◌+ℤ◌, ◌-ℤ◌, InI64, wrap_i64}
use cloud_ledger.Base.Map.{lookup, insert}
use cloud_ledger.Base.Exec.{ok}
use cloud_ledger.Types.{MembershipRole, AuditLog, draft_transaction, Ledger, Transaction}
use cloud_ledger.Permissions.{Action, AuthorizationContext, can_perform}
use cloud_ledger.Permissions.Matrix.{
  reach, can_perform-personal_iff, can_perform-organization_mono, can_perform-approval_iff,
}
use cloud_ledger.App.State.{World}
use cloud_ledger.App.Access.{membership_role, transaction_visible_to_actor}
use cloud_ledger.App.Transactions.{decided, approve_change, pay_change}
use cloud_ledger.App.Create.{create_transaction, handed_in, draft_for}
use cloud_ledger.App.Command.{Command, create, decide, pay, receive, run_all}
use cloud_ledger.App.Atomic.{Extends, run_all-Extends}
use cloud_ledger.App.Reachable.{AllSound, run_all-AllSound}
use cloud_ledger.App.Replay.{create_transaction_idempotent}
use cloud_ledger.App.Visibility.{transaction_visible_to_actor_iff}
use cloud_ledger.App.Balance.{account_balance_minor}
use cloud_ledger.App.Balance.Exact.{exact_balance, effect, account_balance_minor-exact}
use cloud_ledger.App.Balance.Effects.{
  booked, gain, decide_approval-balance, mark_transaction_paid-balance, void_transaction-balance,
}
use cloud_ledger.Scenarios.Company.{
  world, company, lunch, public_ledger, personal_of_owner, company_cash,
}
use cloud_ledger.Scenarios.Lifecycle.{
  submitted, approved, paid, voided, after_create, after_approve, after_pay, after_void,
  approve_lunch, pay_lunch, receive_lunch, void_lunch, create_lunch, approve_lunch_runs,
  pay_lunch_runs, void_lunch_runs, approve_lunch_runs, pay_lunch_runs, void_lunch_runs,
}

company-AllSound : AllSound company
company-AllSound k t e = cc

abbrev session : List (World × Command)
session =
    (world, create lunch)
    ∷ (world, decide approve_lunch)
    ∷ (world, pay pay_lunch)
    ∷ (world, receive receive_lunch)
    ∷ []

run_all-AllSound_example : AllSound (run_all session company)
run_all-AllSound_example = run_all-AllSound session company company-AllSound

run_all-Extends_example :
    (logs : List AuditLog) × (length logs ≤ 4) × Extends company (run_all session company) logs
run_all-Extends_example = run_all-Extends session company

-- The repeated call draws other UUIDs and other times.
create_transaction_idempotent_example :
    create_transaction (record world { new_v4 = λ n. 900 }) lunch after_create
    ≡ (ok submitted, after_create)
create_transaction_idempotent_example =
    create_transaction_idempotent world (record world { new_v4 = λ n. 900 }) lunch 7 company
      after_create submitted refl create_lunch

abbrev context : Ledger → Option MembershipRole → AuthorizationContext
context ledger role = record { actor_user_id = 10; ledger = ledger; membership_role = role }

can_perform-personal_iff_example :
    can_perform (context personal_of_owner none) Action.void_transaction ≡ true
can_perform-personal_iff_example =
    (can_perform-personal_iff (context personal_of_owner none) Action.void_transaction refl).1
      (refl, (λ e. cc), (λ e. cc), (λ e. cc), (λ e. cc), (λ e. cc), (λ e. cc))

can_perform-organization_mono_example :
    can_perform (context public_ledger (some MembershipRole.approver)) Action.confirm_receipt ≡ true
unfolding can_perform
can_perform-organization_mono_example =
    can_perform-organization_mono (context public_ledger (some MembershipRole.member))
      (context public_ledger (some MembershipRole.approver)) Action.confirm_receipt refl refl
      (omega arith) refl

can_perform-approval_iff_example :
    let ctx = context public_ledger (some MembershipRole.approver) in
    ((can_perform ctx Action.approve_transaction ≡ true) ↔ (3 ≤ reach ctx.membership_role))
    × ((can_perform ctx Action.mark_transaction_paid ≡ true) ↔ (3 ≤ reach ctx.membership_role))
    × ((can_perform ctx Action.void_transaction ≡ true) ↔ (4 ≤ reach ctx.membership_role))
can_perform-approval_iff_example =
    can_perform-approval_iff (context public_ledger (some MembershipRole.approver)) refl

-- The employee sees the entry, since the employee has created it.
transaction_visible_to_actor_iff_example :
    transaction_visible_to_actor after_create 12 submitted ≡ true
unfolding membership_role handed_in draft_for draft_transaction
transaction_visible_to_actor_iff_example =
    (transaction_visible_to_actor_iff after_create 12 submitted).1
      (public_ledger, refl, inr (refl, omega arith, inr refl))

account_balance_minor-exact_example :
    (account_balance_minor after_pay company_cash ≡ wrap_i64 (exact_balance after_pay company_cash))
    × (InI64 (exact_balance after_pay company_cash)
        → account_balance_minor after_pay company_cash ≡ exact_balance after_pay company_cash)
account_balance_minor-exact_example = account_balance_minor-exact after_pay company_cash

decide_approval-balance_example :
    exact_balance after_approve company_cash
    ≡ exact_balance after_create company_cash +ℤ gain company_cash approve_lunch.decision approved
unfolding insert handed_in draft_for draft_transaction
decide_approval-balance_example =
    decide_approval-balance world after_create after_approve approve_lunch submitted approved
      company_cash (tt, tt) refl refl (ground arith) approve_lunch_runs

mark_transaction_paid-balance_example :
    exact_balance after_pay company_cash
    ≡ exact_balance after_approve company_cash -ℤ booked company_cash paid
unfolding insert decided handed_in draft_for draft_transaction approve_change
mark_transaction_paid-balance_example =
    mark_transaction_paid-balance world after_approve after_pay pay_lunch approved paid company_cash
      (tt, tt) refl refl refl pay_lunch_runs

void_transaction-balance_example :
    (old : Transaction) × (lookup 100 after_pay.transactions ≡ some old)
    × (exact_balance after_void company_cash
        ≡ exact_balance after_pay company_cash -ℤ effect company_cash old)
    × (effect company_cash voided ≡ pos 0)
unfolding insert decided handed_in draft_for draft_transaction approve_change pay_change
void_transaction-balance_example =
    void_transaction-balance world after_pay after_void void_lunch voided company_cash (tt, tt)
      void_lunch_runs
