-- ===== src/Scenarios/Lifecycle.antt =====
-- An employee's expense from its submission to the receipt of the money, and a voided one.
use cloud_ledger.Base.{◌≡◌, refl, inl, none, [], ◌∷◌, arith, text, trim}
use cloud_ledger.Base.Int.{pos}
use cloud_ledger.Base.Map.{insert}
use cloud_ledger.Base.Exec.{ok}
use cloud_ledger.Types.{Transaction, draft_transaction}
use cloud_ledger.App.State.{AppLedgerService}
use cloud_ledger.App.Access.{authorized, membership_role, business_owner_count}
use cloud_ledger.Permissions.{can_perform}
use cloud_ledger.App.Transactions.{
  ApprovalDecision, AppDecideApprovalInput, AppVoidTransactionInput, AppMarkTransactionPaidInput,
  AppConfirmTransactionReceiptInput, decide_approval, void_transaction, mark_transaction_paid,
  confirm_transaction_receipt, decide_checks, void_checks, pay_checks, receive_checks, decided,
  approve_change, void_change, pay_change, receive_change, decision_log, void_log, pay_log,
  receive_log, store, normalize_void_reason,
}
use cloud_ledger.App.Methods.{
  decide_approval_iff, void_transaction_iff, mark_transaction_paid_iff,
  confirm_transaction_receipt_iff,
}
use cloud_ledger.App.Create.{
  create_transaction, create_checks, draft_checks, account_checks, resolve_category, new_money,
  draft_for, handed_in, find_replay, auto_approve, submit_log, carry_out, enter,
}
use cloud_ledger.Scenarios.Company.{world, cny, company, lunch, public_ledger}

abbrev pub submitted : Transaction
submitted = handed_in 12 (draft_for world lunch 40 (cny (pos 300)))

abbrev pub after_create : AppLedgerService
after_create =
    (carry_out
      (enter submitted
        (submit_log world 12 public_ledger (draft_for world lunch 40 (cny (pos 300))) ∷ []))
      company).1

pub create_lunch : create_transaction world lunch company ≡ (ok submitted, after_create)
unfolding create_transaction create_checks draft_checks account_checks resolve_category new_money
    find_replay authorized membership_role can_perform auto_approve business_owner_count trim
create_lunch = refl

abbrev pub approve_lunch : AppDecideApprovalInput
approve_lunch = record {
  actor_user_id = 10;
  transaction_id = 100;
  decision = ApprovalDecision.approve;
  decision_note = none;
}

abbrev pub approved : Transaction
approved = decided ApprovalDecision.approve world 10 submitted

abbrev pub after_approve : AppLedgerService
after_approve =
    store 100 approved (decision_log world approve_lunch public_ledger approved) after_create

approve_lunch_example :
    decide_approval world approve_lunch after_create ≡ (ok approved, after_approve)
unfolding authorized membership_role can_perform handed_in draft_for draft_transaction
approve_lunch_example =
    (decide_approval_iff world after_create approved after_approve approve_lunch).1 (
      submitted,
      public_ledger,
      record {
        target = record { stored = unfold insert in refl; in_ledger = refl };
        waiting = refl;
        allowed = refl;
        not_submitter = ground arith;
        not_creator = ground arith;
        reasoned = inl refl;
      },
      refl,
      refl,
    )

abbrev pub pay_lunch : AppMarkTransactionPaidInput
pay_lunch = record { actor_user_id = 11; transaction_id = 100 }

abbrev pub paid : Transaction
paid = pay_change world 11 approved

abbrev pub after_pay : AppLedgerService
after_pay = store 100 paid (pay_log world pay_lunch public_ledger paid) after_approve

pay_lunch_example : mark_transaction_paid world pay_lunch after_approve ≡ (ok paid, after_pay)
unfolding authorized membership_role can_perform handed_in draft_for draft_transaction decided
    approve_change insert
pay_lunch_example = (mark_transaction_paid_iff world after_approve paid after_pay pay_lunch).1 (
  approved,
  public_ledger,
  record {
    target = record { stored = refl; in_ledger = refl };
    allowed = refl;
    approved = refl;
    pending = refl;
  },
  refl,
  refl,
)

abbrev pub receive_lunch : AppConfirmTransactionReceiptInput
receive_lunch = record { actor_user_id = 12; transaction_id = 100 }

abbrev pub received : Transaction
received = receive_change world 12 paid

abbrev pub after_receive : AppLedgerService
after_receive =
    store 100 received (receive_log world receive_lunch public_ledger received) after_pay

receive_lunch_example :
    confirm_transaction_receipt world receive_lunch after_pay ≡ (ok received, after_receive)
unfolding authorized membership_role can_perform handed_in draft_for draft_transaction decided
    approve_change pay_change insert
receive_lunch_example =
    (confirm_transaction_receipt_iff world after_pay received after_receive receive_lunch).1 (
      paid,
      public_ledger,
      record {
        target = record { stored = refl; in_ledger = refl };
        creator = refl;
        allowed = refl;
        approved = refl;
        paid = refl;
      },
      refl,
      refl,
    )

abbrev pub void_lunch : AppVoidTransactionInput
void_lunch = record { actor_user_id = 10; transaction_id = 100; void_reason = text " twice " }

abbrev pub voided : Transaction
voided = void_change world paid

abbrev pub after_void : AppLedgerService
after_void =
    store 100 voided (void_log world void_lunch public_ledger (text "twice") voided) after_pay

void_lunch_example : void_transaction world void_lunch after_pay ≡ (ok voided, after_void)
unfolding authorized membership_role can_perform handed_in draft_for draft_transaction decided
    approve_change pay_change insert trim
void_lunch_example = (void_transaction_iff world after_pay voided after_void void_lunch).1 (
  paid,
  public_ledger,
  record {
    target = record { stored = refl; in_ledger = refl };
    public = refl;
    allowed = refl;
    approved = refl;
    kept = refl;
    reason_given = ground arith;
    reason_short = omega arith;
  },
  refl,
  refl,
)

-- The same calls as facts, for the results on balances.
pub approve_lunch_runs :
    decide_approval world approve_lunch after_create ≡ (ok approved, after_approve)
unfolding decide_approval decide_checks authorized membership_role can_perform handed_in draft_for
    draft_transaction insert
approve_lunch_runs = refl

pub pay_lunch_runs : mark_transaction_paid world pay_lunch after_approve ≡ (ok paid, after_pay)
unfolding mark_transaction_paid pay_checks authorized membership_role can_perform handed_in
    draft_for draft_transaction decided approve_change insert
pay_lunch_runs = refl

pub receive_lunch_runs :
    confirm_transaction_receipt world receive_lunch after_pay ≡ (ok received, after_receive)
unfolding confirm_transaction_receipt receive_checks authorized membership_role can_perform
    handed_in draft_for draft_transaction decided approve_change pay_change insert
receive_lunch_runs = refl

pub void_lunch_runs : void_transaction world void_lunch after_pay ≡ (ok voided, after_void)
unfolding void_transaction void_checks normalize_void_reason trim authorized membership_role
    can_perform handed_in draft_for draft_transaction decided approve_change pay_change insert
void_lunch_runs = refl
