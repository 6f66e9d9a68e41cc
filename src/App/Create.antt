-- ===== src/App/Create.antt =====
-- `AppLedgerService::create_transaction` of crates/cloudledger-service/src/app.rs, with
-- `Money::new` of crates/cloudledger-core/src/money.rs.
use cloud_ledger.Base.{
  ◌≤◌, ◌≡◌, arith, length, Bool, ◌&&◌, ◌||◌, Option, none, some, List, ◌++◌, ◌==◌, ◌!=◌, nat_eq,
  option_eq, text_eq, if◌then◌else◌, not, all, find, [], ◌∷◌, Text, text, trim, is_ascii_uppercase,
  byte_len,
}
use cloud_ledger.Base.Int.{ℤ}
use cloud_ledger.Base.Map.{Map, lookup, insert, values}
use cloud_ledger.Base.Exec.{Result, ok, err, commit}
use cloud_ledger.Base.Check.{◌>>=◌, ◌>>◌, ok_or, require, raise_if}
use cloud_ledger.Types.{
  Uuid, Money, Ledger, LedgerKind, Category, CategoryKind, Transaction, TransactionKind,
  ApprovalState, PaymentState, AuditLog, draft_transaction, category_kind_eq, transaction_kind_eq,
}
use cloud_ledger.Permissions.{Action}
use cloud_ledger.App.State.{World, AppLedgerService, AppServiceError, Method}
use cloud_ledger.App.Access.{
  authorized, membership_role, role_is_business_owner, business_owner_count,
}
use cloud_ledger.App.Transactions.{find_ledger, log_for}

pub data MoneyError : Type 0 where
  invalid_currency money_currency_mismatch overflow : MoneyError

-- `Money::new`: a currency is three ASCII capitals, once trimmed and put in upper case.
unfoldable pub new_money : World → ℤ → Text → Result MoneyError Money
new_money w amount currency =
    let normalized = w.to_uppercase (trim currency) in
    if (byte_len normalized != 3) || not (all is_ascii_uppercase normalized)
    then err invalid_currency
    else ok (record { amount_minor = amount; currency = normalized })

pub record AppCreateTransactionInput : Type 0 where
  pub actor_user_id : Uuid
  pub ledger_id : Uuid
  pub account_id : Uuid
  pub category_id : Option Uuid
  pub kind : TransactionKind
  pub amount_minor : ℤ
  pub currency : Text
  pub description : Text
  pub client_mutation_id : Option Uuid

-- A transaction of the same ledger, creator and client mutation id as the call.
abbrev pub is_replay : AppCreateTransactionInput → Uuid → Transaction → Bool
is_replay input mutation t =
    t.ledger_id == input.ledger_id
    && t.created_by == input.actor_user_id
    && t.client_mutation_id == some mutation

abbrev pub replay_for :
    AppCreateTransactionInput → Option Uuid → Map Transaction → Option Transaction
replay_for input none transactions = none
replay_for input (some mutation) transactions =
    find (is_replay input mutation) (values transactions)

-- The transaction that an earlier call with the same client mutation id has stored.
unfoldable pub find_replay : AppCreateTransactionInput → AppLedgerService → Option Transaction
find_replay input s = replay_for input input.client_mutation_id s.transactions

abbrev pub category_kind_of : TransactionKind → Result AppServiceError CategoryKind
category_kind_of TransactionKind.income = ok CategoryKind.income
category_kind_of TransactionKind.expense = ok CategoryKind.expense
category_kind_of TransactionKind.transfer = err AppServiceError.unsupported_transaction_kind

abbrev fallback_name : CategoryKind → Text
fallback_name CategoryKind.income = text "其他收入"
fallback_name CategoryKind.expense = text "其他支出"

abbrev chosen_category : Uuid → CategoryKind → Option Category → Result AppServiceError Uuid
chosen_category ledger kind none = err AppServiceError.category_not_found
chosen_category ledger kind (some category) =
    if category.ledger_id != ledger
    then err AppServiceError.category_not_found
    else if category.kind != kind
    then err AppServiceError.category_direction_mismatch
    else ok category.id

abbrev found_category : Option Category → Result AppServiceError Uuid
found_category none = err AppServiceError.category_not_found
found_category (some category) = ok category.id

-- The category that the input names, or else the ledger's fallback category.
unfoldable pub resolve_category :
    Option Uuid → Uuid → CategoryKind → AppLedgerService → Result AppServiceError Uuid
resolve_category (some id) ledger kind s = chosen_category ledger kind (lookup id s.categories)
resolve_category none ledger kind s = found_category (
    find (λ c. c.ledger_id == ledger && c.kind == kind && c.name == fallback_name kind)
      (values s.categories))

-- The tests on the account.
unfoldable pub account_checks :
    AppCreateTransactionInput → AppLedgerService → Result AppServiceError (Unit {0})
account_checks input s = do
  account ← ok_or (lookup input.account_id s.accounts) AppServiceError.account_not_found
  raise_if (account.ledger_id != input.ledger_id) AppServiceError.account_not_found
  raise_if (input.kind == TransactionKind.transfer) AppServiceError.unsupported_transaction_kind
  raise_if (account.opening_balance.currency != input.currency) AppServiceError.currency_mismatch

-- `Money::new(..).map_err(..)`: `InvalidCurrency` is its only error.
abbrev checked_amount : Result MoneyError Money → Result AppServiceError Money
checked_amount (ok money) = ok money
checked_amount (err _) =
    err (AppServiceError.invalid_amount (text "currency must be a three-letter ISO code"))

-- The draft, with its client mutation id.
unfoldable pub draft_for : World → AppCreateTransactionInput → Uuid → Money → Transaction
draft_for w input category amount =
    let drafted =
      draft_transaction (w.new_v4 0) (w.now_utc 0) input.ledger_id input.account_id (some category)
        input.kind amount input.description input.actor_user_id in
    record drafted { client_mutation_id = input.client_mutation_id }

-- The tests on account, category and amount, and the draft that they lead to.
unfoldable pub draft_checks :
    World → AppCreateTransactionInput → AppLedgerService → Result AppServiceError Transaction
draft_checks w input s = do
  account_checks input s
  kind ← category_kind_of input.kind
  category ← resolve_category input.category_id input.ledger_id kind s
  amount ← checked_amount (new_money w input.amount_minor input.currency)
  ok (draft_for w input category amount)

-- The single-owner policy: an owner's own entry is approved at once if there is one owner only.
unfoldable pub auto_approve : AppLedgerService → Uuid → Uuid → Bool
auto_approve s actor organization =
    role_is_business_owner (membership_role s actor organization)
    && business_owner_count s organization == 1

unfoldable pub auto_approved : World → Uuid → Transaction → Transaction
auto_approved w actor t = record t {
  submitted_by = some actor;
  approval_state = ApprovalState.approved;
  approved_at = some (w.now_utc 1);
  payment_state =
      if t.kind == TransactionKind.expense then PaymentState.pending_payment else t.payment_state;
}

unfoldable pub handed_in : Uuid → Transaction → Transaction
handed_in actor t = record t { submitted_by = some actor; approval_state = ApprovalState.submitted }

unfoldable pub privately_approved : World → Uuid → Transaction → Transaction
privately_approved w actor t = record t {
  approval_state = ApprovalState.approved;
  approved_by = some actor;
  approved_at = some (w.now_utc 1);
}

unfoldable pub auto_log : World → Uuid → Ledger → Transaction → AuditLog
auto_log w actor ledger t =
    log_for (w.new_v4 1) (w.now_utc 2) ledger actor (text "transaction.auto_approved") t
      (text "单老板策略自动批准公账流水：" ++ t.description)

unfoldable pub submit_log : World → Uuid → Ledger → Transaction → AuditLog
submit_log w actor ledger t =
    log_for (w.new_v4 1) (w.now_utc 2) ledger actor (text "transaction.submitted") t
      (text "提交公账流水：" ++ t.description)

-- What a call is to do once its tests have passed.
pub data CreatePlan : Type 0 where
  replay : Transaction → CreatePlan
  enter : Transaction → List AuditLog → CreatePlan

-- The state that a draft starts in, and what is logged.
abbrev pub entry_plan :
    LedgerKind
    → World
    → Uuid
    → Ledger
    → Transaction
    → AppLedgerService
    → Result AppServiceError CreatePlan
entry_plan LedgerKind.personal w actor ledger t s = ok (enter (privately_approved w actor t) [])
entry_plan LedgerKind.organization_public w actor ledger t s = do
  organization ← ok_or ledger.organization_id AppServiceError.organization_not_found
  if auto_approve s actor organization
      then ok (enter (auto_approved w actor t) (auto_log w actor ledger t ∷ []))
      else ok (enter (handed_in actor t) (submit_log w actor ledger t ∷ []))

abbrev new_plan :
    World
    → AppCreateTransactionInput
    → Ledger
    → AppLedgerService
    → Result AppServiceError CreatePlan
new_plan w input ledger s = do
  t ← draft_checks w input s
  entry_plan ledger.kind w input.actor_user_id ledger t s

unfoldable pub create_checks :
    World → AppCreateTransactionInput → AppLedgerService → Result AppServiceError CreatePlan
create_checks w input s = do
  ledger ← find_ledger s input.ledger_id
  require (authorized s input.actor_user_id ledger Action.create_transaction)
      AppServiceError.unauthorized
  let fresh = new_plan w input ledger s
  elim (find_replay input s) [ none ↦ fresh | some existing ↦ ok (replay existing) ]

abbrev pub carry_out : CreatePlan → AppLedgerService → Transaction × AppLedgerService
carry_out (replay existing) s = (existing, s)
carry_out (enter t logs) s =
    (t, record s { transactions = insert t.id t s.transactions; audit_logs = s.audit_logs ++ logs })

unfoldable pub create_transaction : World → AppCreateTransactionInput → Method Transaction
create_transaction w input s = commit (create_checks w input s) carry_out s

-- A new entry comes with at most one audit log.
pub create_logs :
    (w : World) (input : AppCreateTransactionInput) (s : AppLedgerService) (t : Transaction)
    (logs : List AuditLog)
    → create_checks w input s ≡ ok (enter t logs)
    → length logs ≤ 1
unfolding create_checks
create_logs w input s t logs h = ground arith
