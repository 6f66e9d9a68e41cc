-- ===== src/Types/Equality.antt =====
-- The derived `PartialEq` of the enumerations: two constructors are equal if they stand at one
-- place of the declaration.
use cloud_ledger.Base.{ℕ, ◌≡◌, ◌↔◌, Bool, true, arith, nat_beq, PartialEq}
use cloud_ledger.Types.Data.{
  MembershipRole, LedgerKind, FinancialAccountKind, CategoryKind, TransactionKind, ApprovalState,
  PaymentState,
}

abbrev pub membership_role_index : MembershipRole → ℕ
membership_role_index MembershipRole.owner = 0
membership_role_index MembershipRole.admin = 1
membership_role_index MembershipRole.business_owner = 2
membership_role_index MembershipRole.employee = 3
membership_role_index MembershipRole.accountant = 4
membership_role_index MembershipRole.approver = 5
membership_role_index MembershipRole.member = 6
membership_role_index MembershipRole.viewer = 7

abbrev pub membership_role_beq : MembershipRole → MembershipRole → Bool
membership_role_beq a b = nat_beq (membership_role_index a) (membership_role_index b)

pub membership_role_beq_iff : (a b : MembershipRole) → (membership_role_beq a b ≡ true) ↔ (a ≡ b)
membership_role_beq_iff a b = ground arith

instance abbrev pub membership_role_eq : PartialEq MembershipRole
membership_role_eq = record { same = membership_role_beq; same_iff = membership_role_beq_iff }

abbrev pub ledger_kind_index : LedgerKind → ℕ
ledger_kind_index LedgerKind.personal = 0
ledger_kind_index LedgerKind.organization_public = 1

abbrev pub ledger_kind_beq : LedgerKind → LedgerKind → Bool
ledger_kind_beq a b = nat_beq (ledger_kind_index a) (ledger_kind_index b)

pub ledger_kind_beq_iff : (a b : LedgerKind) → (ledger_kind_beq a b ≡ true) ↔ (a ≡ b)
ledger_kind_beq_iff a b = ground arith

instance abbrev pub ledger_kind_eq : PartialEq LedgerKind
ledger_kind_eq = record { same = ledger_kind_beq; same_iff = ledger_kind_beq_iff }

abbrev pub account_kind_index : FinancialAccountKind → ℕ
account_kind_index FinancialAccountKind.cash = 0
account_kind_index FinancialAccountKind.bank = 1
account_kind_index FinancialAccountKind.wallet = 2
account_kind_index FinancialAccountKind.wechat = 3
account_kind_index FinancialAccountKind.alipay = 4
account_kind_index FinancialAccountKind.credit = 5
account_kind_index FinancialAccountKind.receivable = 6
account_kind_index FinancialAccountKind.payable = 7

abbrev pub account_kind_beq : FinancialAccountKind → FinancialAccountKind → Bool
account_kind_beq a b = nat_beq (account_kind_index a) (account_kind_index b)

pub account_kind_beq_iff : (a b : FinancialAccountKind) → (account_kind_beq a b ≡ true) ↔ (a ≡ b)
account_kind_beq_iff a b = ground arith

instance abbrev pub account_kind_eq : PartialEq FinancialAccountKind
account_kind_eq = record { same = account_kind_beq; same_iff = account_kind_beq_iff }

abbrev pub category_kind_index : CategoryKind → ℕ
category_kind_index CategoryKind.income = 0
category_kind_index CategoryKind.expense = 1

abbrev pub category_kind_beq : CategoryKind → CategoryKind → Bool
category_kind_beq a b = nat_beq (category_kind_index a) (category_kind_index b)

pub category_kind_beq_iff : (a b : CategoryKind) → (category_kind_beq a b ≡ true) ↔ (a ≡ b)
category_kind_beq_iff a b = ground arith

instance abbrev pub category_kind_eq : PartialEq CategoryKind
category_kind_eq = record { same = category_kind_beq; same_iff = category_kind_beq_iff }

abbrev pub transaction_kind_index : TransactionKind → ℕ
transaction_kind_index TransactionKind.income = 0
transaction_kind_index TransactionKind.expense = 1
transaction_kind_index TransactionKind.transfer = 2

abbrev pub transaction_kind_beq : TransactionKind → TransactionKind → Bool
transaction_kind_beq a b = nat_beq (transaction_kind_index a) (transaction_kind_index b)

pub transaction_kind_beq_iff : (a b : TransactionKind) → (transaction_kind_beq a b ≡ true) ↔ (a ≡ b)
transaction_kind_beq_iff a b = ground arith

instance abbrev pub transaction_kind_eq : PartialEq TransactionKind
transaction_kind_eq = record { same = transaction_kind_beq; same_iff = transaction_kind_beq_iff }

abbrev pub approval_state_index : ApprovalState → ℕ
approval_state_index ApprovalState.draft = 0
approval_state_index ApprovalState.submitted = 1
approval_state_index ApprovalState.approved = 2
approval_state_index ApprovalState.rejected = 3
approval_state_index ApprovalState.voided = 4

abbrev pub approval_state_beq : ApprovalState → ApprovalState → Bool
approval_state_beq a b = nat_beq (approval_state_index a) (approval_state_index b)

pub approval_state_beq_iff : (a b : ApprovalState) → (approval_state_beq a b ≡ true) ↔ (a ≡ b)
approval_state_beq_iff a b = ground arith

instance abbrev pub approval_state_eq : PartialEq ApprovalState
approval_state_eq = record { same = approval_state_beq; same_iff = approval_state_beq_iff }

abbrev pub payment_state_index : PaymentState → ℕ
payment_state_index PaymentState.not_applicable = 0
payment_state_index PaymentState.pending_payment = 1
payment_state_index PaymentState.paid_pending_receipt = 2
payment_state_index PaymentState.received = 3

abbrev pub payment_state_beq : PaymentState → PaymentState → Bool
payment_state_beq a b = nat_beq (payment_state_index a) (payment_state_index b)

pub payment_state_beq_iff : (a b : PaymentState) → (payment_state_beq a b ≡ true) ↔ (a ≡ b)
payment_state_beq_iff a b = ground arith

instance abbrev pub payment_state_eq : PartialEq PaymentState
payment_state_eq = record { same = payment_state_beq; same_iff = payment_state_beq_iff }
