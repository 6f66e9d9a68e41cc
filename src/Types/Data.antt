-- ===== src/Types/Data.antt =====
-- The records and enumerations of crates/cloudledger-core/src/types.rs and of money.rs.
use cloud_ledger.Base.{ℕ, Option, Text}
use cloud_ledger.Base.Int.{ℤ}

abbrev pub Uuid : Type 0
Uuid = ℕ

abbrev pub OffsetDateTime : Type 0
OffsetDateTime = ℕ

pub record Money : Type 0 where
  pub amount_minor : ℤ
  pub currency : Text

pub record User : Type 0 where
  pub id : Uuid
  pub display_name : Text
  pub email : Option Text
  pub phone : Option Text
  pub created_at : OffsetDateTime

pub record Organization : Type 0 where
  pub id : Uuid
  pub name : Text
  pub created_by : Uuid
  pub created_at : OffsetDateTime

pub data MembershipRole : Type 0 where
  owner admin business_owner employee accountant approver member viewer : MembershipRole

pub record Membership : Type 0 where
  pub id : Uuid
  pub organization_id : Uuid
  pub user_id : Uuid
  pub role : MembershipRole
  pub created_at : OffsetDateTime

pub data LedgerKind : Type 0 where
  personal organization_public : LedgerKind

pub record Ledger : Type 0 where
  pub id : Uuid
  pub name : Text
  pub kind : LedgerKind
  pub owner_user_id : Option Uuid
  pub organization_id : Option Uuid
  pub created_at : OffsetDateTime
  pub deleted_at : Option OffsetDateTime

pub data FinancialAccountKind : Type 0 where
  cash bank wallet wechat alipay credit receivable payable : FinancialAccountKind

pub record FinancialAccount : Type 0 where
  pub id : Uuid
  pub ledger_id : Uuid
  pub name : Text
  pub kind : FinancialAccountKind
  pub opening_balance : Money
  pub created_at : OffsetDateTime
  pub deleted_at : Option OffsetDateTime

pub data CategoryKind : Type 0 where
  income expense : CategoryKind

pub record Category : Type 0 where
  pub id : Uuid
  pub ledger_id : Uuid
  pub name : Text
  pub kind : CategoryKind

pub data TransactionKind : Type 0 where
  income expense transfer : TransactionKind

pub data ApprovalState : Type 0 where
  draft submitted approved rejected voided : ApprovalState

pub data PaymentState : Type 0 where
  not_applicable pending_payment paid_pending_receipt received : PaymentState

pub record Transaction : Type 0 where
  pub id : Uuid
  pub client_mutation_id : Option Uuid
  pub ledger_id : Uuid
  pub account_id : Uuid
  pub category_id : Option Uuid
  pub kind : TransactionKind
  pub amount : Money
  pub occurred_at : OffsetDateTime
  pub description : Text
  pub approval_state : ApprovalState
  pub payment_state : PaymentState
  pub created_by : Uuid
  pub submitted_by : Option Uuid
  pub approved_by : Option Uuid
  pub approved_at : Option OffsetDateTime
  pub paid_by : Option Uuid
  pub paid_at : Option OffsetDateTime
  pub received_by : Option Uuid
  pub received_at : Option OffsetDateTime
  pub version : ℤ
  pub created_at : OffsetDateTime
  pub updated_at : OffsetDateTime
  pub deleted_at : Option OffsetDateTime

pub record AuditLog : Type 0 where
  pub id : Uuid
  pub organization_id : Option Uuid
  pub ledger_id : Uuid
  pub actor_user_id : Uuid
  pub action : Text
  pub resource_type : Text
  pub resource_id : Uuid
  pub summary : Text
  pub created_at : OffsetDateTime
