-- ===== src/App/State.antt =====
-- The state of `AppLedgerService` (crates/cloudledger-service/src/app.rs), its errors, and the
-- monad of its methods. `World` holds what a method takes from its surroundings: the UUID and the
-- time drawn at the n-th place of the method's text that draws one, and Unicode's case mappings.
use cloud_ledger.Base.{ℕ, List, [], Text}
use cloud_ledger.Base.Map.{Map}
use cloud_ledger.Base.Exec.{Exec}
use cloud_ledger.Types.{
  Uuid, OffsetDateTime, User, Organization, Membership, Ledger, FinancialAccount, Category,
  Transaction, AuditLog,
}

pub record World : Type 0 where
  pub new_v4 : ℕ → Uuid
  pub now_utc : ℕ → OffsetDateTime
  pub to_lowercase : Text → Text
  pub to_uppercase : Text → Text

-- The errors of `AppServiceError` that the modelled methods return.
pub data AppServiceError : Type 0 where
  ledger_not_found user_not_found account_not_found category_not_found : AppServiceError
  invalid_category_name duplicate_category category_direction_mismatch : AppServiceError
  organization_not_found membership_not_found : AppServiceError
  employee_belongs_to_another_organization transaction_not_found unauthorized : AppServiceError
  invalid_approval_state invalid_payment_state receipt_confirmation_denied : AppServiceError
  self_approval_denied decision_note_required void_reason_required : AppServiceError
  invalid_void_reason public_ledger_only invalid_void_state currency_mismatch : AppServiceError
  unsupported_transaction_kind last_owner_denied setup_incomplete : AppServiceError
  invalid_organization_name invalid_user_display_name : AppServiceError
  invalid_amount : Text → AppServiceError
  invalid_analysis_range invalid_transaction_month invalid_transaction_day : AppServiceError
  invalid_audit_granularity invalid_audit_period : AppServiceError
  storage : Text → AppServiceError

pub record AppLedgerService : Type 0 where
  pub schema_version : ℕ
  pub current_user_id : Uuid
  pub users : Map User
  pub organizations : Map Organization
  pub memberships : List Membership
  pub ledgers : Map Ledger
  pub accounts : Map FinancialAccount
  pub categories : Map Category
  pub transactions : Map Transaction
  pub audit_logs : List AuditLog

abbrev pub Method : Type 0 → Type 0
Method A = Exec AppLedgerService AppServiceError A

-- `AppLedgerService::uninitialized`, of the current schema. The nil UUID is 0.
unfoldable pub uninitialized : AppLedgerService
uninitialized = record {
  schema_version = 3;
  current_user_id = 0;
  users = [];
  organizations = [];
  memberships = [];
  ledgers = [];
  accounts = [];
  categories = [];
  transactions = [];
  audit_logs = [];
}
