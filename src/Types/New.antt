-- ===== src/Types/New.antt =====
-- The constructors of crates/cloudledger-core/src/types.rs. The UUID and the time that a
-- constructor draws come first.
use cloud_ledger.Base.{Option, none, some, Text}
use cloud_ledger.Base.Int.{pos}
use cloud_ledger.Types.Data.{
  Uuid, OffsetDateTime, Money, User, Organization, Membership, MembershipRole, Ledger, LedgerKind,
  FinancialAccount, FinancialAccountKind, Transaction, TransactionKind, ApprovalState, PaymentState,
  AuditLog,
}

-- `User::new`
unfoldable pub new_user : Uuid → OffsetDateTime → Text → Option Text → Option Text → User
new_user fresh now name mail tel = record {
  id = fresh;
  display_name = name;
  email = mail;
  phone = tel;
  created_at = now;
}

-- `Organization::new`
unfoldable pub new_organization : Uuid → OffsetDateTime → Text → Uuid → Organization
new_organization fresh now name creator = record {
  id = fresh;
  name = name;
  created_by = creator;
  created_at = now;
}

-- `Membership::new`
unfoldable pub new_membership : Uuid → OffsetDateTime → Uuid → Uuid → MembershipRole → Membership
new_membership fresh now organization user role = record {
  id = fresh;
  organization_id = organization;
  user_id = user;
  role = role;
  created_at = now;
}

-- `Ledger::personal`
unfoldable pub personal_ledger : Uuid → OffsetDateTime → Uuid → Text → Ledger
personal_ledger fresh now owner_user name = record {
  id = fresh;
  name = name;
  kind = LedgerKind.personal;
  owner_user_id = some owner_user;
  organization_id = none;
  created_at = now;
  deleted_at = none;
}

-- `Ledger::organization_public`
unfoldable pub organization_public_ledger : Uuid → OffsetDateTime → Uuid → Text → Ledger
organization_public_ledger fresh now organization name = record {
  id = fresh;
  name = name;
  kind = LedgerKind.organization_public;
  owner_user_id = none;
  organization_id = some organization;
  created_at = now;
  deleted_at = none;
}

-- `FinancialAccount::new`
unfoldable pub new_account :
    Uuid → OffsetDateTime → Uuid → Text → FinancialAccountKind → Money → FinancialAccount
new_account fresh now ledger name kind opening = record {
  id = fresh;
  ledger_id = ledger;
  name = name;
  kind = kind;
  opening_balance = opening;
  created_at = now;
  deleted_at = none;
}

-- `Transaction::draft`
unfoldable pub draft_transaction :
    Uuid
    → OffsetDateTime
    → Uuid
    → Uuid
    → Option Uuid
    → TransactionKind
    → Money
    → Text
    → Uuid
    → Transaction
draft_transaction fresh now ledger account category kind amount description creator = record {
  id = fresh;
  client_mutation_id = none;
  ledger_id = ledger;
  account_id = account;
  category_id = category;
  kind = kind;
  amount = amount;
  occurred_at = now;
  description = description;
  approval_state = ApprovalState.draft;
  payment_state = PaymentState.not_applicable;
  created_by = creator;
  submitted_by = none;
  approved_by = none;
  approved_at = none;
  paid_by = none;
  paid_at = none;
  received_by = none;
  received_at = none;
  version = pos 1;
  created_at = now;
  updated_at = now;
  deleted_at = none;
}

-- `AuditLog::new`
unfoldable pub new_audit_log :
    Uuid → OffsetDateTime → Option Uuid → Uuid → Uuid → Text → Text → Uuid → Text → AuditLog
new_audit_log fresh now organization ledger actor action resource_type resource summary = record {
  id = fresh;
  organization_id = organization;
  ledger_id = ledger;
  actor_user_id = actor;
  action = action;
  resource_type = resource_type;
  resource_id = resource;
  summary = summary;
  created_at = now;
}
