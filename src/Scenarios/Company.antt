-- ===== src/Scenarios/Company.antt =====
-- A company with a business owner (10), an approver (11) and an employee (12), its public ledger
-- (21) with an account and two categories, and the owner's personal ledger (20).
use cloud_ledger.Base.{◌+◌, none, some, [], ◌∷◌, Text, text}
use cloud_ledger.Base.Int.{ℤ, pos}
use cloud_ledger.Types.{
  Uuid, Membership, MembershipRole, Ledger, LedgerKind, FinancialAccount, FinancialAccountKind,
  Category, CategoryKind, TransactionKind, Money,
}
use cloud_ledger.App.State.{World, AppLedgerService}
use cloud_ledger.App.Create.{AppCreateTransactionInput}

abbrev pub world : World
world = record {
  new_v4 = λ n. 100 + n;
  now_utc = λ n. 5000 + n;
  to_lowercase = λ t. t;
  to_uppercase = λ t. t;
}

abbrev pub cny : ℤ → Money
cny amount = record { amount_minor = amount; currency = text "CNY" }

abbrev member : Uuid → Uuid → MembershipRole → Membership
member id user role = record {
  id = id;
  organization_id = 1;
  user_id = user;
  role = role;
  created_at = 0;
}

abbrev pub personal_of_owner : Ledger
personal_of_owner = record {
  id = 20;
  name = text "private";
  kind = LedgerKind.personal;
  owner_user_id = some 10;
  organization_id = none;
  created_at = 0;
  deleted_at = none;
}

abbrev pub public_ledger : Ledger
public_ledger = record {
  id = 21;
  name = text "public";
  kind = LedgerKind.organization_public;
  owner_user_id = none;
  organization_id = some 1;
  created_at = 0;
  deleted_at = none;
}

abbrev account : Uuid → Uuid → FinancialAccount
account id ledger = record {
  id = id;
  ledger_id = ledger;
  name = text "cash";
  kind = FinancialAccountKind.cash;
  opening_balance = cny (pos 1000);
  created_at = 0;
  deleted_at = none;
}

abbrev pub company_cash : FinancialAccount
company_cash = account 30 21

abbrev category : Uuid → CategoryKind → Text → Category
category id kind name = record { id = id; ledger_id = 21; name = name; kind = kind }

abbrev pub company : AppLedgerService
company = record {
  schema_version = 3;
  current_user_id = 10;
  users = [];
  organizations = (1, record { id = 1; name = text "ACME"; created_by = 9; created_at = 0 }) ∷ [];
  memberships =
      member 50 10 MembershipRole.business_owner
      ∷ member 51 11 MembershipRole.approver
      ∷ member 52 12 MembershipRole.employee
      ∷ [];
  ledgers = (20, personal_of_owner) ∷ (21, public_ledger) ∷ [];
  accounts = (30, company_cash) ∷ (31, account 31 20) ∷ [];
  categories =
      (40, category 40 CategoryKind.expense (text "其他支出"))
      ∷ (41, category 41 CategoryKind.income (text "其他收入"))
      ∷ [];
  transactions = [];
  audit_logs = [];
}

-- The employee's expense, with a client mutation id.
abbrev pub lunch : AppCreateTransactionInput
lunch = record {
  actor_user_id = 12;
  ledger_id = 21;
  account_id = 30;
  category_id = none;
  kind = TransactionKind.expense;
  amount_minor = pos 300;
  currency = text "CNY";
  description = text "lunch";
  client_mutation_id = some 7;
}
