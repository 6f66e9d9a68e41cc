-- ===== src/App/Setup.antt =====
-- The standard accounts and categories that crates/cloudledger-service/src/app.rs gives a ledger.
-- A loop that draws a UUID for some of its items takes the place of the first one; `expect` on a
-- currency that `Money::new` refuses would panic, and here keeps the currency as it is stored.
use cloud_ledger.Base.{
  ℕ, suc, ◌+◌, Bool, true, false, ◌&&◌, Option, none, some, List, [], ◌∷◌, ◌++◌, map, ◌==◌, nat_eq,
  text_eq, option_eq, if◌then◌else◌, any, find, filter, Text, text,
}
use cloud_ledger.Base.Int.{pos}
use cloud_ledger.Base.Exec.{Result, ok, err}
use cloud_ledger.Base.Map.{Map, insert, values, modify_first, modify_all}
use cloud_ledger.Types.{
  Uuid, Money, Ledger, LedgerKind, FinancialAccount, FinancialAccountKind, Category, CategoryKind,
  TransactionKind, account_kind_eq, category_kind_eq, ledger_kind_eq, new_account, personal_ledger,
}
use cloud_ledger.App.State.{World, AppLedgerService}
use cloud_ledger.App.Create.{MoneyError, new_money}

abbrev pub is_none : {A : Type 0} → Option A → Bool
is_none none = true
is_none (some deleted) = false

abbrev pub standards : List (Text × FinancialAccountKind)
standards =
    (text "微信", FinancialAccountKind.wechat)
    ∷ (text "支付宝", FinancialAccountKind.alipay)
    ∷ (text "银行账户", FinancialAccountKind.bank)
    ∷ (text "现金", FinancialAccountKind.cash)
    ∷ []

abbrev pub is_standard : Uuid → FinancialAccountKind → FinancialAccount → Bool
is_standard ledger kind account =
    account.ledger_id == ledger && (account.kind == kind) && is_none account.deleted_at

abbrev currency_of : Option FinancialAccount → Text
currency_of none = text "CNY"
currency_of (some account) = account.opening_balance.currency

abbrev pub ledger_money : Uuid → Map FinancialAccount → Text
ledger_money ledger accounts =
    currency_of (
      find (λ account. account.ledger_id == ledger && is_none account.deleted_at) (values accounts))

abbrev expect_money : Text → Result MoneyError Money → Money
expect_money currency (ok money) = money
expect_money currency (err e) = record { amount_minor = pos 0; currency = currency }

unfoldable pub add_account :
    World
    → ℕ
    → Uuid
    → Text
    → Text
    → FinancialAccountKind
    → Map FinancialAccount
    → Map FinancialAccount
unfolding new_account
add_account w place ledger currency name kind accounts =
    let account =
      new_account (w.new_v4 place) (w.now_utc place) ledger name kind
        (expect_money currency (new_money w (pos 0) currency)) in
    insert account.id account accounts

-- One round of the loop over the standard accounts.
abbrev pub ensure_account :
    World
    → ℕ
    → Uuid
    → Text
    → Text × FinancialAccountKind
    → Map FinancialAccount
    → Map FinancialAccount
ensure_account w place ledger currency (name, kind) accounts =
    if any (is_standard ledger kind) (values accounts)
    then modify_first (is_standard ledger kind) (λ account. record account { name = name }) accounts
    else add_account w place ledger currency name kind accounts

abbrev pub ensure_accounts :
    World
    → ℕ
    → Uuid
    → Text
    → List (Text × FinancialAccountKind)
    → Map FinancialAccount
    → Map FinancialAccount
ensure_accounts w place ledger currency [] accounts = accounts
ensure_accounts w place ledger currency (standard ∷ rest) accounts =
    ensure_accounts w (suc place) ledger currency rest
      (ensure_account w place ledger currency standard accounts)

unfoldable pub ensure_standard_accounts_for_ledger :
    World → ℕ → Uuid → AppLedgerService → AppLedgerService
ensure_standard_accounts_for_ledger w place ledger s = record s {
  accounts = ensure_accounts w place ledger (ledger_money ledger s.accounts) standards s.accounts;
}

abbrev pub default_categories : List (Text × CategoryKind)
default_categories =
    (text "餐饮", CategoryKind.expense)
    ∷ (text "交通", CategoryKind.expense)
    ∷ (text "办公", CategoryKind.expense)
    ∷ (text "采购", CategoryKind.expense)
    ∷ (text "差旅", CategoryKind.expense)
    ∷ (text "其他支出", CategoryKind.expense)
    ∷ (text "工资", CategoryKind.income)
    ∷ (text "业务收入", CategoryKind.income)
    ∷ (text "其他收入", CategoryKind.income)
    ∷ []

abbrev pub is_category : Uuid → Text → CategoryKind → Category → Bool
is_category ledger name kind category =
    category.ledger_id == ledger && (category.kind == kind) && (category.name == name)

-- One round of the loop over the default categories.
abbrev pub ensure_category : World → ℕ → Uuid → Text × CategoryKind → Map Category → Map Category
ensure_category w place ledger (name, kind) categories =
    if any (is_category ledger name kind) (values categories)
    then categories
    else insert (w.new_v4 place)
        (record { id = w.new_v4 place; ledger_id = ledger; name = name; kind = kind }) categories

abbrev pub ensure_categories :
    World → ℕ → Uuid → List (Text × CategoryKind) → Map Category → Map Category
ensure_categories w place ledger [] categories = categories
ensure_categories w place ledger (default ∷ rest) categories =
    ensure_categories w (suc place) ledger rest (ensure_category w place ledger default categories)

unfoldable pub ensure_default_categories_for_ledger :
    World → ℕ → Uuid → AppLedgerService → AppLedgerService
ensure_default_categories_for_ledger w place ledger s = record s {
  categories = ensure_categories w place ledger default_categories s.categories;
}

-- Both, at 4 and 9 places.
unfoldable pub furnish : World → ℕ → Uuid → AppLedgerService → AppLedgerService
furnish w place ledger s =
    ensure_default_categories_for_ledger w (place + 4) ledger
      (ensure_standard_accounts_for_ledger w place ledger s)

abbrev pub is_personal_of : Uuid → Ledger → Bool
is_personal_of user ledger = ledger.kind == LedgerKind.personal && ledger.owner_user_id == some user

unfoldable pub ensure_personal_ledger_for_user :
    World → ℕ → Uuid → Text → AppLedgerService → AppLedgerService
unfolding personal_ledger
ensure_personal_ledger_for_user w place user display_name s =
    if any (is_personal_of user) (values s.ledgers)
    then s
    else let ledger =
        personal_ledger (w.new_v4 place) (w.now_utc place) user (display_name ++ text " 私账") in
      furnish w (suc place) ledger.id (record s { ledgers = insert ledger.id ledger s.ledgers })

unfoldable pub rename_personal_ledger_for_user : Uuid → Text → AppLedgerService → AppLedgerService
rename_personal_ledger_for_user user display_name s = record s {
  ledgers =
      modify_all (is_personal_of user)
        (λ ledger. record ledger { name = display_name ++ text " 私账" }) s.ledgers;
}

-- The closure of `for account in self.accounts.values_mut()`
abbrev wechat_wallet : FinancialAccount → FinancialAccount
wechat_wallet account = record account { kind = FinancialAccountKind.wechat }

abbrev pub furnish_all : World → ℕ → List Uuid → AppLedgerService → AppLedgerService
furnish_all w place [] s = s
furnish_all w place (ledger ∷ ledgers) s =
    furnish_all w (place + 13) ledgers (furnish w place ledger s)

-- The category of a ledger that a transaction without one is given: the BTreeMap that collects
-- them keeps the last of several.
abbrev pub last_default : Text → CategoryKind → Uuid → List Category → Option Uuid
last_default name kind ledger [] = none
last_default name kind ledger (category ∷ rest) = elim (last_default name kind ledger rest) [
  | some later ↦ some later
  | none ↦ if is_category ledger name kind category then some category.id else none
]

abbrev pub default_category : TransactionKind → Uuid → List Category → Option Uuid
default_category TransactionKind.income ledger categories =
    last_default (text "其他收入") CategoryKind.income ledger categories
default_category TransactionKind.expense ledger categories =
    last_default (text "其他支出") CategoryKind.expense ledger categories
default_category TransactionKind.transfer ledger categories = none

unfoldable pub assign_default_categories : AppLedgerService → AppLedgerService
assign_default_categories s = record s {
  transactions =
      modify_all (λ t. is_none t.category_id)
        (λ t. record t { category_id = default_category t.kind t.ledger_id (values s.categories) })
        s.transactions;
}

unfoldable pub ensure_standard_setup : World → ℕ → AppLedgerService → AppLedgerService
ensure_standard_setup w place s =
    let renamed = record s {
      accounts =
          modify_all (λ account. account.kind == FinancialAccountKind.wallet) wechat_wallet
            s.accounts;
    } in
    let live = filter (λ ledger. is_none ledger.deleted_at) (values s.ledgers) in
    assign_default_categories (furnish_all w place (map (λ ledger. ledger.id) live) renamed)
