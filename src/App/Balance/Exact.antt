-- ===== src/App/Balance/Exact.antt =====
-- The balance of an account without overflow, and its relation to `account_balance_minor`.
use cloud_ledger.Base.{
  ◌≡◌, inl, inr, refl, ◌∙◌, [], ◌∷◌, map, arith, filter, if◌then◌else◌, Bool-cases,
}
use cloud_ledger.Base.Int.{
  ℤ, pos, ◌+ℤ◌, ◌-ℤ◌, add_i64, wrap_i64, InI64, SameBits, wrap_i64_exact, i64_bits-+ℤ,
  add_i64-SameBits, neg_i64-SameBits, int_laws,
}
use cloud_ledger.Base.Map.{Map, values}
use cloud_ledger.Base.Sorted.{sum_of}
use cloud_ledger.Types.{FinancialAccount, Transaction, TransactionKind}
use cloud_ledger.App.State.{AppLedgerService}
use cloud_ledger.App.Balance.{account_balance_minor, counts_for, signed_amount, sum_i64}

abbrev exact_by_kind : TransactionKind → ℤ → ℤ
exact_by_kind TransactionKind.income amount = amount
exact_by_kind TransactionKind.expense amount = pos 0 -ℤ amount
exact_by_kind TransactionKind.transfer amount = pos 0

pub +ℤ_zero : (a : ℤ) → a +ℤ pos 0 ≡ a
+ℤ_zero a = omega int_laws

pub zero_+ℤ : (a : ℤ) → pos 0 +ℤ a ≡ a
zero_+ℤ a = omega int_laws

pub +ℤ_assoc : (a b c : ℤ) → a +ℤ b +ℤ c ≡ a +ℤ (b +ℤ c)
+ℤ_assoc a b c = omega int_laws

add_i64_wrap_lem : (a b c : ℤ) → SameBits b c → add_i64 a b ≡ wrap_i64 (a +ℤ c)
unfolding add_i64 wrap_i64
add_i64_wrap_lem a b c h = rw (i64_bits-+ℤ a c, h) refl

-- What a transaction adds to the account: its signed amount if it counts for the account.
unfoldable pub effect : FinancialAccount → Transaction → ℤ
effect account t =
    if counts_for account t then exact_by_kind t.kind t.amount.amount_minor else pos 0

-- The opening balance and the effects of all transactions, over the integers.
unfoldable pub exact_balance : AppLedgerService → FinancialAccount → ℤ
exact_balance s account =
    account.opening_balance.amount_minor +ℤ sum_of (effect account) s.transactions

signed_amount-SameBits :
    (t : Transaction) → SameBits (signed_amount t) (exact_by_kind t.kind t.amount.amount_minor)
unfolding signed_amount
signed_amount-SameBits t = ground (arith, neg_i64-SameBits t.amount.amount_minor)

sum_i64-SameBits :
    (account : FinancialAccount) (ts : Map Transaction) (acc acc' : ℤ)
    → SameBits acc acc'
    → SameBits
        (sum_i64 acc (map signed_amount (filter (counts_for account) (values ts))))
        (acc' +ℤ sum_of (effect account) ts)
unfolding sum_i64 effect
sum_i64-SameBits account [] acc acc' h = rw (+ℤ_zero acc') h
sum_i64-SameBits account ((k, t) ∷ ts) acc acc' h = elim (Bool-cases (counts_for account t)) [
  | inl counted ↦
      let x = exact_by_kind t.kind t.amount.amount_minor in
      let next = add_i64-SameBits acc acc' (signed_amount t) x h (signed_amount-SameBits t) in
      rw (counted, ← +ℤ_assoc acc' x (sum_of (effect account) ts))
        (sum_i64-SameBits account ts (add_i64 acc (signed_amount t)) (acc' +ℤ x) next)
  | inr skipped ↦
      rw (skipped, zero_+ℤ (sum_of (effect account) ts)) (sum_i64-SameBits account ts acc acc' h)
]

-- The balance that the service computes is, for every state and account, the `i64` value of the
-- exact balance: the two agree modulo 2^64, so they are equal whenever the exact balance is in the
-- range of `i64`, whatever overflow happens on the way.
pub account_balance_minor-exact :
    (s : AppLedgerService) (account : FinancialAccount)
    → (account_balance_minor s account ≡ wrap_i64 (exact_balance s account))
      × (InI64 (exact_balance s account)
          → account_balance_minor s account ≡ exact_balance s account)
unfolding account_balance_minor exact_balance
account_balance_minor-exact s account =
    let opening = account.opening_balance.amount_minor in
    let total =
      sum_i64 (pos 0) (map signed_amount (filter (counts_for account) (values s.transactions))) in
    let same : SameBits total (pos 0 +ℤ sum_of (effect account) s.transactions) =
      sum_i64-SameBits account s.transactions (pos 0) (pos 0) refl in
    let wrapped =
      add_i64_wrap_lem opening total (sum_of (effect account) s.transactions)
        (rw (zero_+ℤ (sum_of (effect account) s.transactions)) at same) in
    (wrapped, λ r. wrapped ∙ wrap_i64_exact (exact_balance s account) r)
