-- ===== src/Journal/Amount/Codes.antt =====
-- What currency codes and sums of amounts guarantee (crates/cloudledger-core/src/amount.rs).
use cloud_ledger.Base.{
  ℕ, ◌≡◌, ◌↔◌, refl, true, some, [], ◌∷◌, arith, Text, length, all, trim, is_ascii_uppercase,
  to_ascii_uppercase, byte_len, trim_start,
}
use cloud_ledger.Base.Int.{◌+ℤ◌, InI64, checked_add_i64}
use cloud_ledger.Base.Exec.{ok}
use cloud_ledger.Journal.Amount.{
  CurrencyCode, try_new, LedgerMoney, add_same_currency, currency_beq_iff,
}

-- Three ASCII capitals.
abbrev pub IsCode : Text → Type 0
IsCode code = (length code ≡ 3) × (all is_ascii_uppercase code ≡ true)

byte_len_uppercase : (s : Text) → all is_ascii_uppercase s ≡ true → byte_len s ≡ length s
byte_len_uppercase [] h = refl
byte_len_uppercase (c ∷ s) h = ground (arith, byte_len_uppercase s)

upper_uppercase : (s : Text) → all is_ascii_uppercase s ≡ true → to_ascii_uppercase s ≡ s
upper_uppercase [] h = refl
upper_uppercase (c ∷ s) h = ground (arith, upper_uppercase s)

trim_start_uppercase : (c : ℕ) (s : Text) → is_ascii_uppercase c ≡ true → trim_start (c ∷ s) ≡ c ∷ s
unfolding trim_start
trim_start_uppercase c s h = ground arith

trim_code : (s : Text) → IsCode s → trim s ≡ s
unfolding trim
trim_code [] h = absurd (omega arith)
trim_code (a ∷ []) h = absurd (omega arith)
trim_code (a ∷ b ∷ []) h = absurd (omega arith)
trim_code (a ∷ b ∷ c ∷ []) h =
    rw (trim_start_uppercase a (b ∷ c ∷ []) (ground arith))
      (rw (trim_start_uppercase c (b ∷ a ∷ []) (ground arith)) refl)
trim_code (a ∷ b ∷ c ∷ d ∷ s) h = absurd (omega arith)

try_new-IsCode : (value : Text) (c : CurrencyCode) → try_new value ≡ ok c → IsCode c.as_str
unfolding try_new
try_new-IsCode value c h = ground (arith, byte_len_uppercase (to_ascii_uppercase (trim value)))

-- A text of three ASCII capitals is a code as it stands.
try_new_code : (code : Text) → IsCode code → try_new code ≡ ok (record { as_str = code })
unfolding try_new
try_new_code code h =
    rw (trim_code code h, upper_uppercase code h.1) (ground (arith, byte_len_uppercase code h.1))

-- A currency code that `try_new` makes is three ASCII capitals, and `try_new` makes it from its own
-- text again.
pub try_new_roundtrip :
    (value : Text) (c : CurrencyCode)
    → try_new value ≡ ok c
    → IsCode c.as_str × (try_new c.as_str ≡ ok c)
try_new_roundtrip value c h =
    let is_code = try_new-IsCode value c h in (is_code, try_new_code c.as_str is_code)

-- A sum of two amounts exists exactly if they have one currency and the exact sum is in the range
-- of `i64`; it is then that sum, in that currency.
pub add_same_currency_iff :
    (m n sum : LedgerMoney)
    → (add_same_currency m n ≡ some sum) ↔ (
        (m.currency ≡ n.currency)
        × InI64 (m.minor_units +ℤ n.minor_units)
        × (sum ≡ record { currency = m.currency; minor_units = m.minor_units +ℤ n.minor_units }))
unfolding add_same_currency checked_add_i64
add_same_currency_iff m n sum = (
  λ h. ground (arith, currency_beq_iff m.currency n.currency),
  λ h. ground (arith, currency_beq_iff m.currency n.currency),
)
