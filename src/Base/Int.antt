-- ===== src/Base/Int.antt =====
-- Signed integers over the native numbers, and the ranges of Rust's `i64` and `i128`.
use Prim.Native.Nat.{ℕ, suc, ◌+◌, ◌-◌, ◌%◌, ◌≤◌, ◌<◌}
use mathlib.Core.Path.{◌≡◌, refl, sym}
use mathlib.Core.Logic.{◌↔◌}
use mathlib.Core.Bool.{Bool, true, ◌&&◌}
use mathlib.Core.Option.{Option, none, some}
use native.Mathlib.Omega.{arith}
use cloud_ledger.Base.Tests.{ltb, leb, nat_beq, if◌then◌else◌, PartialEq}

-- `negsuc n` is -(n + 1).
pub data ℤ : Type 0 where
  pos : ℕ → ℤ
  negsuc : ℕ → ℤ

abbrev pub pos_part : ℤ → ℕ
pos_part (pos n) = n
pos_part (negsuc n) = 0

abbrev pub neg_part : ℤ → ℕ
neg_part (pos n) = 0
neg_part (negsuc n) = suc n

-- a - b, as an integer.
abbrev pub sub_ℕ : ℕ → ℕ → ℤ
sub_ℕ a b = if leb b a then pos (a - b) else negsuc (b - a - 1)

infixl 65 ◌+ℤ◌ ◌-ℤ◌
infix 50 ◌≤ℤ◌
unfoldable pub ◌+ℤ◌ : ℤ → ℤ → ℤ
a +ℤ b = sub_ℕ (pos_part a + pos_part b) (neg_part a + neg_part b)

unfoldable pub ◌-ℤ◌ : ℤ → ℤ → ℤ
a -ℤ b = sub_ℕ (pos_part a + neg_part b) (neg_part a + pos_part b)

abbrev pub ◌≤ℤ◌ : ℤ → ℤ → Type 0
a ≤ℤ b = pos_part a + neg_part b ≤ pos_part b + neg_part a

abbrev pub ltb_ℤ : ℤ → ℤ → Bool
ltb_ℤ a b = ltb (pos_part a + neg_part b) (pos_part b + neg_part a)

abbrev pub leb_ℤ : ℤ → ℤ → Bool
leb_ℤ a b = leb (pos_part a + neg_part b) (pos_part b + neg_part a)

abbrev pub int_beq : ℤ → ℤ → Bool
int_beq a b = nat_beq (pos_part a + neg_part b) (pos_part b + neg_part a)

pub +ℤ_parts :
    (a b : ℤ)
    → pos_part (a +ℤ b) + neg_part a + neg_part b ≡ neg_part (a +ℤ b) + pos_part a + pos_part b
unfolding ◌+ℤ◌
+ℤ_parts a b = ground arith

pub -ℤ_parts :
    (a b : ℤ)
    → pos_part (a -ℤ b) + neg_part a + pos_part b ≡ neg_part (a -ℤ b) + pos_part a + neg_part b
unfolding ◌-ℤ◌
-ℤ_parts a b = ground arith

pub eq_of_parts : (a b : ℤ) → pos_part a + neg_part b ≡ pos_part b + neg_part a → a ≡ b
eq_of_parts a b h = ground arith

pub ruleset int_laws = (arith, +ℤ_parts, -ℤ_parts, eq_of_parts)

pub int_beq_iff : (a b : ℤ) → (int_beq a b ≡ true) ↔ (a ≡ b)
int_beq_iff a b = (λ h. eq_of_parts a b (ground arith), λ h. ground arith)

instance abbrev pub int_eq : PartialEq ℤ
int_eq = record { same = int_beq; same_iff = int_beq_iff }

-- 2^63 and the range of `i64`.
abbrev pub i64_half : ℕ
i64_half = 9223372036854775808

abbrev pub i64_max : ℤ
i64_max = pos (i64_half - 1)

abbrev pub in_i64 : ℤ → Bool
in_i64 a = ltb (pos_part a) i64_half && leb (neg_part a) i64_half

abbrev pub InI64 : ℤ → Type 0
InI64 a = (pos_part a < i64_half) × (neg_part a ≤ i64_half)

-- `i64::checked_add`
unfoldable pub checked_add_i64 : ℤ → ℤ → Option ℤ
checked_add_i64 a b = let s = a +ℤ b in if in_i64 s then some s else none

-- The bit pattern of an `i64`, and the value that a bit pattern stands for.
abbrev pub i64_bits : ℤ → ℕ
i64_bits a =
    (pos_part a + (18446744073709551616 - neg_part a % 18446744073709551616)) % 18446744073709551616

abbrev pub of_i64_bits : ℕ → ℤ
of_i64_bits u = if ltb u i64_half then pos u else negsuc (18446744073709551615 - u)

-- `a + b` and `-a` on `i64`, which wrap around in a build without overflow checks.
unfoldable pub add_i64 : ℤ → ℤ → ℤ
add_i64 a b = of_i64_bits ((i64_bits a + i64_bits b) % 18446744073709551616)

unfoldable pub neg_i64 : ℤ → ℤ
neg_i64 a = of_i64_bits (i64_bits (pos 0 -ℤ a))

-- A sum that is in range is exact.
pub add_i64_exact : (a b : ℤ) → InI64 a → InI64 b → InI64 (a +ℤ b) → add_i64 a b ≡ a +ℤ b
unfolding add_i64 ◌+ℤ◌
add_i64_exact a b ra rb rs = ground arith

pub neg_i64_exact : (a : ℤ) → InI64 (pos 0 -ℤ a) → neg_i64 a ≡ pos 0 -ℤ a
unfolding neg_i64 ◌-ℤ◌
neg_i64_exact a r = ground arith

-- Modulo 2^64 wrapping arithmetic is exact.
pub i64_bits-of : (u : ℕ) → u < 18446744073709551616 → i64_bits (of_i64_bits u) ≡ u
i64_bits-of u h = ground arith

pub of-i64_bits : (a : ℤ) → InI64 a → of_i64_bits (i64_bits a) ≡ a
of-i64_bits a r = ground arith

pub i64_bits-+ℤ : (a b : ℤ) → i64_bits (a +ℤ b) ≡ (i64_bits a + i64_bits b) % 18446744073709551616
unfolding ◌+ℤ◌
i64_bits-+ℤ a b = ground arith

-- The value of an integer in `i64`: its residue modulo 2^64.
unfoldable pub wrap_i64 : ℤ → ℤ
wrap_i64 a = of_i64_bits (i64_bits a)

pub wrap_i64_exact : (a : ℤ) → InI64 a → wrap_i64 a ≡ a
unfolding wrap_i64
wrap_i64_exact a r = of-i64_bits a r

pub add_i64-wrap : (a b : ℤ) → add_i64 (wrap_i64 a) (wrap_i64 b) ≡ wrap_i64 (a +ℤ b)
unfolding add_i64 wrap_i64
add_i64-wrap a b =
    rw
      (
        i64_bits-of (i64_bits a) (omega arith),
        i64_bits-of (i64_bits b) (omega arith),
        i64_bits-+ℤ a b,
      )
      refl

pub neg_i64_lem : (a : ℤ) → neg_i64 a ≡ wrap_i64 (pos 0 -ℤ a)
unfolding neg_i64 wrap_i64
neg_i64_lem a = refl

-- Two integers that `i64` does not tell apart.
abbrev pub SameBits : ℤ → ℤ → Type 0
SameBits a b = i64_bits a ≡ i64_bits b

pub add_i64-SameBits :
    (a a' b b' : ℤ) → SameBits a a' → SameBits b b' → SameBits (add_i64 a b) (a' +ℤ b')
unfolding add_i64
add_i64-SameBits a a' b b' h k =
    rw (i64_bits-of ((i64_bits a + i64_bits b) % 18446744073709551616) (omega arith), h, k)
      (sym (i64_bits-+ℤ a' b'))

pub neg_i64-SameBits : (a : ℤ) → SameBits (neg_i64 a) (pos 0 -ℤ a)
unfolding neg_i64
neg_i64-SameBits a = i64_bits-of (i64_bits (pos 0 -ℤ a)) (omega arith)
