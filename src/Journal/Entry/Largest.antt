-- ===== src/Journal/Entry/Largest.antt =====
-- The largest amount of an entry (crates/cloudledger-core/src/journal.rs): it decides which
-- approval a company entry needs.
use cloud_ledger.Base.{
  ◌≡◌, ◌⊎◌, inl, inr, refl, none, some, List, [], ◌∷◌, arith, All, Has, Bool-cases,
}
use cloud_ledger.Base.Int.{ℤ, ltb_ℤ, ◌≤ℤ◌, int_laws}
use cloud_ledger.Journal.Amount.{LedgerMoney}
use cloud_ledger.Journal.Entry.{
  JournalLine, JournalEntry, larger, largest_from, largest_of, largest_line_amount,
}

-- The line has an amount of at most `m`.
abbrev pub AtMost : LedgerMoney → JournalLine → Type 0
AtMost m line = line.amount.minor_units ≤ℤ m.minor_units

≤ℤ_trans : (a b c : ℤ) → a ≤ℤ b → b ≤ℤ c → a ≤ℤ c
≤ℤ_trans a b c p q = omega int_laws

≤ℤ_refl : (a : ℤ) → a ≤ℤ a
≤ℤ_refl a = omega int_laws

larger-≤ :
    (best m : LedgerMoney)
    → (best.minor_units ≤ℤ (larger best m).minor_units)
      × (m.minor_units ≤ℤ (larger best m).minor_units)
larger-≤ best m = ground arith

-- The amount found is the first one or a line's, and is at least as large as all of them.
largest_from-Bounds :
    (best : LedgerMoney) (lines : List JournalLine)
    → (best.minor_units ≤ℤ (largest_from best lines).minor_units)
      × All (AtMost (largest_from best lines)) lines
unfolding largest_from
largest_from-Bounds best [] = (≤ℤ_refl best.minor_units, tt)
largest_from-Bounds best (line ∷ lines) =
    let (low, rest) = largest_from-Bounds (larger best line.amount) lines in
    let (p, q) = larger-≤ best line.amount in
    let mid = (larger best line.amount).minor_units in
    let last = (largest_from (larger best line.amount) lines).minor_units in
    (
      ≤ℤ_trans best.minor_units mid last p low,
      (≤ℤ_trans line.amount.minor_units mid last q low, rest),
    )

largest_from-Has :
    (best : LedgerMoney) (lines : List JournalLine)
    → (largest_from best lines ≡ best)
      ⊎ ((line : JournalLine) × Has line lines × (largest_from best lines ≡ line.amount))
unfolding largest_from
largest_from-Has best [] = inl refl
largest_from-Has best (line ∷ lines) = elim (largest_from-Has (larger best line.amount) lines) [
  | inl same ↦ elim (Bool-cases (ltb_ℤ line.amount.minor_units best.minor_units)) [
    | inl less ↦ inl (ground arith)
    | inr more ↦ inr (line, inl refl, ground arith)
  ]
  | inr (l, found, same) ↦ inr (l, inr found, same)
]

-- A line of the list has the amount, and no line has a larger one.
abbrev pub IsLargest : LedgerMoney → List JournalLine → Type 0
IsLargest m lines =
    ((line : JournalLine) × Has line lines × (m ≡ line.amount)) × All (AtMost m) lines

largest_from-IsLargest :
    (line : JournalLine) (lines : List JournalLine)
    → IsLargest (largest_from line.amount lines) (line ∷ lines)
largest_from-IsLargest line lines =
    let bounds = largest_from-Bounds line.amount lines in
    (
      elim (largest_from-Has line.amount lines) [
        | inl same ↦ (line, inl refl, same)
        | inr (l, found, same) ↦ (l, inr found, same)
      ],
      bounds,
    )

largest_of-cases :
    (lines : List JournalLine)
    → ((largest_of lines ≡ none) × (lines ≡ []))
      ⊎ ((m : LedgerMoney) × (largest_of lines ≡ some m) × IsLargest m lines)
unfolding largest_from
largest_of-cases [] = inl (refl, refl)
largest_of-cases (line ∷ lines) =
    inr (largest_from line.amount lines, refl, largest_from-IsLargest line lines)

-- The largest amount of an entry is the amount of one of its lines, and no line has a larger one;
-- it is missing only for an entry without lines.
pub largest_line_amount-cases :
    (entry : JournalEntry)
    → ((largest_line_amount entry ≡ none) × (entry.lines ≡ []))
      ⊎ ((m : LedgerMoney) × (largest_line_amount entry ≡ some m) × IsLargest m entry.lines)
unfolding largest_line_amount
largest_line_amount-cases entry = largest_of-cases entry.lines
