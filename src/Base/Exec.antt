-- ===== src/Base/Exec.antt =====
-- A method on `&mut self` that may fail: a result, and the state as the method left it, which an
-- early return with an error does not undo.
use mathlib.Core.Path.{◌≡◌, refl}
use mathlib.Core.Logic.{◌⊎◌, inl, inr}

pub data Result {ℓ κ} (E : Type ℓ) (A : Type κ) : Type (ℓ ⊔ κ) where
  ok : A → Result E A
  err : E → Result E A

abbrev pub Exec : Type 0 → Type 0 → Type 0 → Type 0
Exec S E A = S → Result E A × S

-- A method that has made its tests and read what it needs goes on with its changes, which cannot
-- fail; if a test failed it returns.
abbrev pub commit : {S E A B : Type 0} → Result E B → (B → S → A × S) → Exec S E A
commit (ok b) change s = let (a, s') = change b s in (ok a, s')
commit (err e) change s = (err e, s)

pub Result-cases :
    {E A : Type 0} (r : Result E A) → ((a : A) × (r ≡ ok a)) ⊎ ((e : E) × (r ≡ err e))
Result-cases (ok a) = inl (a, refl)
Result-cases (err e) = inr (e, refl)
