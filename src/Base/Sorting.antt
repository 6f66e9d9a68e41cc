-- ===== src/Base/Sorting.antt =====
-- `sort_by` of a slice, which is stable: an insertion sort by a test that says whether one element
-- may stand before another.
use mathlib.Core.Path.{◌≡◌, refl}
use mathlib.Core.Logic.{◌↔◌, ◌⊎◌}
use mathlib.Core.Bool.{Bool, true, false, ◌&&◌, ◌||◌}
use mathlib.Core.List.{List, [], ◌∷◌}
use native.Mathlib.Omega.{arith}
use cloud_ledger.Base.Lists.{count, All, Has}
use cloud_ledger.Base.Tests.{if◌then◌else◌, ltb, ◌==◌, nat_eq}
use cloud_ledger.Base.Strings.{Text}

-- The order of strings, by their code points as by their UTF-8 bytes.
abbrev pub text_leb : Text → Text → Bool
text_leb [] t = true
text_leb (a ∷ s) [] = false
text_leb (a ∷ s) (b ∷ t) = let rest = text_leb s t in ltb a b || (a == b && rest)

module _ {A : Type 0} (le : A → A → Bool) where
  abbrev pub insert_by : A → List A → List A
  insert_by x [] = x ∷ []
  insert_by x (y ∷ ys) = let rest = insert_by x ys in if le x y then x ∷ y ∷ ys else y ∷ rest

  abbrev pub sort_by : List A → List A
  sort_by [] = []
  sort_by (x ∷ xs) = insert_by x (sort_by xs)

  -- Each element may stand before all that follow it.
  abbrev pub IsOrdered : List A → Type 0
  IsOrdered [] = Unit
  IsOrdered (x ∷ xs) = All (λ y. le x y ≡ true) xs × IsOrdered xs

  count-insert_by :
      (p : A → Bool) (x : A) (xs : List A) → count p (insert_by x xs) ≡ count p (x ∷ xs)
  count-insert_by p x [] = refl
  count-insert_by p x (y ∷ ys) = ground (arith, count-insert_by p x ys)

  -- Sorting keeps how many elements pass a test.
  pub count-sort_by : (p : A → Bool) (xs : List A) → count p (sort_by xs) ≡ count p xs
  count-sort_by p [] = refl
  count-sort_by p (x ∷ xs) = ground (arith, count-insert_by p x (sort_by xs), count-sort_by p xs)

  All-insert_by : (P : A → Type 0) (x : A) (xs : List A) → P x → All P xs → All P (insert_by x xs)
  All-insert_by P x [] p h = (p, tt)
  All-insert_by P x (y ∷ ys) p h = ground (arith, All-insert_by P x ys p h.1)

  Has-insert_by : (a x : A) (xs : List A) → Has a (insert_by x xs) ↔ ((a ≡ x) ⊎ Has a xs)
  Has-insert_by a x [] = ground arith
  Has-insert_by a x (y ∷ ys) = ground (arith, Has-insert_by a x ys)

  -- Sorting keeps what is in the list.
  pub Has-sort_by : (a : A) (xs : List A) → Has a (sort_by xs) ↔ Has a xs
  Has-sort_by a [] = ground arith
  Has-sort_by a (x ∷ xs) = ground (arith, Has-insert_by a x (sort_by xs), Has-sort_by a xs)

  module _ (total : (x y : A) → (le x y ≡ false) → le y x ≡ true)
      (trans : (x y z : A) → le x y ≡ true → le y z ≡ true → le x z ≡ true) where
    All-trans :
        (x y : A) (ys : List A)
        → le x y ≡ true
        → All (λ z. le y z ≡ true) ys
        → All (λ z. le x z ≡ true) ys
    All-trans x y [] p h = tt
    All-trans x y (z ∷ zs) p h = (trans x y z p h.0, All-trans x y zs p h.1)

    insert_by-IsOrdered : (x : A) (xs : List A) → IsOrdered xs → IsOrdered (insert_by x xs)
    insert_by-IsOrdered x [] h = (tt, tt)
    insert_by-IsOrdered x (y ∷ ys) h = ground (
      arith,
      All-trans x y ys,
      insert_by-IsOrdered x ys h.1,
      All-insert_by (λ z. le y z ≡ true) x ys,
      total x y,
    )

    pub sort_by-IsOrdered : (xs : List A) → IsOrdered (sort_by xs)
    sort_by-IsOrdered [] = tt
    sort_by-IsOrdered (x ∷ xs) = insert_by-IsOrdered x (sort_by xs) (sort_by-IsOrdered xs)
