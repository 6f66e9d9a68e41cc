-- ===== src/Base/Lists.antt =====
-- Lists over the native numbers: lengths, Boolean `any` and `all`, searches, and the predicates
-- that the statements about them use.
use Prim.Native.Nat.{ℕ, suc, ◌+◌, ◌≤◌}
use mathlib.Core.Path.{◌≡◌, refl, sym, subst}
use mathlib.Core.Logic.{◌↔◌, ◌⊎◌, inl, inr}
use mathlib.Core.Bool.{Bool, true, false, ◌&&◌, ◌||◌}
use mathlib.Core.Option.{Option, none, some}
use mathlib.Core.List.{List, [], ◌∷◌, ◌++◌}
use native.Mathlib.Omega.{arith}
use cloud_ledger.Base.Tests.{if◌then◌else◌, PartialEq, ◌==◌, eq_iff, Bool-cases}

module _ {ℓ} {A : Type ℓ} where
  abbrev pub length : List A → ℕ
  length [] = 0
  length (x ∷ xs) = suc (length xs)

  -- `iter().any(p)` and `iter().all(p)`
  abbrev pub any : (A → Bool) → List A → Bool
  any p [] = false
  any p (x ∷ xs) = p x || any p xs

  abbrev pub all : (A → Bool) → List A → Bool
  all p [] = true
  all p (x ∷ xs) = p x && all p xs

  -- `iter().filter(p).collect()`
  abbrev pub filter : (A → Bool) → List A → List A
  filter p [] = []
  filter p (x ∷ xs) = if p x then x ∷ filter p xs else filter p xs

  -- `iter().filter(p).count()`
  abbrev pub count : (A → Bool) → List A → ℕ
  count p [] = 0
  count p (x ∷ xs) = (if p x then 1 else 0) + count p xs

  -- `iter().find(p)`
  abbrev pub find : (A → Bool) → List A → Option A
  find p [] = none
  find p (x ∷ xs) = if p x then some x else find p xs

  -- `Vec::push`
  abbrev pub push : A → List A → List A
  push x xs = xs ++ x ∷ []

  pub length-append : (xs ys : List A) → length (xs ++ ys) ≡ length xs + length ys
  length-append [] ys = omega arith
  length-append (x ∷ xs) ys = omega (arith, length-append xs ys)

  pub count-append : (p : A → Bool) (xs ys : List A) → count p (xs ++ ys) ≡ count p xs + count p ys
  count-append p [] ys = omega arith
  count-append p (x ∷ xs) ys = omega (arith, count-append p xs ys)

  pub any-append : (p : A → Bool) (xs ys : List A) → any p (xs ++ ys) ≡ (any p xs || any p ys)
  any-append p [] ys = refl
  any-append p (x ∷ xs) ys = ground (arith, any-append p xs ys)

  pub count-le-length : (p : A → Bool) (xs : List A) → count p xs ≤ length xs
  count-le-length p [] = omega arith
  count-le-length p (x ∷ xs) = ground (arith, count-le-length p xs)

  -- A test that fires for no element counts none.
  pub any-eq-false_iff : (p : A → Bool) (xs : List A) → (any p xs ≡ false) ↔ (count p xs ≡ 0)
  any-eq-false_iff p [] = ground arith
  any-eq-false_iff p (x ∷ xs) = ground (arith, any-eq-false_iff p xs)

module _ {A : Type 0} where
  -- Every element satisfies `P`.
  abbrev pub All : (A → Type 0) → List A → Type 0
  All P [] = Unit
  All P (x ∷ xs) = P x × All P xs

  -- Some element satisfies `P`.
  abbrev pub Some : (A → Type 0) → List A → Type 0
  Some P [] = ⊥
  Some P (x ∷ xs) = P x ⊎ Some P xs

  -- `x` stands in the list.
  abbrev pub Has : A → List A → Type 0
  Has x [] = ⊥
  Has x (y ∷ ys) = (x ≡ y) ⊎ Has x ys

  -- The element that a search returns passes the test.
  pub find_test : (p : A → Bool) (xs : List A) (x : A) → find p xs ≡ some x → p x ≡ true
  find_test p [] x h = cc
  find_test p (y ∷ ys) x h = ground (arith, find_test p ys x)

module _ {ℓ} {A : Type ℓ} ⦃e : PartialEq A⦄ where
  -- `xs.contains(&x)`
  abbrev pub contains : List A → A → Bool
  contains xs x = any (λ y. y == x) xs

module _ {A : Type 0} where
  -- A test fires for some element exactly if one of them passes it.
  pub any_iff :
      (p : A → Bool) (xs : List A) → (any p xs ≡ true) ↔ ((x : A) × Has x xs × (p x ≡ true))
  any_iff p [] = (λ h. absurd (ground arith), λ (x, found, t). absurd found)
  any_iff p (x ∷ xs) = (
    λ h. elim (Bool-cases (p x)) [
      | inl t ↦ (x, inl refl, t)
      | inr f ↦ let (y, found, t) = (any_iff p xs).0 (ground arith) in (y, inr found, t)
    ],
    λ (y, found, t). elim found [
      | inl same ↦ ground arith
      | inr later ↦ let rest = (any_iff p xs).1 (y, later, t) in ground arith
    ],
  )

  pub contains_iff : ⦃e : PartialEq A⦄ (xs : List A) (x : A) → (contains xs x ≡ true) ↔ Has x xs
  contains_iff [] x = (λ h. absurd (ground arith), λ found. absurd found)
  contains_iff (y ∷ ys) x = (
    λ h. elim (Bool-cases (y == x)) [
      | inl t ↦ inl (sym ((eq_iff y x).0 t))
      | inr f ↦ inr ((contains_iff ys x).0 (ground arith))
    ],
    λ found. elim found [
      | inl same ↦ let t = (eq_iff y x).1 (sym same) in ground arith
      | inr later ↦ let rest = (contains_iff ys x).1 later in ground arith
    ],
  )

  pub Has-append_iff : (x : A) (xs ys : List A) → Has x (xs ++ ys) ↔ (Has x xs ⊎ Has x ys)
  Has-append_iff x [] ys = (λ h. inr h, λ h. elim h [ inl f ↦ absurd f | inr h' ↦ h' ])
  Has-append_iff x (y ∷ xs) ys = ground (arith, Has-append_iff x xs ys)

module _ {A : Type 0} where
  pub Has-filter_iff :
      (p : A → Bool) (x : A) (xs : List A) → Has x (filter p xs) ↔ (Has x xs × (p x ≡ true))
  Has-filter_iff p x [] = ground arith
  Has-filter_iff p x (y ∷ ys) = elim (Bool-cases (p y)) [
    | inl t ↦ rw t (ground (arith, Has-filter_iff p x ys, t))
    | inr f ↦ rw f (ground (arith, Has-filter_iff p x ys, f))
  ]

module _ {A : Type 0} (P : A → Type 0) where
  pub All-Has : (xs : List A) (x : A) → All P xs → Has x xs → P x
  All-Has [] x h found = absurd found
  All-Has (y ∷ ys) x (p, h) found = elim found [
    | inl same ↦ subst P (sym same) p
    | inr later ↦ All-Has ys x h later
  ]

  pub Has-Some : (xs : List A) (x : A) → Has x xs → P x → Some P xs
  Has-Some [] x found p = absurd found
  Has-Some (y ∷ ys) x found p = elim found [
    | inl same ↦ inl (subst P same p)
    | inr later ↦ inr (Has-Some ys x later p)
  ]

  pub Some-Has : (xs : List A) → Some P xs → (x : A) × Has x xs × P x
  Some-Has [] h = absurd h
  Some-Has (y ∷ ys) h = elim h [
    | inl p ↦ (y, inl refl, p)
    | inr later ↦ let (x, found, p) = Some-Has ys later in (x, inr found, p)
  ]
