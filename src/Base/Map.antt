-- ===== src/Base/Map.antt =====
-- `BTreeMap<Uuid, V>`: an association list in ascending order of keys, so that its values are met
-- in the order in which the source's `values()` meets them.
use Prim.Native.Nat.{ℕ, ◌≤◌}
use mathlib.Core.Path.{◌≡◌, refl}
use mathlib.Core.Logic.{inl, inr, ◌⊎◌, ◌↔◌}
use mathlib.Core.Bool.{Bool, true, false}
use mathlib.Core.Option.{Option, none, some}
use mathlib.Core.List.{List, [], ◌∷◌}
use native.Mathlib.Omega.{arith}
use cloud_ledger.Base.Lists.{find, any, count}
use cloud_ledger.Base.Tests.{ltb, if◌then◌else◌, ◌==◌, nat_eq, eq_iff, Bool-cases}

abbrev pub Map {ℓ} : Type ℓ → Type ℓ
Map V = List (ℕ × V)

module _ {ℓ} {V : Type ℓ} where
  -- `get`
  abbrev pub lookup : ℕ → Map V → Option V
  lookup k [] = none
  lookup k ((j, v) ∷ m) = if j == k then some v else lookup k m

  -- `contains_key`
  abbrev pub contains_key : ℕ → Map V → Bool
  contains_key k m = elim (lookup k m) [ none ↦ false | some _ ↦ true ]

  -- `insert`: a value that has the key is replaced.
  unfoldable pub insert : ℕ → V → Map V → Map V
  insert k v [] = (k, v) ∷ []
  insert k v ((j, w) ∷ m) =
      let rest = insert k v m in
      if ltb k j then (k, v) ∷ (j, w) ∷ m else if j == k then (k, v) ∷ m else (j, w) ∷ rest

  -- `values()`
  abbrev pub values : Map V → List V
  values [] = []
  values ((_, v) ∷ m) = v ∷ values m

  pub lookup-insert :
      (k j : ℕ) (v : V) (m : Map V)
      → lookup j (insert k v m) ≡ (if k == j then some v else lookup j m)
  unfolding insert
  lookup-insert k j v [] = refl
  lookup-insert k j v ((i, w) ∷ m) = ground (arith, lookup-insert k j v m)

-- What is found after an insertion is what was inserted, or was there before.
pub lookup-insert_cases {ℓ} :
    {V : Type ℓ} (k j : ℕ) (v u : V) (m : Map V)
    → lookup j (insert k v m) ≡ some u
    → ((k ≡ j) × (v ≡ u)) ⊎ (lookup j m ≡ some u)
lookup-insert_cases k j v u m e = ground (arith, lookup-insert k j v m)

-- Every stored value is as `P` says of its key and it.
abbrev pub AllStored : {V : Type 0} → (ℕ → V → Type 0) → Map V → Type 0
AllStored {V} P m = (k : ℕ) (v : V) → lookup k m ≡ some v → P k v

pub AllStored-insert :
    {V : Type 0} (P : ℕ → V → Type 0) (m : Map V) (k : ℕ) (v : V)
    → AllStored P m
    → P k v
    → AllStored P (insert k v m)
AllStored-insert P m k v h new j u e = elim (lookup-insert_cases k j v u m e) [
  | inl (same, value) ↦ rw (← same, ← value) new
  | inr before ↦ h j u before
]

-- The first value that passes a test, after an insertion into a map that had none.
pub find-insert_first {ℓ} :
    {V : Type ℓ} (p : V → Bool) (k : ℕ) (v : V) (m : Map V)
    → find p (values m) ≡ none
    → p v ≡ true
    → find p (values (insert k v m)) ≡ some v
unfolding insert
find-insert_first p k v [] e h = ground arith
find-insert_first p k v ((j, u) ∷ m) e h = ground (arith, find-insert_first p k v m)

module _ {ℓ} {V : Type ℓ} where
  -- `values_mut().find(p)`, and a change of what is found.
  abbrev pub modify_first : (V → Bool) → (V → V) → Map V → Map V
  modify_first p f [] = []
  modify_first p f ((k, v) ∷ m) =
      let rest = modify_first p f m in if p v then (k, f v) ∷ m else (k, v) ∷ rest

  -- `for value in values_mut().filter(p)`
  abbrev pub modify_all : (V → Bool) → (V → V) → Map V → Map V
  modify_all p f [] = []
  modify_all p f ((k, v) ∷ m) = (k, if p v then f v else v) ∷ modify_all p f m

  -- Both, one value after the other with what the loop needs, keep the keys in place.
  pub lookup-modify_all :
      (p : V → Bool) (f : V → V) (k : ℕ) (m : Map V)
      → lookup k (modify_all p f m)
        ≡ elim (lookup k m) [ none ↦ none | some v ↦ some (if p v then f v else v) ]
  lookup-modify_all p f k [] = refl
  lookup-modify_all p f k ((j, v) ∷ m) = ground (arith, lookup-modify_all p f k m)

  -- `keys()`
  abbrev pub keys : Map V → List ℕ
  keys [] = []
  keys ((k, _) ∷ m) = k ∷ keys m

  -- Every key has a value, and every value a key.
  pub any-keys_iff :
      (p : ℕ → Bool) (m : Map V)
      → (any p (keys m) ≡ true) ↔ ((k : ℕ) × (v : V) × (lookup k m ≡ some v) × (p k ≡ true))
  any-keys_iff p [] = (λ h. absurd (ground arith), λ (k, v, e, t). absurd (ground arith))
  any-keys_iff p ((j, v) ∷ m) = (
    λ h. elim (Bool-cases (p j)) [
      | inl t ↦ (j, v, ground arith, t)
      | inr f ↦
          let (k, u, e, t) = (any-keys_iff p m).0 (ground arith) in
          elim (Bool-cases (j == k)) [
            | inl same ↦ (j, v, ground arith, ground (arith, eq_iff j k))
            | inr other ↦ (k, u, ground arith, t)
          ]
    ],
    λ (k, u, e, t). elim (Bool-cases (j == k)) [
      | inl same ↦ ground (arith, eq_iff j k)
      | inr other ↦ let rest = (any-keys_iff p m).1 (k, u, ground arith, t) in ground arith
    ],
  )

  -- An insertion adds at most the new value to a count of the values.
  pub count-insert :
      (p : V → Bool) (k : ℕ) (v : V) (m : Map V)
      → count p (values (insert k v m)) ≤ count p (v ∷ values m)
  unfolding insert
  count-insert p k v [] = ground arith
  count-insert p k v ((j, u) ∷ m) = ground (arith, count-insert p k v m)

  -- A change that the test does not see leaves the count.
  pub count-modify_all :
      (p q : V → Bool) (f : V → V) (m : Map V)
      → ((v : V) → p (f v) ≡ p v)
      → count p (values (modify_all q f m)) ≡ count p (values m)
  count-modify_all p q f [] h = refl
  count-modify_all p q f ((k, v) ∷ m) h = ground (arith, count-modify_all p q f m h, h v)
