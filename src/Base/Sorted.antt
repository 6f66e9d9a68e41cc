-- ===== src/Base/Sorted.antt =====
-- The order of a map's keys, and sums over its values.
use Prim.Native.Nat.{ℕ, ◌≤◌, ◌<◌}
use mathlib.Core.Path.{◌≡◌, refl, sym, ap, subst, ◌∙◌}
use mathlib.Core.Option.{none, some}
use mathlib.Core.List.{List, [], ◌∷◌, ◌++◌}
use native.Mathlib.Omega.{arith}
use cloud_ledger.Base.Int.{ℤ, pos, ◌+ℤ◌, int_laws}
use cloud_ledger.Base.Map.{Map, lookup, insert, values}

module _ {V : Type 0} where
  -- Every key lies above `k`.
  abbrev pub Above : ℕ → Map V → Type 0
  Above k [] = Unit
  Above k ((j, _) ∷ m) = (k < j) × Above k m

  abbrev pub IsSorted : Map V → Type 0
  IsSorted [] = Unit
  IsSorted ((k, _) ∷ m) = Above k m × IsSorted m

  Above-lower : (i k : ℕ) (m : Map V) → i ≤ k → Above k m → Above i m
  Above-lower i k [] le h = tt
  Above-lower i k ((j, v) ∷ m) le h = (omega arith, Above-lower i k m le h.1)

  lookup-Above : (k : ℕ) (m : Map V) → Above k m → lookup k m ≡ none
  lookup-Above k [] h = refl
  lookup-Above k ((j, v) ∷ m) h = ground (arith, lookup-Above k m h.1)

  insert-Above : (i k : ℕ) (v : V) (m : Map V) → i < k → Above i m → Above i (insert k v m)
  unfolding insert
  insert-Above i k v [] lt h = (lt, tt)
  insert-Above i k v ((j, u) ∷ m) lt h = ground (arith, insert-Above i k v m lt h.1)

  pub insert-IsSorted : (k : ℕ) (v : V) (m : Map V) → IsSorted m → IsSorted (insert k v m)
  unfolding insert
  insert-IsSorted k v [] h = (tt, tt)
  insert-IsSorted k v ((j, u) ∷ m) h =
      ground (arith, insert-IsSorted k v m h.1, insert-Above j k v m, Above-lower k j m)

  -- The sum of an integer over the values.
  abbrev pub sum_of : (V → ℤ) → Map V → ℤ
  sum_of f [] = pos 0
  sum_of f ((_, v) ∷ m) = f v +ℤ sum_of f m

  pub sum_of-insert :
      (f : V → ℤ) (k : ℕ) (u v : V) (m : Map V)
      → IsSorted m
      → lookup k m ≡ some u
      → sum_of f (insert k v m) +ℤ f u ≡ sum_of f m +ℤ f v
  unfolding insert
  sum_of-insert f k u v [] h e = cc
  sum_of-insert f k u v ((j, x) ∷ m) h e =
      grind (int_laws, sum_of-insert f k u v m h.1, lookup-Above k m, Above-lower k j m)

  pub sum_of-insert_new :
      (f : V → ℤ) (k : ℕ) (v : V) (m : Map V)
      → lookup k m ≡ none
      → sum_of f (insert k v m) ≡ sum_of f m +ℤ f v
  unfolding insert
  sum_of-insert_new f k v [] e = omega int_laws
  sum_of-insert_new f k v ((j, x) ∷ m) e = grind (int_laws, sum_of-insert_new f k v m)

module _ {V : Type 0} (id : V → ℕ) where
  -- `values.map(|v| (v.id, v)).collect::<BTreeMap<_, _>>()`, into a map that is there.
  unfoldable pub collect : List V → Map V → Map V
  collect [] m = m
  collect (v ∷ vs) m = collect vs (insert (id v) v m)

  -- Every value stands under its identifier.
  abbrev pub IsKeyed : Map V → Type 0
  IsKeyed [] = Unit
  IsKeyed ((k, v) ∷ m) = (id v ≡ k) × IsKeyed m

  -- Every key lies below `k`.
  abbrev Below : ℕ → Map V → Type 0
  Below k [] = Unit
  Below k ((j, _) ∷ m) = (j < k) × Below k m

  insert-last : (k : ℕ) (v : V) (m : Map V) → Below k m → insert k v m ≡ m ++ (k, v) ∷ []
  unfolding insert
  insert-last k v [] h = refl
  insert-last k v ((j, u) ∷ m) h = ground (arith, insert-last k v m h.1)

  Below-append : (k j : ℕ) (v : V) (m : Map V) → Below j m → j < k → Below k (m ++ (j, v) ∷ [])
  Below-append k j v [] h lt = (lt, tt)
  Below-append k j v ((i, u) ∷ m) h lt = (omega arith, Below-append k j v m h.1 lt)

  abbrev AllBelow : Map V → Map V → Type 0
  AllBelow m [] = Unit
  AllBelow m ((k, v) ∷ rest) = Below k m × AllBelow m rest

  AllBelow-append :
      (k : ℕ) (v : V) (m rest : Map V) → Below k m → Above k rest → AllBelow (m ++ (k, v) ∷ []) rest
  AllBelow-append k v m [] low high = tt
  AllBelow-append k v m ((j, u) ∷ rest) low high =
      (Below-append j k v m low high.0, AllBelow-append k v m rest low high.1)

  append_assoc : (a b c : Map V) → (a ++ b) ++ c ≡ a ++ (b ++ c)
  append_assoc [] b c = refl
  append_assoc (x ∷ a) b c = ap (λ t. x ∷ t) (append_assoc a b c)

  collect-append :
      (rest m : Map V)
      → IsSorted rest
      → IsKeyed rest
      → AllBelow m rest
      → collect (values rest) m ≡ m ++ rest
  unfolding collect
  collect-append [] m sorted keyed low = sym (append_nil m)
    where
      append_nil : (a : Map V) → a ++ [] ≡ a
      append_nil [] = refl
      append_nil (x ∷ a) = ap (λ t. x ∷ t) (append_nil a)
  collect-append ((k, v) ∷ rest) m sorted keyed low =
      let same : insert (id v) v m ≡ m ++ (k, v) ∷ [] =
        subst (λ (i : ℕ). insert i v m ≡ m ++ (k, v) ∷ []) (sym keyed.0)
          (insert-last k v m low.0) in
      ap (collect (values rest)) same
      ∙ collect-append rest (m ++ (k, v) ∷ []) sorted.1 keyed.1
          (AllBelow-append k v m rest low.0 sorted.0)
      ∙ append_assoc m ((k, v) ∷ []) rest

  AllBelow-empty : (m : Map V) → AllBelow [] m
  AllBelow-empty [] = tt
  AllBelow-empty ((k, v) ∷ m) = (tt, AllBelow-empty m)

  -- A sorted map that is keyed by the identifiers is collected again from its values.
  pub collect-values : (m : Map V) → IsSorted m → IsKeyed m → collect (values m) [] ≡ m
  collect-values m sorted keyed = collect-append m [] sorted keyed (AllBelow-empty m)
