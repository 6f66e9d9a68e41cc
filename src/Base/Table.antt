-- ===== src/Base/Table.antt =====
-- Maps whose keys are not numbers: entries with distinct keys. Where a map is a BTreeMap, no order is
-- read from it.
use cloud_ledger.Base.{
  suc, ◌≤◌, ◌≡◌, ◌⊎◌, inl, inr, refl, subst, Bool, true, false, Option, none, some, List, [], ◌∷◌,
  arith, PartialEq, ◌==◌, eq_iff, if◌then◌else◌, length, any, Bool-cases,
}

abbrev pub Table : Type 0 → Type 0 → Type 0
Table K V = List (K × V)

module _ {K V : Type 0} ⦃e : PartialEq K⦄ where
  -- `get`
  abbrev pub get : K → Table K V → Option V
  get k [] = none
  get k ((j, v) ∷ t) = let rest = get k t in if j == k then some v else rest

  -- `insert`
  abbrev pub put : K → V → Table K V → Table K V
  put k v [] = (k, v) ∷ []
  put k v ((j, u) ∷ t) = let rest = put k v t in if j == k then (k, v) ∷ t else (j, u) ∷ rest

  -- `remove`
  abbrev pub remove : K → Table K V → Table K V
  remove k [] = []
  remove k ((j, u) ∷ t) = let rest = remove k t in if j == k then t else (j, u) ∷ rest

  -- `retain`
  abbrev pub retain : (V → Bool) → Table K V → Table K V
  retain p [] = []
  retain p ((j, u) ∷ t) = let rest = retain p t in if p u then (j, u) ∷ rest else rest

  -- `for value in values_mut() { … }`
  abbrev pub update_all : (V → V) → Table K V → Table K V
  update_all f [] = []
  update_all f ((j, u) ∷ t) = (j, f u) ∷ update_all f t

  abbrev pub has : K → Table K V → Bool
  has k t = any (λ entry. entry.0 == k) t

  -- No key stands twice.
  abbrev pub IsDistinct : Table K V → Type 0
  IsDistinct [] = Unit
  IsDistinct ((k, v) ∷ t) = (has k t ≡ false) × IsDistinct t

  has-put :
      (k j : K) (v : V) (t : Table K V) → has j (put k v t) ≡ true → (k ≡ j) ⊎ (has j t ≡ true)
  has-put k j v [] h = ground (arith, eq_iff k j)
  has-put k j v ((i, u) ∷ t) h = ground (arith, has-put k j v t, eq_iff k j, eq_iff i j, eq_iff i k)

  has-remove : (k j : K) (t : Table K V) → has j (remove k t) ≡ true → has j t ≡ true
  has-remove k j [] h = h
  has-remove k j ((i, u) ∷ t) h = ground (arith, has-remove k j t)

  has-retain : (p : V → Bool) (j : K) (t : Table K V) → has j (retain p t) ≡ true → has j t ≡ true
  has-retain p j [] h = h
  has-retain p j ((i, u) ∷ t) h = ground (arith, has-retain p j t)

  pub put-IsDistinct : (k : K) (v : V) (t : Table K V) → IsDistinct t → IsDistinct (put k v t)
  put-IsDistinct k v [] h = (refl, tt)
  put-IsDistinct k v ((i, u) ∷ t) h =
      ground (arith, put-IsDistinct k v t h.1, has-put k i v t, eq_iff i k, eq_iff k i)

  pub remove-IsDistinct : (k : K) (t : Table K V) → IsDistinct t → IsDistinct (remove k t)
  remove-IsDistinct k [] h = tt
  remove-IsDistinct k ((i, u) ∷ t) h = ground (arith, remove-IsDistinct k t h.1, has-remove k i t)

  pub retain-IsDistinct : (p : V → Bool) (t : Table K V) → IsDistinct t → IsDistinct (retain p t)
  retain-IsDistinct p [] h = tt
  retain-IsDistinct p ((i, u) ∷ t) h = ground (arith, retain-IsDistinct p t h.1, has-retain p i t)

  not_has-get : (k : K) (t : Table K V) → has k t ≡ false → get k t ≡ none
  not_has-get k [] h = refl
  not_has-get k ((i, u) ∷ t) h = ground (arith, not_has-get k t)

  -- What is kept is what was there and passes the test.
  pub get-retain :
      (p : V → Bool) (k : K) (t : Table K V)
      → IsDistinct t
      → get k (retain p t) ≡ elim (get k t) [ none ↦ none | some v ↦ if p v then some v else none ]
  get-retain p k [] h = refl
  get-retain p k ((i, u) ∷ t) h = elim (Bool-cases (i == k)) [
    | inl same ↦
        let there = (eq_iff i k).0 same in
        let absent = not_has-get k t (subst (λ (x : K). has x t ≡ false) there h.0) in
        ground (arith, get-retain p k t h.1)
    | inr other ↦ ground (arith, get-retain p k t h.1)
  ]

  pub get-put :
      (k j : K) (v : V) (t : Table K V) → get j (put k v t) ≡ (if k == j then some v else get j t)
  get-put k j v [] = refl
  get-put k j v ((i, u) ∷ t) = ground (arith, get-put k j v t, eq_iff i k, eq_iff i j, eq_iff k j)

  pub get-remove :
      (k j : K) (t : Table K V)
      → IsDistinct t
      → get j (remove k t) ≡ (if k == j then none else get j t)
  get-remove k j [] h = ground (arith, eq_iff k j)
  get-remove k j ((i, u) ∷ t) h = elim (Bool-cases (i == k)) [
    | inl same ↦
        let there = (eq_iff i k).0 same in
        let absent = not_has-get k t (subst (λ (x : K). has x t ≡ false) there h.0) in
        ground (arith, eq_iff i j, eq_iff k j)
    | inr other ↦ ground (arith, get-remove k j t h.1, eq_iff i j, eq_iff k j, eq_iff i k)
  ]

  pub get-update_all :
      (f : V → V) (k : K) (t : Table K V)
      → get k (update_all f t) ≡ elim (get k t) [ none ↦ none | some v ↦ some (f v) ]
  get-update_all f k [] = refl
  get-update_all f k ((i, u) ∷ t) = ground (arith, get-update_all f k t)

  has-update_all : (f : V → V) (k : K) (t : Table K V) → has k (update_all f t) ≡ has k t
  has-update_all f k [] = refl
  has-update_all f k ((i, u) ∷ t) = ground (arith, has-update_all f k t)

  pub update_all-IsDistinct :
      (f : V → V) (t : Table K V) → IsDistinct t → IsDistinct (update_all f t)
  update_all-IsDistinct f [] h = tt
  update_all-IsDistinct f ((i, u) ∷ t) h =
      ground (arith, update_all-IsDistinct f t h.1, has-update_all f i t)

  pub length-put : (k : K) (v : V) (t : Table K V) → length (put k v t) ≤ suc (length t)
  length-put k v [] = ground arith
  length-put k v ((i, u) ∷ t) = ground (arith, length-put k v t)

  pub length-retain : (p : V → Bool) (t : Table K V) → length (retain p t) ≤ length t
  length-retain p [] = ground arith
  length-retain p ((i, u) ∷ t) = ground (arith, length-retain p t)

  pub length-remove : (k : K) (t : Table K V) → length (remove k t) ≤ length t
  length-remove k [] = ground arith
  length-remove k ((i, u) ∷ t) = ground (arith, length-remove k t)

  -- A key that is there goes.
  pub length-remove-has :
      (k : K) (t : Table K V) → has k t ≡ true → suc (length (remove k t)) ≡ length t
  length-remove-has k [] h = absurd (ground arith)
  length-remove-has k ((i, u) ∷ t) h = ground (arith, length-remove-has k t)

  -- A key that is there stays the one entry.
  pub length-put-get :
      (k : K) (u v : V) (t : Table K V) → get k t ≡ some u → length (put k v t) ≡ length t
  length-put-get k u v [] h = absurd (ground arith)
  length-put-get k u v ((i, w) ∷ t) h = ground (arith, length-put-get k u v t)
