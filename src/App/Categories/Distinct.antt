-- ===== src/App/Categories/Distinct.antt =====
-- `create_category` (crates/cloudledger-service/src/app.rs) gives no name twice.
use cloud_ledger.Base.{
  ℕ, ◌≡◌, inl, inr, sym, ◌∙◌, Bool, false, some, [], ◌∷◌, arith, nat_eq, text_eq, eq_iff, any, Text,
  Option-cases,
}
use cloud_ledger.Base.Map.{Map, lookup, insert, values, lookup-insert_cases}
use cloud_ledger.Base.Exec.{ok, Result-cases}
use cloud_ledger.Types.{Category, category_kind_eq}
use cloud_ledger.App.State.{World, AppLedgerService}
use cloud_ledger.App.Categories.{AppCreateCategoryInput, is_like, category_checks, create_category}

-- Two categories of one ledger and one kind have names that differ, whatever the case.
abbrev pub NamesDiffer : (Text → Text) → Map Category → Type 0
NamesDiffer lower categories =
    (k j : ℕ) (a b : Category)
    → lookup k categories ≡ some a
    → lookup j categories ≡ some b
    → a.ledger_id ≡ b.ledger_id
    → a.kind ≡ b.kind
    → lower a.name ≡ lower b.name
    → k ≡ j

values-none :
    (p : Category → Bool) (categories : Map Category) (k : ℕ) (a : Category)
    → any p (values categories) ≡ false
    → lookup k categories ≡ some a
    → p a ≡ false
values-none p [] k a h e = absurd (ground arith)
values-none p ((j, c) ∷ rest) k a h e = ground (arith, values-none p rest k a)

category_checks-ok :
    (w : World) (input : AppCreateCategoryInput) (s : AppLedgerService) (category : Category)
    → category_checks w input s ≡ ok category
    → any (is_like w category.ledger_id category.kind category.name) (values s.categories) ≡ false
unfolding category_checks
category_checks-ok w input s category e = elim (Option-cases (lookup input.ledger_id s.ledgers)) [
  | inl missing ↦ absurd (ground arith)
  | inr (ledger, found) ↦ ground arith
]

insert-NamesDiffer :
    (w : World) (c : Category) (categories : Map Category)
    → any (is_like w c.ledger_id c.kind c.name) (values categories) ≡ false
    → NamesDiffer w.to_lowercase categories
    → NamesDiffer w.to_lowercase (insert c.id c categories)
insert-NamesDiffer w c categories new h k j a b ea eb ledger kind name =
    elim (lookup-insert_cases c.id k c a categories ea) [
      | inl (k1, a1) ↦ elim (lookup-insert_cases c.id j c b categories eb) [
        | inl (j1, b1) ↦ sym k1 ∙ j1
        | inr old ↦ absurd (
            ground (
              arith,
              values-none (is_like w c.ledger_id c.kind c.name) categories j b new old,
              eq_iff b.ledger_id c.ledger_id,
              eq_iff b.kind c.kind,
              eq_iff (w.to_lowercase b.name) (w.to_lowercase c.name),
            ))
      ]
      | inr old ↦ elim (lookup-insert_cases c.id j c b categories eb) [
        | inl (j1, b1) ↦ absurd (
            ground (
              arith,
              values-none (is_like w c.ledger_id c.kind c.name) categories k a new old,
              eq_iff a.ledger_id c.ledger_id,
              eq_iff a.kind c.kind,
              eq_iff (w.to_lowercase a.name) (w.to_lowercase c.name),
            ))
        | inr older ↦ h k j a b old older ledger kind name
      ]
    ]

-- If two categories of one ledger and one kind never have names that differ only in case, then this is
-- still so after a call that creates a category or fails.
pub create_category-NamesDiffer :
    (w : World) (input : AppCreateCategoryInput) (s : AppLedgerService)
    → NamesDiffer w.to_lowercase s.categories
    → NamesDiffer w.to_lowercase (create_category w input s).1.categories
unfolding create_category
create_category-NamesDiffer w input s h = elim (Result-cases (category_checks w input s)) [
  | inr (failure, e) ↦ rw (create_category, e) h
  | inl (category, e) ↦
      rw (create_category, e)
        (insert-NamesDiffer w category s.categories (category_checks-ok w input s category e) h)
]
