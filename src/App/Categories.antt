-- ===== src/App/Categories.antt =====
-- `create_category` of crates/cloudledger-service/src/app.rs, and that names stay distinct.
use cloud_ledger.Base.{
  ℕ, ◌≤◌, ◌≡◌, ◌≢◌, ◌⊎◌, inl, inr, refl, sym, Bool, true, false, not, ◌&&◌, ◌||◌, Option, none,
  some, List, [], ◌∷◌, arith, ◌==◌, nat_eq, text_eq, eq_iff, if◌then◌else◌, any, ltb, length, Text,
  trim, is_empty, Bool-cases, any_iff,
}
use cloud_ledger.Base.Map.{Map, lookup, insert, values, lookup-insert_cases}
use cloud_ledger.Base.Exec.{Result, ok, err, commit, Result-cases}
use cloud_ledger.Base.Check.{◌>>=◌, ◌>>◌, ok_or, require, raise_if}
use cloud_ledger.Types.{Uuid, Category, CategoryKind, category_kind_eq}
use cloud_ledger.Permissions.{Action}
use cloud_ledger.App.State.{World, AppLedgerService, AppServiceError, Method}
use cloud_ledger.App.Access.{authorized}
pub mod Distinct

pub record AppCreateCategoryInput : Type 0 where
  pub actor_user_id : Uuid
  pub ledger_id : Uuid
  pub name : Text
  pub kind : CategoryKind

-- A category of the ledger and the kind with the name, in whatever case.
abbrev pub is_like : World → Uuid → CategoryKind → Text → Category → Bool
is_like w ledger kind name category =
    category.ledger_id == ledger
    && (category.kind == kind)
    && (w.to_lowercase category.name == w.to_lowercase name)

unfoldable pub category_checks :
    World → AppCreateCategoryInput → AppLedgerService → Result AppServiceError Category
category_checks w input s = do
  ledger ← ok_or (lookup input.ledger_id s.ledgers) AppServiceError.ledger_not_found
  require (authorized s input.actor_user_id ledger Action.create_transaction)
      AppServiceError.unauthorized
  raise_if (is_empty (trim input.name) || ltb 24 (length (trim input.name)))
      AppServiceError.invalid_category_name
  raise_if (any (is_like w input.ledger_id input.kind (trim input.name)) (values s.categories))
      AppServiceError.duplicate_category
  ok (record {
    id = w.new_v4 0;
    ledger_id = input.ledger_id;
    name = trim input.name;
    kind = input.kind;
  })

unfoldable pub create_category : World → AppCreateCategoryInput → Method Category
create_category w input s =
    commit (category_checks w input s)
      (λ category s'.
        (category, record s' { categories = insert category.id category s'.categories }))
      s
