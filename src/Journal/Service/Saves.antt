-- ===== src/Journal/Service/Saves.antt =====
-- How a chain of saves ends (crates/cloudledger-service/src/service.rs).
use cloud_ledger.Base.{◌≡◌, ◌⊎◌, inl, inr, arith}
use cloud_ledger.Base.Exec.{ok, err, Exec, Result-cases}
use cloud_ledger.Journal.Repository.{RepositoryError}
use cloud_ledger.Journal.Service.{repository, save_then, finish}

-- One save or two end in the value that stands after them, or in an error of the repository.
module _ {R B : Type 0} (save : Exec R RepositoryError (Unit {0})) (b : B) (s : R) where
  pub save_one :
      ((save_then save (finish b) s).0 ≡ ok b)
      ⊎ ((x : RepositoryError) × ((save_then save (finish b) s).0 ≡ err (repository x)))
  save_one = elim (Result-cases (save s).0) [
    | inl (u, e) ↦ inl (ground arith)
    | inr (x, e) ↦ inr (x, ground arith)
  ]

module _ {R B : Type 0} (save save' : Exec R RepositoryError (Unit {0})) (b : B) (s : R) where
  pub save_two :
      ((save_then save (save_then save' (finish b)) s).0 ≡ ok b)
      ⊎ ((x : RepositoryError) × ((save_then save (save_then save' (finish b)) s).0
            ≡ err (repository x)))
  save_two = elim (Result-cases (save s).0) [
    | inl (u, e) ↦ elim (Result-cases (save' (save s).1).0) [
      | inl (u', e') ↦ inl (ground arith)
      | inr (x, e') ↦ inr (x, ground arith)
    ]
    | inr (x, e) ↦ inr (x, ground arith)
  ]
