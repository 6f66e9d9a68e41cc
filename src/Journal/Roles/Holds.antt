-- ===== src/Journal/Roles/Holds.antt =====
-- The roles that a user holds in a ledger, and what they permit
-- (crates/cloudledger-core/src/auth.rs).
use cloud_ledger.Base.{
  ◌≡◌, ◌↔◌, ◌⊎◌, inl, inr, true, List, [], ◌∷◌, Text, text_eq, eq_iff, contains, arith, Bool-cases,
  Has, Some, any_iff, contains_iff, Has-append_iff,
}
use cloud_ledger.Journal.Book.{
  AccountingLedgerKind, personal_private, company_public, AccountingLedger,
}
use cloud_ledger.Journal.Roles.{
  LedgerRole, role_eq, LedgerMember, LedgerAction, role_allows, insert_role, add_role, sort_roles,
  owner_roles, member_roles, roles_for, has_permission,
}

-- The membership gives the user the role.
abbrev pub Grants : Text → Text → LedgerRole → LedgerMember → Type 0
Grants ledger_id user role member =
    (member.ledger_id ≡ ledger_id) × (member.user_id ≡ user) × (role ≡ member.role)

-- The role of the owner of a personal ledger.
abbrev pub IsOwner : AccountingLedgerKind → Text → LedgerRole → Type 0
IsOwner (personal_private owner_id) user role = (role ≡ LedgerRole.owner) × (owner_id ≡ user)
IsOwner (company_public company) user role = ⊥

-- The user holds the role: as the owner of a personal ledger, or by a membership.
abbrev pub Holds : AccountingLedger → List LedgerMember → Text → LedgerRole → Type 0
Holds ledger memberships user role =
    IsOwner ledger.kind user role ⊎ Some (Grants ledger.id user role) memberships

Has-insert_role :
    (x role : LedgerRole) (roles : List LedgerRole)
    → Has x (insert_role role roles) ↔ ((x ≡ role) ⊎ Has x roles)
Has-insert_role x role [] = (λ h. h, λ h. h)
Has-insert_role x role (r ∷ roles) = ground (arith, Has-insert_role x role roles)

Has-sort_roles : (x : LedgerRole) (roles : List LedgerRole) → Has x (sort_roles roles) ↔ Has x roles
Has-sort_roles x [] = (λ h. h, λ h. h)
Has-sort_roles x (role ∷ roles) =
    ground (arith, Has-insert_role x role (sort_roles roles), Has-sort_roles x roles)

Has-owner_roles :
    (kind : AccountingLedgerKind) (user : Text) (x : LedgerRole)
    → Has x (owner_roles kind user) ↔ IsOwner kind user x
Has-owner_roles (personal_private owner_id) user x = ground (arith, eq_iff owner_id user)
Has-owner_roles (company_public company) user x = (λ h. h, λ h. h)

module _ (ledger_id : Text) (user : Text) where
  Has-add_role :
      (x : LedgerRole) (roles : List LedgerRole) (member : LedgerMember)
      → Has x (add_role ledger_id user roles member)
        ↔ (Has x roles ⊎ Grants ledger_id user x member)
  Has-add_role x roles member = elim (Bool-cases (contains roles member.role)) [
    | inl known ↦
        let old = (contains_iff roles member.role).0 known in
        ground (arith, eq_iff member.ledger_id ledger_id, eq_iff member.user_id user)
    | inr fresh ↦ ground (
      arith,
      eq_iff member.ledger_id ledger_id,
      eq_iff member.user_id user,
      Has-append_iff x roles (member.role ∷ []),
    )
  ]

  Has-member_roles :
      (x : LedgerRole) (roles : List LedgerRole) (members : List LedgerMember)
      → Has x (member_roles ledger_id user roles members)
        ↔ (Has x roles ⊎ Some (Grants ledger_id user x) members)
  Has-member_roles x roles [] = ground arith
  Has-member_roles x roles (member ∷ members) = ground (
    arith,
    Has-member_roles x (add_role ledger_id user roles member) members,
    Has-add_role x roles member,
  )

-- The roles computed for a user are exactly those that the user holds: as the owner of a personal
-- ledger, or by a membership of this ledger.
pub roles_for_iff :
    (ledger : AccountingLedger) (memberships : List LedgerMember) (user : Text) (role : LedgerRole)
    → Has role (roles_for ledger memberships user) ↔ Holds ledger memberships user role
unfolding roles_for
roles_for_iff ledger memberships user role = ground (
  arith,
  Has-sort_roles role (member_roles ledger.id user (owner_roles ledger.kind user) memberships),
  Has-member_roles ledger.id user role (owner_roles ledger.kind user) memberships,
  Has-owner_roles ledger.kind user role,
)

-- A user may do an action with a ledger exactly if the user holds a role that allows it.
pub has_permission_iff :
    (ledger : AccountingLedger) (memberships : List LedgerMember) (user : Text)
    (action : LedgerAction)
    → (has_permission ledger memberships user action ≡ true) ↔ (
        (role : LedgerRole) × Holds ledger memberships user role × (role_allows role action ≡ true))
unfolding has_permission
has_permission_iff ledger memberships user action = (
  λ h.
      let (role, found, t) =
        (any_iff (λ role. role_allows role action) (roles_for ledger memberships user)).0 h in
      (role, (roles_for_iff ledger memberships user role).0 found, t),
  λ (role, held, t).
      (any_iff (λ role. role_allows role action) (roles_for ledger memberships user)).1
        (role, (roles_for_iff ledger memberships user role).1 held, t),
)
