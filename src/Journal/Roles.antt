-- ===== src/Journal/Roles.antt =====
-- crates/cloudledger-core/src/auth.rs: who may do what with a ledger. The order of the roles is the
-- order in which the source declares them.
use cloud_ledger.Base.{
  ℕ, ◌≡◌, ◌↔◌, Bool, true, false, not, ◌&&◌, ◌||◌, List, [], ◌∷◌, Text, text_eq, if◌then◌else◌,
  ◌==◌, nat_beq, PartialEq, leb, any, contains, push, arith,
}
use cloud_ledger.Journal.Book.{
  AccountingLedgerKind, personal_private, company_public, AccountingLedger,
}
pub mod Holds

pub data LedgerRole : Type 0 where
  owner bookkeeper approver auditor : LedgerRole

abbrev pub role_index : LedgerRole → ℕ
role_index LedgerRole.owner = 0
role_index LedgerRole.bookkeeper = 1
role_index LedgerRole.approver = 2
role_index LedgerRole.auditor = 3

abbrev pub role_beq : LedgerRole → LedgerRole → Bool
role_beq a b = nat_beq (role_index a) (role_index b)

pub role_beq_iff : (a b : LedgerRole) → (role_beq a b ≡ true) ↔ (a ≡ b)
role_beq_iff a b = ground arith

instance abbrev pub role_eq : PartialEq LedgerRole
role_eq = record { same = role_beq; same_iff = role_beq_iff }

pub record LedgerMember : Type 0 where
  pub ledger_id : Text
  pub user_id : Text
  pub role : LedgerRole

pub data LedgerAction : Type 0 where
  view_ledger create_draft submit_entry approve_entry post_without_approval manage_members :
      LedgerAction

abbrev pub role_allows : LedgerRole → LedgerAction → Bool
role_allows LedgerRole.owner action = true
role_allows LedgerRole.bookkeeper action = elim action [
  | view_ledger ↦ true
  | create_draft ↦ true
  | submit_entry ↦ true
  | approve_entry ↦ false
  | post_without_approval ↦ false
  | manage_members ↦ false
]
role_allows LedgerRole.approver action = elim action [
  | view_ledger ↦ true
  | create_draft ↦ false
  | submit_entry ↦ false
  | approve_entry ↦ true
  | post_without_approval ↦ false
  | manage_members ↦ false
]
role_allows LedgerRole.auditor action = elim action [
  | view_ledger ↦ true
  | create_draft ↦ false
  | submit_entry ↦ false
  | approve_entry ↦ false
  | post_without_approval ↦ false
  | manage_members ↦ false
]

-- `roles.sort()`, of values whose equals are the same.
abbrev pub insert_role : LedgerRole → List LedgerRole → List LedgerRole
insert_role role [] = role ∷ []
insert_role role (r ∷ roles) =
    let rest = insert_role role roles in
    if leb (role_index role) (role_index r) then role ∷ r ∷ roles else r ∷ rest

abbrev pub sort_roles : List LedgerRole → List LedgerRole
sort_roles [] = []
sort_roles (role ∷ roles) = insert_role role (sort_roles roles)

abbrev pub owner_roles : AccountingLedgerKind → Text → List LedgerRole
owner_roles (personal_private owner_id) user =
    if owner_id == user then LedgerRole.owner ∷ [] else []
owner_roles (company_public company) user = []

-- The body of the loop of `roles_for`: the roles found so far, and with them a member's role.
abbrev pub add_role : Text → Text → List LedgerRole → LedgerMember → List LedgerRole
add_role ledger_id user roles member =
    if member.ledger_id == ledger_id && (member.user_id == user) && not (contains roles member.role)
    then push member.role roles
    else roles

abbrev pub member_roles : Text → Text → List LedgerRole → List LedgerMember → List LedgerRole
member_roles ledger_id user roles [] = roles
member_roles ledger_id user roles (member ∷ members) =
    member_roles ledger_id user (add_role ledger_id user roles member) members

unfoldable pub roles_for : AccountingLedger → List LedgerMember → Text → List LedgerRole
roles_for ledger memberships user =
    sort_roles (member_roles ledger.id user (owner_roles ledger.kind user) memberships)

unfoldable pub has_permission : AccountingLedger → List LedgerMember → Text → LedgerAction → Bool
has_permission ledger memberships user action =
    any (λ role. role_allows role action) (roles_for ledger memberships user)
