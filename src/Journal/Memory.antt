-- ===== src/Journal/Memory.antt =====
-- `MemoryLedgerRepository` of crates/cloudledger-db/src/memory.rs. A HashMap is a list of entries
-- without an order that anything sees: what is listed is sorted. A member is its own key. The lock
-- is never poisoned, since nothing panics while it is held.
use cloud_ledger.Base.{
  inl, inr, sym, ap, subst, ◌∙◌, Bool-cases, any_iff, Has-append_iff, ◌≡◌, ◌↔◌, ◌⊎◌, Has,
  Has-filter_iff, true, refl, arith, Bool, ◌&&◌, Option, none, some, List, [], ◌∷◌, Text, text_eq,
  nat_eq, eq_iff, ◌==◌, if◌then◌else◌, filter, leb, any, push,
}
use cloud_ledger.Base.Sorting.{text_leb, sort_by, Has-sort_by}
use cloud_ledger.Base.Exec.{ok}
use cloud_ledger.Journal.Book.{AccountingLedger}
use cloud_ledger.Journal.Entry.{JournalEntry}
use cloud_ledger.Journal.Roles.{LedgerMember, role_index, role_eq}
use cloud_ledger.Journal.Approval.{ApprovalRequest}
use cloud_ledger.Journal.Repository.{LedgerRepository, Listed, IsLawful}

abbrev pub Table : Type 0 → Type 0
Table V = List (Text × V)

abbrev pub get : {V : Type 0} → Text → Table V → Option V
get k [] = none
get k ((j, v) ∷ table) = let rest = get k table in if j == k then some v else rest

abbrev pub put : {V : Type 0} → Text → V → Table V → Table V
put k v [] = (k, v) ∷ []
put k v ((j, w) ∷ table) =
    let rest = put k v table in if j == k then (k, v) ∷ table else (j, w) ∷ rest

pub get-put :
    {V : Type 0} (k j : Text) (v : V) (table : Table V)
    → get j (put k v table) ≡ (if k == j then some v else get j table)
get-put k j v [] = refl
get-put k j v ((i, w) ∷ table) =
    ground (arith, get-put k j v table, eq_iff i k, eq_iff i j, eq_iff k j)

abbrev pub table_values : {V : Type 0} → Table V → List V
table_values [] = []
table_values ((_, v) ∷ table) = v ∷ table_values table

pub record MemoryState : Type 0 where
  pub ledgers : Table AccountingLedger
  pub members : List LedgerMember
  pub entries : Table JournalEntry
  pub approvals : Table ApprovalRequest

abbrev pub same_member : LedgerMember → LedgerMember → Bool
same_member a b = a.ledger_id == b.ledger_id && (a.user_id == b.user_id) && (a.role == b.role)

abbrev pub member_leb : LedgerMember → LedgerMember → Bool
member_leb a b =
    if a.user_id == b.user_id
    then leb (role_index a.role) (role_index b.role)
    else text_leb a.user_id b.user_id

abbrev pub save_ledger : AccountingLedger → MemoryState → MemoryState
save_ledger ledger s = record s { ledgers = put ledger.id ledger s.ledgers }

abbrev pub save_member : LedgerMember → MemoryState → MemoryState
save_member member s =
    if any (λ other. same_member other member) s.members
    then s
    else record s { members = push member s.members }

abbrev pub members_of : Text → MemoryState → List LedgerMember
members_of ledger_id s =
    sort_by member_leb (filter (λ member. member.ledger_id == ledger_id) s.members)

abbrev pub list_journal_entries : Text → MemoryState → List JournalEntry
list_journal_entries ledger_id s =
    sort_by (λ a b. text_leb a.id b.id)
      (filter (λ entry. entry.ledger_id == ledger_id) (table_values s.entries))

abbrev pub list_approval_requests : Text → MemoryState → List ApprovalRequest
list_approval_requests ledger_id s =
    sort_by (λ a b. text_leb a.id b.id)
      (filter (λ request. request.ledger_id == ledger_id) (table_values s.approvals))

-- The operations of the trait.
abbrev pub memory_repository : LedgerRepository MemoryState
memory_repository = record {
  save_ledger = λ ledger s. (ok tt, save_ledger ledger s);
  get_ledger = λ id s. ok (get id s.ledgers);
  save_member = λ member s. (ok tt, save_member member s);
  list_members = λ ledger_id s. ok (members_of ledger_id s);
  save_journal_entry = λ entry s. (ok tt, record s { entries = put entry.id entry s.entries });
  get_journal_entry = λ id s. ok (get id s.entries);
  list_journal_entries = λ ledger_id s. ok (list_journal_entries ledger_id s);
  save_approval_request =
      λ request s. (ok tt, record s { approvals = put request.id request s.approvals });
  get_approval_request = λ id s. ok (get id s.approvals);
  list_approval_requests = λ ledger_id s. ok (list_approval_requests ledger_id s);
}

same_member_iff : (a b : LedgerMember) → (same_member a b ≡ true) ↔ (a ≡ b)
same_member_iff a b =
    ground (arith, eq_iff a.ledger_id b.ledger_id, eq_iff a.user_id b.user_id, eq_iff a.role b.role)

-- A member is listed for a ledger exactly if it is stored and of that ledger.
Listed-iff :
    (member : LedgerMember) (id : Text) (s : MemoryState)
    → Listed memory_repository member id s ↔ (Has member s.members × (member.ledger_id ≡ id))
Listed-iff member id s =
    let of_ledger = λ (other : LedgerMember). other.ledger_id == id in
    let sorted = Has-sort_by member_leb member (filter of_ledger s.members) in
    let kept = Has-filter_iff of_ledger member s.members in
    (
      λ (members, e, found).
          let same : members_of id s ≡ members = ground arith in
          let (stored, own) = kept.0 (sorted.0 (subst (Has member) (sym same) found)) in
          (stored, (eq_iff member.ledger_id id).0 own),
      λ (found, own).
          (members_of id s, refl, sorted.1 (kept.1 (found, (eq_iff member.ledger_id id).1 own))),
    )

-- A member that is stored changes nothing, another one is added.
save_member-cases :
    (member : LedgerMember) (s : MemoryState)
    → (Has member s.members × (save_member member s ≡ s))
      ⊎ (save_member member s ≡ record s { members = push member s.members })
save_member-cases member s = elim (Bool-cases (any (λ other. same_member other member) s.members)) [
  | inl t ↦
      let (other, found, same) =
        (any_iff (λ (other : LedgerMember). same_member other member) s.members).0 t in
      inl (
        subst (λ (m : LedgerMember). Has m s.members) ((same_member_iff other member).0 same) found,
        rw t refl,
      )
  | inr f ↦ inr (rw f refl)
]

save_member-Has :
    (member other : LedgerMember) (s : MemoryState)
    → Has other (save_member member s).members ↔ (Has other s.members ⊎ (other ≡ member))
save_member-Has member other s = elim (save_member-cases member s) [
  | inl (stored, same) ↦ rw same (
    λ h. inl h,
    λ h. elim h [
      | inl old ↦ old
      | inr new ↦ subst (λ (m : LedgerMember). Has m s.members) (sym new) stored
    ],
  )
  | inr added ↦ rw added (ground (arith, Has-append_iff other s.members (member ∷ [])))
]

save_member-Listed :
    (member other : LedgerMember) (id : Text) (s : MemoryState)
    → Listed memory_repository other id (save_member member s)
      ↔ (Listed memory_repository other id s ⊎ ((other ≡ member) × (member.ledger_id ≡ id)))
save_member-Listed member other id s = ground (
  arith,
  Listed-iff other id s,
  Listed-iff other id (save_member member s),
  save_member-Has member other s,
)

-- What does not read the members is as it was.
save_member-alone :
    {B : Type 0} {s : MemoryState} (read : MemoryState → B)
    → ((members : List LedgerMember) → read (record s { members = members }) ≡ read s)
    → (member : LedgerMember) → read (save_member member s) ≡ read s
save_member-alone {s = s} read unread member = elim (save_member-cases member s) [
  | inl (stored, same) ↦ ap read same
  | inr added ↦ ap read added ∙ unread (push member s.members)
]

-- The memory repository keeps the promises of a repository.
pub memory_repository-IsLawful : IsLawful memory_repository
memory_repository-IsLawful = record {
  ledger_saved = λ ledger s saved. (
    λ id. ground (arith, get-put ledger.id id ledger s.ledgers),
    λ id. refl,
    (λ id. refl, λ id. refl),
    (λ id. refl, λ id. refl),
  );
  member_saved = λ member s saved. (
    λ other id. save_member-Listed member other id s,
    λ id. save_member-alone (λ s'. ok (get id s'.ledgers)) (λ members. refl) member,
    (
      λ id. save_member-alone (λ s'. ok (get id s'.entries)) (λ members. refl) member,
      λ id. save_member-alone (λ s'. ok (list_journal_entries id s')) (λ members. refl) member,
    ),
    (
      λ id. save_member-alone (λ s'. ok (get id s'.approvals)) (λ members. refl) member,
      λ id. save_member-alone (λ s'. ok (list_approval_requests id s')) (λ members. refl) member,
    ),
  );
  entry_saved = λ entry s saved. (
    λ id. ground (arith, get-put entry.id id entry s.entries),
    λ id. refl,
    λ id. refl,
    (λ id. refl, λ id. refl),
  );
  request_saved = λ request s saved. (
    λ id. ground (arith, get-put request.id id request s.approvals),
    λ id. refl,
    λ id. refl,
    (λ id. refl, λ id. refl),
  );
}
