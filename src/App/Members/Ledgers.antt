-- ===== src/App/Members/Ledgers.antt =====
-- A user has at most one personal ledger (the membership methods of
-- crates/cloudledger-service/src/app.rs).
use cloud_ledger.Base.{
  ℕ, ◌≤◌, ◌≡◌, refl, sym, ap, subst, inl, inr, false, Option, List, [], ◌∷◌, ◌++◌, arith, nat_eq,
  option_eq, eq_iff, any, any-eq-false_iff, count, Text, text, trim, is_empty, Bool-cases,
  Option-cases,
}
use cloud_ledger.Base.Map.{Map, insert, values, count-insert, count-modify_all}
use cloud_ledger.Base.Exec.{Result-cases}
use cloud_ledger.Types.{
  Uuid, Ledger, ledger_kind_eq, personal_ledger, organization_public_ledger, MembershipRole,
}
use cloud_ledger.App.State.{World, AppLedgerService}
use cloud_ledger.App.Setup.{
  is_personal_of, furnish, ensure_personal_ledger_for_user, ensure_standard_accounts_for_ledger,
  ensure_default_categories_for_ledger, rename_personal_ledger_for_user,
}
use cloud_ledger.App.Identity.{
  AppEnsureUserIdentityInput, and_then, unwrap_or, normalize_optional_email,
  normalize_optional_phone, find_user_id_by_email_or_phone, identify, ensure_user_identity,
}
use cloud_ledger.App.Members.{
  AppCreateOrganizationInput, AppAddOrganizationMemberInput, organization_checks, establish,
  create_organization, known_user, member_user, welcome, enrol, add_organization_member,
}
use cloud_ledger.App.Members.Command.{
  MemberCommand, create_org, add_member, update_role, remove_member, ensure_identity, after_call,
  after_calls,
}
use cloud_ledger.App.Members.Ends.{enrol-ends, update_role-ends, remove-ends, add_member-ends}

-- Nobody owns two personal ledgers.
abbrev pub OnePersonal : Map Ledger → Type 0
OnePersonal ledgers = (user : Uuid) → count (is_personal_of user) (values ledgers) ≤ 1

new_personal-OnePersonal :
    (w : World) (place : ℕ) (user : Uuid) (name : Text) (ledgers : Map Ledger)
    → any (is_personal_of user) (values ledgers) ≡ false
    → OnePersonal ledgers
    → OnePersonal (
        insert
          (w.new_v4 place)
          (personal_ledger (w.new_v4 place) (w.now_utc place) user name)
          ledgers)
unfolding personal_ledger
new_personal-OnePersonal w place user name ledgers none_yet one u =
    let ledger = personal_ledger (w.new_v4 place) (w.now_utc place) user name in
    let zero = (any-eq-false_iff (is_personal_of user) (values ledgers)).0 none_yet in
    ground
      (arith, count-insert (is_personal_of u) (w.new_v4 place) ledger ledgers, one u, eq_iff user u)

ensure_personal-OnePersonal :
    (w : World) (place : ℕ) (user : Uuid) (name : Text) (s : AppLedgerService)
    → OnePersonal s.ledgers
    → OnePersonal (ensure_personal_ledger_for_user w place user name s).ledgers
unfolding ensure_personal_ledger_for_user furnish ensure_standard_accounts_for_ledger
    ensure_default_categories_for_ledger personal_ledger
ensure_personal-OnePersonal w place user name s one =
    elim (Bool-cases (any (is_personal_of user) (values s.ledgers))) [
      | inl has ↦ rw has one
      | inr fresh ↦
          rw fresh (new_personal-OnePersonal w place user (name ++ text " 私账") s.ledgers fresh one)
    ]

public-OnePersonal :
    (key id : Uuid) (now : ℕ) (organization : Uuid) (name : Text) (ledgers : Map Ledger)
    → OnePersonal ledgers
    → OnePersonal (insert key (organization_public_ledger id now organization name) ledgers)
unfolding organization_public_ledger
public-OnePersonal key id now organization name ledgers one u = ground (
  arith,
  count-insert (is_personal_of u) key (organization_public_ledger id now organization name) ledgers,
  one u,
)

create-OnePersonal :
    (w : World) (input : AppCreateOrganizationInput) (s : AppLedgerService)
    → OnePersonal s.ledgers
    → OnePersonal (create_organization w input s).1.ledgers
unfolding create_organization establish furnish ensure_standard_accounts_for_ledger
    ensure_default_categories_for_ledger organization_public_ledger
create-OnePersonal w input s one = elim (Result-cases (organization_checks w input)) [
  | inl ((email, phone), e) ↦ rw e (
      public-OnePersonal (w.new_v4 2) (w.new_v4 2) (w.now_utc 2) (w.new_v4 1)
        (trim input.organization_name ++ text " 公账") s.ledgers one)
  | inr (x, e) ↦ rw e one
]

member_user-ledgers :
    (w : World) (name : Text) (email phone : Option Text) (s : AppLedgerService)
    → (member_user w name email phone s).1.ledgers ≡ s.ledgers
unfolding member_user
member_user-ledgers w name email phone s = elim (Option-cases (known_user w email phone s)) [
  | inl unknown ↦ ground arith
  | inr (user, e) ↦ ground arith
]

enrol-ledgers :
    (w : World) (organization : Uuid) (role : MembershipRole) (user : Uuid) (s : AppLedgerService)
    → (enrol w organization role user s).1.ledgers ≡ s.ledgers
enrol-ledgers w organization role user s = elim (enrol-ends w organization role user s) [
  | inl (none_yet, run) ↦ ap (λ r. r.1.ledgers) run
  | inr (inl (m, e, fine, run)) ↦ ap (λ r. r.1.ledgers) run
  | inr (inr (x, run)) ↦ ap (λ r. r.1.ledgers) run
]

welcome-OnePersonal :
    (w : World) (user : Uuid) (name : Text) (email phone : Option Text) (s : AppLedgerService)
    → OnePersonal s.ledgers
    → OnePersonal (welcome w user name email phone s).ledgers
unfolding welcome
welcome-OnePersonal w user name email phone s one = ensure_personal-OnePersonal w 1 user name _ one

add_member-OnePersonal :
    (w : World) (input : AppAddOrganizationMemberInput) (s : AppLedgerService)
    → OnePersonal s.ledgers
    → OnePersonal (add_organization_member w input s).1.ledgers
add_member-OnePersonal w input s one =
    let name = trim input.display_name in
    let email = and_then input.email (normalize_optional_email w) in
    let phone = and_then input.phone normalize_optional_phone in
    let (user, s1) = member_user w name email phone s in
    let entered = subst OnePersonal (sym (member_user-ledgers w name email phone s)) one in
    let s2 = welcome w user name email phone s1 in
    let welcomed = welcome-OnePersonal w user name email phone s1 entered in
    elim (add_member-ends w input s) [
      | inl (x, run) ↦ subst OnePersonal (sym (ap (λ r. r.1.ledgers) run)) one
      | inr (inl run) ↦ subst OnePersonal (sym (ap (λ r. r.1.ledgers) run)) entered
      | inr (inr (here, run)) ↦ subst OnePersonal (sym (ap (λ r. r.1.ledgers) run)) (
          subst OnePersonal (sym (enrol-ledgers w input.organization_id input.role user s2))
            welcomed)
    ]

rename-OnePersonal :
    (user : Uuid) (name : Text) (s : AppLedgerService)
    → OnePersonal s.ledgers
    → OnePersonal (rename_personal_ledger_for_user user name s).ledgers
unfolding rename_personal_ledger_for_user
rename-OnePersonal user name s one u = ground (
  arith,
  one u,
  count-modify_all (is_personal_of u) (is_personal_of user)
      (λ (ledger : Ledger). record ledger { name = name ++ text " 私账" }) s.ledgers (λ v. refl),
)

identify-OnePersonal :
    (w : World) (user : Uuid) (name : Text) (email phone : Option Text) (s : AppLedgerService)
    → OnePersonal s.ledgers
    → OnePersonal (identify w user name email phone s).ledgers
unfolding identify
identify-OnePersonal w user name email phone s one =
    ensure_personal-OnePersonal w 1 user name _ (rename-OnePersonal user name _ one)

identity-OnePersonal :
    (w : World) (input : AppEnsureUserIdentityInput) (s : AppLedgerService)
    → OnePersonal s.ledgers
    → OnePersonal (ensure_user_identity w input s).1.ledgers
unfolding ensure_user_identity
identity-OnePersonal w input s one = elim (Bool-cases (is_empty (trim input.display_name))) [
  | inl refused ↦ rw refused one
  | inr named ↦ rw named (
      identify-OnePersonal w
        (unwrap_or
          (find_user_id_by_email_or_phone w (and_then input.email (normalize_optional_email w))
            (and_then input.phone normalize_optional_phone) s)
          input.user_id)
        (trim input.display_name) (and_then input.email (normalize_optional_email w))
        (and_then input.phone normalize_optional_phone) s one)
]

after_call-OnePersonal :
    (w : World) (c : MemberCommand) (s : AppLedgerService)
    → OnePersonal s.ledgers
    → OnePersonal (after_call w c s).ledgers
unfolding after_call
after_call-OnePersonal w (create_org input) s h = create-OnePersonal w input s h
after_call-OnePersonal w (add_member input) s h = add_member-OnePersonal w input s h
after_call-OnePersonal w (update_role input) s h = elim (update_role-ends input s) [
  | inl (m, e, fine, run) ↦ subst OnePersonal (sym (ap (λ r. r.1.ledgers) run)) h
  | inr (x, run) ↦ subst OnePersonal (sym (ap (λ r. r.1.ledgers) run)) h
]
after_call-OnePersonal w (remove_member organization membership) s h =
    elim (remove-ends organization membership s) [
      | inl (m, e, fine, run) ↦ subst OnePersonal (sym (ap (λ r. r.1.ledgers) run)) h
      | inr (x, run) ↦ subst OnePersonal (sym (ap (λ r. r.1.ledgers) run)) h
    ]
after_call-OnePersonal w (ensure_identity input) s h = identity-OnePersonal w input s h

-- Over any session of calls of the methods on organizations, members and users, nobody comes to own
-- two personal ledgers.
pub after_calls-OnePersonal :
    (cs : List (World × MemberCommand)) (s : AppLedgerService)
    → OnePersonal s.ledgers
    → OnePersonal (after_calls cs s).ledgers
unfolding after_calls
after_calls-OnePersonal [] s h = h
after_calls-OnePersonal ((w, c) ∷ cs) s h =
    after_calls-OnePersonal cs (after_call w c s) (after_call-OnePersonal w c s h)
