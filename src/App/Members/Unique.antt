-- ===== src/App/Members/Unique.antt =====
-- A user has at most one membership of an organization (the membership methods of
-- crates/cloudledger-service/src/app.rs).
use cloud_ledger.Base.{
  ◌≤◌, ◌≡◌, inl, inr, sym, ap, subst, Bool, false, none, some, List, [], ◌∷◌, arith, ◌==◌, nat_eq,
  eq_iff, any, find, count, count-append, push, trim,
}
use cloud_ledger.Base.Exec.{Result-cases}
use cloud_ledger.Types.{Uuid, Membership, MembershipRole, new_membership}
use cloud_ledger.App.State.{World, AppLedgerService}
use cloud_ledger.App.Identity.{and_then, normalize_optional_email, normalize_optional_phone}
use cloud_ledger.App.Members.{
  AppCreateOrganizationInput, AppAddOrganizationMemberInput, organization_checks,
  create_organization, member_user, welcome, add_organization_member, set_first, remove_first,
  with_role, is_member, is_membership, enrol,
}
use cloud_ledger.App.Members.Frame.{
  first_membership, establish-members, member_user-SameMembers, welcome-SameMembers,
  ensure_user_identity-SameMembers,
}
use cloud_ledger.App.Members.Command.{
  MemberCommand, create_org, add_member, update_role, remove_member, ensure_identity, after_call,
  after_calls,
}
use cloud_ledger.App.Members.Ends.{enrol-ends, update_role-ends, remove-ends, add_member-ends}
use cloud_ledger.App.Members.Owners.{count-set_first, count-remove_first}

abbrev pub IsUnique : List Membership → Type 0
IsUnique ms = (organization user : Uuid) → count (is_member organization user) ms ≤ 1

count-find-none : {A : Type 0} (p : A → Bool) (xs : List A) → find p xs ≡ none → count p xs ≡ 0
count-find-none p [] h = ground arith
count-find-none p (x ∷ xs) h = ground (arith, count-find-none p xs)

-- A membership for a user who has none of the organization.
push-IsUnique :
    (m : Membership) (ms : List Membership)
    → count (is_member m.organization_id m.user_id) ms ≡ 0
    → IsUnique ms
    → IsUnique (push m ms)
push-IsUnique m ms none_yet unique k u = ground (
  arith,
  count-append (is_member k u) ms (m ∷ []),
  unique k u,
  eq_iff m.organization_id k,
  eq_iff m.user_id u,
)

set_first-IsUnique :
    (q : Membership → Bool) (role : MembershipRole) (m : Membership) (ms : List Membership)
    → find q ms ≡ some m
    → IsUnique ms
    → IsUnique (set_first q (with_role role) ms)
set_first-IsUnique q role m ms e unique k u =
    ground (arith, count-set_first (is_member k u) q (with_role role) ms m e, unique k u)

remove_first-IsUnique :
    (q : Membership → Bool) (m : Membership) (ms : List Membership)
    → find q ms ≡ some m
    → IsUnique ms
    → IsUnique (remove_first q ms)
remove_first-IsUnique q m ms e unique k u =
    ground (arith, count-remove_first (is_member k u) q ms m e, unique k u)

-- The identifier that a new organization would be given is in no membership yet.
abbrev pub FreshFor : World → MemberCommand → AppLedgerService → Type 0
FreshFor w (create_org input) s = any (λ m. m.organization_id == w.new_v4 1) s.memberships ≡ false
FreshFor w (add_member input) s = Unit
FreshFor w (update_role input) s = Unit
FreshFor w (remove_member organization membership) s = Unit
FreshFor w (ensure_identity input) s = Unit

fresh_count :
    (organization user : Uuid) (ms : List Membership)
    → any (λ m. m.organization_id == organization) ms ≡ false
    → count (is_member organization user) ms ≡ 0
fresh_count organization user [] h = ground arith
fresh_count organization user (m ∷ ms) h = ground (arith, fresh_count organization user ms)

enrol-IsUnique :
    (w : World) (organization : Uuid) (role : MembershipRole) (user : Uuid) (s : AppLedgerService)
    → IsUnique s.memberships
    → IsUnique (enrol w organization role user s).1.memberships
unfolding new_membership
enrol-IsUnique w organization role user s unique = elim (enrol-ends w organization role user s) [
  | inl (none_yet, run) ↦ subst IsUnique (sym (ap (λ r. r.1.memberships) run)) (
      push-IsUnique (new_membership (w.new_v4 20) (w.now_utc 20) organization user role)
        s.memberships (count-find-none (is_member organization user) s.memberships none_yet) unique)
  | inr (inl (m, e, fine, run)) ↦
      subst IsUnique (sym (ap (λ r. r.1.memberships) run))
        (set_first-IsUnique (is_member organization user) role m s.memberships e unique)
  | inr (inr (x, run)) ↦ subst IsUnique (sym (ap (λ r. r.1.memberships) run)) unique
]

add_member-IsUnique :
    (w : World) (input : AppAddOrganizationMemberInput) (s : AppLedgerService)
    → IsUnique s.memberships
    → IsUnique (add_organization_member w input s).1.memberships
add_member-IsUnique w input s unique =
    let name = trim input.display_name in
    let email = and_then input.email (normalize_optional_email w) in
    let phone = and_then input.phone normalize_optional_phone in
    let (user, s1) = member_user w name email phone s in
    let same = (member_user-SameMembers w name email phone s).same_memberships in
    let entered = subst IsUnique (sym same) unique in
    let same' = (welcome-SameMembers w user name email phone s1).same_memberships in
    let welcomed = subst IsUnique (sym same') entered in
    elim (add_member-ends w input s) [
      | inl (x, run) ↦ subst IsUnique (sym (ap (λ r. r.1.memberships) run)) unique
      | inr (inl run) ↦ subst IsUnique (sym (ap (λ r. r.1.memberships) run)) entered
      | inr (inr (here, run)) ↦ subst IsUnique (sym (ap (λ r. r.1.memberships) run)) (
          enrol-IsUnique w input.organization_id input.role user
            (welcome w user name email phone s1) welcomed)
    ]

create-IsUnique :
    (w : World) (input : AppCreateOrganizationInput) (s : AppLedgerService)
    → FreshFor w (create_org input) s
    → IsUnique s.memberships
    → IsUnique (create_organization w input s).1.memberships
unfolding create_organization new_membership
create-IsUnique w input s fresh unique = elim (Result-cases (organization_checks w input)) [
  | inl (contact, e) ↦ rw e (
      subst IsUnique (sym (establish-members w input contact s).1) (
        push-IsUnique (first_membership w input) s.memberships
          (fresh_count (w.new_v4 1) input.admin_user_id s.memberships fresh) unique))
  | inr (x, e) ↦ rw e unique
]

after_call-IsUnique :
    (w : World) (c : MemberCommand) (s : AppLedgerService)
    → FreshFor w c s
    → IsUnique s.memberships
    → IsUnique (after_call w c s).memberships
unfolding after_call
after_call-IsUnique w (create_org input) s fresh h = create-IsUnique w input s fresh h
after_call-IsUnique w (add_member input) s fresh h = add_member-IsUnique w input s h
after_call-IsUnique w (update_role input) s fresh h = elim (update_role-ends input s) [
  | inl (m, e, fine, run) ↦ subst IsUnique (sym (ap (λ r. r.1.memberships) run)) (
      set_first-IsUnique (is_membership input.organization_id input.membership_id) input.role m
        s.memberships e h)
  | inr (x, run) ↦ subst IsUnique (sym (ap (λ r. r.1.memberships) run)) h
]
after_call-IsUnique w (remove_member organization membership) s fresh h =
    elim (remove-ends organization membership s) [
      | inl (m, e, fine, run) ↦
          subst IsUnique (sym (ap (λ r. r.1.memberships) run))
            (remove_first-IsUnique (is_membership organization membership) m s.memberships e h)
      | inr (x, run) ↦ subst IsUnique (sym (ap (λ r. r.1.memberships) run)) h
    ]
after_call-IsUnique w (ensure_identity input) s fresh h =
    subst IsUnique (sym (ensure_user_identity-SameMembers w input s).same_memberships) h

-- Every new organization of a session is given an identifier that is in no membership yet.
abbrev pub AllFresh : List (World × MemberCommand) → AppLedgerService → Type 0
AllFresh [] s = Unit
AllFresh ((w, c) ∷ cs) s = FreshFor w c s × AllFresh cs (after_call w c s)

-- Over any session of calls of the methods on organizations, members and users in which new
-- organizations are given fresh identifiers, no user has two memberships of one organization, if none
-- had at the start.
pub after_calls-IsUnique :
    (cs : List (World × MemberCommand)) (s : AppLedgerService)
    → AllFresh cs s
    → IsUnique s.memberships
    → IsUnique (after_calls cs s).memberships
unfolding after_calls
after_calls-IsUnique [] s fresh h = h
after_calls-IsUnique ((w, c) ∷ cs) s fresh h =
    after_calls-IsUnique cs (after_call w c s) fresh.1 (after_call-IsUnique w c s fresh.0 h)
