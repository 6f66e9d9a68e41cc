-- ===== src/App/Members/Owners.antt =====
-- No organization loses its last owner (the membership methods of
-- crates/cloudledger-service/src/app.rs).
use cloud_ledger.Base.{
  ℕ, ◌+◌, ◌≤◌, ◌≡◌, inl, inr, sym, ap, subst, ◌∙◌, Bool, false, ◌&&◌, Option, some, List, [], ◌∷◌,
  arith, ◌==◌, nat_eq, eq_iff, find, find_test, count, count-append, push, leb, if◌then◌else◌, Text,
  trim,
}
use cloud_ledger.Base.Map.{lookup, insert, lookup-insert_cases}
use cloud_ledger.Base.Exec.{ok, Result-cases}
use cloud_ledger.Types.{
  Uuid, Membership, MembershipRole, Organization, membership_role_eq, new_membership,
}
use cloud_ledger.App.State.{World, AppLedgerService}
use cloud_ledger.App.Identity.{
  and_then, normalize_optional_email, normalize_optional_phone, ensure_user_identity,
}
use cloud_ledger.App.Members.Frame.{
  SameMembers, new_org, first_membership, establish-members, member_user-SameMembers,
  welcome-SameMembers, ensure_user_identity-SameMembers,
}
use cloud_ledger.App.Members.Command.{
  MemberCommand, create_org, add_member, update_role, remove_member, ensure_identity, after_call,
  after_calls,
}
use cloud_ledger.App.Members.Ends.{
  enrol-ends, member_organization, membership_organization, update_role-ends, remove-ends,
  add_member-ends,
}
use cloud_ledger.App.Members.{
  AppCreateOrganizationInput, AppAddOrganizationMemberInput, AppUpdateOrganizationMemberRoleInput,
  organization_checks, establish, create_organization, member_user, welcome,
  add_organization_member, is_owner_of, owner_count, set_first, remove_first, with_role,
  with_memberships, role_change, is_member, is_membership, enrol, remove_organization_member,
  update_organization_member_role,
}

abbrev pub bit : Bool → ℕ
bit b = if b then 1 else 0

-- Changing the element that is found changes a count by what the two elements count.
pub count-set_first :
    {A : Type 0} (p q : A → Bool) (f : A → A) (xs : List A) (m : A)
    → find q xs ≡ some m
    → count p (set_first q f xs) + bit (p m) ≡ count p xs + bit (p (f m))
count-set_first p q f [] m e = absurd (ground arith)
count-set_first p q f (x ∷ xs) m e = ground (arith, count-set_first p q f xs m)

pub count-remove_first :
    {A : Type 0} (p q : A → Bool) (xs : List A) (m : A)
    → find q xs ≡ some m
    → count p (remove_first q xs) + bit (p m) ≡ count p xs
count-remove_first p q [] m e = absurd (ground arith)
count-remove_first p q (x ∷ xs) m e = ground (arith, count-remove_first p q xs m)

-- The organization has an owner.
abbrev pub HasOwner : AppLedgerService → Uuid → Type 0
HasOwner s organization = 1 ≤ owner_count s organization

-- A change of role that is not refused leaves every organization an owner.
change-HasOwner :
    (q : Membership → Bool) (role : MembershipRole) (organization other : Uuid) (m : Membership)
    (s : AppLedgerService)
    → find q s.memberships ≡ some m
    → m.organization_id ≡ organization
    → role_change s organization role m ≡ ok tt
    → HasOwner s other
    → 1 ≤ count (is_owner_of other) (set_first q (with_role role) s.memberships)
unfolding owner_count
change-HasOwner q role organization other m s e same fine has = ground (
  arith,
  count-set_first (is_owner_of other) q (with_role role) s.memberships m e,
  eq_iff m.organization_id organization,
  eq_iff m.organization_id other,
)

-- Every organization has an owner.
abbrev pub AllOwned : AppLedgerService → Type 0
AllOwned s = (k : Uuid) (o : Organization) → lookup k s.organizations ≡ some o → HasOwner s k

change-AllOwned :
    (p : Membership → Bool) (organization : Uuid) (role : MembershipRole) (m : Membership)
    (s : AppLedgerService)
    → find p s.memberships ≡ some m
    → m.organization_id ≡ organization
    → role_change s organization role m ≡ ok tt
    → AllOwned s
    → AllOwned (with_memberships (set_first p (with_role role) s.memberships) s)
unfolding owner_count
change-AllOwned p organization role m s e same fine owned k o stored =
    change-HasOwner p role organization k m s e same fine (owned k o stored)

push-AllOwned :
    (m : Membership) (s : AppLedgerService)
    → AllOwned s
    → AllOwned (with_memberships (push m s.memberships) s)
unfolding owner_count
push-AllOwned m s owned k o stored =
    ground (arith, count-append (is_owner_of k) s.memberships (m ∷ []), owned k o stored)

enrol-AllOwned :
    (w : World) (organization : Uuid) (role : MembershipRole) (user : Uuid) (s : AppLedgerService)
    → AllOwned s
    → AllOwned (enrol w organization role user s).1
enrol-AllOwned w organization role user s owned = elim (enrol-ends w organization role user s) [
  | inl (none_yet, run) ↦ subst AllOwned (sym (ap (λ r. r.1) run)) (push-AllOwned _ s owned)
  | inr (inl (m, e, fine, run)) ↦ subst AllOwned (sym (ap (λ r. r.1) run)) (
      change-AllOwned (is_member organization user) organization role m s e
        (member_organization organization user m (find_test _ s.memberships m e)) fine owned)
  | inr (inr (x, run)) ↦ subst AllOwned (sym (ap (λ r. r.1) run)) owned
]

-- Only the organizations and the memberships matter.
same-AllOwned : (s s' : AppLedgerService) → SameMembers s s' → AllOwned s → AllOwned s'
unfolding owner_count
same-AllOwned s s' same owned k o stored =
    subst (λ (ms : List Membership). 1 ≤ count (is_owner_of k) ms) (sym same.same_memberships)
      (owned k o (ap (lookup k) (sym same.same_organizations) ∙ stored))

update_role-AllOwned :
    (input : AppUpdateOrganizationMemberRoleInput) (s : AppLedgerService)
    → AllOwned s
    → AllOwned (update_organization_member_role input s).1
update_role-AllOwned input s owned = elim (update_role-ends input s) [
  | inl (m, e, fine, run) ↦
      let p = is_membership input.organization_id input.membership_id in
      subst AllOwned (sym (ap (λ r. r.1) run)) (
        change-AllOwned p input.organization_id input.role m s e
          (membership_organization input.organization_id input.membership_id m
            (find_test p s.memberships m e))
          fine owned)
  | inr (x, run) ↦ subst AllOwned (sym (ap (λ r. r.1) run)) owned
]

removal-AllOwned :
    (organization membership : Uuid) (m : Membership) (s : AppLedgerService)
    → find (is_membership organization membership) s.memberships ≡ some m
    → ((m.role == MembershipRole.owner) && leb (owner_count s organization) 1) ≡ false
    → AllOwned s
    → AllOwned
        (with_memberships (remove_first (is_membership organization membership) s.memberships) s)
unfolding owner_count
removal-AllOwned organization membership m s e fine owned k o stored =
    let same =
      membership_organization organization membership m
        (find_test (is_membership organization membership) s.memberships m e) in
    ground (
      arith,
      count-remove_first (is_owner_of k) (is_membership organization membership) s.memberships m e,
      eq_iff m.organization_id k,
      owned k o stored,
    )

remove-AllOwned :
    (organization membership : Uuid) (s : AppLedgerService)
    → AllOwned s
    → AllOwned (remove_organization_member organization membership s).1
remove-AllOwned organization membership s owned = elim (remove-ends organization membership s) [
  | inl (m, e, fine, run) ↦
      subst AllOwned (sym (ap (λ r. r.1) run))
        (removal-AllOwned organization membership m s e fine owned)
  | inr (x, run) ↦ subst AllOwned (sym (ap (λ r. r.1) run)) owned
]

add_member-AllOwned :
    (w : World) (input : AppAddOrganizationMemberInput) (s : AppLedgerService)
    → AllOwned s
    → AllOwned (add_organization_member w input s).1
add_member-AllOwned w input s owned =
    let name = trim input.display_name in
    let email = and_then input.email (normalize_optional_email w) in
    let phone = and_then input.phone normalize_optional_phone in
    let (user, s1) = member_user w name email phone s in
    let entered = same-AllOwned s s1 (member_user-SameMembers w name email phone s) owned in
    let s2 = welcome w user name email phone s1 in
    let welcomed = same-AllOwned s1 s2 (welcome-SameMembers w user name email phone s1) entered in
    elim (add_member-ends w input s) [
      | inl (x, run) ↦ subst AllOwned (sym (ap (λ r. r.1) run)) owned
      | inr (inl run) ↦ subst AllOwned (sym (ap (λ r. r.1) run)) entered
      | inr (inr (here, run)) ↦
          subst AllOwned (sym (ap (λ r. r.1) run))
            (enrol-AllOwned w input.organization_id input.role user s2 welcomed)
    ]

founded-AllOwned :
    (w : World) (input : AppCreateOrganizationInput) (s : AppLedgerService)
    → AllOwned s
    → (k : Uuid) (o : Organization)
    → lookup k (insert (w.new_v4 1) (new_org w input) s.organizations) ≡ some o
    → 1 ≤ count (is_owner_of k) (push (first_membership w input) s.memberships)
unfolding owner_count new_membership
founded-AllOwned w input s owned k o stored =
    elim (lookup-insert_cases (w.new_v4 1) k (new_org w input) o s.organizations stored) [
      | inl (same, value) ↦ ground (
        arith,
        count-append (is_owner_of k) s.memberships (first_membership w input ∷ []),
        eq_iff (w.new_v4 1) k,
      )
      | inr before ↦ ground (
        arith,
        count-append (is_owner_of k) s.memberships (first_membership w input ∷ []),
        owned k o before,
      )
    ]

establish-AllOwned :
    (w : World) (input : AppCreateOrganizationInput) (contact : Option Text × Option Text)
    (s : AppLedgerService)
    → AllOwned s
    → AllOwned (establish w input contact s).1
unfolding owner_count
establish-AllOwned w input contact s owned k o stored =
    let (orgs, members) = establish-members w input contact s in
    subst (λ (ms : List Membership). 1 ≤ count (is_owner_of k) ms) (sym members)
      (founded-AllOwned w input s owned k o (sym (ap (lookup k) orgs) ∙ stored))

create-AllOwned :
    (w : World) (input : AppCreateOrganizationInput) (s : AppLedgerService)
    → AllOwned s
    → AllOwned (create_organization w input s).1
unfolding create_organization
create-AllOwned w input s owned = elim (Result-cases (organization_checks w input)) [
  | inl (contact, e) ↦ rw e (establish-AllOwned w input contact s owned)
  | inr (x, e) ↦ rw e owned
]

after_call-AllOwned :
    (w : World) (c : MemberCommand) (s : AppLedgerService)
    → AllOwned s
    → AllOwned (after_call w c s)
unfolding after_call
after_call-AllOwned w (create_org input) s h = create-AllOwned w input s h
after_call-AllOwned w (add_member input) s h = add_member-AllOwned w input s h
after_call-AllOwned w (update_role input) s h = update_role-AllOwned input s h
after_call-AllOwned w (remove_member organization membership) s h =
    remove-AllOwned organization membership s h
after_call-AllOwned w (ensure_identity input) s h =
    same-AllOwned s (ensure_user_identity w input s).1 (ensure_user_identity-SameMembers w input s)
      h

-- Over any session of calls of the methods on organizations, members and users, failed calls
-- included, every organization that is stored has an owner, if each had one at the start.
pub after_calls-AllOwned :
    (cs : List (World × MemberCommand)) (s : AppLedgerService)
    → AllOwned s
    → AllOwned (after_calls cs s)
unfolding after_calls
after_calls-AllOwned [] s h = h
after_calls-AllOwned ((w, c) ∷ cs) s h =
    after_calls-AllOwned cs (after_call w c s) (after_call-AllOwned w c s h)
