-- ===== src/App/Identity.antt =====
-- Users of crates/cloudledger-service/src/app.rs: how they are found and named. A UUID and a time
-- are drawn at the places that the comments give.
use cloud_ledger.Base.{
  Bool, false, ◌||◌, Option, none, some, ◌==◌, text_eq, if◌then◌else◌, find, Text, trim, is_empty,
}
use cloud_ledger.Base.Map.{Map, lookup, insert, values}
use cloud_ledger.Base.Exec.{err}
use cloud_ledger.Base.Check.{ok_or}
use cloud_ledger.Types.{Uuid, User}
use cloud_ledger.App.State.{World, AppLedgerService, AppServiceError, Method}
use cloud_ledger.App.Setup.{ensure_personal_ledger_for_user, rename_personal_ledger_for_user}

unfoldable pub normalize_email : World → Text → Text
normalize_email w email = w.to_lowercase (trim email)

unfoldable pub normalize_phone : Text → Text
normalize_phone phone = trim phone

-- `Some(value).filter(|value| !value.is_empty())`
abbrev pub non_empty : Text → Option Text
non_empty value = if is_empty value then none else some value

unfoldable pub normalize_optional_email : World → Text → Option Text
normalize_optional_email w email = non_empty (normalize_email w email)

unfoldable pub normalize_optional_phone : Text → Option Text
normalize_optional_phone phone = non_empty (normalize_phone phone)

-- `Option::and_then`
abbrev pub and_then : {A B : Type 0} → Option A → (A → Option B) → Option B
and_then none f = none
and_then (some a) f = f a

-- `Option::unwrap_or`
abbrev pub unwrap_or : {A : Type 0} → Option A → A → A
unwrap_or none a = a
unwrap_or (some b) a = b

-- `or_else`
abbrev pub or_else : {A : Type 0} → Option A → Option A → Option A
or_else none other = other
or_else (some a) other = some a

-- The wanted address, and the stored one, which is normalized for the comparison.
abbrev pub same_address : (Text → Text) → Option Text → Option Text → Bool
same_address normalize none existing = false
same_address normalize (some wanted) none = false
same_address normalize (some wanted) (some existing) = normalize existing == wanted

abbrev pub is_user : World → Option Text → Option Text → User → Bool
is_user w email phone user =
    same_address (normalize_email w) email user.email
    || same_address normalize_phone phone user.phone

abbrev id_of : Option User → Option Uuid
id_of none = none
id_of (some user) = some user.id

unfoldable pub find_user_id_by_email_or_phone :
    World → Option Text → Option Text → AppLedgerService → Option Uuid
find_user_id_by_email_or_phone w email phone s =
    let normalized_email = and_then email (normalize_optional_email w) in
    let normalized_phone = and_then phone normalize_optional_phone in
    id_of (find (is_user w normalized_email normalized_phone) (values s.users))

-- The new name and addresses of a user: an address that is not given stays.
abbrev pub rename_user : Text → Option Text → Option Text → User → User
rename_user display_name email phone user = record user {
  display_name = display_name;
  email = or_else email user.email;
  phone = or_else phone user.phone;
}

-- `if let Some(user) = self.users.get_mut(&user_id) { … }`
abbrev pub update_user : Uuid → Text → Option Text → Option Text → Map User → Map User
update_user user_id display_name email phone users = elim (lookup user_id users) [
  | none ↦ users
  | some user ↦ insert user_id (rename_user display_name email phone user) users
]

pub record AppEnsureUserIdentityInput : Type 0 where
  pub user_id : Uuid
  pub display_name : Text
  pub email : Option Text
  pub phone : Option Text

-- The user, renamed or new.
abbrev pub put_user : World → Uuid → Text → Option Text → Option Text → Map User → Map User
put_user w user_id display_name email phone users = elim (lookup user_id users) [
  | none ↦
      insert user_id
        (record {
          id = user_id;
          display_name = display_name;
          email = email;
          phone = phone;
          created_at = w.now_utc 0;
        })
        users
  | some user ↦ insert user_id (rename_user display_name email phone user) users
]

abbrev pub with_users : Map User → AppLedgerService → AppLedgerService
with_users users s = record s { users = users }

-- What `ensure_user_identity` does once the name is accepted. The personal ledger takes the places
-- from 1.
unfoldable pub identify :
    World → Uuid → Text → Option Text → Option Text → AppLedgerService → AppLedgerService
identify w user_id display_name email phone s =
    ensure_personal_ledger_for_user w 1 user_id display_name (
      rename_personal_ledger_for_user user_id display_name
        (with_users (put_user w user_id display_name email phone s.users) s))

-- The user that is there in the end.
abbrev pub named_user : Uuid → Method User
named_user user_id s = (ok_or (lookup user_id s.users) AppServiceError.user_not_found, s)

-- The result is the user, whom the source hands to `user_dto`.
unfoldable pub ensure_user_identity : World → AppEnsureUserIdentityInput → Method User
ensure_user_identity w input s =
    let display_name = trim input.display_name in
    let email = and_then input.email (normalize_optional_email w) in
    let phone = and_then input.phone normalize_optional_phone in
    let user_id = unwrap_or (find_user_id_by_email_or_phone w email phone s) input.user_id in
    if is_empty display_name
    then (err AppServiceError.invalid_user_display_name, s)
    else named_user user_id (identify w user_id display_name email phone s)
