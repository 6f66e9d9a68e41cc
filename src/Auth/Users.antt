-- ===== src/Auth/Users.antt =====
-- The inputs about users and the indexes of users in crates/cloudledger-server/src/auth.rs.
use cloud_ledger.Base.{
  Bool, false, ◌||◌, Option, none, some, Text, text_eq, nat_eq, trim, is_empty, ◌==◌, ◌!=◌,
  option_eq, if◌then◌else◌,
}
use cloud_ledger.Base.Exec.{Result, ok}
use cloud_ledger.Base.Check.{◌>>=◌, ◌>>◌, ok_or, require, raise_if}
use cloud_ledger.Base.Table.{Table, get, put, remove}
use cloud_ledger.Types.{Uuid, OffsetDateTime}
use cloud_ledger.Auth.Error.{AuthError}
use cloud_ledger.Auth.State.{
  AuthUserDto, auth_user_dto, Crypto, AccountKind, account_eq, StoredUser, AuthService,
}
use cloud_ledger.Auth.Sessions.{is_set}

pub record RegisterInput : Type 0 where
  pub user_id : Option Uuid
  pub display_name : Text
  pub email : Option Text
  pub phone : Option Text
  pub password : Text
  pub installation_id : Text

pub record AdminCreateUserInput : Type 0 where
  pub user_id : Uuid
  pub display_name : Text
  pub email : Option Text
  pub phone : Option Text
  pub password : Option Text
  pub account_kind : AccountKind
  pub organization_id : Option Uuid

-- `LoginInput`, and with an installation that is not read `AdminLoginInput`.
pub record LoginInput : Type 0 where
  pub email : Option Text
  pub phone : Option Text
  pub password : Text
  pub installation_id : Text

abbrev pub filled : Text → Option Text
filled value = if is_empty value then none else some value

-- `option.and_then(f)`
abbrev pub bind : {A B : Type 0} → Option A → (A → Option B) → Option B
bind none f = none
bind (some a) f = f a

abbrev pub other_way : {A : Type 0} → Option A → Option A → Option A
other_way none other = other
other_way (some a) other = some a

abbrev pub value_or : {A : Type 0} → Option A → A → A
value_or none other = other
value_or (some a) other = a

abbrev pub normalize_auth_email : Crypto → Option Text → Option Text
normalize_auth_email crypto email = bind email (λ value. filled (crypto.to_lowercase (trim value)))

abbrev pub normalize_auth_phone : Option Text → Option Text
normalize_auth_phone phone = bind phone (λ value. filled (trim value))

abbrev pub require_login_identifier : Option Text → Option Text → Result AuthError (Unit {0})
require_login_identifier email phone =
    require (is_set email || is_set phone) AuthError.login_identifier_required

unfoldable pub find_user_id : Option Text → Option Text → AuthService → Option Uuid
find_user_id email phone s =
    other_way (bind email (λ value. get value s.user_ids_by_email))
      (bind phone (λ value. get value s.user_ids_by_phone))

-- `is_some_and(|existing| *existing != user)`
abbrev pub taken_by_other : Uuid → Option Uuid → Bool
taken_by_other user none = false
taken_by_other user (some existing) = existing != user

unfoldable pub ensure_identifier_available :
    Uuid → Option Text → Option Text → AuthService → Result AuthError (Unit {0})
ensure_identifier_available user email phone s =
    raise_if (taken_by_other user (bind email (λ value. get value s.user_ids_by_email)))
      AuthError.email_already_registered
    >> raise_if (taken_by_other user (bind phone (λ value. get value s.user_ids_by_phone)))
        AuthError.phone_already_registered

-- The test of `bind_installation`, and its change.
abbrev pub binding_test : Text → Uuid → AuthService → Result AuthError (Unit {0})
binding_test installation user s =
    raise_if (taken_by_other user (get installation s.installations_by_id))
      AuthError.installation_already_bound

abbrev pub bound : Text → Uuid → AuthService → AuthService
bound installation user s = elim (get installation s.installations_by_id) [
  | some existing ↦ s
  | none ↦ record s { installations_by_id = put installation user s.installations_by_id }
]

-- `if let Some(value) = … { map.insert(value, user) }`
abbrev pub index : Option Text → Uuid → Table Text Uuid → Table Text Uuid
index none user ids = ids
index (some value) user ids = put value user ids

-- The user under its identifier, and its addresses.
abbrev pub store_user : StoredUser → AuthService → AuthService
store_user user s = record s {
  user_ids_by_email = index user.email user.id s.user_ids_by_email;
  user_ids_by_phone = index user.phone user.id s.user_ids_by_phone;
  users_by_id = put user.id user s.users_by_id;
}

-- An address of a user who is replaced, if the index has it for that user.
abbrev pub unindex : Option Text → Uuid → Table Text Uuid → Table Text Uuid
unindex none user ids = ids
unindex (some value) user ids = if get value ids == some user then remove value ids else ids

abbrev pub forget_addresses : Option StoredUser → Uuid → AuthService → AuthService
forget_addresses none user s = s
forget_addresses (some existing) user s = record s {
  user_ids_by_email = unindex existing.email user s.user_ids_by_email;
  user_ids_by_phone = unindex existing.phone user s.user_ids_by_phone;
}

abbrev pub created_or : Option StoredUser → OffsetDateTime → OffsetDateTime
created_or none now = now
created_or (some existing) now = existing.created_at

-- Whether the account or the organization of the user changes.
abbrev pub moves : AdminCreateUserInput → Option StoredUser → Bool
moves input none = false
moves input (some existing) =
    existing.account_kind != input.account_kind || existing.organization_id != input.organization_id

-- The user who has just been stored.
abbrev pub stored_dto : Uuid → AuthService → Result AuthError AuthUserDto
stored_dto user s = ok_or (get user s.users_by_id) AuthError.invalid_credentials >>= λ found.
    ok (auth_user_dto found)
