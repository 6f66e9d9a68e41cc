-- ===== src/Auth/Accounts.antt =====
-- The accounts of crates/cloudledger-server/src/auth.rs: how they are entered, and how a login finds
-- one.
use cloud_ledger.Base.{
  ◌||◌, Option, none, some, Text, text_eq, nat_eq, ◌!=◌, option_eq, if◌then◌else◌,
}
use cloud_ledger.Base.Exec.{Result, ok, err}
use cloud_ledger.Base.Check.{◌>>=◌, ◌>>◌, ok_or, require, raise_if}
use cloud_ledger.Base.Table.{get}
use cloud_ledger.Types.{Uuid}
use cloud_ledger.Auth.Error.{AuthError}
use cloud_ledger.Auth.State.{
  Crypto, Draws, AccountKind, account_eq, SessionKind, StoredUser, AuthService, Call, AuthUserDto,
  IssuedSession, AdminSession, normalize_display_name, validate_new_password,
  normalize_installation_id,
}
use cloud_ledger.Auth.Sessions.{is_set, revoke_user_sessions, issue_session, issue_admin_session}
use cloud_ledger.Auth.Users.{
  stored_dto, RegisterInput, AdminCreateUserInput, LoginInput, bind, value_or, normalize_auth_email,
  normalize_auth_phone, require_login_identifier, find_user_id, ensure_identifier_available,
  binding_test, bound, store_user, forget_addresses, created_or, moves,
}

module _ (crypto : Crypto) (w : Draws) where
  -- The user and the installation of a registration that passes the tests.
  unfoldable pub register_checks :
      RegisterInput → AuthService → Result AuthError (StoredUser × Text)
  register_checks input s = do
    display_name ← normalize_display_name input.display_name
    password ← validate_new_password input.password
    require_login_identifier (normalize_auth_email crypto input.email)
        (normalize_auth_phone input.phone)
    installation_id ← normalize_installation_id input.installation_id
    raise_if
        (is_set
          (bind (normalize_auth_email crypto input.email) (λ value. get value s.user_ids_by_email)))
        AuthError.email_already_registered
    raise_if
        (is_set (bind (normalize_auth_phone input.phone) (λ value. get value s.user_ids_by_phone)))
        AuthError.phone_already_registered
    password_hash ← ok_or (w.hash_password 0 password) AuthError.password_hash_failed
    binding_test installation_id (value_or input.user_id (w.new_v4 0)) s
    ok (
      record {
        id = value_or input.user_id (w.new_v4 0);
        display_name = display_name;
        email = normalize_auth_email crypto input.email;
        phone = normalize_auth_phone input.phone;
        password_hash = password_hash;
        account_kind = AccountKind.business;
        organization_id = none;
        created_at = w.now_utc 0;
        updated_at = w.now_utc 0;
      },
      installation_id,
    )

  unfoldable pub register : RegisterInput → Call IssuedSession
  register input s = elim (register_checks input s) [
    | err e ↦ (err e, s)
    | ok (user, installation_id) ↦
        issue_session crypto w 3 user.id installation_id (w.new_v4 1) SessionKind.tauri
          (store_user user (bound installation_id user.id s))
  ]

  -- The new hash of the password: a new user needs a password.
  abbrev pub chosen_hash : Option StoredUser → Option Text → Result AuthError Text
  chosen_hash (some existing) none = ok existing.password_hash
  chosen_hash existing (some password) =
      ok_or (w.hash_password 0 password) AuthError.password_hash_failed
  chosen_hash none none = err AuthError.password_required

  -- `map(validate_new_password).transpose()`
  abbrev pub tested_password : Option Text → Result AuthError (Option Text)
  tested_password none = ok none
  tested_password (some password) = validate_new_password password >>= λ value. ok (some value)

  unfoldable pub admin_user_checks :
      AdminCreateUserInput → AuthService → Result AuthError StoredUser
  admin_user_checks input s = do
    display_name ← normalize_display_name input.display_name
    password ← tested_password input.password
    require_login_identifier (normalize_auth_email crypto input.email)
        (normalize_auth_phone input.phone)
    ensure_identifier_available input.user_id (normalize_auth_email crypto input.email)
        (normalize_auth_phone input.phone) s
    password_hash ← chosen_hash (get input.user_id s.users_by_id) password
    ok (record {
      id = input.user_id;
      display_name = display_name;
      email = normalize_auth_email crypto input.email;
      phone = normalize_auth_phone input.phone;
      password_hash = password_hash;
      account_kind = input.account_kind;
      organization_id = input.organization_id;
      created_at = created_or (get input.user_id s.users_by_id) (w.now_utc 0);
      updated_at = w.now_utc 1;
    })

  unfoldable pub replace_user : AdminCreateUserInput → StoredUser → AuthService → AuthService
  replace_user input user s =
      let existing = get input.user_id s.users_by_id in
      let stored = store_user user (forget_addresses existing input.user_id s) in
      if is_set input.password || moves input existing
      then revoke_user_sessions (w.now_utc 2) user.id stored
      else stored

  unfoldable pub create_or_update_admin_user : AdminCreateUserInput → Call AuthUserDto
  create_or_update_admin_user input s = elim (admin_user_checks input s) [
    | err e ↦ (err e, s)
    | ok user ↦ let s' = replace_user input user s in (stored_dto user.id s', s')
  ]

  -- The user whom the addresses and the password of a login belong to; the work on the password of
  -- an unknown user can only fail.
  unfoldable pub password_user :
      Option Text → Option Text → Text → AuthService → Result AuthError (Uuid × StoredUser)
  password_user email phone password s = elim (find_user_id email phone s) [
    | none ↦
        require (is_set (w.hash_password 0 password)) AuthError.password_hash_failed
        >> err AuthError.invalid_credentials
    | some user_id ↦ do
      user ← ok_or (get user_id s.users_by_id) AuthError.invalid_credentials
      require (crypto.verify_password password user.password_hash) AuthError.invalid_credentials
      ok (user_id, user)
  ]

  unfoldable pub login_checks : LoginInput → AuthService → Result AuthError (Uuid × Text)
  login_checks input s = do
    require_login_identifier (normalize_auth_email crypto input.email)
        (normalize_auth_phone input.phone)
    installation_id ← normalize_installation_id input.installation_id
    found ←
        password_user (normalize_auth_email crypto input.email) (normalize_auth_phone input.phone)
          input.password s
    raise_if (found.1.account_kind != AccountKind.business) AuthError.business_app_access_denied
    binding_test installation_id found.0 s
    ok (found.0, installation_id)

  unfoldable pub login_for_client : LoginInput → SessionKind → Call IssuedSession
  login_for_client input client_kind s = elim (login_checks input s) [
    | err e ↦ (err e, s)
    | ok (user_id, installation_id) ↦
        issue_session crypto w 3 user_id installation_id (w.new_v4 1) client_kind
          (bound installation_id user_id s)
  ]

  unfoldable pub admin_login_checks : LoginInput → AuthService → Result AuthError Uuid
  admin_login_checks input s = do
    require_login_identifier (normalize_auth_email crypto input.email)
        (normalize_auth_phone input.phone)
    found ←
        password_user (normalize_auth_email crypto input.email) (normalize_auth_phone input.phone)
          input.password s
    raise_if (found.1.account_kind != AccountKind.organization_admin) AuthError.admin_access_denied
    ok found.0

  unfoldable pub admin_login : LoginInput → Call AdminSession
  admin_login input s = elim (admin_login_checks input s) [
    | err e ↦ (err e, s)
    | ok user_id ↦ issue_admin_session crypto w 3 user_id s
  ]
