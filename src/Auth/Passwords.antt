-- ===== src/Auth/Passwords.antt =====
-- The changes of passwords, of kinds of account and of profiles in crates/cloudledger-server/src/
-- auth.rs.
use cloud_ledger.Base.{
  Bool, true, false, ◌&&◌, Option, none, some, Text, text_eq, nat_eq, ◌==◌, ◌!=◌, option_eq,
  if◌then◌else◌,
}
use cloud_ledger.Base.Exec.{Result, ok, err, commit}
use cloud_ledger.Base.Check.{◌>>=◌, ◌>>◌, ok_or, require, raise_if}
use cloud_ledger.Base.Table.{get, put}
use cloud_ledger.Types.{Uuid}
use cloud_ledger.Auth.Error.{AuthError}
use cloud_ledger.Auth.State.{
  Crypto, Draws, AccountKind, account_eq, StoredUser, AuthService, Call, AuthUserDto, auth_user_dto,
  AuthenticatedSession, AdminAuthenticatedSession, normalize_display_name, validate_new_password,
}
use cloud_ledger.Auth.Sessions.{is_set, revoke_user_sessions, app_session, admin_access}
use cloud_ledger.Auth.Users.{stored_dto, bind}

module _ (crypto : Crypto) (w : Draws) where
  -- The user with another password, without sessions.
  abbrev pub set_password : Uuid → StoredUser → Text → AuthService → AuthService
  set_password user_id user password_hash s = revoke_user_sessions (w.now_utc 2) user_id (record s {
    users_by_id =
        put user_id (record user { password_hash = password_hash; updated_at = w.now_utc 1 })
          s.users_by_id;
  })

  unfoldable pub change_checks :
      Text → Text → Text → AuthService → Result AuthError (StoredUser × Uuid × Text)
  change_checks access_token current_password new_password s = do
    found ← admin_access crypto w access_token s
    require (crypto.verify_password current_password found.0.password_hash)
        AuthError.invalid_credentials
    password ← validate_new_password new_password
    password_hash ← ok_or (w.hash_password 0 password) AuthError.password_hash_failed
    ok (found.0, found.1, password_hash)

  -- The user who is changed is the one under the identifier of the user of the session.
  abbrev pub renewed : Uuid → Text → AuthService → Result AuthError StoredUser × AuthService
  renewed user_id password_hash s = elim (get user_id s.users_by_id) [
    | none ↦ (err AuthError.invalid_credentials, s)
    | some user ↦
        let s' = set_password user_id user password_hash s in
        (ok_or (get user_id s'.users_by_id) AuthError.invalid_credentials, s')
  ]

  unfoldable pub change_admin_password : Text → Text → Text → Call AdminAuthenticatedSession
  change_admin_password access_token current_password new_password s =
      elim (change_checks access_token current_password new_password s) [
        | err e ↦ (err e, s)
        | ok (user, organization, password_hash) ↦
            let (result, s') = renewed user.id password_hash s in
            (
              result >>= λ found.
                  ok (record { user = auth_user_dto found; organization_id = organization }),
              s',
            )
      ]

  unfoldable pub reset_checks : Uuid → Text → AuthService → Result AuthError (StoredUser × Text)
  reset_checks user_id new_password s = do
    password ← validate_new_password new_password
    user ← ok_or (get user_id s.users_by_id) AuthError.invalid_credentials
    raise_if (user.account_kind != AccountKind.organization_admin) AuthError.admin_access_denied
    require (is_set user.organization_id) AuthError.admin_organization_required
    password_hash ← ok_or (w.hash_password 0 password) AuthError.password_hash_failed
    ok (user, password_hash)

  unfoldable pub reset_organization_admin_password : Uuid → Text → Call AuthUserDto
  reset_organization_admin_password user_id new_password s =
      elim (reset_checks user_id new_password s) [
        | err e ↦ (err e, s)
        | ok (user, password_hash) ↦
            let s' = set_password user_id user password_hash s in (stored_dto user_id s', s')
      ]

  -- The answer tells whether the account has been changed.
  unfoldable pub mark_organization_admin : Uuid → Uuid → AuthService → Bool × AuthService
  mark_organization_admin user_id organization s = elim (get user_id s.users_by_id) [
    | none ↦ (false, s)
    | some user ↦
        if (user.account_kind == AccountKind.organization_admin)
          && (user.organization_id == some organization)
        then (false, s)
        else (
          true,
          revoke_user_sessions (w.now_utc 1) user_id (record s {
            users_by_id =
                put user_id
                  (record user {
                    account_kind = AccountKind.organization_admin;
                    organization_id = some organization;
                    updated_at = w.now_utc 0;
                  })
                  s.users_by_id;
          }),
        )
  ]

  unfoldable pub profile_checks :
      Text → Text → AuthService → Result AuthError (Uuid × Text × StoredUser)
  profile_checks access_token display_name s = do
    session ← app_session crypto w access_token s
    name ← normalize_display_name display_name
    user ← ok_or (get session.user_id s.users_by_id) AuthError.invalid_credentials
    raise_if (user.account_kind != AccountKind.business) AuthError.business_app_access_denied
    ok (
      session.user_id,
      session.installation_id,
      record user { display_name = name; updated_at = w.now_utc 1 },
    )

  unfoldable pub update_profile : Text → Text → Call AuthenticatedSession
  update_profile access_token display_name s =
      commit (profile_checks access_token display_name s)
        (λ (user_id, installation_id, user) s'.
          let shown : AuthenticatedSession = record {
            user = auth_user_dto user;
            installation_id = installation_id;
          } in
          (shown, record s' { users_by_id = put user_id user s'.users_by_id }))
        s

  abbrev pub account_kind_of : Option StoredUser → Option AccountKind
  account_kind_of none = none
  account_kind_of (some user) = some user.account_kind

  abbrev pub account_kind : Uuid → AuthService → Option AccountKind
  account_kind user s = account_kind_of (get user s.users_by_id)

  abbrev pub organization_id : Uuid → AuthService → Option Uuid
  organization_id user s = bind (get user s.users_by_id) (λ found. found.organization_id)
