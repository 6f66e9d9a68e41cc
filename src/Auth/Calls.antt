-- ===== src/Auth/Calls.antt =====
-- Every method of crates/cloudledger-server/src/auth.rs takes the steps of `Steps`.
use cloud_ledger.Base.{
  refl, inl, inr, ◌&&◌, ◌||◌, Option, none, some, arith, Text, text_eq, nat_eq, option_eq, ◌==◌,
  Bool-cases, Option-cases,
}
use cloud_ledger.Base.Exec.{Result-cases}
use cloud_ledger.Base.Table.{get}
use cloud_ledger.Types.{Uuid}
use cloud_ledger.Auth.State.{
  Crypto, Draws, AccountKind, account_eq, SessionKind, StoredUser, AuthService, token_digest,
  bearer_digest,
}
use cloud_ledger.Auth.Sessions.{is_set, logout, logout_refresh}
use cloud_ledger.Auth.Users.{
  RegisterInput, AdminCreateUserInput, LoginInput, bound, store_user, forget_addresses, moves,
}
use cloud_ledger.Auth.Accounts.{
  register_checks, register, admin_user_checks, replace_user, create_or_update_admin_user,
  login_checks, login_for_client, admin_login_checks, admin_login,
}
use cloud_ledger.Auth.Passwords.{
  set_password, change_checks, renewed, change_admin_password, reset_checks,
  reset_organization_admin_password, mark_organization_admin, profile_checks, update_profile,
}
use cloud_ledger.Auth.Command.{
  AuthCall, registers, enters_user, logs_in, logs_in_admin, changes_password, resets_password,
  refreshes, logs_out, logs_out_refresh, marks_admin, updates_profile, after_auth,
}
use cloud_ledger.Auth.Steps.{
  here, joined, revoke_user_sessions-Steps, revoke_installation_sessions-Steps, Run, unchanged,
  issue_session-Run, issue_admin_session-Run, refresh-Run,
}

module _ (crypto : Crypto) (w : Draws) where
  bound-Run :
      (installation : Text) (user : Uuid) (s : AuthService)
      → Run crypto w s (bound installation user s)
  bound-Run installation user s = elim (Option-cases (get installation s.installations_by_id)) [
    | inl free ↦ unchanged crypto w _ _ (ground arith) (ground arith)
    | inr (existing, e) ↦ unchanged crypto w _ _ (ground arith) (ground arith)
  ]

  forget-Run :
      (existing : Option StoredUser) (id : Uuid) (user : StoredUser) (s : AuthService)
      → Run crypto w s (store_user user (forget_addresses existing id s))
  forget-Run none id user s = unchanged crypto w _ _ refl refl
  forget-Run (some existing) id user s = unchanged crypto w _ _ refl refl

  register-Run :
      (input : RegisterInput) (s : AuthService) → Run crypto w s (register crypto w input s).1
  unfolding register
  register-Run input s = elim (Result-cases (register_checks crypto w input s)) [
    | inr (x, e) ↦ rw (register, e) here
    | inl ((user, installation_id), e) ↦
        rw (register, e)
          (joined _ _ (bound-Run installation_id user.id s) (
            joined _ _ (unchanged crypto w _ _ refl refl) (
              issue_session-Run crypto w user.id installation_id (w.new_v4 1) SessionKind.tauri
                (store_user user (bound installation_id user.id s)))))
  ]

  login-Run :
      (input : LoginInput) (kind : SessionKind) (s : AuthService)
      → Run crypto w s (login_for_client crypto w input kind s).1
  unfolding login_for_client
  login-Run input kind s = elim (Result-cases (login_checks crypto w input s)) [
    | inr (x, e) ↦ rw (login_for_client, e) here
    | inl ((user, installation_id), e) ↦
        rw (login_for_client, e)
          (joined _ _ (bound-Run installation_id user s)
            (issue_session-Run crypto w user installation_id (w.new_v4 1) kind _))
  ]

  admin_login-Run :
      (input : LoginInput) (s : AuthService) → Run crypto w s (admin_login crypto w input s).1
  unfolding admin_login
  admin_login-Run input s = elim (Result-cases (admin_login_checks crypto w input s)) [
    | inr (x, e) ↦ rw (admin_login, e) here
    | inl (user, e) ↦ rw (admin_login, e) (issue_admin_session-Run crypto w user s)
  ]

  enter-Run :
      (input : AdminCreateUserInput) (s : AuthService)
      → Run crypto w s (create_or_update_admin_user crypto w input s).1
  unfolding create_or_update_admin_user replace_user
  enter-Run input s = elim (Result-cases (admin_user_checks crypto w input s)) [
    | inr (x, e) ↦ rw (create_or_update_admin_user, e) here
    | inl (user, e) ↦
        let existing = get input.user_id s.users_by_id in
        let stored = forget-Run existing input.user_id user s in
        elim (Bool-cases (is_set input.password || moves input existing)) [
          | inl revokes ↦
              rw (create_or_update_admin_user, e, revokes)
                (joined _ _ stored (revoke_user_sessions-Steps _ _ (w.now_utc 2) user.id _))
          | inr stays ↦ rw (create_or_update_admin_user, e, stays) stored
        ]
  ]

  set_password-Run :
      (id : Uuid) (user : StoredUser) (password_hash : Text) (s : AuthService)
      → Run crypto w s (set_password crypto w id user password_hash s)
  set_password-Run id user password_hash s =
      joined _ _ (unchanged crypto w _ _ refl refl)
        (revoke_user_sessions-Steps _ _ (w.now_utc 2) id _)

  change-Run :
      (access_token current new : Text) (s : AuthService)
      → Run crypto w s (change_admin_password crypto w access_token current new s).1
  unfolding change_admin_password
  change-Run access_token current new s =
      elim (Result-cases (change_checks crypto w access_token current new s)) [
        | inr (x, e) ↦ rw (change_admin_password, e) here
        | inl ((user, organization, password_hash), e) ↦
            elim (Option-cases (get user.id s.users_by_id)) [
              | inl gone ↦ rw (change_admin_password, e, renewed, gone) here
              | inr (found, there) ↦
                  rw (change_admin_password, e, renewed, there)
                    (set_password-Run user.id found password_hash s)
            ]
      ]

  reset-Run :
      (id : Uuid) (new : Text) (s : AuthService)
      → Run crypto w s (reset_organization_admin_password crypto w id new s).1
  unfolding reset_organization_admin_password
  reset-Run id new s = elim (Result-cases (reset_checks crypto w id new s)) [
    | inr (x, e) ↦ rw (reset_organization_admin_password, e) here
    | inl ((user, password_hash), e) ↦
        rw (reset_organization_admin_password, e) (set_password-Run id user password_hash s)
  ]

  mark-Run :
      (id organization : Uuid) (s : AuthService)
      → Run crypto w s (mark_organization_admin crypto w id organization s).1
  unfolding mark_organization_admin
  mark-Run id organization s = elim (Option-cases (get id s.users_by_id)) [
    | inl missing ↦ rw (mark_organization_admin, missing) here
    | inr (user, e) ↦
        elim (Bool-cases (
          (user.account_kind == AccountKind.organization_admin)
          && (user.organization_id == some organization))) [
            | inl already ↦ rw (mark_organization_admin, e, already) here
            | inr changed ↦
                rw (mark_organization_admin, e, changed)
                  (joined _ _ (unchanged crypto w _ _ refl refl)
                    (revoke_user_sessions-Steps _ _ (w.now_utc 1) id _))
          ]
  ]

  profile-Run :
      (access_token name : Text) (s : AuthService)
      → Run crypto w s (update_profile crypto w access_token name s).1
  unfolding update_profile
  profile-Run access_token name s =
      elim (Result-cases (profile_checks crypto w access_token name s)) [
        | inr (x, e) ↦ rw (update_profile, e) here
        | inl (found, e) ↦ rw (update_profile, e) (unchanged crypto w _ _ refl refl)
      ]

  logout-Run :
      (access_token : Text) (s : AuthService) → Run crypto w s (logout crypto w access_token s).1
  unfolding logout
  logout-Run access_token s =
      elim (Option-cases (get (bearer_digest crypto access_token) s.sessions_by_access_token)) [
        | inl missing ↦ rw (logout, missing) here
        | inr (x, e) ↦ rw (logout, e) (revoke_installation_sessions-Steps _ _ (w.now_utc 0) x s)
      ]

  logout_refresh-Run :
      (token : Text) (s : AuthService) → Run crypto w s (logout_refresh crypto w token s).1
  unfolding logout_refresh
  logout_refresh-Run token s =
      elim (Option-cases (get (token_digest crypto token) s.access_tokens_by_refresh_token)) [
        | inl missing ↦ rw (logout_refresh, missing) here
        | inr (access, e) ↦ elim (Option-cases (get access s.sessions_by_access_token)) [
          | inl gone ↦ rw (logout_refresh, e, gone) here
          | inr (x, there) ↦
              rw (logout_refresh, e, there)
                (revoke_installation_sessions-Steps _ _ (w.now_utc 0) x s)
        ]
      ]

  pub after_auth-Run : (c : AuthCall) (s : AuthService) → Run crypto w s (after_auth crypto w c s)
  unfolding after_auth
  after_auth-Run (registers input) s = register-Run input s
  after_auth-Run (enters_user input) s = enter-Run input s
  after_auth-Run (logs_in input kind) s = login-Run input kind s
  after_auth-Run (logs_in_admin input) s = admin_login-Run input s
  after_auth-Run (changes_password access_token current new) s =
      change-Run access_token current new s
  after_auth-Run (resets_password user new) s = reset-Run user new s
  after_auth-Run (refreshes input kind) s = refresh-Run crypto w input kind s
  after_auth-Run (logs_out access_token) s = logout-Run access_token s
  after_auth-Run (logs_out_refresh token) s = logout_refresh-Run token s
  after_auth-Run (marks_admin user organization) s = mark-Run user organization s
  after_auth-Run (updates_profile access_token name) s = profile-Run access_token name s
