-- ===== src/Scenarios/Accounts.antt =====
-- An account that is registered, its sessions, and the results on tokens applied to them. The digest
-- of a token is the token, and the hash of a password the password.
use cloud_ledger.Base.{
  ℕ, ◌+◌, ◌≡◌, ◌≢◌, ◌↔◌, refl, none, some, List, [], ◌∷◌, arith, Text, text, nat_eq, trim,
  trim_start, text_eq, text_beq,
}
use cloud_ledger.Base.Exec.{ok, err}
use cloud_ledger.Base.Table.{get}
use cloud_ledger.Auth.Error.{AuthError}
use cloud_ledger.Auth.State.{
  Crypto, Draws, AccountKind, SessionKind, StoredUser, StoredSession, AuthService, no_accounts,
  auth_user_dto, AuthUserDto, IssuedSession, AuthenticatedSession, AdminAuthenticatedSession,
  token_digest, bearer_digest, normalize_bearer_token, normalize_display_name,
  normalize_installation_id, validate_new_password,
}
use cloud_ledger.Auth.Sessions.{
  RefreshInput, refresh_for_client, refresh_lookup, refresh_session, rotation_checks, issue_session,
  prune_expired_sessions, authenticate_access_token, authenticate_admin_access_token, app_session,
  is_set, logout, revoke_installation_sessions, revoke_user_sessions, new_session,
}
use cloud_ledger.Auth.Users.{RegisterInput}
use cloud_ledger.Auth.Accounts.{register_checks, register}
use cloud_ledger.Auth.Passwords.{reset_checks, reset_organization_admin_password}
use cloud_ledger.Auth.Command.{AuthCall, registers, refreshes, logs_out, after_auth, after_auths}
use cloud_ledger.Auth.Closed.{IsTidy, Shut}
use cloud_ledger.Auth.Spent.{IsNew, revoked_token_refused}
use cloud_ledger.Auth.Rotation.{AllNew, refresh_once}
use cloud_ledger.Auth.Access.{
  Opens, authenticate_access_token_iff, AllRevoked, reset_organization_admin_password-AllRevoked,
}
use cloud_ledger.Auth.Replay.{FamilyRevoked, refresh_for_client-FamilyRevoked}

abbrev crypto : Crypto
crypto = record {
  sha256_hex = λ t. t;
  verify_password = λ password hash. text_beq password hash;
  to_lowercase = λ t. t;
}

-- What the n-th call draws.
abbrev draws : ℕ → Draws
draws n = record {
  now_utc = λ place. n + place;
  round_now_utc = λ place round. n + place;
  new_v4 = λ place. n + place;
  random_token = λ place. (n + place) ∷ [];
  hash_password = λ place password. some password;
}

abbrev signing_up : RegisterInput
signing_up = record {
  user_id = some 7;
  display_name = text "User";
  email = some (text "u@b.test");
  phone = none;
  password = text "long enough 12";
  installation_id = text "phone";
}

abbrev user : StoredUser
user = record {
  id = 7;
  display_name = text "User";
  email = some (text "u@b.test");
  phone = none;
  password_hash = text "long enough 12";
  account_kind = AccountKind.business;
  organization_id = none;
  created_at = 1000;
  updated_at = 1000;
}

abbrev first_session : StoredSession
first_session = new_session crypto (draws 1000) 3 7 (text "phone") 1001 SessionKind.tauri

-- The state after the registration, whose session has the tokens 1003 and 1004.
abbrev registered : AuthService
registered = record {
  users_by_id = (7, user) ∷ [];
  user_ids_by_email = (text "u@b.test", 7) ∷ [];
  user_ids_by_phone = [];
  installations_by_id = (text "phone", 7) ∷ [];
  sessions_by_access_token = (1003 ∷ [], first_session) ∷ [];
  access_tokens_by_refresh_token = (1004 ∷ [], 1003 ∷ []) ∷ [];
}

registered_runs : after_auth crypto (draws 1000) (registers signing_up) no_accounts ≡ registered
unfolding after_auth register register_checks normalize_display_name validate_new_password
    normalize_installation_id trim trim_start no_accounts issue_session prune_expired_sessions
    token_digest
registered_runs = refl

registered-IsTidy : IsTidy registered
registered-IsTidy = record { sessions = ground arith; index = ground arith }

abbrev the_refresh : RefreshInput
the_refresh = record { refresh_token = 1004 ∷ []; installation_id = text "phone" }

abbrev refreshed : IssuedSession
refreshed = record {
  user = auth_user_dto user;
  access_token = 2003 ∷ [];
  refresh_token = 2004 ∷ [];
  installation_id = text "phone";
}

refresh_succeeds :
    (refresh_for_client crypto (draws 2000) the_refresh SessionKind.tauri registered).0
    ≡ ok refreshed
unfolding refresh_for_client refresh_lookup normalize_installation_id trim trim_start issue_session
    prune_expired_sessions token_digest refresh_session rotation_checks
refresh_succeeds = refl

-- The session that the refresh has opened is closed by a logout, and the used token comes again.
abbrev later : List (Draws × AuthCall)
later = (draws 3000, logs_out (2003 ∷ [])) ∷ []

later-AllNew :
    AllNew crypto
      (token_digest crypto (trim (1004 ∷ [])))
      ((draws 2000, refreshes the_refresh SessionKind.tauri) ∷ later)
      registered
unfolding token_digest trim trim_start after_auth refresh_for_client refresh_lookup
    normalize_installation_id issue_session prune_expired_sessions refresh_session rotation_checks
later-AllNew = (λ e. ground arith, λ e. ground arith, (λ e. ground arith, λ e. ground arith, tt))

refresh_once_example :
    (refresh_for_client crypto (draws 4000) the_refresh SessionKind.tauri (
      after_auths crypto
        ((draws 2000, refreshes the_refresh SessionKind.tauri) ∷ later)
        registered)).0
    ≢ ok refreshed
refresh_once_example =
    refresh_once crypto (draws 2000) the_refresh SessionKind.tauri registered refreshed later
      registered-IsTidy refresh_succeeds later-AllNew (draws 4000) the_refresh SessionKind.tauri
      refreshed refl

abbrev logged_out : AuthService
logged_out = record registered {
  installations_by_id = [];
  sessions_by_access_token = (1003 ∷ [], record first_session { revoked_at = some 2000 }) ∷ [];
}

logged_out_runs : after_auth crypto (draws 2000) (logs_out (1003 ∷ [])) registered ≡ logged_out
unfolding after_auth logout revoke_installation_sessions token_digest bearer_digest trim trim_start
    normalize_bearer_token
logged_out_runs = refl

logged_out-IsTidy : IsTidy logged_out
logged_out-IsTidy = record { sessions = ground arith; index = ground arith }

token-IsNew :
    IsNew crypto (bearer_digest crypto (1003 ∷ [])) ((draws 3000, registers signing_up) ∷ [])
unfolding token_digest bearer_digest trim trim_start normalize_bearer_token
token-IsNew = (λ e. ground arith, tt)

token-Shut : Shut (λ x. is_set x.revoked_at) (bearer_digest crypto (1003 ∷ [])) logged_out
unfolding token_digest bearer_digest trim trim_start normalize_bearer_token
token-Shut x e = ground arith

revoked_token_refused_example :
    ((answer : AuthenticatedSession)
      → authenticate_access_token crypto
          (draws 4000)
          (1003 ∷ [])
          (after_auths crypto ((draws 3000, registers signing_up) ∷ []) logged_out)
        ≢ ok answer)
    × ((answer : AdminAuthenticatedSession)
        → authenticate_admin_access_token crypto
            (draws 4000)
            (1003 ∷ [])
            (after_auths crypto ((draws 3000, registers signing_up) ∷ []) logged_out)
          ≢ ok answer)
revoked_token_refused_example =
    revoked_token_refused crypto (1003 ∷ []) ((draws 3000, registers signing_up) ∷ []) logged_out
      (draws 4000) logged_out-IsTidy token-IsNew token-Shut

abbrev recognized : AuthenticatedSession
recognized = record { user = auth_user_dto user; installation_id = text "phone" }

recognized_runs :
    authenticate_access_token crypto (draws 1500) (1003 ∷ []) registered ≡ ok recognized
unfolding authenticate_access_token app_session token_digest bearer_digest trim trim_start
    normalize_bearer_token
recognized_runs = refl

authenticate_access_token_iff_example :
    (authenticate_access_token crypto (draws 1500) (1003 ∷ []) registered ≡ ok recognized)
    ↔ Opens crypto 1500 (1003 ∷ []) registered recognized
authenticate_access_token_iff_example =
    authenticate_access_token_iff crypto (draws 1500) (1003 ∷ []) registered recognized

-- The user as the administrator of the organization 1.
abbrev administrated : AuthService
administrated = record registered {
  users_by_id =
      (7, record user { account_kind = AccountKind.organization_admin; organization_id = some 1 })
      ∷ [];
}

abbrev reset_dto : AuthUserDto
reset_dto =
    auth_user_dto
      (record user { account_kind = AccountKind.organization_admin; organization_id = some 1 })

reset_succeeds :
    (reset_organization_admin_password crypto
      (draws 5000)
      7
      (text "another password")
      administrated).0
    ≡ ok reset_dto
unfolding reset_organization_admin_password reset_checks validate_new_password trim trim_start
    auth_user_dto revoke_user_sessions
reset_succeeds = refl

reset_organization_admin_password-AllRevoked_example :
    (found : StoredUser) × (password_hash : Text) × (get 7 administrated.users_by_id ≡ some found)
    × (found.account_kind ≡ AccountKind.organization_admin)
    × (found.organization_id ≢ none)
    × (some (text "another password") ≡ some password_hash)
    × (get 7
          (reset_organization_admin_password crypto
            (draws 5000)
            7
            (text "another password")
            administrated).1.users_by_id
        ≡ some (record found { password_hash = password_hash; updated_at = 5001 }))
    × AllRevoked 7
        (reset_organization_admin_password crypto
          (draws 5000)
          7
          (text "another password")
          administrated).1
reset_organization_admin_password-AllRevoked_example =
    reset_organization_admin_password-AllRevoked crypto (draws 5000) 7 (text "another password")
      administrated reset_dto reset_succeeds

found_closed :
    refresh_lookup crypto (draws 6000) the_refresh SessionKind.tauri logged_out
    ≡ ok (text "phone", 1003 ∷ [], record first_session { revoked_at = some 2000 })
unfolding refresh_lookup normalize_installation_id trim trim_start token_digest
found_closed = refl

refresh_for_client-FamilyRevoked_example :
    ((refresh_for_client crypto (draws 6000) the_refresh SessionKind.tauri logged_out).0
      ≡ err AuthError.refresh_replay_detected)
    × FamilyRevoked 1001
        (refresh_for_client crypto (draws 6000) the_refresh SessionKind.tauri logged_out).1
refresh_for_client-FamilyRevoked_example =
    refresh_for_client-FamilyRevoked crypto (draws 6000) the_refresh SessionKind.tauri logged_out
      (text "phone") (1003 ∷ []) (record first_session { revoked_at = some 2000 }) found_closed refl
