-- ===== src/Auth/Sessions.antt =====
-- The sessions of crates/cloudledger-server/src/auth.rs: how they are issued, rotated, revoked,
-- cleaned up and recognized. In a part that draws more than once, the places are counted from the
-- number that it is given.
use cloud_ledger.Base.{
  ℕ, suc, ◌+◌, Bool, true, false, ◌&&◌, ◌||◌, Option, none, some, List, [], ◌∷◌, Text, text_eq,
  nat_eq, trim, ◌==◌, ◌!=◌, if◌then◌else◌, leb,
}
use cloud_ledger.Base.Exec.{Result, ok, err, commit}
use cloud_ledger.Base.Check.{◌>>=◌, ◌>>◌, ok_or, raise_if}
use cloud_ledger.Base.Table.{Table, get, put, remove, retain, update_all}
use cloud_ledger.Types.{Uuid, OffsetDateTime}
use cloud_ledger.Auth.Error.{AuthError}
use cloud_ledger.Auth.State.{
  Crypto, Draws, AccountKind, account_eq, SessionKind, session_eq, StoredUser, StoredSession,
  AuthService, Call, auth_user_dto, IssuedSession, AuthenticatedSession, AdminSession,
  AdminAuthenticatedSession, app_access_token_ttl, app_refresh_token_ttl, admin_session_ttl,
  normalize_installation_id, token_digest, bearer_digest,
}

-- `is_some`
abbrev pub is_set : {A : Type 0} → Option A → Bool
is_set none = false
is_set (some a) = true

abbrev pub with_sessions : Table Text StoredSession → AuthService → AuthService
with_sessions sessions s = record s { sessions_by_access_token = sessions }

-- `unwrap_or`, of the end of a session.
abbrev session_end : Option OffsetDateTime → OffsetDateTime → OffsetDateTime
session_end none access_expires_at = access_expires_at
session_end (some refresh_expires_at) access_expires_at = refresh_expires_at

abbrev pub is_expired : OffsetDateTime → StoredSession → Bool
is_expired now session = leb (session_end session.refresh_expires_at session.access_expires_at) now

-- Each session is compared with a time of its own.
abbrev pub expired_access_tokens : (ℕ → OffsetDateTime) → Table Text StoredSession → List Text
expired_access_tokens now [] = []
expired_access_tokens now ((token, session) ∷ rest) =
    let tokens = expired_access_tokens (λ round. now (suc round)) rest in
    if is_expired (now 0) session then token ∷ tokens else tokens

-- One round of the loop over the expired tokens.
abbrev pub drop_session : Text → AuthService → AuthService
drop_session token s = elim (get token s.sessions_by_access_token) [
  | none ↦ s
  | some session ↦ record s {
    sessions_by_access_token = remove token s.sessions_by_access_token;
    access_tokens_by_refresh_token = remove session.refresh_token s.access_tokens_by_refresh_token;
  }
]

abbrev pub drop_sessions : List Text → AuthService → AuthService
drop_sessions [] s = s
drop_sessions (token ∷ tokens) s = drop_sessions tokens (drop_session token s)

unfoldable pub prune_expired_sessions : (ℕ → OffsetDateTime) → AuthService → AuthService
prune_expired_sessions now s =
    drop_sessions (expired_access_tokens now s.sessions_by_access_token) s

-- `for session in sessions.values_mut() { if … { session.revoked_at = Some(now) } }`
abbrev pub revoke_if : (StoredSession → Bool) → OffsetDateTime → StoredSession → StoredSession
revoke_if test now session =
    if test session then record session { revoked_at = some now } else session

abbrev pub revoke_where : (StoredSession → Bool) → OffsetDateTime → AuthService → AuthService
revoke_where test now s =
    with_sessions (update_all (revoke_if test now) s.sessions_by_access_token) s

unfoldable pub revoke_user_sessions : OffsetDateTime → Uuid → AuthService → AuthService
revoke_user_sessions now user s =
    let revoked = revoke_where (λ session. session.user_id == user) now s in
    record revoked {
      installations_by_id = retain (λ installed. installed != user) revoked.installations_by_id;
    }

abbrev same_installation : StoredSession → StoredSession → Bool
same_installation session stored =
    stored.user_id == session.user_id
    && stored.installation_id == session.installation_id
    && (stored.kind == session.kind)

unfoldable pub revoke_installation_sessions :
    OffsetDateTime → StoredSession → AuthService → AuthService
revoke_installation_sessions now session s =
    let revoked = revoke_where (same_installation session) now s in
    record revoked {
      installations_by_id = remove session.installation_id revoked.installations_by_id;
    }

unfoldable pub revoke_family : OffsetDateTime → Uuid → AuthService → AuthService
revoke_family now family s = revoke_where (λ session. session.family_id == family) now s

abbrev pub add_session : StoredSession → AuthService → AuthService
add_session session s = record s {
  access_tokens_by_refresh_token =
      put session.refresh_token session.access_token s.access_tokens_by_refresh_token;
  sessions_by_access_token = put session.access_token session s.sessions_by_access_token;
}

module _ (crypto : Crypto) (w : Draws) (place : ℕ) where
  -- The session that `issue_session` stores.
  abbrev pub new_session : Uuid → Text → Uuid → SessionKind → StoredSession
  new_session user installation_id family kind =
      let now = w.now_utc (place + 1) in
      record {
        id = w.new_v4 place;
        family_id = family;
        user_id = user;
        installation_id = installation_id;
        access_token = token_digest crypto (w.random_token place);
        refresh_token = token_digest crypto (w.random_token (place + 1));
        kind = kind;
        created_at = now;
        access_expires_at = now + app_access_token_ttl;
        refresh_expires_at = some (now + app_refresh_token_ttl);
        rotated_at = none;
        revoked_at = none;
      }

  unfoldable pub issue_session : Uuid → Text → Uuid → SessionKind → Call IssuedSession
  issue_session user installation_id family kind s =
      commit
        (ok_or (get user (prune_expired_sessions (w.round_now_utc place) s).users_by_id)
          AuthError.invalid_credentials)
        (λ found s'.
          let issued : IssuedSession = record {
            user = auth_user_dto found;
            access_token = w.random_token place;
            refresh_token = w.random_token (place + 1);
            installation_id = installation_id;
          } in
          (issued, add_session (new_session user installation_id family kind) s'))
        (prune_expired_sessions (w.round_now_utc place) s)

  abbrev pub new_admin_session : Uuid → StoredSession
  new_admin_session user =
      let now = w.now_utc (place + 1) in
      record {
        id = w.new_v4 place;
        family_id = w.new_v4 (place + 1);
        user_id = user;
        installation_id = [];
        access_token = token_digest crypto (w.random_token place);
        refresh_token = [];
        kind = SessionKind.admin;
        created_at = now;
        access_expires_at = now + admin_session_ttl;
        refresh_expires_at = none;
        rotated_at = none;
        revoked_at = none;
      }

  abbrev pub admin_user : Uuid → AuthService → Result AuthError (StoredUser × Uuid)
  admin_user user s = do
    found ← ok_or (get user s.users_by_id) AuthError.invalid_credentials
    organization ← ok_or found.organization_id AuthError.admin_organization_required
    ok (found, organization)

  unfoldable pub issue_admin_session : Uuid → Call AdminSession
  issue_admin_session user s =
      commit (admin_user user (prune_expired_sessions (w.round_now_utc place) s))
        (λ (found, organization) s'.
          let issued : AdminSession = record {
            user = auth_user_dto found;
            access_token = w.random_token place;
            organization_id = organization;
          } in
          let session = new_admin_session user in
          (issued, with_sessions (put session.access_token session s'.sessions_by_access_token) s'))
        (prune_expired_sessions (w.round_now_utc place) s)

pub record RefreshInput : Type 0 where
  pub refresh_token : Text
  pub installation_id : Text

abbrev pub is_closed : StoredSession → Bool
is_closed session = is_set session.rotated_at || is_set session.revoked_at

-- `is_none_or(|expires_at| now >= expires_at)`
abbrev pub is_over : OffsetDateTime → Option OffsetDateTime → Bool
is_over now none = true
is_over now (some expires_at) = leb expires_at now

-- `if let Some(stored) = self.sessions_by_access_token.get_mut(&access_token) { … }`
abbrev pub rotate : OffsetDateTime → Text → AuthService → AuthService
rotate now access_token s = elim (get access_token s.sessions_by_access_token) [
  | none ↦ s
  | some stored ↦
      with_sessions
        (put access_token (record stored { rotated_at = some now }) s.sessions_by_access_token) s
]

module _ (crypto : Crypto) (w : Draws) where
  -- The installation, and the access token and the session that a refresh token leads to.
  unfoldable pub refresh_lookup :
      RefreshInput → SessionKind → AuthService → Result AuthError (Text × Text × StoredSession)
  refresh_lookup input client_kind s = do
    installation_id ← normalize_installation_id input.installation_id
    access_token ←
        ok_or
          (get (token_digest crypto (trim input.refresh_token)) s.access_tokens_by_refresh_token)
          AuthError.session_not_found
    session ← ok_or (get access_token s.sessions_by_access_token) AuthError.session_not_found
    raise_if (session.kind != client_kind) AuthError.session_not_found
    ok (installation_id, access_token, session)

  -- The tests of an open session.
  unfoldable pub rotation_checks : Text → StoredSession → Result AuthError (Unit {0})
  rotation_checks installation_id session =
      raise_if (is_over (w.now_utc 1) session.refresh_expires_at) AuthError.session_not_found
      >> raise_if (session.installation_id != installation_id) AuthError.installation_already_bound

  -- What follows once the session is found: a closed one revokes its family.
  unfoldable pub refresh_session : SessionKind → Text × Text × StoredSession → Call IssuedSession
  refresh_session client_kind (installation_id, access_token, session) s =
      if is_closed session
      then (err AuthError.refresh_replay_detected, revoke_family (w.now_utc 0) session.family_id s)
      else elim (rotation_checks installation_id session) [
        | err e ↦ (err e, s)
        | ok u ↦
            issue_session crypto w 3 session.user_id installation_id session.family_id client_kind
              (rotate (w.now_utc 2) access_token s)
      ]

  unfoldable pub refresh_for_client : RefreshInput → SessionKind → Call IssuedSession
  refresh_for_client input client_kind s = elim (refresh_lookup input client_kind s) [
    | err e ↦ (err e, s)
    | ok found ↦ refresh_session client_kind found s
  ]

  unfoldable pub logout : Text → Call (Unit {0})
  logout access_token s =
      commit
        (ok_or (get (bearer_digest crypto access_token) s.sessions_by_access_token)
          AuthError.session_not_found)
        (λ session s'. (tt, revoke_installation_sessions (w.now_utc 0) session s')) s

  unfoldable pub logout_refresh : Text → Call Uuid
  logout_refresh refresh_token s =
      commit
        (ok_or (get (token_digest crypto refresh_token) s.access_tokens_by_refresh_token)
            AuthError.session_not_found
          >>= λ access_hash.
              ok_or (get access_hash s.sessions_by_access_token) AuthError.session_not_found)
        (λ session s'. (session.user_id, revoke_installation_sessions (w.now_utc 0) session s')) s

  -- The session of a token of the app that is in force.
  unfoldable pub app_session : Text → AuthService → Result AuthError StoredSession
  app_session access_token s = do
    session ←
        ok_or (get (bearer_digest crypto access_token) s.sessions_by_access_token)
          AuthError.invalid_credentials
    raise_if (session.kind == SessionKind.admin || is_closed session) AuthError.invalid_credentials
    raise_if (leb session.access_expires_at (w.now_utc 0)) AuthError.invalid_credentials
    ok session

  unfoldable pub authenticate_access_token :
      Text → AuthService → Result AuthError AuthenticatedSession
  authenticate_access_token access_token s = do
    session ← app_session access_token s
    user ← ok_or (get session.user_id s.users_by_id) AuthError.invalid_credentials
    raise_if (user.account_kind != AccountKind.business) AuthError.business_app_access_denied
    ok (record { user = auth_user_dto user; installation_id = session.installation_id })

  -- The session of a token of the administration that is in force, its user and organization.
  unfoldable pub admin_access : Text → AuthService → Result AuthError (StoredUser × Uuid)
  admin_access access_token s = do
    session ←
        ok_or (get (bearer_digest crypto access_token) s.sessions_by_access_token)
          AuthError.invalid_credentials
    raise_if (session.kind != SessionKind.admin || is_set session.revoked_at)
        AuthError.invalid_credentials
    raise_if (leb session.access_expires_at (w.now_utc 0)) AuthError.invalid_credentials
    user ← ok_or (get session.user_id s.users_by_id) AuthError.invalid_credentials
    raise_if (user.account_kind != AccountKind.organization_admin) AuthError.admin_access_denied
    organization ← ok_or user.organization_id AuthError.admin_organization_required
    ok (user, organization)

  unfoldable pub authenticate_admin_access_token :
      Text → AuthService → Result AuthError AdminAuthenticatedSession
  authenticate_admin_access_token access_token s = do
    found ← admin_access access_token s
    ok (record { user = auth_user_dto found.0; organization_id = found.1 })
