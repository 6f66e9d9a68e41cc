-- ===== src/Auth/Access.antt =====
-- When crates/cloudledger-server/src/auth.rs accepts an access token, and what ends all the sessions of
-- a user or of a family.
use cloud_ledger.Base.{
  ◌<◌, ◌≡◌, ◌≢◌, ◌↔◌, inl, inr, true, none, some, arith, Text, text_eq, nat_eq, ◌==◌, eq_iff,
  eq_refl, Option-cases,
}
use cloud_ledger.Base.Exec.{ok, Result-cases}
use cloud_ledger.Base.Table.{get, put, get-put, get-update_all}
use cloud_ledger.Types.{Uuid, OffsetDateTime}
use cloud_ledger.Auth.State.{
  Crypto, Draws, AccountKind, account_eq, SessionKind, session_eq, StoredUser, StoredSession,
  AuthService, AuthUserDto, auth_user_dto, AuthenticatedSession, validate_new_password,
  bearer_digest,
}
use cloud_ledger.Auth.Sessions.{
  is_set, revoke_if, revoke_user_sessions, app_session, authenticate_access_token,
}
use cloud_ledger.Auth.Passwords.{reset_checks, reset_organization_admin_password}

-- The session and the user that a token of the app is good for.
abbrev pub Opens : Crypto → OffsetDateTime → Text → AuthService → AuthenticatedSession → Type 0
Opens crypto now value s answer =
    (x : StoredSession) × (user : StoredUser) × (get (bearer_digest crypto value)
        s.sessions_by_access_token
      ≡ some x)
    × (x.kind ≢ SessionKind.admin)
    × (x.rotated_at ≡ none)
    × (x.revoked_at ≡ none)
    × (now < x.access_expires_at)
    × (get x.user_id s.users_by_id ≡ some user)
    × (user.account_kind ≡ AccountKind.business)
    × (answer ≡ record { user = auth_user_dto user; installation_id = x.installation_id })

module _ (crypto : Crypto) (w : Draws) where
  -- A token is accepted for the app exactly if it leads to a session of the app or of the web that is
  -- neither rotated nor revoked and whose token has not run out, of a user with a business account;
  -- the answer is that user and the installation of the session.
  pub authenticate_access_token_iff :
      (value : Text) (s : AuthService) (answer : AuthenticatedSession)
      → (authenticate_access_token crypto w value s ≡ ok answer)
        ↔ Opens crypto (w.now_utc 0) value s answer
  unfolding authenticate_access_token app_session
  authenticate_access_token_iff value s answer = (
    λ e. elim (Option-cases (get (bearer_digest crypto value) s.sessions_by_access_token)) [
      | inl missing ↦ absurd (ground arith)
      | inr (x, found) ↦ elim (Option-cases (get x.user_id s.users_by_id)) [
        | inl gone ↦ absurd (ground arith)
        | inr (user, there) ↦ (
          x,
          user,
          found,
          λ kind. ground arith,
          ground arith,
          ground arith,
          ground arith,
          there,
          ground arith,
          ground arith,
        )
      ]
    ],
    λ (x, user, found, kind, rotated, revoked, early, there, business, e). ground arith,
  )

-- Every session of the user is revoked.
abbrev pub AllRevoked : Uuid → AuthService → Type 0
AllRevoked user s =
    (token : Text) (x : StoredSession)
    → get token s.sessions_by_access_token ≡ some x
    → x.user_id ≡ user
    → is_set x.revoked_at ≡ true

revoke_user_sessions-AllRevoked :
    (now : OffsetDateTime) (user : Uuid) (s : AuthService)
    → AllRevoked user (revoke_user_sessions now user s)
unfolding revoke_user_sessions
revoke_user_sessions-AllRevoked now user s token x e mine =
    elim (Option-cases (get token s.sessions_by_access_token)) [
      | inl missing ↦ absurd (
          ground (
            arith,
            get-update_all (revoke_if (λ session. session.user_id == user) now) token
                s.sessions_by_access_token,
          ))
      | inr (y, found) ↦ ground (
        arith,
        get-update_all (revoke_if (λ session. session.user_id == user) now) token
            s.sessions_by_access_token,
        eq_iff y.user_id user,
      )
    ]

module _ (crypto : Crypto) (w : Draws) where
  validated : (value password : Text) → validate_new_password value ≡ ok password → password ≡ value
  unfolding validate_new_password
  validated value password e = ground arith

  reset_checks-ok :
      (id : Uuid) (new : Text) (s : AuthService) (user : StoredUser) (password_hash : Text)
      → reset_checks crypto w id new s ≡ ok (user, password_hash)
      → (get id s.users_by_id ≡ some user)
        × (user.account_kind ≡ AccountKind.organization_admin)
        × (user.organization_id ≢ none)
        × (w.hash_password 0 new ≡ some password_hash)
  unfolding reset_checks
  reset_checks-ok id new s user password_hash e = elim (Result-cases (validate_new_password new)) [
    | inr (failure, e1) ↦ absurd (ground arith)
    | inl (password, e1) ↦ elim (Option-cases (get id s.users_by_id)) [
      | inl missing ↦ absurd (ground arith)
      | inr (found, e2) ↦ elim (Option-cases (w.hash_password 0 password)) [
        | inl failed ↦ absurd (ground arith)
        | inr (hash, e3) ↦
            let same = validated new password e1 in
            (ground arith, ground arith, ground arith, ground arith)
      ]
    ]
  ]

  -- A reset of a password that succeeds is one of a stored user whose account is that of an
  -- organization administrator and who has an organization; it stores the hash of the new password,
  -- and revokes every session of that user.
  pub reset_organization_admin_password-AllRevoked :
      (id : Uuid) (new : Text) (s : AuthService) (dto : AuthUserDto)
      → (reset_organization_admin_password crypto w id new s).0 ≡ ok dto
      → (user : StoredUser) × (password_hash : Text) × (get id s.users_by_id ≡ some user)
        × (user.account_kind ≡ AccountKind.organization_admin)
        × (user.organization_id ≢ none)
        × (w.hash_password 0 new ≡ some password_hash)
        × (get id (reset_organization_admin_password crypto w id new s).1.users_by_id
            ≡ some (record user { password_hash = password_hash; updated_at = w.now_utc 1 }))
        × AllRevoked id (reset_organization_admin_password crypto w id new s).1
  unfolding reset_organization_admin_password revoke_user_sessions
  reset_organization_admin_password-AllRevoked id new s dto e =
      elim (Result-cases (reset_checks crypto w id new s)) [
        | inr (failure, e1) ↦ absurd (ground arith)
        | inl ((user, password_hash), e1) ↦
            let (found, kind, member, hashed) = reset_checks-ok id new s user password_hash e1 in
            let renewed = record user { password_hash = password_hash; updated_at = w.now_utc 1 } in
            (
              user,
              password_hash,
              found,
              kind,
              member,
              hashed,
              rw (reset_organization_admin_password, e1)
                  (ground (arith, get-put id id renewed s.users_by_id, eq_refl id)),
              rw (reset_organization_admin_password, e1)
                  (revoke_user_sessions-AllRevoked (w.now_utc 2) id
                    (record s { users_by_id = put id renewed s.users_by_id })),
            )
      ]
