-- ===== src/Auth/Steps.antt =====
-- What the methods of crates/cloudledger-server/src/auth.rs do to the sessions, as a step relation: a
-- method drops, revokes and rotates sessions, and opens at most one with the tokens that it draws.
use cloud_ledger.Base.{
  ◌≡◌, refl, inl, inr, Bool, List, [], ◌∷◌, Text, text_eq, nat_eq, Bool-cases, Option-cases,
}
use cloud_ledger.Base.Exec.{Result-cases}
use cloud_ledger.Base.Table.{get, put}
use cloud_ledger.Types.{Uuid, OffsetDateTime}
use cloud_ledger.Auth.State.{Crypto, Draws, SessionKind, StoredSession, AuthService, token_digest}
use cloud_ledger.Auth.Sessions.{
  with_sessions, drop_session, drop_sessions, expired_access_tokens, prune_expired_sessions,
  revoke_where, revoke_user_sessions, revoke_installation_sessions, revoke_family, new_session,
  add_session, issue_session, new_admin_session, admin_user, issue_admin_session, RefreshInput,
  is_closed, refresh_lookup, rotation_checks, rotate, refresh_session, refresh_for_client,
}

-- The digests of the tokens that may be given out.
module _ (access refresh : Text) where
  pub data Step : AuthService → AuthService → Type 0 where
    keeps :
        (s t : AuthService)
        → t.sessions_by_access_token ≡ s.sessions_by_access_token
        → t.access_tokens_by_refresh_token ≡ s.access_tokens_by_refresh_token
        → Step s t
    drops : (token : Text) (s : AuthService) → Step s (drop_session token s)
    revokes :
        (test : StoredSession → Bool) (now : OffsetDateTime) (s : AuthService)
        → Step s (revoke_where test now s)
    rotates : (now : OffsetDateTime) (token : Text) (s : AuthService) → Step s (rotate now token s)
    opens :
        (x : StoredSession) (s : AuthService)
        → x.access_token ≡ access
        → x.refresh_token ≡ refresh
        → Step s (add_session x s)
    opens_admin :
        (x : StoredSession) (s : AuthService)
        → x.access_token ≡ access
        → Step s (with_sessions (put x.access_token x s.sessions_by_access_token) s)

  pub data Steps (s : AuthService) : AuthService → Type 0 where
    here : Steps s s
    next : {t u : AuthService} → Steps s t → Step t u → Steps s u

  pub joined : {s t u : AuthService} → Steps s t → Steps t u → Steps s u
  joined before here = before
  joined before (next later step) = next (joined before later) step

  pub one : {s t : AuthService} → Step s t → Steps s t
  one step = next here step

  pub prune-Steps : (tokens : List Text) (s : AuthService) → Steps s (drop_sessions tokens s)
  prune-Steps [] s = here
  prune-Steps (token ∷ tokens) s =
      joined (one (drops token s)) (prune-Steps tokens (drop_session token s))

  pub revoke_user_sessions-Steps :
      (now : OffsetDateTime) (user : Uuid) (s : AuthService)
      → Steps s (revoke_user_sessions now user s)
  unfolding revoke_user_sessions
  revoke_user_sessions-Steps now user s = next (one (revokes _ now s)) (keeps _ _ refl refl)

  pub revoke_installation_sessions-Steps :
      (now : OffsetDateTime) (x : StoredSession) (s : AuthService)
      → Steps s (revoke_installation_sessions now x s)
  unfolding revoke_installation_sessions
  revoke_installation_sessions-Steps now x s = next (one (revokes _ now s)) (keeps _ _ refl refl)

module _ (crypto : Crypto) (w : Draws) where
  abbrev pub Run : AuthService → AuthService → Type 0
  Run = Steps (token_digest crypto (w.random_token 3)) (token_digest crypto (w.random_token 4))

  pub unchanged :
      (s t : AuthService)
      → t.sessions_by_access_token ≡ s.sessions_by_access_token
      → t.access_tokens_by_refresh_token ≡ s.access_tokens_by_refresh_token
      → Run s t
  unchanged s t e1 e2 = one _ _ (keeps s t e1 e2)

  pub issue_session-Run :
      (user : Uuid) (installation_id : Text) (family : Uuid) (kind : SessionKind) (s : AuthService)
      → Run s (issue_session crypto w 3 user installation_id family kind s).1
  unfolding issue_session prune_expired_sessions
  issue_session-Run user installation_id family kind s =
      let tokens = expired_access_tokens (w.round_now_utc 3) s.sessions_by_access_token in
      let pruned = prune-Steps _ _ tokens s in
      elim (Option-cases (get user (drop_sessions tokens s).users_by_id)) [
        | inl missing ↦ rw missing pruned
        | inr (found, e) ↦ rw e (
            next pruned
              (opens (new_session crypto w 3 user installation_id family kind) _ refl refl))
      ]

  pub issue_admin_session-Run :
      (user : Uuid) (s : AuthService) → Run s (issue_admin_session crypto w 3 user s).1
  unfolding issue_admin_session prune_expired_sessions
  issue_admin_session-Run user s =
      let tokens = expired_access_tokens (w.round_now_utc 3) s.sessions_by_access_token in
      let pruned = prune-Steps _ _ tokens s in
      elim (Result-cases (admin_user crypto w 3 user (drop_sessions tokens s))) [
        | inl (found, e) ↦
            rw e (next pruned (opens_admin (new_admin_session crypto w 3 user) _ refl))
        | inr (x, e) ↦ rw e pruned
      ]

  pub refresh-Run :
      (input : RefreshInput) (kind : SessionKind) (s : AuthService)
      → Run s (refresh_for_client crypto w input kind s).1
  unfolding refresh_for_client refresh_session revoke_family
  refresh-Run input kind s = elim (Result-cases (refresh_lookup crypto w input kind s)) [
    | inr (x, e) ↦ rw (refresh_for_client, e) here
    | inl ((installation_id, access_token, session), e) ↦ elim (Bool-cases (is_closed session)) [
      | inl closed ↦ rw (refresh_for_client, e, refresh_session, closed) (one _ _ (revokes _ _ s))
      | inr fresh ↦ elim (Result-cases (rotation_checks crypto w installation_id session)) [
        | inr (x, failed) ↦ rw (refresh_for_client, e, refresh_session, fresh, failed) here
        | inl (u, fine) ↦
            rw (refresh_for_client, e, refresh_session, fresh, fine)
              (joined _ _ (one _ _ (rotates (w.now_utc 2) access_token s))
                (issue_session-Run session.user_id installation_id session.family_id kind _))
      ]
    ]
  ]
