-- ===== src/Auth/Replay.antt =====
-- The answer of crates/cloudledger-server/src/auth.rs to a refresh token that has been used.
use cloud_ledger.Base.{
  ◌≡◌, inl, inr, true, some, arith, Text, text_eq, nat_eq, ◌==◌, eq_iff, Option-cases,
}
use cloud_ledger.Base.Exec.{ok, err}
use cloud_ledger.Base.Table.{get, get-update_all}
use cloud_ledger.Types.{Uuid, OffsetDateTime}
use cloud_ledger.Auth.Error.{AuthError}
use cloud_ledger.Auth.State.{Crypto, Draws, SessionKind, StoredSession, AuthService}
use cloud_ledger.Auth.Sessions.{
  is_set, is_closed, revoke_if, revoke_family, RefreshInput, refresh_lookup, refresh_session,
  refresh_for_client,
}

-- Every session of the family is revoked.
abbrev pub FamilyRevoked : Uuid → AuthService → Type 0
FamilyRevoked family s =
    (token : Text) (x : StoredSession)
    → get token s.sessions_by_access_token ≡ some x
    → x.family_id ≡ family
    → is_set x.revoked_at ≡ true

revoke_family-FamilyRevoked :
    (now : OffsetDateTime) (family : Uuid) (s : AuthService)
    → FamilyRevoked family (revoke_family now family s)
unfolding revoke_family
revoke_family-FamilyRevoked now family s token x e mine =
    let law =
      get-update_all (revoke_if (λ session. session.family_id == family) now) token
        s.sessions_by_access_token in
    elim (Option-cases (get token s.sessions_by_access_token)) [
      | inl missing ↦ absurd (ground arith)
      | inr (y, found) ↦ ground (arith, eq_iff y.family_id family)
    ]

-- A refresh with a token that leads to a session of the client's kind that is rotated or revoked is
-- answered by the error for a replay, and revokes every session of its family, the ones that came
-- from it later included.
pub refresh_for_client-FamilyRevoked :
    (crypto : Crypto) (w : Draws) (input : RefreshInput) (kind : SessionKind) (s : AuthService)
    (installation access : Text) (x : StoredSession)
    → refresh_lookup crypto w input kind s ≡ ok (installation, access, x)
    → is_closed x ≡ true
    → ((refresh_for_client crypto w input kind s).0 ≡ err AuthError.refresh_replay_detected)
      × FamilyRevoked x.family_id (refresh_for_client crypto w input kind s).1
unfolding refresh_for_client refresh_session
refresh_for_client-FamilyRevoked crypto w input kind s installation access x e closed = (
  ground arith,
  rw (refresh_for_client, e, refresh_session, closed)
      (revoke_family-FamilyRevoked (w.now_utc 0) x.family_id s),
)
