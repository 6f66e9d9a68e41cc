-- ===== src/Auth/Closed.antt =====
-- A token of crates/cloudledger-server/src/auth.rs that leads to no session in force stays so.
use cloud_ledger.Base.{
  ◌≡◌, ◌≢◌, sym, subst, inl, inr, ap, ◌∙◌, Bool, true, some, arith, Text, text_eq, nat_eq, ◌==◌,
  eq_iff, Bool-cases, Option-cases,
}
use cloud_ledger.Base.Table.{
  get, IsDistinct, put-IsDistinct, remove-IsDistinct, update_all-IsDistinct, get-put, get-remove,
  get-update_all,
}
use cloud_ledger.Types.{OffsetDateTime}
use cloud_ledger.Auth.State.{StoredSession, AuthService}
use cloud_ledger.Auth.Sessions.{drop_session, revoke_if, rotate}
use cloud_ledger.Auth.Steps.{Step, keeps, drops, revokes, rotates, opens, opens_admin}

-- No token stands twice.
pub record IsTidy (s : AuthService) : Type 0 where
  pub sessions : IsDistinct s.sessions_by_access_token
  pub index : IsDistinct s.access_tokens_by_refresh_token

-- The token leads to no session but shut ones.
abbrev pub Shut : (StoredSession → Bool) → Text → AuthService → Type 0
Shut shut token s =
    (x : StoredSession) → get token s.sessions_by_access_token ≡ some x → shut x ≡ true

module _ (access refresh : Text) where
  pub Step-IsTidy : {s t : AuthService} → Step access refresh s t → IsTidy s → IsTidy t
  Step-IsTidy (keeps s t e1 e2) h = record {
    sessions = subst IsDistinct (sym e1) h.sessions;
    index = subst IsDistinct (sym e2) h.index;
  }
  Step-IsTidy (drops token s) h = elim (Option-cases (get token s.sessions_by_access_token)) [
    | inl missing ↦ rw (drop_session, missing) h
    | inr (x, e) ↦
        rw (drop_session, e)
          (record {
            sessions = remove-IsDistinct token s.sessions_by_access_token h.sessions;
            index = remove-IsDistinct x.refresh_token s.access_tokens_by_refresh_token h.index;
          })
  ]
  Step-IsTidy (revokes test now s) h = record {
    sessions = update_all-IsDistinct (revoke_if test now) s.sessions_by_access_token h.sessions;
    index = h.index;
  }
  Step-IsTidy (rotates now token s) h = elim (Option-cases (get token s.sessions_by_access_token)) [
    | inl missing ↦ rw (rotate, missing) h
    | inr (x, e) ↦
        rw (rotate, e)
          (record {
            sessions =
                put-IsDistinct token (record x { rotated_at = some now }) s.sessions_by_access_token
                  h.sessions;
            index = h.index;
          })
  ]
  Step-IsTidy (opens x s e1 e2) h = record {
    sessions = put-IsDistinct x.access_token x s.sessions_by_access_token h.sessions;
    index = put-IsDistinct x.refresh_token x.access_token s.access_tokens_by_refresh_token h.index;
  }
  Step-IsTidy (opens_admin x s e) h = record {
    sessions = put-IsDistinct x.access_token x s.sessions_by_access_token h.sessions;
    index = h.index;
  }

  module _ (shut : StoredSession → Bool)
      (still_revoked : (x : StoredSession) (now : OffsetDateTime)
        → shut x ≡ true
        → shut (record x { revoked_at = some now }) ≡ true)
      (still_rotated : (x : StoredSession) (now : OffsetDateTime)
        → shut x ≡ true
        → shut (record x { rotated_at = some now }) ≡ true)
      (token : Text) where
    pub Step-Shut :
        {s t : AuthService}
        → token ≢ access
        → Step access refresh s t
        → IsTidy s
        → Shut shut token s
        → Shut shut token t
    Step-Shut other (keeps s t e1 e2) tidy h x e = h x (ap (λ table. get token table) (sym e1) ∙ e)
    Step-Shut other (drops key s) tidy h x e =
        elim (Option-cases (get key s.sessions_by_access_token)) [
          | inl missing ↦ h x (ground arith)
          | inr (y, found) ↦
              h x (ground (arith, get-remove key token s.sessions_by_access_token tidy.sessions))
        ]
    Step-Shut other (revokes test now s) tidy h x e =
        elim (Option-cases (get token s.sessions_by_access_token)) [
          | inl missing ↦
              absurd (
                ground
                  (arith, get-update_all (revoke_if test now) token s.sessions_by_access_token))
          | inr (y, found) ↦ ground (
            arith,
            h y found,
            still_revoked y now (h y found),
            get-update_all (revoke_if test now) token s.sessions_by_access_token,
          )
        ]
    Step-Shut other (rotates now key s) tidy h x e =
        elim (Option-cases (get key s.sessions_by_access_token)) [
          | inl missing ↦ h x (ground arith)
          | inr (y, found) ↦
              let law =
                get-put key token (record y { rotated_at = some now }) s.sessions_by_access_token in
              elim (Bool-cases (key == token)) [
                | inl same ↦
                    let there = (eq_iff key token).0 same in
                    let fine = h y (
                      subst (λ (k : Text). get k s.sessions_by_access_token ≡ some y) there
                        found) in
                    ground (arith, still_rotated y now fine)
                | inr different ↦ h x (ground arith)
              ]
        ]
    Step-Shut other (opens y s e1 e2) tidy h x e = h x (
        ground (
          arith,
          get-put y.access_token token y s.sessions_by_access_token,
          eq_iff y.access_token token,
        ))
    Step-Shut other (opens_admin y s e1) tidy h x e = h x (
        ground (
          arith,
          get-put y.access_token token y s.sessions_by_access_token,
          eq_iff y.access_token token,
        ))
