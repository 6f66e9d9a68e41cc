-- ===== src/Auth/Rotation.antt =====
-- A refresh token of crates/cloudledger-server/src/auth.rs is accepted once.
use cloud_ledger.Base.{
  ℕ, ◌≡◌, ◌≢◌, refl, sym, subst, inl, inr, ap, ◌∙◌, true, false, some, List, [], ◌∷◌, arith, Text,
  text_eq, nat_eq, trim, eq_iff, eq_refl, Bool-cases, Option-cases,
}
use cloud_ledger.Base.Exec.{ok, Result-cases}
use cloud_ledger.Base.Table.{get, get-put, get-remove}
use cloud_ledger.Auth.State.{
  Crypto, Draws, SessionKind, session_eq, StoredSession, AuthService, IssuedSession,
  normalize_installation_id, token_digest,
}
use cloud_ledger.Auth.Sessions.{
  is_closed, rotate, RefreshInput, refresh_lookup, rotation_checks, refresh_session,
  refresh_for_client, issue_session,
}
use cloud_ledger.Auth.Command.{AuthCall, refreshes, after_auth, after_auths}
use cloud_ledger.Auth.Steps.{
  Step, keeps, drops, revokes, rotates, opens, opens_admin, Steps, here, next, issue_session-Run,
}
use cloud_ledger.Auth.Calls.{after_auth-Run}
use cloud_ledger.Auth.Closed.{IsTidy, Step-IsTidy, Shut, Step-Shut}
use cloud_ledger.Auth.Spent.{Steps-IsTidy}

-- The refresh token leads to no session, or to a rotated or revoked one, and not to an access token
-- that is still to be given out.
pub record IsSpent (access token : Text) (s : AuthService) : Type 0 where
  pub shut : (a : Text) → get token s.access_tokens_by_refresh_token ≡ some a → Shut is_closed a s
  pub other : get token s.access_tokens_by_refresh_token ≢ some access

closed_still :
    (x : StoredSession) (now : ℕ)
    → is_closed x ≡ true
    → is_closed (record x { revoked_at = some now }) ≡ true
closed_still x now e = ground arith

module _ (access refresh token : Text) (new : token ≢ refresh) where
  -- The index of a step leads the token nowhere else.
  Step-index :
      {s t : AuthService} (a : Text)
      → Step access refresh s t
      → IsTidy s
      → get token t.access_tokens_by_refresh_token ≡ some a
      → get token s.access_tokens_by_refresh_token ≡ some a
  Step-index a (keeps s t e1 e2) tidy e = ap (λ table. get token table) (sym e2) ∙ e
  Step-index a (drops key s) tidy e = elim (Option-cases (get key s.sessions_by_access_token)) [
    | inl missing ↦ ground arith
    | inr (x, found) ↦
        ground (arith, get-remove x.refresh_token token s.access_tokens_by_refresh_token tidy.index)
  ]
  Step-index a (revokes test now s) tidy e = e
  Step-index a (rotates now key s) tidy e =
      elim (Option-cases (get key s.sessions_by_access_token)) [
        | inl missing ↦ ground arith
        | inr (x, found) ↦ ground arith
      ]
  Step-index a (opens x s e1 e2) tidy e = ground (
    arith,
    get-put x.refresh_token token x.access_token s.access_tokens_by_refresh_token,
    eq_iff x.refresh_token token,
  )
  Step-index a (opens_admin x s e1) tidy e = e

  Step-IsSpent :
      {s t : AuthService}
      → Step access refresh s t
      → IsTidy s
      → IsSpent access token s
      → IsSpent access token t
  Step-IsSpent step tidy h = record {
    shut = λ a e.
        let before = Step-index a step tidy e in
        Step-Shut access refresh is_closed closed_still (λ x now e. refl) a
          (λ same. h.other (before ∙ ap some same)) step tidy (h.shut a before);
    other = λ e. h.other (Step-index access step tidy e);
  }

  Steps-IsSpent :
      {s t : AuthService}
      → Steps access refresh s t
      → IsTidy s
      → IsSpent access token s
      → IsSpent access token t
  Steps-IsSpent here tidy h = h
  Steps-IsSpent (next steps step) tidy h =
      Step-IsSpent step (Steps-IsTidy access refresh steps tidy) (Steps-IsSpent steps tidy h)

module _ (crypto : Crypto) where
  -- No call gives out the refresh token again, or an access token that it leads to.
  abbrev pub AllNew : Text → List (Draws × AuthCall) → AuthService → Type 0
  AllNew token [] s = Unit
  AllNew token ((w, c) ∷ cs) s =
      (token ≢ token_digest crypto (w.random_token 4))
      × (get token s.access_tokens_by_refresh_token ≢ some (token_digest crypto (w.random_token 3)))
      × AllNew token cs (after_auth crypto w c s)

  abbrev IsUsed : Text → AuthService → Type 0
  IsUsed token s =
      (a : Text) → get token s.access_tokens_by_refresh_token ≡ some a → Shut is_closed a s

  after_auths-IsUsed :
      (token : Text) (cs : List (Draws × AuthCall)) (s : AuthService)
      → AllNew token cs s
      → IsTidy s
      → IsUsed token s
      → IsUsed token (after_auths crypto cs s)
  unfolding after_auths
  after_auths-IsUsed token [] s new tidy h = h
  after_auths-IsUsed token ((w, c) ∷ cs) s (new, unled, news) tidy h =
      let run = after_auth-Run crypto w c s in
      let spent = Steps-IsSpent _ _ token new run tidy (record { shut = h; other = unled }) in
      after_auths-IsUsed token cs (after_auth crypto w c s) news (Steps-IsTidy _ _ run tidy)
        spent.shut

  lookup-ok :
      (w : Draws) (input : RefreshInput) (kind : SessionKind) (s : AuthService)
      (installation access : Text) (x : StoredSession)
      → refresh_lookup crypto w input kind s ≡ ok (installation, access, x)
      → (get (token_digest crypto (trim input.refresh_token)) s.access_tokens_by_refresh_token
          ≡ some access)
        × (get access s.sessions_by_access_token ≡ some x)
  unfolding refresh_lookup
  lookup-ok w input kind s installation access x e =
      elim (Result-cases (normalize_installation_id input.installation_id)) [
        | inr (failure, e1) ↦ absurd (ground arith)
        | inl (i, e1) ↦
            elim (Option-cases (
              get (token_digest crypto (trim input.refresh_token))
                s.access_tokens_by_refresh_token)) [
                  | inl missing ↦ absurd (ground arith)
                  | inr (a, e2) ↦ elim (Option-cases (get a s.sessions_by_access_token)) [
                    | inl gone ↦ absurd (ground arith)
                    | inr (y, e3) ↦ ground arith
                  ]
                ]
      ]

  -- What a refresh that succeeds has found and done.
  refresh-ok :
      (w : Draws) (input : RefreshInput) (kind : SessionKind) (s : AuthService)
      (issued : IssuedSession)
      → (refresh_for_client crypto w input kind s).0 ≡ ok issued
      → (installation : Text) × (access : Text) × (x : StoredSession) × (get
            (token_digest crypto (trim input.refresh_token))
            s.access_tokens_by_refresh_token
          ≡ some access)
        × (get access s.sessions_by_access_token ≡ some x)
        × (is_closed x ≡ false)
        × (refresh_for_client crypto w input kind s
            ≡ issue_session crypto w 3 x.user_id installation x.family_id kind
                (rotate (w.now_utc 2) access s))
  unfolding refresh_for_client refresh_session
  refresh-ok w input kind s issued e = elim (Result-cases (refresh_lookup crypto w input kind s)) [
    | inr (failure, e1) ↦ absurd (ground arith)
    | inl ((installation, access, x), e1) ↦
        let (indexed, stored) = lookup-ok w input kind s installation access x e1 in
        elim (Bool-cases (is_closed x)) [
          | inl closed ↦ absurd (ground arith)
          | inr still ↦ elim (Result-cases (rotation_checks crypto w installation x)) [
            | inr (failure, e2) ↦ absurd (ground arith)
            | inl (u, e2) ↦ (installation, access, x, indexed, stored, still, ground arith)
          ]
        ]
  ]

  rotated-IsUsed :
      (token access : Text) (now : ℕ) (x : StoredSession) (s : AuthService)
      → get token s.access_tokens_by_refresh_token ≡ some access
      → get access s.sessions_by_access_token ≡ some x
      → IsUsed token (rotate now access s)
  rotated-IsUsed token access now x s indexed stored a e y there =
      let law = get-put access a (record x { rotated_at = some now }) s.sessions_by_access_token in
      ground (arith, eq_refl access)

  rotate-index :
      (access : Text) (now : ℕ) (s : AuthService)
      → (rotate now access s).access_tokens_by_refresh_token ≡ s.access_tokens_by_refresh_token
  rotate-index access now s = elim (Option-cases (get access s.sessions_by_access_token)) [
    | inl missing ↦ ground arith
    | inr (x, e) ↦ ground arith
  ]

  refresh-IsUsed :
      (w : Draws) (input : RefreshInput) (kind : SessionKind) (s : AuthService)
      (issued : IssuedSession)
      → IsTidy s
      → (refresh_for_client crypto w input kind s).0 ≡ ok issued
      → token_digest crypto (trim input.refresh_token) ≢ token_digest crypto (w.random_token 4)
      → get (token_digest crypto (trim input.refresh_token)) s.access_tokens_by_refresh_token
        ≢ some (token_digest crypto (w.random_token 3))
      → IsUsed
          (token_digest crypto (trim input.refresh_token))
          (refresh_for_client crypto w input kind s).1
  refresh-IsUsed w input kind s issued tidy success new unled =
      let token = token_digest crypto (trim input.refresh_token) in
      let (installation, access, x, indexed, stored, still, run) =
        refresh-ok w input kind s issued success in
      let now = w.now_utc 2 in
      let spent =
        Steps-IsSpent _ _ token new
          (issue_session-Run crypto w x.user_id installation x.family_id kind (rotate now access s))
          (Step-IsTidy [] [] (rotates now access s) tidy)
          (record {
            shut = rotated-IsUsed token access now x s indexed stored;
            other =
                λ e. unled (ap (λ table. get token table) (sym (rotate-index access now s)) ∙ e);
          }) in
      subst (IsUsed token) (sym (ap (λ r. r.1) run)) spent.shut

  -- After a refresh that has succeeded and any further calls, in which neither its refresh token nor an
  -- access token that this leads to is given out again, the same refresh token is refused: whoever
  -- comes second with it, at any time, gets no session.
  pub refresh_once :
      (w : Draws) (input : RefreshInput) (kind : SessionKind) (s : AuthService)
      (issued : IssuedSession) (cs : List (Draws × AuthCall))
      → IsTidy s
      → (refresh_for_client crypto w input kind s).0 ≡ ok issued
      → AllNew (token_digest crypto (trim input.refresh_token)) ((w, refreshes input kind) ∷ cs) s
      → (w' : Draws) (again : RefreshInput) (kind' : SessionKind) (issued' : IssuedSession)
      → trim again.refresh_token ≡ trim input.refresh_token
      → (refresh_for_client crypto w' again kind'
          (after_auths crypto ((w, refreshes input kind) ∷ cs) s)).0
        ≢ ok issued'
  unfolding after_auths after_auth
  refresh_once w input kind s issued cs tidy success (new, unled, news) w' again kind' issued' same
        e' =
      let token = token_digest crypto (trim input.refresh_token) in
      let after = (refresh_for_client crypto w input kind s).1 in
      let used = refresh-IsUsed w input kind s issued tidy success new unled in
      let tidy' = Steps-IsTidy _ _ (after_auth-Run crypto w (refreshes input kind) s) tidy in
      let (installation, access, x, indexed, stored, still, run) =
        refresh-ok w' again kind' (after_auths crypto cs after) issued' e' in
      let shut =
        after_auths-IsUsed token cs after news tidy' used access
          (subst
            (λ (t : Text).
              get (token_digest crypto t)
                (after_auths crypto cs after).access_tokens_by_refresh_token
              ≡ some access)
            same indexed)
          x stored in
      ground arith
