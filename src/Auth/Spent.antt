-- ===== src/Auth/Spent.antt =====
-- Tokens of crates/cloudledger-server/src/auth.rs over sessions of calls: a revoked one is never
-- accepted again, and a refresh token is accepted once.
use cloud_ledger.Base.{
  ◌≡◌, ◌≢◌, refl, inl, inr, Bool, true, some, List, [], ◌∷◌, arith, Text, text_eq, nat_eq,
  Option-cases, All,
}
use cloud_ledger.Base.Exec.{ok}
use cloud_ledger.Base.Table.{get}
use cloud_ledger.Types.{OffsetDateTime}
use cloud_ledger.Auth.State.{
  Crypto, Draws, account_eq, session_eq, StoredSession, AuthService, AuthenticatedSession,
  AdminAuthenticatedSession, token_digest, bearer_digest,
}
use cloud_ledger.Auth.Sessions.{
  is_set, app_session, admin_access, authenticate_access_token, authenticate_admin_access_token,
}
use cloud_ledger.Auth.Command.{AuthCall, after_auth, after_auths}
use cloud_ledger.Auth.Steps.{Steps, here, next}
use cloud_ledger.Auth.Calls.{after_auth-Run}
use cloud_ledger.Auth.Closed.{IsTidy, Step-IsTidy, Shut, Step-Shut}

module _ (access refresh : Text) where
  pub Steps-IsTidy : {s t : AuthService} → Steps access refresh s t → IsTidy s → IsTidy t
  Steps-IsTidy here h = h
  Steps-IsTidy (next steps step) h = Step-IsTidy access refresh step (Steps-IsTidy steps h)

  module _ (shut : StoredSession → Bool)
      (still_revoked : (x : StoredSession) (now : OffsetDateTime)
        → shut x ≡ true
        → shut (record x { revoked_at = some now }) ≡ true)
      (still_rotated : (x : StoredSession) (now : OffsetDateTime)
        → shut x ≡ true
        → shut (record x { rotated_at = some now }) ≡ true)
      (token : Text) where
    pub Steps-Shut :
        {s t : AuthService}
        → token ≢ access
        → Steps access refresh s t
        → IsTidy s
        → Shut shut token s
        → Shut shut token t
    Steps-Shut other here tidy h = h
    Steps-Shut other (next steps step) tidy h =
        Step-Shut access refresh shut still_revoked still_rotated token other step
          (Steps-IsTidy steps tidy) (Steps-Shut other steps tidy h)

abbrev is_revoked : StoredSession → Bool
is_revoked x = is_set x.revoked_at

module _ (crypto : Crypto) where
  -- No call gives out this access token.
  abbrev pub IsNew : Text → List (Draws × AuthCall) → Type 0
  IsNew token cs = All (λ c. token ≢ token_digest crypto (c.0.random_token 3)) cs

  after_auths-IsTidy :
      (cs : List (Draws × AuthCall)) (s : AuthService) → IsTidy s → IsTidy (after_auths crypto cs s)
  unfolding after_auths
  after_auths-IsTidy [] s h = h
  after_auths-IsTidy ((w, c) ∷ cs) s h =
      after_auths-IsTidy cs (after_auth crypto w c s)
        (Steps-IsTidy _ _ (after_auth-Run crypto w c s) h)

  after_auths-Shut :
      (token : Text) (cs : List (Draws × AuthCall)) (s : AuthService)
      → IsNew token cs
      → IsTidy s
      → Shut is_revoked token s
      → Shut is_revoked token (after_auths crypto cs s)
  unfolding after_auths
  after_auths-Shut token [] s new tidy h = h
  after_auths-Shut token ((w, c) ∷ cs) s new tidy h =
      let run = after_auth-Run crypto w c s in
      after_auths-Shut token cs (after_auth crypto w c s) new.1 (Steps-IsTidy _ _ run tidy)
        (Steps-Shut _ _ is_revoked (λ x now e. refl) (λ x now e. e) token new.0 run tidy h)

  app_refused :
      (w : Draws) (value : Text) (s : AuthService) (answer : AuthenticatedSession)
      → Shut is_revoked (bearer_digest crypto value) s
      → authenticate_access_token crypto w value s ≢ ok answer
  unfolding authenticate_access_token app_session
  app_refused w value s answer h e =
      elim (Option-cases (get (bearer_digest crypto value) s.sessions_by_access_token)) [
        | inl missing ↦ ground arith
        | inr (x, found) ↦ ground (arith, h x found)
      ]

  admin_refused :
      (w : Draws) (value : Text) (s : AuthService) (answer : AdminAuthenticatedSession)
      → Shut is_revoked (bearer_digest crypto value) s
      → authenticate_admin_access_token crypto w value s ≢ ok answer
  unfolding authenticate_admin_access_token admin_access
  admin_refused w value s answer h e =
      elim (Option-cases (get (bearer_digest crypto value) s.sessions_by_access_token)) [
        | inl missing ↦ ground arith
        | inr (x, found) ↦ ground (arith, h x found)
      ]

  -- A token that leads to no session, or to a revoked one, is accepted by neither the app nor the
  -- administration after any further calls in which it is not given out anew.
  pub revoked_token_refused :
      (value : Text) (cs : List (Draws × AuthCall)) (s : AuthService) (w : Draws)
      → IsTidy s
      → IsNew (bearer_digest crypto value) cs
      → Shut is_revoked (bearer_digest crypto value) s
      → ((answer : AuthenticatedSession)
          → authenticate_access_token crypto w value (after_auths crypto cs s) ≢ ok answer)
        × ((answer : AdminAuthenticatedSession)
            → authenticate_admin_access_token crypto w value (after_auths crypto cs s) ≢ ok answer)
  revoked_token_refused value cs s w tidy new h =
      let still = after_auths-Shut (bearer_digest crypto value) cs s new tidy h in
      (
        λ answer. app_refused w value (after_auths crypto cs s) answer still,
        λ answer. admin_refused w value (after_auths crypto cs s) answer still,
      )
