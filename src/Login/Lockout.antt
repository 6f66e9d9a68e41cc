-- ===== src/Login/Lockout.antt =====
-- When a login is refused (crates/cloudledger-server/src/login_protection.rs), and that cleaning up
-- lifts no lockout.
use cloud_ledger.Base.{
  ℕ, ◌<◌, ◌≡◌, ◌≢◌, ◌↔◌, inl, inr, refl, Option, none, some, arith, Text, PartialEq, nat_eq, ltb,
  Bool-cases, Option-cases,
}
use cloud_ledger.Base.Exec.{ok}
use cloud_ledger.Base.Table.{Table, get, retain, IsDistinct, get-retain}
use cloud_ledger.Login.State.{
  Instant, Duration, Platform, FailureState, active_retry_after, max_duration, saturating_add,
}
use cloud_ledger.Login.Protection.{
  IpAddr, LoginSurface, key_eq, LoginProtection, is_kept, retry_at, answer, login_key, prune,
  check_at,
}
use cloud_ledger.Login.Bounds.{AreSmall}

-- The table blocks the key at this time.
abbrev pub Blocked : {K : Type 0} ⦃e : PartialEq K⦄ → K → Instant → Table K FailureState → Type 0
Blocked key now table =
    (state : FailureState) × (until : Instant) × (get key table ≡ some state)
    × (state.blocked_until ≡ some until)
    × (now < until)

module _ {K : Type 0} ⦃e : PartialEq K⦄ where
  -- Cleaning up lifts no lockout, and makes none.
  retain-Blocked :
      (key : K) (now retention : ℕ) (table : Table K FailureState)
      → IsDistinct table
      → Blocked key now (retain (is_kept now retention) table) ↔ Blocked key now table
  retain-Blocked key now retention table distinct = (
    λ (state, until, e1, e2, lt). (
      state,
      until,
      ground (arith, get-retain (is_kept now retention) key table distinct),
      e2,
      lt,
    ),
    λ (state, until, e1, e2, lt). (
      state,
      until,
      ground (arith, get-retain (is_kept now retention) key table distinct),
      e2,
      lt,
    ),
  )

  retry_at-Blocked :
      (key : K) (now window : ℕ) (table : Table K FailureState)
      → ((retry_at key now window table).0 ≢ none) ↔ Blocked key now table
  unfolding active_retry_after
  retry_at-Blocked key now window table = elim (Option-cases (get key table)) [
    | inl missing ↦ (
      λ some_retry. absurd (some_retry (ground arith)),
      λ (state, until, e1, e2, lt). absurd (ground arith),
    )
    | inr (state, found) ↦ elim (Option-cases state.blocked_until) [
      | inl free ↦ (
        λ some_retry. absurd (some_retry (ground arith)),
        λ (other, until, e1, e2, lt). absurd (ground arith),
      )
      | inr (until, e2) ↦ elim (Bool-cases (ltb now until)) [
        | inl early ↦
            (λ some_retry. (state, until, found, e2, ground arith), λ blocked is_none. ground arith)
        | inr late ↦ (
          λ some_retry. absurd (some_retry (ground arith)),
          λ (other, until', e1, e3, lt). absurd (ground arith),
        )
      ]
    ]
  ]

  -- After cleaning up there is nothing to wait for exactly when the key was not blocked before.
  not-Blocked :
      (key : K) (now window retention : ℕ) (table : Table K FailureState)
      → IsDistinct table
      → ((retry_at key now window (retain (is_kept now retention) table)).0 ≡ none)
        ↔ (¬ Blocked key now table)
  not-Blocked key now window retention table distinct =
      let kept = retain (is_kept now retention) table in
      let waits = retry_at-Blocked key now window kept in
      let cleaned = retain-Blocked key now retention table distinct in
      (
        λ e blocked. waits.1 (cleaned.1 blocked) e,
        λ free. elim (Option-cases (retry_at key now window kept).0) [
          | inl nothing ↦ nothing
          | inr (d, e) ↦ absurd (free (cleaned.0 (waits.0 (λ n. ground arith))))
        ],
      )

max_duration-none : (a b : Option Duration) → (max_duration a b ≡ none) ↔ ((a ≡ none) × (b ≡ none))
unfolding max_duration
max_duration-none none b = (λ e. (refl, e), λ (e1, e2). e2)
max_duration-none (some x) none = (λ e. absurd (ground arith), λ (e1, e2). absurd (ground arith))
max_duration-none (some x) (some y) =
    (λ e. absurd (ground arith), λ (e1, e2). absurd (ground arith))

answer-ok : (retry : Option Duration) → (answer retry ≡ ok tt) ↔ (retry ≡ none)
answer-ok none = (λ e. refl, λ e. refl)
answer-ok (some x) = (λ e. absurd (ground arith), λ e. absurd (ground arith))

-- When no table has a key twice, the check lets a login through exactly when at this moment neither
-- its surface and identifier at this address nor the address itself is locked out; what it cleans
-- up beforehand makes no difference.
pub check_at_iff :
    (p : Platform) (to_lowercase : Text → Text) (ip : IpAddr) (surface : LoginSurface)
    (identifier : Text) (now : Instant) (s : LoginProtection)
    → AreSmall s
    → ((check_at p to_lowercase ip surface identifier now s).0 ≡ ok tt) ↔ (
        ¬ Blocked (login_key to_lowercase ip surface identifier) now s.failures_by_login
        × ¬ Blocked ip now s.failures_by_ip)
unfolding check_at prune
check_at_iff p to_lowercase ip surface identifier now s small =
    let key = login_key to_lowercase ip surface identifier in
    let window = s.config.window in
    let retention = saturating_add p s.config.window s.config.lockout in
    let logins = retain (is_kept now retention) s.failures_by_login in
    let ips = retain (is_kept now retention) s.failures_by_ip in
    let login_retry = (retry_at key now window logins).0 in
    let ip_retry = (retry_at ip now window ips).0 in
    let passes = answer-ok (max_duration login_retry ip_retry) in
    let both = max_duration-none login_retry ip_retry in
    let login = not-Blocked key now window retention s.failures_by_login small.by_login.distinct in
    let address = not-Blocked ip now window retention s.failures_by_ip small.by_ip.distinct in
    (
      λ e. (login.0 (both.0 (passes.0 e)).0, address.0 (both.0 (passes.0 e)).1),
      λ (free, free_ip). passes.1 (both.1 (login.1 free, address.1 free_ip)),
    )
