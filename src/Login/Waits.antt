-- ===== src/Login/Waits.antt =====
-- The wait that a recorded failure reports, and the checks that follow
-- (crates/cloudledger-server/src/login_protection.rs).
use cloud_ledger.Base.{
  ℕ, ◌+◌, ◌≤◌, ◌<◌, ◌≡◌, ◌≢◌, ◌⊎◌, inl, inr, refl, Option, none, some, arith, Text, PartialEq,
  nat_eq, leb, ltb, eq_refl, Bool-cases, Option-cases,
}
use cloud_ledger.Base.Exec.{ok}
use cloud_ledger.Base.Table.{Table, get-put}
use cloud_ledger.Login.State.{
  Instant, Duration, Platform, count_failure, saturating_add_u32, reset, FailureState,
  active_retry_after, record_failure_state, max_duration,
}
use cloud_ledger.Login.Protection.{
  IpAddr, LoginSurface, key_eq, LoginProtection, failure_at, state_at, login_key, prune, make_room,
  check_at, record_failure_at,
}
use cloud_ledger.Login.Bounds.{AreSmall, fails, after_login, after_login-AreSmall}
use cloud_ledger.Login.Lockout.{Blocked, check_at_iff}

module _ (p : Platform) (now window lockout : ℕ) (limit : ℕ) where
  -- The state is blocked for exactly the wait, if there is one.
  abbrev Agree : Option Duration × FailureState → Type 0
  Agree (retry, state) =
      ((retry ≡ none) × (state.blocked_until ≡ none))
      ⊎ ((d : Duration) × (retry ≡ some d)
          × (now + d ≤ p.last_instant → state.blocked_until ≡ some (now + d)))

  count_failure-Agree :
      (state : FailureState)
      → state.blocked_until ≡ none
      → Agree (count_failure p state now lockout limit)
  count_failure-Agree state free =
      elim (Bool-cases (leb limit (saturating_add_u32 state.failures 1))) [
        | inl full ↦ inr (lockout, ground arith, ground arith)
        | inr fits ↦ inl (ground arith, ground arith)
      ]

  active_retry_after-free :
      (state : FailureState)
      → (active_retry_after state now window).0 ≡ none
      → (active_retry_after state now window).1.blocked_until ≡ none
  unfolding active_retry_after reset
  active_retry_after-free state h = elim (Option-cases state.blocked_until) [
    | inl free ↦ ground arith
    | inr (until, e) ↦ elim (Bool-cases (ltb now until)) [
      | inl early ↦ absurd (ground arith)
      | inr late ↦ ground arith
    ]
  ]

  active_retry_after-waits :
      (state : FailureState) (d : Duration)
      → (active_retry_after state now window).0 ≡ some d
      → (active_retry_after state now window).1.blocked_until ≡ some (now + d)
  unfolding active_retry_after
  active_retry_after-waits state d h = elim (Option-cases state.blocked_until) [
    | inl free ↦ absurd (ground arith)
    | inr (until, e) ↦ elim (Bool-cases (ltb now until)) [
      | inl early ↦ ground arith
      | inr late ↦ absurd (ground arith)
    ]
  ]

  record_failure_state-Agree :
      (state : FailureState) → Agree (record_failure_state p state now window lockout limit)
  unfolding record_failure_state
  record_failure_state-Agree state = elim (Option-cases (active_retry_after state now window).0) [
    | inl open_still ↦
        rw (record_failure_state, open_still)
          (count_failure-Agree (active_retry_after state now window).1
            (active_retry_after-free state open_still))
    | inr (d, e) ↦
        rw (record_failure_state, e) (inr (d, refl, λ in_time. active_retry_after-waits state d e))
  ]

  module _ {K : Type 0} ⦃e : PartialEq K⦄ (key : K) (table : Table K FailureState) where
    -- A wait keeps the key blocked until it is over.
    failure_at-Blocked :
        (later : Instant) (d : Duration)
        → (failure_at p key now window lockout limit table).0 ≡ some d
        → now + d ≤ p.last_instant
        → later < now + d
        → Blocked key later (failure_at p key now window lockout limit table).1
    failure_at-Blocked later d h in_time early =
        let made = record_failure_state p (state_at key now table) now window lockout limit in
        elim (record_failure_state-Agree (state_at key now table)) [
          | inl (e1, free) ↦ absurd (ground arith)
          | inr (d', e1, waits) ↦ (
            made.1,
            now + d,
            ground (arith, get-put key key made.1 table, eq_refl key),
            ground arith,
            early,
          )
        ]

max_duration-cases :
    (a b : Option Duration) (d : Duration) → max_duration a b ≡ some d → (a ≡ some d) ⊎ (b ≡ some d)
unfolding max_duration
max_duration-cases none b d h = inr h
max_duration-cases (some x) none d h = inl h
max_duration-cases (some x) (some y) d h = ground arith

-- When no table has a key twice: if a recorded failure reports a wait that ends within the
-- platform's time, then a check of the same login that is made next, and before the wait is over, is
-- refused.
pub record_failure_at-waits :
    (p : Platform) (to_lowercase : Text → Text) (ip : IpAddr) (surface : LoginSurface)
    (identifier : Text) (now later : Instant) (s : LoginProtection) (d : Duration)
    → AreSmall s
    → (record_failure_at p to_lowercase ip surface identifier now s).0 ≡ some d
    → now + d ≤ p.last_instant
    → later < now + d
    → (check_at p to_lowercase ip surface identifier later
        (record_failure_at p to_lowercase ip surface identifier now s).1).0
      ≢ ok tt
unfolding record_failure_at after_login
record_failure_at-waits p to_lowercase ip surface identifier now later s d small reported in_time
      early accepted =
    let key = login_key to_lowercase ip surface identifier in
    let c = s.config in
    let logins = make_room (prune p to_lowercase now s).failures_by_login in
    let ips = make_room (prune p to_lowercase now s).failures_by_ip in
    let after = (record_failure_at p to_lowercase ip surface identifier now s).1 in
    let after_small =
      after_login-AreSmall p to_lowercase (fails ip surface identifier now) s small in
    let open_still =
      (check_at_iff p to_lowercase ip surface identifier later after after_small).0 accepted in
    elim (max_duration-cases _ _ d reported) [
      | inl by_key ↦ open_still.0 (
          failure_at-Blocked p now c.window c.lockout c.max_failures_per_login key logins later d
            by_key in_time early)
      | inr by_ip ↦ open_still.1 (
          failure_at-Blocked p now c.window c.lockout c.max_failures_per_ip ip ips later d by_ip
            in_time early)
    ]
