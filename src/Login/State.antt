-- ===== src/Login/State.antt =====
-- The count of failures under one key (crates/cloudledger-server/src/login_protection.rs).
use cloud_ledger.Base.{ℕ, ◌+◌, ◌-◌, ◌/◌, ◌^◌, Option, none, some, max, ltb, leb, if◌then◌else◌}
use cloud_ledger.Auth.Error.{AuthError}

abbrev pub Instant : Type 0
Instant = ℕ

abbrev pub Duration : Type 0
Duration = ℕ

-- The platform: the last Instant that `checked_add` reaches, and the longest Duration.
pub record Platform : Type 0 where
  pub last_instant : Instant
  pub longest : Duration

pub record FailureState : Type 0 where
  pub failures : ℕ
  pub window_started : Instant
  pub blocked_until : Option Instant
  pub last_seen : Instant

-- `FailureState::new`
unfoldable pub new_state : Instant → FailureState
new_state now = record { failures = 0; window_started = now; blocked_until = none; last_seen = now }

-- `FailureState::reset`, of a state all of whose fields it sets.
unfoldable pub reset : Instant → FailureState
reset now = record { failures = 0; window_started = now; blocked_until = none; last_seen = now }

abbrev pub checked_add : Platform → Instant → Duration → Option Instant
checked_add p now d = if leb (now + d) p.last_instant then some (now + d) else none

abbrev pub saturating_add : Platform → Duration → Duration → Duration
saturating_add p a b = if leb (a + b) p.longest then a + b else p.longest

-- `saturating_add` of `u32`
abbrev pub saturating_add_u32 : ℕ → ℕ → ℕ
saturating_add_u32 a b = if leb (a + b) (2 ^ 32 - 1) then a + b else 2 ^ 32 - 1

abbrev pub retry_in :
    Option Instant → FailureState → Instant → Duration → Option Duration × FailureState
retry_in (some blocked_until) state now window =
    if ltb now blocked_until
    then (some (blocked_until - now), record state { last_seen = now })
    else (none, reset now)
retry_in none state now window = (
  none,
  if leb window (now - state.window_started) then reset now else record state { last_seen = now },
)

unfoldable pub active_retry_after :
    FailureState → Instant → Duration → Option Duration × FailureState
active_retry_after state now window = retry_in state.blocked_until state now window

-- A failure more, in a state that is not blocked.
abbrev pub count_failure :
    Platform → FailureState → Instant → Duration → ℕ → Option Duration × FailureState
count_failure p state now lockout limit =
    let failures = saturating_add_u32 state.failures 1 in
    let counted = record state { failures = failures; last_seen = now } in
    if leb limit failures
    then (some lockout, record counted { blocked_until = checked_add p now lockout })
    else (none, counted)

unfoldable pub record_failure_state :
    Platform → FailureState → Instant → Duration → Duration → ℕ → Option Duration × FailureState
record_failure_state p state now window lockout limit =
    let (retry, state') = active_retry_after state now window in
    elim retry [
      | some retry_after ↦ (some retry_after, state')
      | none ↦ count_failure p state' now lockout limit
    ]

unfoldable pub max_duration : Option Duration → Option Duration → Option Duration
max_duration (some left) (some right) = some (max left right)
max_duration (some value) none = some value
max_duration none other = other

-- `as_secs` of a Duration, and at least one second.
unfoldable pub rate_limit_error : Duration → AuthError
rate_limit_error retry_after = AuthError.login_rate_limited (max (retry_after / 1_000_000_000) 1)
