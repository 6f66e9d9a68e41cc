-- ===== src/Login/Protection.antt =====
-- `LoginProtection`, and the request limits of the memory backend
-- (crates/cloudledger-server/src/login_protection.rs). An IP address is a number: it is only compared.
use cloud_ledger.Base.{
  ℕ, ◌*◌, ◌≡◌, ◌↔◌, Bool, true, false, ◌&&◌, ◌||◌, Option, none, some, [], ◌∷◌, arith, Text, trim,
  text_eq, nat_eq, nat_beq, ◌==◌, eq_iff, PartialEq, if◌then◌else◌, length, ltb, leb, ◌-◌,
}
use cloud_ledger.Base.Exec.{Result, ok, err, Exec}
use cloud_ledger.Base.Table.{Table, get, put, remove, retain}
use cloud_ledger.Auth.Error.{AuthError}
use cloud_ledger.Login.State.{
  Instant, Duration, Platform, FailureState, new_state, saturating_add, active_retry_after,
  record_failure_state, max_duration, rate_limit_error,
}

abbrev pub max_tracked_keys : ℕ
max_tracked_keys = 10_000

abbrev pub IpAddr : Type 0
IpAddr = ℕ

pub data LoginSurface : Type 0 where
  business organization_admin platform admin_authorization : LoginSurface

abbrev pub surface_index : LoginSurface → ℕ
surface_index LoginSurface.business = 0
surface_index LoginSurface.organization_admin = 1
surface_index LoginSurface.platform = 2
surface_index LoginSurface.admin_authorization = 3

abbrev pub surface_beq : LoginSurface → LoginSurface → Bool
surface_beq a b = nat_beq (surface_index a) (surface_index b)

pub surface_beq_iff : (a b : LoginSurface) → (surface_beq a b ≡ true) ↔ (a ≡ b)
surface_beq_iff a b = ground arith

instance abbrev pub surface_eq : PartialEq LoginSurface
surface_eq = record { same = surface_beq; same_iff = surface_beq_iff }

pub record LoginKey : Type 0 where
  pub ip : IpAddr
  pub surface : LoginSurface
  pub identifier : Text

abbrev pub key_beq : LoginKey → LoginKey → Bool
key_beq a b = a.ip == b.ip && (a.surface == b.surface) && (a.identifier == b.identifier)

pub key_beq_iff : (a b : LoginKey) → (key_beq a b ≡ true) ↔ (a ≡ b)
key_beq_iff a b =
    ground (arith, eq_iff a.ip b.ip, eq_iff a.surface b.surface, eq_iff a.identifier b.identifier)

instance abbrev pub key_eq : PartialEq LoginKey
key_eq = record { same = key_beq; same_iff = key_beq_iff }

pub record LoginProtectionConfig : Type 0 where
  pub turnstile_after_failures : ℕ
  pub max_failures_per_login : ℕ
  pub max_failures_per_ip : ℕ
  pub window : Duration
  pub lockout : Duration

pub record LoginProtection : Type 0 where
  pub config : LoginProtectionConfig
  pub failures_by_login : Table LoginKey FailureState
  pub failures_by_ip : Table IpAddr FailureState

-- `LoginProtection::new`
unfoldable pub new_protection : LoginProtectionConfig → LoginProtection
new_protection config = record { config = config; failures_by_login = []; failures_by_ip = [] }

abbrev pub is_after : Instant → Option Instant → Bool
is_after now none = false
is_after now (some blocked_until) = ltb now blocked_until

-- The closure of `retain`.
abbrev pub is_kept : Instant → Duration → FailureState → Bool
is_kept now retention state =
    is_after now state.blocked_until || leb (now - state.last_seen) retention

-- The entry that `min_by_key` finds: of several that were seen last the longest ago, the first.
abbrev pub older : {K : Type 0} → K × FailureState → K × FailureState → K × FailureState
older (k, state) (j, other) = if leb state.last_seen other.last_seen then (k, state) else (j, other)

abbrev pub oldest_of : {K : Type 0} → K × FailureState → Table K FailureState → K × FailureState
oldest_of best [] = best
oldest_of best (entry ∷ table) = oldest_of (older best entry) table

abbrev pub remove_oldest :
    {K : Type 0} ⦃e : PartialEq K⦄ → Table K FailureState → Table K FailureState
remove_oldest [] = []
remove_oldest (entry ∷ table) = remove (oldest_of entry table).0 (entry ∷ table)

unfoldable pub make_room :
    {K : Type 0} ⦃e : PartialEq K⦄ → Table K FailureState → Table K FailureState
make_room table = if ltb (length table) max_tracked_keys then table else remove_oldest table

-- `get_mut(key).and_then(|state| active_retry_after(state, now, window))`
abbrev pub retry_at :
    {K : Type 0} ⦃e : PartialEq K⦄
    → K
    → Instant
    → Duration
    → Table K FailureState
    → Option Duration × Table K FailureState
retry_at key now window table = elim (get key table) [
  | none ↦ (none, table)
  | some state ↦
      let (retry, state') = active_retry_after state now window in (retry, put key state' table)
]

-- The state that `entry(key).or_insert_with(…)` finds.
abbrev pub state_at :
    {K : Type 0} ⦃e : PartialEq K⦄ → K → Instant → Table K FailureState → FailureState
state_at key now table = elim (get key table) [ none ↦ new_state now | some state ↦ state ]

-- A failure under a key.
abbrev pub failure_at :
    {K : Type 0} ⦃e : PartialEq K⦄
    → Platform
    → K
    → Instant
    → Duration
    → Duration
    → ℕ
    → Table K FailureState
    → Option Duration × Table K FailureState
failure_at p key now window lockout limit table =
    let (retry, state) = record_failure_state p (state_at key now table) now window lockout limit in
    (retry, put key state table)

abbrev pub answer : Option Duration → Result AuthError (Unit {0})
answer none = ok tt
answer (some retry_after) = err (rate_limit_error retry_after)

abbrev pub reached : ℕ → Option FailureState → Bool
reached limit none = false
reached limit (some state) = leb limit state.failures

module _ (to_lowercase : Text → Text) where
  -- `LoginKey::new`
  abbrev pub login_key : IpAddr → LoginSurface → Text → LoginKey
  login_key ip surface identifier = record {
    ip = ip;
    surface = surface;
    identifier = to_lowercase (trim identifier);
  }

  unfoldable pub record_success : IpAddr → LoginSurface → Text → LoginProtection → LoginProtection
  record_success ip surface identifier s = record s {
    failures_by_login = remove (login_key ip surface identifier) s.failures_by_login;
  }

module _ (p : Platform) (to_lowercase : Text → Text) where
  unfoldable pub prune : Instant → LoginProtection → LoginProtection
  prune now s =
      let retention = saturating_add p s.config.window s.config.lockout in
      record s {
        failures_by_login = retain (is_kept now retention) s.failures_by_login;
        failures_by_ip = retain (is_kept now retention) s.failures_by_ip;
      }

  unfoldable pub check_at :
      IpAddr → LoginSurface → Text → Instant → Exec LoginProtection AuthError (Unit {0})
  check_at ip surface identifier now s =
      let s' = prune now s in
      let (login_retry, logins) =
        retry_at (login_key to_lowercase ip surface identifier) now s.config.window
          s'.failures_by_login in
      let (ip_retry, ips) = retry_at ip now s.config.window s'.failures_by_ip in
      (
        answer (max_duration login_retry ip_retry),
        record s' { failures_by_login = logins; failures_by_ip = ips },
      )

  unfoldable pub record_failure_at :
      IpAddr → LoginSurface → Text → Instant → LoginProtection → Option Duration × LoginProtection
  record_failure_at ip surface identifier now s =
      let s' = prune now s in
      let config = s.config in
      let (login_retry, logins) =
        failure_at p (login_key to_lowercase ip surface identifier) now config.window config.lockout
          config.max_failures_per_login (make_room s'.failures_by_login) in
      let (ip_retry, ips) =
        failure_at p ip now config.window config.lockout config.max_failures_per_ip
          (make_room s'.failures_by_ip) in
      (
        max_duration login_retry ip_retry,
        record s' { failures_by_login = logins; failures_by_ip = ips },
      )

  unfoldable pub challenge_required :
      IpAddr → LoginSurface → Text → Instant → LoginProtection → Bool × LoginProtection
  challenge_required ip surface identifier now s =
      let s' = prune now s in
      (
        reached s.config.turnstile_after_failures
            (get (login_key to_lowercase ip surface identifier) s'.failures_by_login),
        s',
      )

-- The limits of requests other than logins.
pub data SecurityRateKind : Type 0 where
  refresh invalid_bearer anonymous_probe : SecurityRateKind

abbrev pub rate_index : SecurityRateKind → ℕ
rate_index SecurityRateKind.refresh = 0
rate_index SecurityRateKind.invalid_bearer = 1
rate_index SecurityRateKind.anonymous_probe = 2

abbrev pub rate_key_beq : SecurityRateKind × IpAddr → SecurityRateKind × IpAddr → Bool
rate_key_beq (a, ip) (b, other) = nat_beq (rate_index a) (rate_index b) && ip == other

pub rate_key_beq_iff : (a b : SecurityRateKind × IpAddr) → (rate_key_beq a b ≡ true) ↔ (a ≡ b)
rate_key_beq_iff (a, ip) (b, other) = ground (arith, eq_iff ip other)

instance abbrev pub rate_key_eq : PartialEq (SecurityRateKind × IpAddr)
rate_key_eq = record { same = rate_key_beq; same_iff = rate_key_beq_iff }

abbrev seconds : ℕ → Duration
seconds n = n * 1_000_000_000

-- The limit, the window and the lockout.
abbrev pub security_rate_policy : SecurityRateKind → ℕ × Duration × Duration
security_rate_policy SecurityRateKind.refresh = (30, seconds 60, seconds (5 * 60))
security_rate_policy SecurityRateKind.invalid_bearer = (60, seconds 60, seconds (10 * 60))
security_rate_policy SecurityRateKind.anonymous_probe = (120, seconds 60, seconds (10 * 60))

-- `check_security_request` of the memory backend
unfoldable pub check_security_request :
    Platform
    → SecurityRateKind
    → IpAddr
    → Instant
    → Exec (Table (SecurityRateKind × IpAddr) FailureState) AuthError (Unit {0})
check_security_request p kind ip now limits =
    let (limit, window, lockout) = security_rate_policy kind in
    let (retry, limits') = failure_at p (kind, ip) now window lockout limit (make_room limits) in
    (answer retry, limits')
