-- ===== src/Scenarios/Logins.antt =====
-- Wrong passwords for one account, and the results on logins applied to them.
use cloud_ledger.Base.{
  ℕ, ◌*◌, ◌^◌, ◌≡◌, ◌≢◌, ◌↔◌, some, refl, List, [], ◌∷◌, arith, text, trim, nat_eq,
}
use cloud_ledger.Base.Exec.{ok, err}
use cloud_ledger.Login.State.{
  Duration, Platform, new_state, rate_limit_error, record_failure_state, active_retry_after,
  max_duration,
}
use cloud_ledger.Login.Protection.{
  LoginSurface, key_eq, LoginProtectionConfig, LoginProtection, new_protection, login_key, check_at,
  make_room, prune, record_failure_at,
}
use cloud_ledger.Login.Bounds.{
  LoginCall, fails, after_login, after_logins, AreSmall, after_logins-AreSmall,
}
use cloud_ledger.Login.Lockout.{Blocked, check_at_iff}
use cloud_ledger.Login.Waits.{record_failure_at-waits}

abbrev seconds : ℕ → Duration
seconds n = n * 1_000_000_000

abbrev platform : Platform
platform = record { last_instant = 2 ^ 63; longest = 2 ^ 64 * 1_000_000_000 }

-- Two wrong passwords for an account in 15 minutes lock it for 15 minutes.
abbrev config : LoginProtectionConfig
config = record {
  turnstile_after_failures = 3;
  max_failures_per_login = 2;
  max_failures_per_ip = 20;
  window = seconds 900;
  lockout = seconds 900;
}

abbrev calls : List LoginCall
calls =
    fails 1 LoginSurface.business (text "a@b.test") (seconds 1)
    ∷ fails 1 LoginSurface.business (text "a@b.test") (seconds 2)
    ∷ []

abbrev locked : LoginProtection
locked = after_logins platform (λ t. t) calls (new_protection config)

-- The account is locked, another one at the same address is not.
locked_account :
    (check_at platform (λ t. t) 1 LoginSurface.business (text "a@b.test") (seconds 3) locked).0
    ≡ err (rate_limit_error (seconds 899))
unfolding check_at max_duration prune after_logins after_login record_failure_at make_room
    new_protection record_failure_state active_retry_after new_state trim
locked_account = refl

other_account :
    (check_at platform (λ t. t) 1 LoginSurface.business (text "c@b.test") (seconds 3) locked).0
    ≡ ok tt
unfolding check_at max_duration prune after_logins after_login record_failure_at make_room
    new_protection record_failure_state active_retry_after new_state trim
other_account = refl

after_logins-AreSmall_example : AreSmall locked
after_logins-AreSmall_example = after_logins-AreSmall platform (λ t. t) calls config

check_at_iff_example :
    ((check_at platform (λ t. t) 1 LoginSurface.business (text "a@b.test") (seconds 3) locked).0
      ≡ ok tt)
    ↔ (¬ Blocked
          (login_key (λ t. t) 1 LoginSurface.business (text "a@b.test"))
          (seconds 3)
          locked.failures_by_login
        × ¬ Blocked 1 (seconds 3) locked.failures_by_ip)
check_at_iff_example =
    check_at_iff platform (λ t. t) 1 LoginSurface.business (text "a@b.test") (seconds 3) locked
      after_logins-AreSmall_example

-- The second wrong password reports a wait of 15 minutes, and within it the right password does not
-- help.
abbrev first_failure : List LoginCall
first_failure = fails 1 LoginSurface.business (text "a@b.test") (seconds 1) ∷ []

second_failure :
    (record_failure_at platform
      (λ t. t)
      1
      LoginSurface.business
      (text "a@b.test")
      (seconds 2)
      (after_logins platform (λ t. t) first_failure (new_protection config))).0
    ≡ some (seconds 900)
unfolding max_duration prune after_logins after_login record_failure_at make_room new_protection
    record_failure_state active_retry_after new_state trim
second_failure = refl

record_failure_at-waits_example :
    (check_at platform
      (λ t. t)
      1
      LoginSurface.business
      (text "a@b.test")
      (seconds 901)
      (record_failure_at platform
        (λ t. t)
        1
        LoginSurface.business
        (text "a@b.test")
        (seconds 2)
        (after_logins platform (λ t. t) first_failure (new_protection config))).1).0
    ≢ ok tt
record_failure_at-waits_example =
    record_failure_at-waits platform (λ t. t) 1 LoginSurface.business (text "a@b.test") (seconds 2)
      (seconds 901) (after_logins platform (λ t. t) first_failure (new_protection config))
      (seconds 900) (after_logins-AreSmall platform (λ t. t) first_failure config) second_failure
      (omega arith) (omega arith)
