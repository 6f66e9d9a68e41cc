-- ===== src/Login/Bounds.antt =====
-- The tables of crates/cloudledger-server/src/login_protection.rs stay small, and have one entry for
-- a key.
use cloud_ledger.Base.{
  ℕ, ◌≤◌, ◌<◌, ◌≡◌, inl, inr, Bool, true, List, [], ◌∷◌, arith, Text, PartialEq, eq_refl, length,
  leb, Bool-cases, Option-cases, nat_eq,
}
use cloud_ledger.Base.Table.{
  Table, get, put, retain, has, IsDistinct, put-IsDistinct, remove-IsDistinct, retain-IsDistinct,
  length-put, length-put-get, length-retain, length-remove, length-remove-has,
}
use cloud_ledger.Login.State.{
  Instant, Platform, FailureState, active_retry_after, record_failure_state,
}
use cloud_ledger.Login.Protection.{
  max_tracked_keys, IpAddr, LoginSurface, key_eq, LoginProtectionConfig, LoginProtection,
  new_protection, oldest_of, make_room, state_at, login_key, retry_at, failure_at, prune, check_at,
  record_failure_at, record_success, challenge_required, rate_key_eq,
}

module _ {K : Type 0} ⦃e : PartialEq K⦄ where
  -- At most 10,000 entries, under distinct keys.
  pub record IsSmall (table : Table K FailureState) : Type 0 where
    pub distinct : IsDistinct table
    pub small : length table ≤ max_tracked_keys

  oldest_of-has :
      (best : K × FailureState) (table : Table K FailureState)
      → has (oldest_of best table).0 (best ∷ table) ≡ true
  oldest_of-has (k, v) [] = ground (arith, eq_refl k)
  oldest_of-has (k, v) ((j, u) ∷ table) = elim (Bool-cases (leb v.last_seen u.last_seen)) [
    | inl keep ↦ ground (arith, oldest_of-has (k, v) table)
    | inr change ↦ ground (arith, oldest_of-has (j, u) table)
  ]

  make_room-IsDistinct :
      (table : Table K FailureState) → IsDistinct table → IsDistinct (make_room table)
  unfolding make_room
  make_room-IsDistinct [] h = ground arith
  make_room-IsDistinct (entry ∷ table) h =
      ground (arith, remove-IsDistinct (oldest_of entry table).0 (entry ∷ table) h)

  -- There is room for an entry.
  make_room-length :
      (table : Table K FailureState)
      → length table ≤ max_tracked_keys
      → length (make_room table) < max_tracked_keys
  unfolding make_room
  make_room-length [] h = ground arith
  make_room-length (entry ∷ table) h = ground (
    arith,
    length-remove-has (oldest_of entry table).0 (entry ∷ table) (oldest_of-has entry table),
  )

  put-IsSmall :
      (key : K) (state : FailureState) (table : Table K FailureState)
      → IsDistinct table
      → length table < max_tracked_keys
      → IsSmall (put key state table)
  put-IsSmall key state table h room = record {
    distinct = put-IsDistinct key state table h;
    small = omega (arith, length-put key state table);
  }

  pub failure_at-IsSmall :
      (p : Platform) (key : K) (now window lockout limit : ℕ) (table : Table K FailureState)
      → IsSmall table
      → IsSmall (failure_at p key now window lockout limit (make_room table)).1
  failure_at-IsSmall p key now window lockout limit table h =
      put-IsSmall key
        (record_failure_state p (state_at key now (make_room table)) now window lockout limit).1
        (make_room table) (make_room-IsDistinct table h.distinct) (make_room-length table h.small)

  retry_at-IsSmall :
      (key : K) (now window : ℕ) (table : Table K FailureState)
      → IsSmall table
      → IsSmall (retry_at key now window table).1
  retry_at-IsSmall key now window table h = elim (Option-cases (get key table)) [
    | inl missing ↦ rw (retry_at, missing) h
    | inr (state, found) ↦
        let state' = (active_retry_after state now window).1 in
        rw (retry_at, found)
          (record {
            distinct = put-IsDistinct key state' table h.distinct;
            small = omega (arith, length-put-get key state state' table found, h.small);
          })
  ]

  retain-IsSmall :
      (q : FailureState → Bool) (table : Table K FailureState)
      → IsSmall table
      → IsSmall (retain q table)
  retain-IsSmall q table h = record {
    distinct = retain-IsDistinct q table h.distinct;
    small = ground (arith, length-retain q table, h.small);
  }

-- Both tables are small.
pub record AreSmall (s : LoginProtection) : Type 0 where
  pub by_login : IsSmall s.failures_by_login
  pub by_ip : IsSmall s.failures_by_ip

pub data LoginCall : Type 0 where
  checks fails : IpAddr → LoginSurface → Text → Instant → LoginCall
  succeeds : IpAddr → LoginSurface → Text → LoginCall
  asks : IpAddr → LoginSurface → Text → Instant → LoginCall

module _ (p : Platform) (to_lowercase : Text → Text) where
  -- The state after a call.
  unfoldable pub after_login : LoginCall → LoginProtection → LoginProtection
  after_login (checks ip surface identifier now) s =
      (check_at p to_lowercase ip surface identifier now s).1
  after_login (fails ip surface identifier now) s =
      (record_failure_at p to_lowercase ip surface identifier now s).1
  after_login (succeeds ip surface identifier) s =
      record_success to_lowercase ip surface identifier s
  after_login (asks ip surface identifier now) s =
      (challenge_required p to_lowercase ip surface identifier now s).1

  unfoldable pub after_logins : List LoginCall → LoginProtection → LoginProtection
  after_logins [] s = s
  after_logins (c ∷ cs) s = after_logins cs (after_login c s)

  prune-AreSmall :
      (now : Instant) (s : LoginProtection) → AreSmall s → AreSmall (prune p to_lowercase now s)
  unfolding prune
  prune-AreSmall now s h = record {
    by_login = retain-IsSmall _ s.failures_by_login h.by_login;
    by_ip = retain-IsSmall _ s.failures_by_ip h.by_ip;
  }

  pub after_login-AreSmall :
      (c : LoginCall) (s : LoginProtection) → AreSmall s → AreSmall (after_login c s)
  unfolding after_login check_at record_failure_at record_success challenge_required
  after_login-AreSmall (checks ip surface identifier now) s h =
      let pruned = prune-AreSmall now s h in
      record {
        by_login =
            retry_at-IsSmall (login_key to_lowercase ip surface identifier) now s.config.window _
              pruned.by_login;
        by_ip = retry_at-IsSmall ip now s.config.window _ pruned.by_ip;
      }
  after_login-AreSmall (fails ip surface identifier now) s h =
      let pruned = prune-AreSmall now s h in
      record {
        by_login =
            failure_at-IsSmall p (login_key to_lowercase ip surface identifier) now s.config.window
              s.config.lockout s.config.max_failures_per_login _ pruned.by_login;
        by_ip =
            failure_at-IsSmall p ip now s.config.window s.config.lockout
              s.config.max_failures_per_ip _ pruned.by_ip;
      }
  after_login-AreSmall (succeeds ip surface identifier) s h =
      let key = login_key to_lowercase ip surface identifier in
      record {
        by_login = record {
          distinct = remove-IsDistinct key s.failures_by_login h.by_login.distinct;
          small = omega (arith, length-remove key s.failures_by_login, h.by_login.small);
        };
        by_ip = h.by_ip;
      }
  after_login-AreSmall (asks ip surface identifier now) s h = prune-AreSmall now s h

  after_logins-keep :
      (cs : List LoginCall) (s : LoginProtection) → AreSmall s → AreSmall (after_logins cs s)
  unfolding after_logins
  after_logins-keep [] s h = h
  after_logins-keep (c ∷ cs) s h =
      after_logins-keep cs (after_login c s) (after_login-AreSmall c s h)

  -- Whatever calls come, each of the two tables has at most 10,000 entries, and one for a key.
  pub after_logins-AreSmall :
      (cs : List LoginCall) (config : LoginProtectionConfig)
      → AreSmall (after_logins cs (new_protection config))
  unfolding new_protection
  after_logins-AreSmall cs config = after_logins-keep cs (new_protection config) (record {
    by_login = record { distinct = tt; small = omega arith };
    by_ip = record { distinct = tt; small = omega arith };
  })
