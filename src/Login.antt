-- ===== src/Login.antt =====
-- The failed-login limits that crates/cloudledger-server/src/login_protection.rs keeps in memory.
-- An Instant is a number of nanoseconds since some start and a Duration one of nanoseconds; the
-- platform's last Instant and the longest Duration are parameters. A HashMap is a list of entries in
-- the order in which it iterates.
pub mod State
pub mod Protection
pub mod Bounds
pub mod Lockout
pub mod Waits
