-- ===== src/Auth.antt =====
-- The accounts and sessions of crates/cloudledger-server/src/auth.rs. What it takes from libraries is
-- two parameters: `Crypto` are the functions of their arguments (SHA-256 as a text, the check of a
-- password against a stored hash, Unicode's lower case), `Draws` is what a call draws at the n-th
-- place of its text: a time, a UUID, a random token, a salted hash of a password.
pub mod Error
pub mod State
pub mod Sessions
pub mod Users
pub mod Accounts
pub mod Passwords
pub mod Command
pub mod Steps
pub mod Calls
pub mod Closed
pub mod Spent
pub mod Rotation
pub mod Access
pub mod Replay
