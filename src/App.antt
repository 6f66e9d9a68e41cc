-- ===== src/App.antt =====
-- `AppLedgerService` of crates/cloudledger-service/src/app.rs, the application service behind the
-- server: its state, who may see and do what, and its methods.
pub mod State
pub mod Access
pub mod Transactions
pub mod Create
pub mod Command
pub mod Outcomes
pub mod Methods
pub mod Atomic
pub mod Soundness
pub mod Creation
pub mod Replay
pub mod Balance
pub mod Order
pub mod Setup
pub mod Identity
pub mod Members
pub mod Directory
pub mod Snapshot
pub mod Calendar
pub mod Categories
pub mod Analysis
pub mod Visibility
pub mod Reachable
