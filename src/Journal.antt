-- ===== src/Journal.antt =====
-- The double-entry journal: the modules amount, ids, journal, ledger (there named `book`), auth and
-- approval of crates/cloudledger-core/src, the repository of crates/cloudledger-db/src and
-- `LedgerService` of crates/cloudledger-service/src/service.rs.
pub mod Amount
pub mod Entry
pub mod Book
pub mod Roles
pub mod Approval
pub mod Repository
pub mod Memory
pub mod Service
