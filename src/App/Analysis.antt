-- ===== src/App/Analysis.antt =====
-- `financial_analysis` of crates/cloudledger-service/src/app.rs: the cash flow of a ledger over its last
-- months. Amounts are summed up as an `i64` is in a release build; identifiers and times are given
-- as they are where the source renders them, but for the texts that it sorts by.
pub mod Flow
pub mod Loop
pub mod Report
pub mod Points
pub mod Trend
