-- ===== src/Scenarios.antt =====
-- Concrete states and calls: tests of the definitions, and an instance of each result.
mod Company
mod Lifecycle
mod Results
mod Journals
mod Submission
mod Membership
mod Logins
mod Accounts
mod Reports
