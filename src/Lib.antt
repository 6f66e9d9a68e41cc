-- ===== src/Lib.antt =====
-- CloudLedger: a verification of the application's core logic.
--
-- CloudLedger is a bookkeeping service for people and organizations. Its core are two ledgers: the
-- application service, where members of an organization hand in expenses and incomes that are
-- approved, paid, received and voided, and a double-entry journal with approval requests. Servers,
-- storage and user interfaces stand around these.
--
-- Module Base: Boolean tests, lists, texts, `i64` and its wrap-around, maps and sorted maps, results, and
--   methods that change a state and may fail.
-- Module Types: the data of crates/cloudledger-core/src/types.rs and money.rs, with its constructors.
-- Module Permissions: `can_perform` of crates/cloudledger-core/src/permissions.rs, action by action.
-- Module App: `AppLedgerService` of crates/cloudledger-service/src/app.rs. `State` is the struct with its
--   errors and what it takes from outside; `Access` is who may see and do what; `Transactions` and
--   `Create` are the five methods on transactions (create_transaction, decide_approval,
--   void_transaction, mark_transaction_paid, confirm_transaction_receipt); `Command` dispatches to
--   them, so that a list of commands is a session; `Balance` is account_balance_minor. `Setup` is the
--   standard accounts and categories of a ledger, `Identity` how users are found and named,
--   `Members` the methods on organizations and their members, with a command language of its own in
--   `Members/Command`, `Directory` the lists of these and setup_status, `Snapshot` what is stored and
--   loaded with the migration of older versions, `Categories` create_category, `Calendar` and
--   `Analysis` financial_analysis. The other modules hold the proofs and are named for what they prove.
-- Module Journal: the modules amount, journal, ledger, auth and approval of crates/cloudledger-core/src:
--   `Amount`, `Entry`, `Book`, `Roles` and `Approval`; `Repository` is the trait of
--   crates/cloudledger-db/src/repository.rs, which `Service`, the `LedgerService` of
--   crates/cloudledger-service/src/service.rs, takes as a parameter and `Memory`, memory.rs, implements.
-- Module Auth: `AuthService` of crates/cloudledger-server/src/auth.rs. `State` is its state, the tests of
--   its inputs and its parameters, `Sessions` how sessions are issued, rotated, revoked and recognized,
--   `Users`, `Accounts` and `Passwords` the methods on accounts, `Command` their command language,
--   `Steps` what a method may do to the sessions, as a step relation.
-- Module Login: the memory backend of crates/cloudledger-server/src/login_protection.rs: the failures
--   under one key (`State`), and the two tables of them (`Protection`).
-- Module Scenarios: a company with a ledger and its members, the life of one expense in it, a company
--   ledger of the journal, the founding of a company, logins, accounts and reports, and each result
--   applied to these.
--
-- How the code is read. A method on `&mut self` is a function from the state to a result and a state;
-- its tests, up to the last early return, are one function named `_checks`, and the changes after them,
-- which cannot fail, another; an early
-- return leaves the state as it then is, which the last returns of add_organization_member and the
-- replay of a refresh token find changed. A HashMap or BTreeMap
-- is a list of keys and values with the lookup and the insertion of a map; the BTreeMap of transactions
-- is kept in the order of its keys, as its iteration shows. Where a method looks up one transaction twice
-- with nothing changed in between, the model looks it up once. UUIDs and times are numbers: the code only
-- compares them. What a call takes from outside, which is the time and the fresh identifiers, is
-- a parameter of each call, and nothing is assumed of it unless a result says so. Text is the list of its
-- code points; `trim`, upper case and the lengths in characters and bytes are written out. Amounts
-- are integers; the sum of a balance wraps around at 64 bits as the release build does it, and a
-- checked addition fails outside of them. Numbers of approvals and versions are natural numbers.
-- Loops are structural recursion on their lists, so no fuel is used.
--
-- What a library does is a parameter: the calendar of the `time` crate in Beijing's time (its laws are
-- `IsCalendar`), SHA-256, the hash of a password and its check, random tokens, Unicode's case
-- mappings, the texts of UUIDs and times. An Instant of the platform is a number of nanoseconds, and
-- its largest one a parameter. Where a method draws several times or identifiers, the n-th place of
-- its text that draws one is told apart by its number; a loop takes as many places as it has rounds.
-- A HashMap is a list of entries in the order in which it iterates. Where `expect` meets a stored
-- currency that cannot be one, the source stops, and the model keeps the currency.
--
-- Not modelled: the rendering of results for the caller, which reads the state only; switch_user; the
-- overview, the lists of transactions by month and day, the audit periods and the details by month and
-- member of the application service; the SQLite repository; the PostgreSQL backends, SQL storage and
-- the signing of audits, which stand on a database and cryptography; the snapshots of accounts; HTTP
-- routes and the settings of the server; the desktop shell and the frontend.
pub mod Base
pub mod Types
pub mod Permissions
pub mod App
pub mod Journal
pub mod Auth
pub mod Login
pub mod Scenarios
