-- ===== src/Types.antt =====
-- The data of crates/cloudledger-core/src/types.rs, and `Money` of money.rs, as the records and
-- enumerations of the source. A UUID is a number (the nil UUID is 0), since the program compares
-- and orders UUIDs only; a point in time is its distance from the earliest one that the `time`
-- crate represents. What `Uuid::new_v4` and `OffsetDateTime::now_utc` return is an argument.
mod Data
mod Equality
mod New
pub use Data.*
pub use Equality.*
unfoldable pub use New.*
