-- ===== src/Durable.antt =====
-- The durable store of src/infrastructure/postgres/repositories.ts. A transaction takes the
-- database and returns its result with the new database, or an error: then the transaction is
-- rolled back and the database stays as it was. Transactions are serializable, so that what runs
-- at the same time is some sequence of them.
pub mod Table
pub mod Rows
pub mod Records
pub mod Writes
pub mod Lease
pub mod Cancel
pub mod Finish
pub mod Effects
pub mod Steps
pub mod Lookups
pub mod Endings
pub mod Requests
pub mod Exclusion
pub mod Reserve
pub mod History
pub mod Recover
pub mod Settlement
