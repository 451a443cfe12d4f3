-- ===== src/Runs.antt =====
-- Each theorem that has hypotheses, applied to concrete data that meet them.
pub mod Samples
pub mod Trees
pub mod Transactions
pub mod Indexing
pub mod Values
pub mod Blobs
pub mod Access
pub mod Indexes
pub mod Paths
pub mod Permissions
pub mod Accounts
