-- ===== src/Send.antt =====
-- internal/service: the send transactions, from the preparation of a message to its commit.
pub mod Failure
pub mod Transactions
pub mod Commit
pub mod Once
pub mod Answers
pub mod History
pub mod Staging
mod Examples
