-- ===== src/Account.antt =====
-- internal/account/store.go: the durable registry of accounts.
pub mod Names
pub mod Registry
pub mod Update
pub mod Deletion
pub mod Add
pub mod Keys
pub mod Loops
pub mod Calls
pub mod Found
pub mod Preserved
pub mod Fresh
pub mod Creation
pub mod Evolution
pub mod Removed
pub mod Gone
pub mod Targets
pub mod Invariant
pub mod Opened
pub mod Slots
pub mod Durable
pub mod Stopping
pub mod Marker
mod Examples
