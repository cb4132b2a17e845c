-- ===== src/Github.antt =====
-- GitHub: what the program knows of installations and of their repositories.
pub mod Authorization
pub mod Schemas
pub mod Rows
pub mod Webhooks
pub mod Repositories
pub mod Reconcile
pub mod Store
pub mod Linking
pub mod Views
mod Effects
pub mod Status
pub mod Taken
pub mod Removal
pub mod InstallationState
