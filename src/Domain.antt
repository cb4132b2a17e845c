-- ===== src/Domain.antt =====
-- The domain rules of src/domain.
pub mod Case
pub mod Job
pub mod Host
pub mod Run
pub mod Oracle
pub mod Verification
pub mod Minimization
