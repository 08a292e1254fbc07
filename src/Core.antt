-- ===== src/Core.antt =====
-- app/core: errors.
pub mod Errors
pub mod Result
pub mod Cache
pub mod Concurrency
