-- ===== src/Core.antt =====
-- The framework-neutral package at the repository's root.
pub mod Decision
pub mod Errors
pub mod Context
pub mod Request
pub mod Resolve
