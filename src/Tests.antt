-- ===== src/Tests.antt =====
-- The theorems at concrete inputs.
pub mod Data
mod Interleavings
mod Payers
mod Front
mod Programs
mod Repositories
mod Services
mod Gates
mod Texts
