-- ===== src/Tests.antt =====
-- Sample data, and the theorems at concrete inputs.
pub mod Samples
pub mod Darta
mod Runs
pub mod Service
mod Numbers
mod Gateway
mod Identity
mod Chalani
pub mod Pdp
