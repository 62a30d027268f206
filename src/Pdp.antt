-- ===== src/Pdp.antt =====
-- services/pdp: the policy decision point.
pub mod Service
pub mod Server
pub mod Decisions
pub mod Codes
