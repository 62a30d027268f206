-- ===== src/Domain.antt =====
-- services/darta-chalani/internal/domain: its errors and the caller's context.
pub mod Errors
pub mod Context
