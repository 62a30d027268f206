-- ===== src/Darta.antt =====
-- services/darta-chalani/internal/domain/darta_service.go: the life cycle of an incoming letter.
pub mod Lifecycle
pub mod Number
pub mod Service
