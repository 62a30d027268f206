-- ===== src/Proto.antt =====
-- proto/gen/darta/v1: the messages that the servers exchange.
pub mod Enums
pub mod Messages
pub mod Texts
