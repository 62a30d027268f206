-- ===== src/Identity.antt =====
-- services/identity: users, organizational units and roles, which Keycloak keeps.
pub mod Config
pub mod Keycloak
pub mod Messages
pub mod Converters
pub mod Server
