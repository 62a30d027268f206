-- ===== src/Gateway.antt =====
-- services/graphql-gateway: the GraphQL gateway in front of the darta service.
pub mod Model
pub mod Converters
pub mod Service
pub mod Show
pub mod Resolvers
