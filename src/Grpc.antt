-- ===== src/Grpc.antt =====
-- services/darta-chalani/internal/grpc: the gRPC servers of the darta and chalani services.
pub mod Packages
pub mod Status
pub mod Converters
pub mod Interceptors
pub mod Darta
pub mod Chalani
