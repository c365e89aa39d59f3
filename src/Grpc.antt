-- ===== src/Grpc.antt =====
-- The gRPC service of internal/grpcserver/server.go. `Service` holds its code; `Batches`, `Writes`
-- and `Counts` prove what its answers say. `Status` holds `Stats` and `Health`.
pub mod Service
pub mod Batches
pub mod Writes
pub mod Counts
pub mod Status
