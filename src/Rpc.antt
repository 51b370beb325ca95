-- ===== src/Rpc.antt =====
-- src/rpc/: the two gRPC boundaries. Contract is contract.rs with the status mapping of service.rs.
pub mod Contract
pub mod Requests
pub mod Responses
pub mod Submission
pub mod Ingress
