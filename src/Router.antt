-- ===== src/Router.antt =====
-- `kvrouter`: router/router.hpp, router/router.cpp, router/failure_detector.cpp, router/node_address.hpp.
pub mod Reply
pub mod FailureDetector
pub mod Routing
pub mod Failover
pub mod Replication
pub mod Consistency
pub mod ReadAfterWrite
pub mod History
pub mod Client
