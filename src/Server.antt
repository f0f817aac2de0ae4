-- ===== src/Server.antt =====
-- `kvserver`: server/worker_reactor.hpp, server/worker_reactor.cpp, server/server.hpp, server/server.cpp.
pub mod Requests
pub mod Connection
pub mod Pass
pub mod Accept
pub mod Session
pub mod Wakeup
pub mod Interleaving
