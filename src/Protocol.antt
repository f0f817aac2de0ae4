-- ===== src/Protocol.antt =====
-- The wire protocol: common/protocol.hpp and common/protocol.cpp.
pub mod Messages
pub mod Text
mod Payload
pub mod Encode
pub mod RequestParser
pub mod RequestLoop
pub mod ResponseParser
