-- ===== src/Tests.antt =====
-- Tests: runs of the models on fixed inputs, and the theorems applied at concrete inputs.
mod Protocol
mod Store
mod Transport
mod Ring
mod Router
mod Session
mod Tools
