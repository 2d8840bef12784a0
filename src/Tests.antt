-- ===== src/Tests.antt =====
-- The theorems at concrete inputs, with the third-party crates given by concrete functions.
mod Crates
mod Identifiers
mod Failures
mod Wrapper
mod Requests
mod Manager
mod Bridges
mod Executor
mod System
mod Connections
