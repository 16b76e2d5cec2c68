-- ===== src/Clients.antt =====
-- tools/: what talks to the server in tests.
pub mod Sim
pub mod Soak
pub mod Ghost
pub mod Diff
pub mod Script
pub mod Gate
pub mod Idlers
mod Tests
mod ScriptTests
mod GateTests
mod IdlersTests
