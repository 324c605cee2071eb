-- ===== src/Apply.antt =====
-- rust/crates/mr-services/src/apply: the IPC contract, the transition checks and the transaction engine.
pub mod Ipc
pub mod Safety
pub mod Engine
