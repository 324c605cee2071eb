-- ===== src/Config.antt =====
-- rust/crates/mr-config/src/config: the configuration model and the policies over it.
pub mod Model
pub mod Policy
