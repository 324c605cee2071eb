-- ===== src/Applyd.antt =====
-- The privileged daemon, rust/crates/mr-applyd/src/applyd.
pub mod DnsWire
