-- ===== src/Firmware.antt =====
-- rust/crates/mr-core/src/firmware: release versions and the A/B release slots.
pub mod Version
pub mod Disk
pub mod State
pub mod Slots
