-- ===== src/Net.antt =====
-- rust/crates/mr-core/src/goish/net.rs: addresses, masks, networks and the text forms of them.
pub mod Address
pub mod Mask
pub mod Parse
pub mod Network
pub mod Membership
pub mod Show
pub mod Mac
pub mod HostPort
