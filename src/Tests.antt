-- ===== src/Tests.antt =====
-- The tests: one router with its configuration and a helper, one disk of slots, and the theorems at them.
mod Fixture
mod Witnesses
mod Runs
mod Slots
mod Dns
mod Policy
mod Logins
