-- ===== src/Lib.antt =====
-- A model of Minimal Router OS: how a configuration change of the router is admitted, applied through
-- the privileged helper, confirmed or rolled back, and committed; how its firmware slots are switched; who
-- may log in and manage it; and how the helper's DNS probes are written and read.
--
-- The parts and the files that model them:
-- Prelude: lists, integers, bytes and messages that the other parts share.
-- Net: rust/crates/mr-core/src/goish/net.rs (IP, IPMask, IPNet, parse_ip, parse_cidr, parse_mac,
--   the printers, split_host_port and join_host_port) and
--   rust/crates/mr-core/src/network/address_identity.rs. An address is the list of its
--   bytes. The spellings of IPv6, which Rust's library reads and prints, are the parameter Ipv6Std.
-- Config.Model: rust/crates/mr-config/src/config/model.rs, each struct a record with its fields.
-- Config.Policy: rust/crates/mr-config/src/config/policy.rs (requires_confirmation,
--   network_contains_network, firewall_rule_scope, validate_live_candidate); what serde writes is the
--   parameter Marshal, the full validation the parameter Validators. Its module Trust is
--   is_trusted_client_address, Legacy is migrate_legacy_fields, Scenario is validate_scenario_safety
--   with ValidationErrors of rust/crates/mr-config/src/config/validation.rs, and Live puts it into
--   validate_live_candidate; they take `str::trim` as a parameter.
-- Apply.Ipc: rust/crates/mr-services/src/apply/ipc.rs, the requests and answers of router-applyd.
-- Apply.Safety: rust/crates/mr-services/src/apply/safety.rs.
-- Apply.Engine: rust/crates/mr-services/src/apply/engine.rs. A Machine is the engine's state, the heap
--   of transactions (the shared Arc<Mutex<Transaction>>), the world, and a log of what was asked of the
--   world, which no operation reads. Each method is a function from machine to machine: process
--   (Apply.Engine.Process, with its guards in Admission and what follows the helper's answer in
--   Outcome), confirm_transaction (Confirm, Handshake), rollback_expired (Rollback), reconcile and
--   with_qos_bypassed (Reconcile). The record Environment holds what the engine calls: clock, helper,
--   store, generators of the artifacts, validators. Its functions may change the world in any way and
--   answer anything.
--   A Timer holds what its closure captured and whether its thread is done (fired); fire_timer is the
--   thread of the pending change's timer waking, which calls rollback_expired unless it was stopped.
--   Reach holds the runs of an engine as a step relation, Expiry the firings of a rollback timer.
-- Firmware.Version: rust/crates/mr-core/src/firmware/mod.rs (the pattern, parser and order of release
--   versions, validate_forward_upgrade). A version is its bytes.
-- Firmware.Disk, Firmware.State, Firmware.Slots: rust/crates/mr-core/src/firmware/slots.rs. A Disk is the
--   two JSON files, the installation journal, the two pointers and which slots there are. Each write
--   takes one Fault: it succeeds, fails before or behind its effect, or the machine stops there; each
--   method of SlotManager is an Operation on it: activate (activate_version), rollback
--   (rollback_version), recover_operation, state (current_state), validate_operation.
-- Applyd.DnsWire: rust/crates/mr-applyd/src/applyd/dnswire.rs, on packets as lists of bytes. A round of
--   read_name's loop moves a Cursor (its offset, labels, end and jumps). Replacing invalid UTF-8 is a
--   parameter.
-- Auth: rust/crates/mr-config/src/auth.rs. Limiter is RateLimiter, Sessions is SessionManager over a map
--   as a list, Password the Argon2id hashes, Base32 and Totp the second factor. Each call takes the time
--   it is made at. Argon2, HMAC-SHA-1, the base64 crate, the constant-time comparison and the Unicode
--   case table are the parameters Kdf and Std; from rust/crates/mr-core/src/goish, strings.rs (to_upper)
--   and base64.rs (raw_std_decode) are modelled with them.
--
-- The operation lock makes the operations run one after another, so a run is a sequence of operations.
-- Numbers are natural numbers and integers with their bounds written out; a revision is refused above
-- the largest i64. The loop of apply_privileged is recursion on its number of attempts, two. The loop
-- of decimal digits runs on fuel above its number, which has fewer digits than that. The loop of
-- read_name runs on 33 rounds for each byte of the packet and a few more: a jump is taken at most 32
-- times, and between jumps the offset grows.
--
-- Not modelled: the socket, the files and processes of router-applyd, SQLite, the HTTP interface,
-- telemetry, cookies and the stored secrets, the signed payloads of the firmware with their staging and
-- the full installer, and the full validation of a configuration; fault injection, which production
-- builds leave out.
pub mod Prelude
pub mod Net
pub mod Config
pub mod Apply
pub mod Firmware
pub mod Auth
pub mod Applyd
mod Tests
