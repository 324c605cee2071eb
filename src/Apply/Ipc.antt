-- ===== src/Apply/Ipc.antt =====
-- rust/crates/mr-services/src/apply/ipc.rs: the typed requests to router-applyd and its answers.
pub mod Outcomes
use minimalrouter.Config.Model.{Revision, SystemConfig, Time}
use minimalrouter.Prelude.{
  Bool, Bytes, List, Message, Option, false, if◌then◌else◌, none, not, some, text, true, ℕ, ◌&&◌,
}
use minimalrouter.Prelude.Int.{ℤ}

-- The string newtype, with a constructor for each operation of the allowlist.
pub data OperationType : Type 0 where
  apply_all confirm commit_confirmed reconcile load_nftables : OperationType
  reload_service restore_snapshot wg_tunnel_status firewall_counters : OperationType
  unknown : Bytes → OperationType

pub record ApplyRequest : Type 0 where
  pub version : ℕ
  pub id : Bytes
  pub op : OperationType
  pub revision : Revision
  pub config : SystemConfig
  pub nftables : Bytes
  pub pppoe_peer : Bytes
  pub pppoe_secret : Bytes
  pub dnsmasq : Bytes
  pub hostapd : Bytes
  pub wireguard : Bytes
  pub service_name : Bytes
  pub require_confirmation : Bool
  pub verify_wg_client : Bool
  pub tunnel_interface : Bytes
  pub defer_last_good : Bool
  pub skip_wan_verify : Bool

pub record TunnelPeerStatus : Type 0 where
  pub public_key : Bytes
  pub endpoint : Bytes
  pub last_handshake : ℤ
  pub rx_bytes : ℤ
  pub tx_bytes : ℤ

pub record TunnelStatus : Type 0 where
  pub interface : Bytes
  pub endpoint : Bytes
  pub last_handshake : ℤ
  pub rx_bytes : ℤ
  pub tx_bytes : ℤ
  pub peers : List TunnelPeerStatus

pub record FirewallCounters : Type 0 where
  pub seen : ℕ
  pub accepted : ℕ
  pub generation : Bytes
  pub observed_at : Time
  pub policies : List (Bytes × Bytes)
  pub loaded_revision : Option Revision
  pub rule_packets : List (Bytes × ℕ)

pub record ApplyResponse : Type 0 where
  pub id : Bytes
  pub success : Bool
  pub error : Option Message
  pub logs : Bytes
  pub verified : Bool
  pub rolled_back : Bool
  pub recovery_required : Bool
  pub timestamp : ℤ
  pub tunnel_status : Option TunnelStatus
  pub firewall_counters : Option FirewallCounters

-- `ApplyResponse::validate`: `none` when the outcome is not contradictory.
unfoldable pub validate : ApplyResponse → Option Message
validate r =
    if r.success
    then (if not r.verified
        then some (text "successful response is not verified")
        else if r.rolled_back
        then some (text "successful response also reports rollback")
        else if r.recovery_required
        then some (text "successful response also requires recovery")
        else none)
    else if r.verified
    then some (text "failed response cannot report verified success")
    else if r.rolled_back && r.recovery_required
    then some (text "response cannot report both rollback and recovery required")
    else none

-- The four outcomes that the helper may claim.
pub data Outcome : Type 0 where
  verified_candidate not_applied verified_rollback recovery_needed : Outcome

abbrev pub flags : Outcome → Bool × Bool × Bool × Bool
flags verified_candidate = (true, true, false, false)
flags not_applied = (false, false, false, false)
flags verified_rollback = (false, false, true, false)
flags recovery_needed = (false, false, false, true)

abbrev pub response_flags : ApplyResponse → Bool × Bool × Bool × Bool
response_flags r = (r.success, r.verified, r.rolled_back, r.recovery_required)

unfoldable pub outcome : ApplyResponse → Outcome
outcome r =
    if r.success
    then verified_candidate
    else if r.rolled_back
    then verified_rollback
    else if r.recovery_required
    then recovery_needed
    else not_applied
