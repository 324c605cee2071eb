-- ===== src/Apply/Engine.antt =====
-- rust/crates/mr-services/src/apply/engine.rs: the state of the transaction engine, what it calls,
-- and the machine that its operations run on. The operations are in the modules below.
pub mod Frame
pub mod Invariant
pub mod Blocked
pub mod Calls
pub mod Reach
pub mod Expiry
pub mod Handshake
pub mod Privileged
pub mod Admission
pub mod Outcome
pub mod Process
pub mod Confirm
pub mod Rollback
pub mod Reconcile
use minimalrouter.Apply.Ipc.{ApplyRequest, ApplyResponse}
use minimalrouter.Apply.Safety.{DhcpLeaseSnapshot}
use minimalrouter.Config.Model.{Revision, SystemConfig, Time}
use minimalrouter.Config.Policy.{Marshal, Validators}
use minimalrouter.Net.Parse.{Ipv6Std}
use minimalrouter.Prelude.{
  Bool, Bytes, List, Message, Option, Result, String, codes, false, if◌then◌else◌, none, some, true,
  ℕ, ◌*◌, ◌++◌, ◌==◌, ◌^◌,
}

pub data State : Type 0 where
  received planned generated snapshotted applied verified : State
  awaiting_confirmation committed rolled_back recovery_required rejected : State

pub record Transaction : Type 0 where
  pub id : Bytes
  pub current_state : State
  pub config : SystemConfig
  pub diff : Bytes
  pub error : Option Message  -- `none` is the empty string
  pub created_at : Time
  pub confirmed_at : Option Time
  pub confirmation_deadline : Option Time
  pub firewall_changed : Bool

-- Durations in nanoseconds, delays of timers in seconds.
abbrev pub seconds : ℕ → ℕ
seconds n = n * 10 ^ 9

abbrev pub confirmation_timeout : ℕ
confirmation_timeout = 90

abbrev pub rollback_retry_delay : ℕ
rollback_retry_delay = 10

abbrev pub maximum_rollback_attempts : ℕ
maximum_rollback_attempts = 5

abbrev pub privileged_apply_timeout : ℕ
privileged_apply_timeout = seconds 120

abbrev pub privileged_apply_attempts : ℕ
privileged_apply_attempts = 2

-- `Arc<Mutex<Transaction>>`: a transaction is shared by reference, and lives on the heap.
abbrev pub TxRef : Type 0
TxRef = ℕ

-- A timer's thread sleeps for the delay and then, unless it was stopped, calls `rollback_expired` for the
-- transaction that its closure captured. That it has done so is `fired`, which the code does not store:
-- it is where the thread stands.
pub record Timer : Type 0 where
  pub delay : ℕ
  pub tx_id : Bytes
  pub cancelled : Bool
  pub fired : Bool

-- `Timer::after` and `Timer::stop`.
abbrev pub timer_after : ℕ → Bytes → Timer
timer_after delay tx_id = record { delay = delay; tx_id = tx_id; cancelled = false; fired = false }

abbrev pub stop : Option Timer → Option Timer
stop none = none
stop (some t) = some (record t { cancelled = true })

pub record PendingChange : Type 0 where
  pub tx : TxRef
  pub handshake_not_before : ℕ
  pub previous : SystemConfig
  pub timer : Option Timer
  pub rollback_attempts : ℕ
  pub commit_attempts : ℕ
  pub canonical_committed : Bool

pub record EngineState : Type 0 where
  pub active_tx : Option TxRef
  pub applying : Bool
  pub current_config : SystemConfig
  pub pending : Option PendingChange
  pub recovery_required : Bool
  pub recovery_reason : Option Message  -- `none` is the empty string

unfoldable pub require_recovery : Message → EngineState → EngineState
require_recovery reason st = record st { recovery_required = true; recovery_reason = some reason }

-- What `audit_transaction` records of an outcome.
pub record AuditEvent : Type 0 where
  pub firewall : Bool  -- "firewall.transaction", else "config.transaction"
  pub transaction_id : Bytes
  pub state : State
  pub phase : String
  pub reason : String
  pub previous_revision : Revision
  pub candidate_revision : Revision
  pub has_error : Option Bool

-- A callback that persists a configuration: its error, and the world behind it.
abbrev pub CommitFn : Type 0 → Type 0
CommitFn W = SystemConfig → W → Option Message × W

-- What the engine calls: the clock, the helper, the store, the generators of the artifacts, the
-- validators, and serde. A call may change the world in any way, and may answer anything.
pub record Environment : Type 1 where
  pub World : Type 0
  pub now : World → Time × World
  pub instant : World → ℕ × World
  pub apply : ℕ → ApplyRequest → World → Result Message ApplyResponse × World
  pub has_store : Bool
  pub create_snapshot : CommitFn World
  pub save_config : CommitFn World
  pub append_audit : AuditEvent → World → World
  pub dhcp_leases : World → DhcpLeaseSnapshot × World
  pub generate_nftables : SystemConfig → Result Message Bytes
  pub generate_pppoe : SystemConfig → Result Message (Bytes × Bytes)
  pub generate_dnsmasq : SystemConfig → Result Message Bytes
  pub generate_hostapd : SystemConfig → Result Message Bytes
  pub generate_wireguard : SystemConfig → Result Message Bytes
  pub rules : Validators
  pub json : Marshal
  pub ipv6 : Ipv6Std

-- What an operation answers.
abbrev pub Answer : Type 0
Answer = Result Message (Unit {0})

-- What the engine has asked of the world, newest first. It is read by theorems alone.
pub data Event : Type 0 where
  called : ApplyRequest → Event
  saved : SystemConfig → Event
  audited : AuditEvent → Event

module _ (env : Environment) where
  pub record Machine : Type 0 where
    pub world : env.World
    pub engine : EngineState
    pub heap : TxRef → Transaction
    pub next : TxRef
    pub log : List Event

-- Writes through a reference.
unfoldable pub write : TxRef → Transaction → (TxRef → Transaction) → TxRef → Transaction
write r t heap q = if q == r then t else heap q

-- `format!("{}-suffix", id)`.
unfoldable pub suffixed : Bytes → String → Bytes
suffixed id suffix = id ++ codes suffix
