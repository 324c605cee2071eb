-- ===== src/Apply/Engine/Invariant.antt =====
-- What holds of the engine between two operations: the canonical configuration is the one saved last,
-- and a pending change can be rolled back, or is committed.
pub mod Outcome
pub mod Activate
pub mod Process
pub mod Confirm
pub mod Confirmation
pub mod Confirmed
pub mod Rollback
pub mod Firing
pub mod Reconcile
pub mod Bypass
use minimalrouter.Apply.Engine.{
  Environment, Machine, PendingChange, State, Timer, Transaction, TxRef, awaiting_confirmation,
  maximum_rollback_attempts,
}
use minimalrouter.Apply.Engine.Frame.{Frame, last_saved}
use minimalrouter.Config.Model.{SystemConfig}
use minimalrouter.Prelude.{
  Bool, Bytes, Option, bytes_eq, false, none, not, some, sym, true, ◌&&◌, ◌+◌, ◌<◌, ◌∙◌, ◌≡◌, ◌≤◌,
  ◌⊎◌,
}

-- A timer that will call back for the transaction of an id: it was not stopped and has not fired.
abbrev pub is_live : Bytes → Option Timer → Bool
is_live id none = false
is_live id (some t) = not t.cancelled && (not t.fired && bytes_eq t.tx_id id)

pub record PendingSound (current : SystemConfig) (heap : TxRef → Transaction) (next : TxRef)
    (p : PendingChange) : Type 0 where
  pub entered : p.tx < next
  pub baseline : p.canonical_committed ≡ false → current ≡ p.previous
  pub candidate : p.canonical_committed ≡ true → current ≡ (heap p.tx).config
  pub successor : (heap p.tx).config.revision ≡ p.previous.revision + 1
  pub armed : p.canonical_committed ≡ false → is_live (heap p.tx).id p.timer ≡ true
  pub attempts : p.rollback_attempts ≤ maximum_rollback_attempts
  pub waits :
      ((heap p.tx).current_state ≡ awaiting_confirmation)
      ⊎ ((heap p.tx).current_state ≡ State.recovery_required)

abbrev pub PendingOk : SystemConfig → (TxRef → Transaction) → TxRef → Option PendingChange → Type 0
PendingOk current heap next none = Unit
PendingOk current heap next (some p) = PendingSound current heap next p

module _ (env : Environment) (base : SystemConfig) where
  -- `base` is the configuration that the engine started with.
  pub record Inv (m : Machine env) : Type 0 where
    pub durable : env.has_store ≡ true → last_saved base m.log ≡ m.engine.current_config
    pub idle : m.engine.applying ≡ false
    pub pending_ok : PendingOk m.engine.current_config m.heap m.next m.engine.pending

  -- The invariant where nothing is pending.
  pub record Settled (m : Machine env) : Type 0 where
    pub durable : env.has_store ≡ true → last_saved base m.log ≡ m.engine.current_config
    pub idle : m.engine.applying ≡ false
    pub no_pending : m.engine.pending ≡ none

  pub Settled-Inv : (m : Machine env) → Settled m → Inv m
  Settled-Inv m s = record { durable = s.durable; idle = s.idle; pending_ok = rw s.no_pending tt }

  pub Frame-Settled :
      (m m' : Machine env) → Frame env m m' → m'.engine.applying ≡ false → Settled m → Settled m'
  Frame-Settled m m' f idle s = record {
    durable = λ st. f.saves base ∙ s.durable st ∙ sym f.current_config;
    idle = idle;
    no_pending = f.pending ∙ s.no_pending;
  }
