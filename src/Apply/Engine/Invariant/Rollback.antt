-- ===== src/Apply/Engine/Invariant/Rollback.antt =====
-- The deadline of an unconfirmed change keeps the invariant, on each of its outcomes.

use minimalrouter.Apply.Engine.{
  Environment, Machine, PendingChange, maximum_rollback_attempts, privileged_apply_timeout,
  require_recovery, suffixed,
}
use minimalrouter.Apply.Engine.Confirm.{set_pending}
use minimalrouter.Apply.Engine.Frame.{Frame, last_saved, privileged-Frame, privileged_idle}
use minimalrouter.Apply.Engine.Invariant.{Inv, PendingSound}
use minimalrouter.Apply.Engine.Invariant.Outcome.{write_self}
use minimalrouter.Apply.Engine.Invariant.Process.{audit_transaction-Inv}
use minimalrouter.Apply.Engine.Privileged.{
  build_apply_request, privileged, set_state, timeout_rollback,
}
use minimalrouter.Apply.Engine.Rollback.{
  audit_rollback, expire, give_up, is_rolled_back, rearm, restored, rollback_expired, try_rollback,
}
use minimalrouter.Config.Model.{SystemConfig}
use minimalrouter.Net.Show.{decimal}
use minimalrouter.Prelude.{
  Bool-cases, Bytes, Message, Option-cases, Result-cases, arith, bytes_eq, bytes_eq_refl,
  bytes_eq→eq, false, inl, inr, ltb, not, refl, some, sym, true, ◌++◌, ◌+◌, ◌<◌, ◌||◌, ◌∙◌, ◌≡◌,
  ◌≤◌,
}

module _ (env : Environment) (base : SystemConfig) where
  -- An unconfirmed change `p` whose deadline is past, and whose attempt counter is within its bound.
  pub record Expiring (p : PendingChange) (tx_id : Bytes) (m : Machine env) : Type 0 where
    durable : env.has_store ≡ true → last_saved base m.log ≡ m.engine.current_config
    idle : m.engine.applying ≡ false
    entered : p.tx < m.next
    baseline : m.engine.current_config ≡ p.previous
    successor : (m.heap p.tx).config.revision ≡ p.previous.revision + 1
    uncommitted : p.canonical_committed ≡ false
    named : (m.heap p.tx).id ≡ tx_id

  Frame-Expiring :
      (p : PendingChange) (tx_id : Bytes) (m m' : Machine env)
      → Frame env m m'
      → m'.engine.applying ≡ false
      → Expiring p tx_id m
      → Expiring p tx_id m'
  Frame-Expiring p tx_id m m' f idle h = record {
    durable = λ st. f.saves base ∙ h.durable st ∙ sym f.current_config;
    idle = idle;
    entered = rw f.next h.entered;
    baseline = f.current_config ∙ h.baseline;
    successor = rw f.heap h.successor;
    uncommitted = h.uncommitted;
    named = rw f.heap h.named;
  }

  -- Another attempt counter or timer does not matter.
  pub set_pending-Expiring :
      (p q : PendingChange) (tx_id : Bytes) (m : Machine env)
      → Expiring p tx_id m
      → q.tx ≡ p.tx
      → q.previous ≡ p.previous
      → q.canonical_committed ≡ p.canonical_committed
      → Expiring q tx_id (set_pending env (some q) m)
  unfolding set_pending
  set_pending-Expiring p q tx_id m h tx previous status = record {
    durable = h.durable;
    idle = h.idle;
    entered = rw tx h.entered;
    baseline = rw previous h.baseline;
    successor = rw (tx, previous) h.successor;
    uncommitted = status ∙ h.uncommitted;
    named = rw tx h.named;
  }

  pub pending-Expiring :
      (p : PendingChange) (tx_id : Bytes) (m : Machine env)
      → Inv env base m
      → m.engine.pending ≡ some p
      → p.canonical_committed ≡ false
      → (m.heap p.tx).id ≡ tx_id
      → Expiring p tx_id m
  pending-Expiring p tx_id m h e c named =
      let s : PendingSound m.engine.current_config m.heap m.next p = rw e at h.pending_ok in
      record {
        durable = h.durable;
        idle = h.idle;
        entered = s.entered;
        baseline = s.baseline c;
        successor = s.successor;
        uncommitted = c;
        named = named;
      }

  audited-Inv :
      (p : PendingChange) (m : Machine env) → Inv env base m → Inv env base (audit_rollback env p m)
  unfolding audit_rollback
  audited-Inv p m h = audit_transaction-Inv env base p.tx p.previous.revision timeout_rollback m h

  give_up-Inv :
      (p : PendingChange) (tx_id : Bytes) (m : Machine env)
      → Expiring p tx_id m
      → Inv env base (give_up env p m)
  unfolding give_up set_state require_recovery
  give_up-Inv p tx_id m h =
      audited-Inv p _ (record { durable = h.durable; idle = h.idle; pending_ok = tt })

  restored-Inv :
      (p : PendingChange) (tx_id : Bytes) (m : Machine env)
      → Expiring p tx_id m
      → Inv env base (restored env p m)
  unfolding restored set_state
  restored-Inv p tx_id m h =
      audited-Inv p _ (record { durable = h.durable; idle = h.idle; pending_ok = tt })

  rearm-Inv :
      (p : PendingChange) (tx_id : Bytes) (reason : Message) (m : Machine env)
      → Expiring p tx_id m
      → p.rollback_attempts ≤ maximum_rollback_attempts
      → Inv env base (rearm env p tx_id reason m)
  unfolding rearm set_state set_pending
  rearm-Inv p tx_id reason m h bound = audited-Inv p _ (record {
    durable = h.durable;
    idle = h.idle;
    pending_ok = record {
      entered = h.entered;
      baseline = λ _. h.baseline;
      candidate = λ c. ground (arith, c, h.uncommitted);
      successor = rw (write_self p.tx _ m.heap) h.successor;
      armed = λ _. rw (write_self p.tx _ m.heap, h.named) (bytes_eq_refl tx_id);
      attempts = bound;
      waits = inr (rw (write_self p.tx _ m.heap) refl);
    };
  })

  try_rollback-Inv :
      (p : PendingChange) (tx_id : Bytes) (m : Machine env)
      → Expiring p tx_id m
      → p.rollback_attempts ≤ maximum_rollback_attempts
      → Inv env base (try_rollback env p tx_id m)
  unfolding try_rollback
  try_rollback-Inv p tx_id m h bound =
      elim (Result-cases (
        build_apply_request env (suffixed tx_id "-timeout-rollback-" ++ decimal p.rollback_attempts)
          p.previous)) [
            | inr (x, failed) ↦ rw (failed, try_rollback) (rearm-Inv p tx_id _ m h bound)
            | inl (req, built) ↦
                let m1 = (privileged env privileged_apply_timeout req m).1 in
                let h1 : Expiring p tx_id m1 =
                  Frame-Expiring p tx_id m m1 (privileged-Frame env privileged_apply_timeout req m)
                    (privileged_idle env privileged_apply_timeout req m) h in
                rw (built, try_rollback)
                  (elim (Bool-cases
                    (is_rolled_back (privileged env privileged_apply_timeout req m).0)) [
                      | inl b ↦ rw (b, try_rollback) (restored-Inv p tx_id m1 h1)
                      | inr b ↦ rw (b, try_rollback) (rearm-Inv p tx_id _ m1 h1 bound)
                    ])
          ]

  pub expire-Inv :
      (p : PendingChange) (tx_id : Bytes) (m : Machine env)
      → Expiring p tx_id m
      → Inv env base (expire env p tx_id m)
  unfolding expire
  expire-Inv p tx_id m h =
      let p1 = record p { rollback_attempts = p.rollback_attempts + 1 } in
      let m1 = set_pending env (some p1) m in
      let h1 : Expiring p1 tx_id m1 = set_pending-Expiring p p1 tx_id m h refl refl refl in
      elim (Bool-cases (ltb maximum_rollback_attempts p1.rollback_attempts)) [
        | inl b ↦ rw (b, expire) (give_up-Inv p1 tx_id m1 h1)
        | inr b ↦ rw (b, expire) (try_rollback-Inv p1 tx_id m1 h1 (ground (arith, b)))
      ]

  -- A deadline that is past keeps the invariant, whichever thread says so.
  pub rollback_expired-Inv :
      (tx_id : Bytes) (m : Machine env)
      → Inv env base m
      → Inv env base (rollback_expired env tx_id m)
  unfolding rollback_expired
  rollback_expired-Inv tx_id m h = elim (Option-cases m.engine.pending) [
    | inl e ↦ rw (e, rollback_expired) h
    | inr (p, e) ↦
        elim (Bool-cases (not (bytes_eq (m.heap p.tx).id tx_id) || p.canonical_committed)) [
          | inl b ↦ rw (e, b, rollback_expired) h
          | inr b ↦
              let named : (m.heap p.tx).id ≡ tx_id =
                bytes_eq→eq (m.heap p.tx).id tx_id (ground (arith, b)) in
              rw (e, b, rollback_expired)
                (expire-Inv p tx_id m (pending-Expiring p tx_id m h e (ground (arith, b)) named))
        ]
  ]
