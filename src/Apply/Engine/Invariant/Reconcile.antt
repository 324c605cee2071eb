-- ===== src/Apply/Engine/Invariant/Reconcile.antt =====
-- `reconcile` keeps the invariant.

use minimalrouter.Apply.Engine.{Environment, Machine, PendingChange, require_recovery}
use minimalrouter.Apply.Engine.Frame.{
  Frame, Frame-trans, apply_privileged-Frame, set_applying-Frame,
}
use minimalrouter.Apply.Engine.Invariant.{Inv, Settled, Settled-Inv}
use minimalrouter.Apply.Engine.Privileged.{
  apply_privileged, build_apply_request, set_applying, time_now,
}
use minimalrouter.Apply.Engine.Reconcile.{
  reconcile, block, clear_recovery, is_reconciled, reconcile_outcome, settle, settle_pending,
}
use minimalrouter.Apply.Ipc.{ApplyRequest, ApplyResponse, OperationType}
use minimalrouter.Config.Model.{SystemConfig}
use minimalrouter.Net.Show.{decimal}
use minimalrouter.Prelude.{
  Bool-cases, Message, Option-cases, Result, Result-cases, arith, codes, err, false, inl, inr, none,
  ok, refl, sym, true, ℕ, ◌++◌, ◌∙◌, ◌≡◌,
}

module _ (env : Environment) (base : SystemConfig) where
  -- The transaction of the pending change is not read once the change is settled.
  clear_recovery-Inv : (m : Machine env) → Inv env base m → Inv env base (clear_recovery env m)
  unfolding clear_recovery
  clear_recovery-Inv m h = record { durable = h.durable; idle = h.idle; pending_ok = h.pending_ok }

  pub require_recovery-Inv :
      (reason : Message) (m : Machine env)
      → Inv env base m
      → Inv env base (record m { engine = require_recovery reason m.engine })
  unfolding require_recovery
  require_recovery-Inv reason m h = record {
    durable = h.durable;
    idle = h.idle;
    pending_ok = h.pending_ok;
  }

  block-Inv :
      (reason : Message) (m : Machine env) → Inv env base m → Inv env base (block env reason m).1
  unfolding block
  block-Inv reason m h = require_recovery-Inv reason m h

  settle-Settled :
      (p : PendingChange) (m : Machine env) → Inv env base m → Settled env base (settle env p m)
  unfolding settle time_now
  settle-Settled p m h = elim (Bool-cases p.canonical_committed) [
    | inl b ↦ rw (b, settle) (record { durable = h.durable; idle = h.idle; no_pending = refl })
    | inr b ↦ rw (b, settle) (record { durable = h.durable; idle = h.idle; no_pending = refl })
  ]

  settle_pending-Settled :
      (m : Machine env) → Inv env base m → Settled env base (settle_pending env m)
  unfolding settle_pending
  settle_pending-Settled m h = elim (Option-cases m.engine.pending) [
    | inl e ↦ rw (e, settle_pending) (record { durable = h.durable; idle = h.idle; no_pending = e })
    | inr (p, e) ↦ rw (e, settle_pending) (settle-Settled p m h)
  ]

  reconcile_outcome-Inv :
      (r : Result Message ApplyResponse) (m : Machine env)
      → Inv env base m
      → Inv env base (reconcile_outcome env r m).1
  unfolding reconcile_outcome
  reconcile_outcome-Inv (err e) m h = block-Inv _ m h
  reconcile_outcome-Inv (ok r) m h = elim (Bool-cases (is_reconciled r)) [
    | inl b ↦
        rw (b, reconcile_outcome)
          (clear_recovery-Inv _ (Settled-Inv env base _ (settle_pending-Settled m h)))
    | inr b ↦ rw (b, reconcile_outcome) (block-Inv _ m h)
  ]

  -- What the engine does not read of a machine may differ.
  pub Frame-Inv :
      (m m' : Machine env)
      → Frame env m m'
      → m'.engine.applying ≡ false
      → Inv env base m
      → Inv env base m'
  Frame-Inv m m' f idle h = record {
    durable = λ st. f.saves base ∙ h.durable st ∙ sym f.current_config;
    idle = idle;
    pending_ok = rw (f.current_config, f.heap, f.next, f.pending) h.pending_ok;
  }

  pub time_now-Inv : (m : Machine env) → Inv env base m → Inv env base (time_now env m).1
  unfolding time_now
  time_now-Inv m h = record { durable = h.durable; idle = h.idle; pending_ok = h.pending_ok }

  called-Frame :
      (deadline : ℕ) (req : ApplyRequest) (m : Machine env)
      → Frame env m
          (set_applying env false (apply_privileged env deadline req (set_applying env true m)).1)
  called-Frame deadline req m =
      let a = set_applying env true m in
      let b = (apply_privileged env deadline req a).1 in
      Frame-trans env m a _ (set_applying-Frame env true m) (
        Frame-trans env a b _ (apply_privileged-Frame env deadline req a)
          (set_applying-Frame env false b))

  called_idle :
      (deadline : ℕ) (req : ApplyRequest) (m : Machine env)
      → (set_applying env false
          (apply_privileged env deadline req (set_applying env true m)).1).engine.applying
        ≡ false
  unfolding set_applying
  called_idle deadline req m = refl

  -- Whatever the helper and the generators answer, a reconciliation keeps the invariant: the
  -- canonical configuration is the one saved last, if there is a store, no call is under way, and
  -- a change that still waits can be rolled back or is saved.
  pub reconcile-Inv :
      (deadline : ℕ) (m : Machine env) → Inv env base m → Inv env base (reconcile env deadline m).1
  unfolding reconcile
  reconcile-Inv deadline m h =
      let m1 = (time_now env m).1 in
      let h1 : Inv env base m1 = time_now-Inv m h in
      elim (Result-cases (
        build_apply_request env (codes "boot-reconcile-" ++ decimal (time_now env m).0)
          m1.engine.current_config)) [
            | inr (x, failed) ↦ rw (failed, reconcile) h1
            | inl (req, built) ↦
                let q = record req { op = OperationType.reconcile } in
                rw (built, reconcile)
                  (reconcile_outcome-Inv _ _
                    (Frame-Inv m1 _ (called-Frame deadline q m1) (called_idle deadline q m1) h1))
          ]

  reconcile_outcome-settles :
      (r : Result Message ApplyResponse) (m : Machine env)
      → Inv env base m
      → (reconcile_outcome env r m).0 ≡ ok tt
      → ((reconcile_outcome env r m).1.engine.pending ≡ none)
        × ((reconcile_outcome env r m).1.engine.recovery_required ≡ false)
  unfolding reconcile_outcome block clear_recovery
  reconcile_outcome-settles (err e) m h done = ground (arith, done)
  reconcile_outcome-settles (ok r) m h done = elim (Bool-cases (is_reconciled r)) [
    | inl b ↦ rw (b, reconcile_outcome) ((settle_pending-Settled m h).no_pending, refl)
    | inr b ↦ ground (arith, b, done)
  ]

  -- From a machine where the invariant holds, a reconciliation that succeeds leaves nothing pending
  -- and no recovery required.
  pub reconcile-settles :
      (deadline : ℕ) (m : Machine env)
      → Inv env base m
      → (reconcile env deadline m).0 ≡ ok tt
      → ((reconcile env deadline m).1.engine.pending ≡ none)
        × ((reconcile env deadline m).1.engine.recovery_required ≡ false)
  unfolding reconcile
  reconcile-settles deadline m h done =
      let m1 = (time_now env m).1 in
      let h1 : Inv env base m1 = time_now-Inv m h in
      elim (Result-cases (
        build_apply_request env (codes "boot-reconcile-" ++ decimal (time_now env m).0)
          m1.engine.current_config)) [
            | inr (x, failed) ↦ ground (arith, failed, done)
            | inl (req, built) ↦
                let q = record req { op = OperationType.reconcile } in
                rw (built, reconcile)
                  (reconcile_outcome-settles _ _
                    (Frame-Inv m1 _ (called-Frame deadline q m1) (called_idle deadline q m1) h1)
                    (rw (built, reconcile) at done))
          ]
