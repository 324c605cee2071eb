-- ===== src/Apply/Engine/Invariant/Confirm.antt =====
-- The end of a confirmation keeps the invariant: the acknowledgement by the helper and the last
-- reconciliation of a moved LAN.

use minimalrouter.Apply.Engine.{
  Environment, Machine, PendingChange, State, Transaction, awaiting_confirmation,
  privileged_apply_timeout, require_recovery, suffixed, write,
}
use minimalrouter.Apply.Engine.Confirm.{
  acknowledge_confirmed, complete, confirm_failure, confirm_request, finalize, finalize_failure,
  is_lan_moved, set_pending,
}
use minimalrouter.Apply.Engine.Frame.{Frame, last_saved, privileged-Frame, privileged_idle}
use minimalrouter.Apply.Engine.Invariant.{Inv, PendingSound}
use minimalrouter.Apply.Engine.Invariant.Outcome.{write_self}
use minimalrouter.Apply.Engine.Outcome.{recover}
use minimalrouter.Apply.Engine.Privileged.{build_apply_request, privileged, set_state, time_now}
use minimalrouter.Apply.Ipc.{ApplyRequest, OperationType}
use minimalrouter.Config.Model.{SystemConfig}
use minimalrouter.Prelude.{
  Bool-cases, Bytes, Message, Option, Option-cases, Result-cases, false, inl, inr, refl, some, sym,
  true, ℕ, ◌+◌, ◌∙◌, ◌≡◌, ◌⊎◌,
}

set_pending-config :
    (env : Environment) (p : Option PendingChange) (m : Machine env)
    → (set_pending env p m).engine.current_config ≡ m.engine.current_config
unfolding set_pending
set_pending-config env p m = refl

module _ (env : Environment) (base : SystemConfig) where
  -- The invariant where the change `p` is pending.
  pub record Waiting (p : PendingChange) (m : Machine env) : Type 0 where
    pub durable : env.has_store ≡ true → last_saved base m.log ≡ m.engine.current_config
    pub idle : m.engine.applying ≡ false
    pub pending : m.engine.pending ≡ some p
    pub sound : PendingSound m.engine.current_config m.heap m.next p

  pub Waiting-Inv : (p : PendingChange) (m : Machine env) → Waiting p m → Inv env base m
  Waiting-Inv p m h = record {
    durable = h.durable;
    idle = h.idle;
    pending_ok = rw h.pending h.sound;
  }

  pub Frame-Waiting :
      (p : PendingChange) (m m' : Machine env)
      → Frame env m m'
      → m'.engine.applying ≡ false
      → Waiting p m
      → Waiting p m'
  Frame-Waiting p m m' f idle h = record {
    durable = λ st. f.saves base ∙ h.durable st ∙ sym f.current_config;
    idle = idle;
    pending = f.pending ∙ h.pending;
    sound = rw (f.current_config, f.heap, f.next) h.sound;
  }

  -- The pending transaction may change, but not its configuration, nor to a state that ends it.
  pub write-Waiting :
      (p : PendingChange) (t : Transaction) (m : Machine env)
      → Waiting p m
      → t.config ≡ (m.heap p.tx).config
      → t.id ≡ (m.heap p.tx).id
      → (t.current_state ≡ awaiting_confirmation) ⊎ (t.current_state ≡ State.recovery_required)
      → Waiting p (record m { heap = write p.tx t m.heap })
  write-Waiting p t m h same name state = record {
    durable = h.durable;
    idle = h.idle;
    pending = h.pending;
    sound = record {
      entered = h.sound.entered;
      baseline = h.sound.baseline;
      candidate = λ c. rw (write_self p.tx t m.heap, same) (h.sound.candidate c);
      successor = rw (write_self p.tx t m.heap, same) h.sound.successor;
      armed = rw (write_self p.tx t m.heap, name) h.sound.armed;
      attempts = h.sound.attempts;
      waits = rw (write_self p.tx t m.heap) state;
    };
  }

  recover-Inv :
      (p : PendingChange) (msg returned : Message) (m : Machine env)
      → Waiting p m
      → Inv env base (recover env p.tx msg returned m).1
  unfolding recover set_state require_recovery
  recover-Inv p msg returned m h =
      let i = Waiting-Inv p _ (
        write-Waiting p
          (record (m.heap p.tx) { current_state = State.recovery_required; error = some msg }) m h
          refl refl (inr refl)) in
      record { durable = i.durable; idle = i.idle; pending_ok = i.pending_ok }

  pub privileged-Waiting :
      (p : PendingChange) (timeout : ℕ) (req : ApplyRequest) (m : Machine env)
      → Waiting p m
      → Waiting p (privileged env timeout req m).1
  privileged-Waiting p timeout req m h =
      Frame-Waiting p m _ (privileged-Frame env timeout req m) (privileged_idle env timeout req m) h

  -- Behind the commit: the candidate is the canonical configuration.
  complete-Inv :
      (p : PendingChange) (candidate : SystemConfig) (m : Machine env)
      → Waiting p m
      → m.engine.current_config ≡ candidate
      → Inv env base (complete env p candidate m).1
  unfolding complete time_now
  complete-Inv p candidate m h e = record {
    durable = λ st. h.durable st ∙ e;
    idle = h.idle;
    pending_ok = tt;
  }

  finalize-Inv :
      (p : PendingChange) (tx_id : Bytes) (candidate : SystemConfig) (m : Machine env)
      → Waiting p m
      → m.engine.current_config ≡ candidate
      → Inv env base (finalize env p tx_id candidate m).1
  unfolding finalize
  finalize-Inv p tx_id candidate m h e =
      elim (Result-cases (build_apply_request env (suffixed tx_id "-finalize-lan") candidate)) [
        | inr (x, failed) ↦ rw (failed, finalize) (recover-Inv p _ _ m h)
        | inl (req, built) ↦
            let q = record req { op = OperationType.reconcile } in
            let m1 = (privileged env privileged_apply_timeout q m).1 in
            let h1 : Waiting p m1 = privileged-Waiting p privileged_apply_timeout q m h in
            let f : Frame env m m1 = privileged-Frame env privileged_apply_timeout q m in
            rw (built, finalize)
              (elim (Option-cases
                (finalize_failure (privileged env privileged_apply_timeout q m).0)) [
                  | inr (msg, x) ↦ rw (x, finalize) (recover-Inv p msg _ m1 h1)
                  | inl x ↦ rw (x, finalize) (complete-Inv p candidate m1 h1 (f.current_config ∙ e))
                ])
      ]

  set_pending-Waiting :
      (p q : PendingChange) (m : Machine env)
      → Waiting p m
      → q ≡ record p { commit_attempts = q.commit_attempts }
      → Waiting q (set_pending env (some q) m)
  unfolding set_pending
  set_pending-Waiting p q m h e = record {
    durable = h.durable;
    idle = h.idle;
    pending = refl;
    sound = rw e (record {
      entered = h.sound.entered;
      baseline = h.sound.baseline;
      candidate = h.sound.candidate;
      successor = h.sound.successor;
      armed = h.sound.armed;
      attempts = h.sound.attempts;
      waits = h.sound.waits;
    });
  }

  pub acknowledge_confirmed-Inv :
      (p : PendingChange) (tx_id : Bytes) (candidate : SystemConfig) (m : Machine env)
      → Waiting p m
      → m.engine.current_config ≡ candidate
      → Inv env base (acknowledge_confirmed env p tx_id candidate m).1
  unfolding acknowledge_confirmed
  acknowledge_confirmed-Inv p tx_id candidate m h e =
      let p1 = record p { commit_attempts = p.commit_attempts + 1 } in
      let m0 = set_pending env (some p1) m in
      let req = confirm_request tx_id p1.commit_attempts candidate in
      let m1 = (privileged env privileged_apply_timeout req m0).1 in
      let h1 : Waiting p1 m1 =
        privileged-Waiting p1 privileged_apply_timeout req m0 (set_pending-Waiting p p1 m h refl) in
      let e1 : m1.engine.current_config ≡ candidate =
        (privileged-Frame env privileged_apply_timeout req m0).current_config
        ∙ set_pending-config env (some p1) m
        ∙ e in
      elim (Option-cases (confirm_failure (privileged env privileged_apply_timeout req m0).0)) [
        | inr (msg, x) ↦ rw (x, acknowledge_confirmed) (recover-Inv p1 msg _ m1 h1)
        | inl x ↦
            rw (x, acknowledge_confirmed)
              (elim (Bool-cases (is_lan_moved p1.previous candidate)) [
                | inl b ↦ rw (b, acknowledge_confirmed) (finalize-Inv p1 tx_id candidate m1 h1 e1)
                | inr b ↦ rw (b, acknowledge_confirmed) (complete-Inv p1 candidate m1 h1 e1)
              ])
      ]
