-- ===== src/Apply/Engine/Invariant/Activate.antt =====
-- The activation of a change keeps the invariant: the call of the helper and the wait for a confirmation.

use minimalrouter.Apply.Engine.{
  CommitFn, Environment, Machine, State, Transaction, TxRef, applied, privileged_apply_timeout,
  verified, write,
}
use minimalrouter.Apply.Engine.Admission.{Change}
use minimalrouter.Apply.Engine.Frame.{Frame, privileged-Frame, privileged_idle}
use minimalrouter.Apply.Engine.Invariant.{Frame-Settled, Inv, Settled, Settled-Inv}
use minimalrouter.Apply.Engine.Invariant.Outcome.{
  IsBacked, commit_now-Settled, recover-Settled, refuse-Settled, set_config-Settled,
  set_config-config, set_state-Settled, write_self,
}
use minimalrouter.Apply.Engine.Outcome.{
  applied_outcome, apply_outcome, await_confirmation, helper_refused, refused_state,
}
use minimalrouter.Apply.Engine.Privileged.{privileged, set_config, set_state, time_now}
use minimalrouter.Apply.Engine.Process.{activate, apply_request, commit_config}
use minimalrouter.Apply.Ipc.{ApplyRequest, ApplyResponse}
use minimalrouter.Config.Model.{SystemConfig}
use minimalrouter.Prelude.{
  Bool-cases, Message, Option, Result, arith, bytes_eq_refl, err, false, inl, inr, none, ok, refl,
  some, ℕ, ◌+◌, ◌<◌, ◌∙◌, ◌≡◌,
}

module _ (env : Environment) (base : SystemConfig) where
  -- Before the call of the helper: nothing is pending, and `ch` is about the configuration that runs.
  pub record Ready (ch : Change env.World) (m : Machine env) : Type 0 where
    pub settled : Settled env base m
    pub current : m.engine.current_config ≡ ch.current
    pub entered : ch.tx < m.next
    pub named : (m.heap ch.tx).id ≡ ch.tx_id

  write_id :
      (r q : TxRef) (t : Transaction) (heap : TxRef → Transaction)
      → t.id ≡ (heap r).id
      → (write r t heap q).id ≡ (heap q).id
  unfolding write
  write_id r q t heap e = ground (arith, e)

  pub Frame-Ready :
      (ch : Change env.World) (m m' : Machine env)
      → Frame env m m'
      → m'.engine.applying ≡ false
      → Ready ch m
      → Ready ch m'
  Frame-Ready ch m m' f idle h = record {
    settled = Frame-Settled env base m m' f idle h.settled;
    current = f.current_config ∙ h.current;
    entered = rw f.next h.entered;
    named = rw f.heap h.named;
  }

  pub set_state-Ready :
      (ch : Change env.World) (r : TxRef) (s : State) (e : Option Message) (m : Machine env)
      → Ready ch m
      → Ready ch (set_state env r s e m)
  unfolding set_state
  set_state-Ready ch r s e m h = record {
    settled = set_state-Settled env base r s e m h.settled;
    current = h.current;
    entered = h.entered;
    named = write_id r ch.tx _ m.heap refl ∙ h.named;
  }

  pub set_config-Ready :
      (ch : Change env.World) (r : TxRef) (cfg : SystemConfig) (m : Machine env)
      → Ready ch m
      → Ready ch (set_config env r cfg m)
  unfolding set_config
  set_config-Ready ch r cfg m h = record {
    settled = set_config-Settled env base r cfg m h.settled;
    current = h.current;
    entered = h.entered;
    named = write_id r ch.tx _ m.heap refl ∙ h.named;
  }

  await_confirmation-Inv :
      (ch : Change env.World) (not_before : ℕ) (m : Machine env)
      → Ready ch m
      → (m.heap ch.tx).config.revision ≡ ch.current.revision + 1
      → Inv env base (await_confirmation env ch not_before m).1
  unfolding await_confirmation time_now
  await_confirmation-Inv ch not_before m h successor = record {
    durable = h.settled.durable;
    idle = h.settled.idle;
    pending_ok = record {
      entered = h.entered;
      baseline = λ _. h.current;
      candidate = λ b. ground arith;
      successor = rw (write_self ch.tx _ m.heap) successor;
      armed = λ _. rw (write_self ch.tx _ m.heap, h.named) (bytes_eq_refl ch.tx_id);
      attempts = omega arith;
      waits = inl (rw (write_self ch.tx _ m.heap) refl);
    };
  }

  helper_refused-Settled :
      (r : TxRef) (resp : ApplyResponse) (m : Machine env)
      → Settled env base m
      → Settled env base (helper_refused env r resp m).1
  unfolding helper_refused
  helper_refused-Settled r resp m h = elim (Bool-cases resp.recovery_required) [
    | inl b ↦ rw (b, helper_refused) (recover-Settled env base r _ _ m h)
    | inr b ↦ rw (b, helper_refused) (refuse-Settled env base r _ m h)
  ]

  applied_outcome-Inv :
      (ch : Change env.World) (cfg : SystemConfig) (req : ApplyRequest)
      (commit : Option (CommitFn env.World)) (not_before : ℕ) (resp : ApplyResponse)
      (m : Machine env)
      → Ready ch m
      → IsBacked env base commit
      → cfg.revision ≡ ch.current.revision + 1
      → Inv env base (applied_outcome env ch cfg req commit not_before resp m).1
  unfolding applied_outcome helper_refused refused_state
  applied_outcome-Inv ch cfg req commit not_before resp m h k successor =
      let m1 = set_state env ch.tx applied none m in
      let m2 = set_config env ch.tx cfg (set_state env ch.tx verified none m1) in
      let h1 : Ready ch m1 = set_state-Ready ch ch.tx applied none m h in
      let h2 : Ready ch m2 =
        set_config-Ready ch ch.tx cfg _ (set_state-Ready ch ch.tx verified none m1 h1) in
      elim (Bool-cases resp.success) [
        | inr b ↦
            rw (b, applied_outcome)
              (Settled-Inv env base _ (helper_refused-Settled ch.tx resp m h.settled))
        | inl b ↦ elim (Bool-cases resp.verified) [
          | inr v ↦
              rw (b, v, applied_outcome)
                (Settled-Inv env base _ (recover-Settled env base ch.tx _ _ m1 h1.settled))
          | inl v ↦ elim (Bool-cases req.require_confirmation) [
            | inl c ↦
                rw (b, v, c, applied_outcome)
                  (await_confirmation-Inv ch not_before m2 h2
                    (rw (set_config-config env ch.tx cfg _) successor))
            | inr c ↦
                rw (b, v, c, applied_outcome)
                  (Settled-Inv env base _
                    (commit_now-Settled env base ch cfg req.defer_last_good commit m2 k h2.settled))
          ]
        ]
      ]

  apply_outcome-Inv :
      (ch : Change env.World) (cfg : SystemConfig) (req : ApplyRequest)
      (commit : Option (CommitFn env.World)) (not_before : ℕ) (r : Result Message ApplyResponse)
      (m : Machine env)
      → Ready ch m
      → IsBacked env base commit
      → cfg.revision ≡ ch.current.revision + 1
      → Inv env base (apply_outcome env ch cfg req commit not_before r m).1
  unfolding apply_outcome
  apply_outcome-Inv ch cfg req commit not_before (ok resp) m h k s =
      applied_outcome-Inv ch cfg req commit not_before resp m h k s
  apply_outcome-Inv ch cfg req commit not_before (err e) m h k s =
      Settled-Inv env base _ (recover-Settled env base ch.tx _ _ m h.settled)

  commit_config-IsBacked :
      (c : Option (CommitFn env.World)) → IsBacked env base (commit_config env c)
  unfolding commit_config
  commit_config-IsBacked (some c) st = refl
  commit_config-IsBacked none st = rw (st, commit_config) refl

  privileged-Ready :
      (ch : Change env.World) (timeout : ℕ) (req : ApplyRequest) (m : Machine env)
      → Ready ch m
      → Ready ch (privileged env timeout req m).1
  privileged-Ready ch timeout req m h =
      Frame-Ready ch m _ (privileged-Frame env timeout req m) (privileged_idle env timeout req m) h

  pub time_now-Ready :
      (ch : Change env.World) (m : Machine env) → Ready ch m → Ready ch (time_now env m).1
  unfolding time_now
  time_now-Ready ch m h = record {
    settled = record {
      durable = h.settled.durable;
      idle = h.settled.idle;
      no_pending = h.settled.no_pending;
    };
    current = h.current;
    entered = h.entered;
    named = h.named;
  }

  pub activate-Inv :
      (ch : Change env.World) (cfg : SystemConfig) (req : ApplyRequest) (m : Machine env)
      → Ready ch m
      → cfg.revision ≡ ch.current.revision + 1
      → Inv env base (activate env ch cfg req m).1
  unfolding activate
  activate-Inv ch cfg req m h s =
      let m1 = (time_now env m).1 in
      apply_outcome-Inv ch cfg _ (commit_config env ch.commit) _ _ _
        (privileged-Ready ch privileged_apply_timeout (apply_request env ch cfg req) m1
          (time_now-Ready ch m h))
        (commit_config-IsBacked ch.commit) s
