-- ===== src/Apply/Engine/Invariant/Outcome.antt =====
-- What follows the answer of the helper to a change keeps the invariant: the refusal, the commit, its
-- acknowledgement, and the undo.

use minimalrouter.Apply.Engine.{
  CommitFn, Environment, Machine, State, Transaction, TxRef, committed, privileged_apply_timeout,
  require_recovery, suffixed, write,
}
use minimalrouter.Apply.Engine.Admission.{Change, Refusal, refuse}
use minimalrouter.Apply.Engine.Frame.{Frame, last_saved, privileged-Frame, privileged_idle}
use minimalrouter.Apply.Engine.Invariant.{Frame-Settled, Settled}
use minimalrouter.Apply.Engine.Outcome.{
  ack_failure, ack_request, acknowledge, adopt, commit_now, finish, is_restored, recover, undo,
}
use minimalrouter.Apply.Engine.Privileged.{
  build_apply_request, persist, privileged, set_config, set_state,
}
use minimalrouter.Apply.Ipc.{ApplyRequest}
use minimalrouter.Config.Model.{SystemConfig}
use minimalrouter.Prelude.{
  Bool, Bool-cases, Message, Option, Option-cases, Result-cases, arith, inl, inr, is_some, none,
  refl, some, text, true, ℕ, ◌∙◌, ◌≡◌,
}

pub write_self : (r : TxRef) (t : Transaction) (heap : TxRef → Transaction) → write r t heap r ≡ t
unfolding write
write_self r t heap = ground arith

pub set_config-config :
    (env : Environment) (r : TxRef) (cfg : SystemConfig) (m : Machine env)
    → ((set_config env r cfg m).heap r).config ≡ cfg
unfolding set_config
set_config-config env r cfg m = rw (write_self r (record (m.heap r) { config = cfg }) m.heap) refl

module _ (env : Environment) (base : SystemConfig) where
  pub set_state-Settled :
      (r : TxRef) (s : State) (e : Option Message) (m : Machine env)
      → Settled env base m
      → Settled env base (set_state env r s e m)
  unfolding set_state
  set_state-Settled r s e m h = record {
    durable = h.durable;
    idle = h.idle;
    no_pending = h.no_pending;
  }

  pub set_config-Settled :
      (r : TxRef) (cfg : SystemConfig) (m : Machine env)
      → Settled env base m
      → Settled env base (set_config env r cfg m)
  unfolding set_config
  set_config-Settled r cfg m h = record {
    durable = h.durable;
    idle = h.idle;
    no_pending = h.no_pending;
  }

  pub refuse-Settled :
      (r : TxRef) (f : Refusal) (m : Machine env)
      → Settled env base m
      → Settled env base (refuse env r f m).1
  unfolding refuse
  refuse-Settled r f m h = set_state-Settled r f.state (some f.shown_text) m h

  pub recover-Settled :
      (r : TxRef) (msg returned : Message) (m : Machine env)
      → Settled env base m
      → Settled env base (recover env r msg returned m).1
  unfolding recover require_recovery
  recover-Settled r msg returned m h =
      let s = set_state-Settled r State.recovery_required (some msg) m h in
      record { durable = s.durable; idle = s.idle; no_pending = s.no_pending }

  -- A configuration that is the one saved last, if there is a store, may become canonical.
  abbrev pub IsSaved : SystemConfig → Machine env → Type 0
  IsSaved cfg m = env.has_store ≡ true → last_saved base m.log ≡ cfg

  adopt-Settled :
      (cfg : SystemConfig) (m : Machine env)
      → Settled env base m
      → IsSaved cfg m
      → Settled env base (adopt env cfg m)
  unfolding adopt
  adopt-Settled cfg m h s = record { durable = s; idle = h.idle; no_pending = h.no_pending }

  pub finish-Settled :
      (r : TxRef) (cfg : SystemConfig) (m : Machine env)
      → Settled env base m
      → IsSaved cfg m
      → Settled env base (finish env r cfg m).1
  unfolding finish set_state
  finish-Settled r cfg m h s = adopt-Settled cfg _ (set_state-Settled r committed none m h) s

  pub privileged-Settled :
      (timeout : ℕ) (req : ApplyRequest) (m : Machine env)
      → Settled env base m
      → Settled env base (privileged env timeout req m).1
  privileged-Settled timeout req m h =
      Frame-Settled env base m _ (privileged-Frame env timeout req m)
        (privileged_idle env timeout req m) h

  pub acknowledge-Settled :
      (ch : Change env.World) (cfg : SystemConfig) (m : Machine env)
      → Settled env base m
      → IsSaved cfg m
      → Settled env base (acknowledge env ch cfg m).1
  unfolding acknowledge
  acknowledge-Settled ch cfg m h s =
      let req = ack_request ch.tx_id cfg in
      let a = (privileged env privileged_apply_timeout req m).0 in
      let m1 = (privileged env privileged_apply_timeout req m).1 in
      let f : Frame env m m1 = privileged-Frame env privileged_apply_timeout req m in
      let h1 : Settled env base m1 =
        Frame-Settled env base m m1 f (privileged_idle env privileged_apply_timeout req m) h in
      elim (Option-cases (ack_failure env a)) [
        | inl e ↦ rw (e, acknowledge) (finish-Settled ch.tx cfg m1 h1 (λ st. f.saves base ∙ s st))
        | inr (msg, e) ↦
            rw (e, acknowledge)
              (recover-Settled ch.tx msg (text "helper commit acknowledgement failed") m1 h1)
      ]

  pub undo-Settled :
      (ch : Change env.World) (e : Message) (m : Machine env)
      → Settled env base m
      → Settled env base (undo env ch e m).1
  unfolding undo
  undo-Settled ch e m h =
      elim (Result-cases
        (build_apply_request env (suffixed ch.tx_id "-rollback") m.engine.current_config)) [
          | inl (req, built) ↦
              let a = (privileged env privileged_apply_timeout req m).0 in
              let m1 = (privileged env privileged_apply_timeout req m).1 in
              let h1 : Settled env base m1 = privileged-Settled privileged_apply_timeout req m h in
              rw (built, undo)
                (elim (Bool-cases (is_restored env a)) [
                  | inl b ↦ rw (b, undo) (refuse-Settled ch.tx _ m1 h1)
                  | inr b ↦ rw (b, undo) (recover-Settled ch.tx _ e m1 h1)
                ])
          | inr (x, built) ↦ rw (built, undo) (recover-Settled ch.tx _ e m h)
        ]

  pub persist-Settled :
      (f : CommitFn env.World) (cfg : SystemConfig) (m : Machine env) (e : Message)
      → (persist env f cfg m).0 ≡ some e
      → Settled env base m
      → Settled env base (persist env f cfg m).1
  unfolding persist
  persist-Settled f cfg m e failed h =
      rw failed (record { durable = h.durable; idle = h.idle; no_pending = h.no_pending })

  persisted-Settled :
      (f : CommitFn env.World) (cfg : SystemConfig) (m : Machine env)
      → (persist env f cfg m).0 ≡ none
      → Settled env base m
      → Settled env base (adopt env cfg (persist env f cfg m).1)
  unfolding persist adopt
  persisted-Settled f cfg m done h =
      rw done (record { durable = λ st. refl; idle = h.idle; no_pending = h.no_pending })

  -- The change has a callback that persists it, if there is a store.
  abbrev pub IsBacked : Option (CommitFn env.World) → Type 0
  IsBacked commit = env.has_store ≡ true → is_some commit ≡ true

  pub commit_now-Settled :
      (ch : Change env.World) (cfg : SystemConfig) (defer : Bool)
      (commit : Option (CommitFn env.World)) (m : Machine env)
      → IsBacked commit
      → Settled env base m
      → Settled env base (commit_now env ch cfg defer commit m).1
  unfolding commit_now adopt
  commit_now-Settled ch cfg defer none m k h =
      finish-Settled ch.tx cfg m h (λ st. ground (arith, k st))
  commit_now-Settled ch cfg defer (some f) m k h =
      let m1 = (persist env f cfg m).1 in
      elim (Option-cases (persist env f cfg m).0) [
        | inr (e, failed) ↦
            rw (failed, commit_now) (undo-Settled ch e m1 (persist-Settled f cfg m e failed h))
        | inl done ↦
            let h1 : Settled env base (adopt env cfg m1) = persisted-Settled f cfg m done h in
            let s : IsSaved cfg (adopt env cfg m1) = h1.durable in
            rw (done, commit_now)
              (elim (Bool-cases defer) [
                | inl b ↦ rw (b, commit_now) (acknowledge-Settled ch cfg (adopt env cfg m1) h1 s)
                | inr b ↦ rw (b, commit_now) (finish-Settled ch.tx cfg (adopt env cfg m1) h1 s)
              ])
      ]
