-- ===== src/Apply/Engine/Invariant/Confirmation.antt =====
-- The check of the tunnel and the commit of a confirmed candidate keep the invariant.

use minimalrouter.Apply.Engine.{CommitFn, Environment, Machine, PendingChange, seconds}
use minimalrouter.Apply.Engine.Confirm.{
  check_handshake, check_tunnel, commit_candidate, make_canonical, needs_handshake, query_tunnel,
  save, status_request, tunnel_of,
}
use minimalrouter.Apply.Engine.Frame.{last_saved, time_now-Frame}
use minimalrouter.Apply.Engine.Handshake.{verify_wg_client_handshake}
use minimalrouter.Apply.Engine.Invariant.{Inv}
use minimalrouter.Apply.Engine.Invariant.Confirm.{
  Frame-Waiting, Waiting, Waiting-Inv, acknowledge_confirmed-Inv, privileged-Waiting, write-Waiting,
}
use minimalrouter.Apply.Engine.Privileged.{persist, privileged, set_error, set_state, time_now}
use minimalrouter.Apply.Ipc.{TunnelStatus}
use minimalrouter.Config.Model.{SystemConfig}
use minimalrouter.Prelude.{
  Bool-cases, Bytes, Message, Option, Option-cases, arith, false, inl, inr, is_some, none, refl,
  some, true, ◌/◌, ◌^◌, ◌∙◌, ◌≡◌,
}
use minimalrouter.Prelude.Int.{pos}

time_now_idle :
    (env : Environment) (base : SystemConfig) (m : Machine env)
    → m.engine.applying ≡ false
    → (time_now env m).1.engine.applying ≡ false
unfolding time_now
time_now_idle env base m h = h

make_canonical-config :
    (env : Environment) (p : PendingChange) (candidate : SystemConfig) (m : Machine env)
    → (make_canonical env p candidate m).1.engine.current_config ≡ candidate
unfolding make_canonical
make_canonical-config env p candidate m = refl

module _ (env : Environment) (base : SystemConfig) where
  set_error-Waiting :
      (p : PendingChange) (e : Message) (m : Machine env)
      → Waiting env base p m
      → Waiting env base p (set_error env p.tx e m)
  unfolding set_error
  set_error-Waiting p e m h =
      write-Waiting env base p (record (m.heap p.tx) { error = some e }) m h refl refl h.sound.waits

  check_handshake-Waiting :
      (p : PendingChange) (candidate : SystemConfig) (tunnel : TunnelStatus) (m : Machine env)
      → Waiting env base p m
      → Waiting env base p (check_handshake env p candidate tunnel m).1
  unfolding check_handshake
  check_handshake-Waiting p candidate tunnel m h =
      let m1 = (time_now env m).1 in
      let h1 : Waiting env base p m1 =
        Frame-Waiting env base p m m1 (time_now-Frame env m) (time_now_idle env base m h.idle) h in
      elim (Option-cases (
        verify_wg_client_handshake tunnel.last_handshake candidate.wg_client.persistent_keepalive
          (some (pos p.handshake_not_before)) (pos ((time_now env m).0 / 10 ^ 9)))) [
            | inl e ↦ rw (e, check_handshake) h1
            | inr (x, e) ↦ rw (e, check_handshake) (set_error-Waiting p _ m1 h1)
          ]

  query_tunnel-Waiting :
      (p : PendingChange) (tx_id : Bytes) (candidate : SystemConfig) (m : Machine env)
      → Waiting env base p m
      → Waiting env base p (query_tunnel env p tx_id candidate m).1
  unfolding query_tunnel
  query_tunnel-Waiting p tx_id candidate m h =
      let a = privileged env (seconds 15) (status_request tx_id candidate) m in
      let h1 : Waiting env base p a.1 =
        privileged-Waiting env base p (seconds 15) (status_request tx_id candidate) m h in
      elim (Option-cases (tunnel_of a.0)) [
        | inl e ↦ rw (e, query_tunnel) (set_error-Waiting p _ a.1 h1)
        | inr (t, e) ↦ rw (e, query_tunnel) (check_handshake-Waiting p candidate t a.1 h1)
      ]

  pub check_tunnel-Waiting :
      (p : PendingChange) (tx_id : Bytes) (candidate : SystemConfig) (m : Machine env)
      → Waiting env base p m
      → Waiting env base p (check_tunnel env p tx_id candidate m).1
  unfolding check_tunnel
  check_tunnel-Waiting p tx_id candidate m h =
      elim (Bool-cases (needs_handshake env p.previous candidate)) [
        | inl b ↦ rw (b, check_tunnel) (query_tunnel-Waiting p tx_id candidate m h)
        | inr b ↦ rw (b, check_tunnel) h
      ]

  -- A configuration that the store refuses is not the one saved last, and one that it takes is.
  record Saved (p : PendingChange) (candidate : SystemConfig) (failed : Option Message)
      (m m' : Machine env) : Type 0 where
    heap : m'.heap ≡ m.heap
    refused : is_some failed ≡ true → Waiting env base p m → Waiting env base p m'
    idle : m'.engine.applying ≡ m.engine.applying
    next : m'.next ≡ m.next
    taken : failed ≡ none → env.has_store ≡ true → last_saved base m'.log ≡ candidate

  persist-Saved :
      (p : PendingChange) (candidate : SystemConfig) (f : CommitFn env.World) (m : Machine env)
      → Saved p candidate (persist env f candidate m).0 m (persist env f candidate m).1
  unfolding persist
  persist-Saved p candidate f m = record {
    heap = refl;
    refused = λ e h. record {
      durable = λ st. elim (Option-cases (f candidate m.world).0) [
        | inl x ↦ ground (arith, e, x)
        | inr (y, x) ↦ rw x (h.durable st)
      ];
      idle = h.idle;
      pending = h.pending;
      sound = h.sound;
    };
    idle = refl;
    next = refl;
    taken = λ e st. rw e refl;
  }

  save-Saved :
      (p : PendingChange) (candidate : SystemConfig) (m : Machine env)
      → Saved p candidate (save env candidate m).0 m (save env candidate m).1
  unfolding save
  save-Saved p candidate m = elim (Bool-cases env.has_store) [
    | inl b ↦ rw (b, save) (persist-Saved p candidate env.save_config m)
    | inr b ↦
        rw (b, save)
          (record {
            heap = refl;
            refused = λ e h. h;
            idle = refl;
            next = refl;
            taken = λ e st. ground (arith, b, st);
          })
  ]

  make_canonical-Waiting :
      (p : PendingChange) (failed : Option Message) (m m' : Machine env)
      → Waiting env base p m
      → Saved p (m.heap p.tx).config failed m m'
      → failed ≡ none
      → Waiting env base
          (make_canonical env p (m.heap p.tx).config m').0
          (make_canonical env p (m.heap p.tx).config m').1
  unfolding make_canonical
  make_canonical-Waiting p failed m m' h s e = record {
    durable = s.taken e;
    idle = s.idle ∙ h.idle;
    pending = refl;
    sound = record {
      entered = rw s.next h.sound.entered;
      baseline = λ b. ground (arith, b);
      candidate = λ _. rw s.heap refl;
      successor = rw s.heap h.sound.successor;
      armed = λ b. ground (arith, b);
      attempts = h.sound.attempts;
      waits = rw s.heap h.sound.waits;
    };
  }

  pub commit_candidate-Inv :
      (p : PendingChange) (tx_id : Bytes) (m : Machine env)
      → Waiting env base p m
      → Inv env base (commit_candidate env p tx_id (m.heap p.tx).config m).1
  unfolding commit_candidate set_state
  commit_candidate-Inv p tx_id m h =
      let candidate = (m.heap p.tx).config in
      let m1 = (save env candidate m).1 in
      let s : Saved p candidate (save env candidate m).0 m m1 = save-Saved p candidate m in
      elim (Option-cases (save env candidate m).0) [
        | inr (x, e) ↦
            rw (e, commit_candidate)
              (Waiting-Inv env base p _
                (write-Waiting env base p _ m1 (s.refused (rw e refl) h) refl refl (inr refl)))
        | inl e ↦
            rw (e, commit_candidate)
              (acknowledge_confirmed-Inv env base _ tx_id candidate _
                (make_canonical-Waiting p _ m m1 h s e) (make_canonical-config env p candidate m1))
      ]
