-- ===== src/Apply/Engine/Invariant/Confirmed.antt =====
-- `confirm_transaction` keeps the invariant, on each of its returns.

use mathlib.Core.Path.{subst}
use minimalrouter.Apply.Engine.{
  Answer, Environment, Machine, PendingChange, Transaction, TxRef, seconds,
}
use minimalrouter.Apply.Engine.Confirm.{
  check_handshake, check_tunnel, commit_candidate, confirm_locked, confirm_pending,
  confirm_transaction, needs_handshake, query_tunnel, status_request, tunnel_of,
}
use minimalrouter.Apply.Engine.Frame.{privileged-Frame, time_now-Frame}
use minimalrouter.Apply.Engine.Handshake.{verify_wg_client_handshake}
use minimalrouter.Apply.Engine.Invariant.{Inv}
use minimalrouter.Apply.Engine.Invariant.Confirm.{Waiting, Waiting-Inv, acknowledge_confirmed-Inv}
use minimalrouter.Apply.Engine.Invariant.Confirmation.{check_tunnel-Waiting, commit_candidate-Inv}
use minimalrouter.Apply.Engine.Invariant.Outcome.{write_self}
use minimalrouter.Apply.Engine.Invariant.Process.{audit_transaction-Inv}
use minimalrouter.Apply.Engine.Privileged.{confirm_phase, privileged, set_error, time_now}
use minimalrouter.Apply.Ipc.{TunnelStatus}
use minimalrouter.Config.Model.{SystemConfig}
use minimalrouter.Prelude.{
  Bool-cases, Bytes, Message, Option-cases, ap, bytes_eq, if_cases, inl, inr, refl, some, ◌/◌, ◌^◌,
  ◌∙◌, ◌≡◌,
}
use minimalrouter.Prelude.Int.{pos}

module _ (env : Environment) (base : SystemConfig) where
  set_error-config :
      (r : TxRef) (e : Message) (m : Machine env)
      → ((set_error env r e m).heap r).config ≡ (m.heap r).config
  unfolding set_error
  set_error-config r e m = rw (write_self r (record (m.heap r) { error = some e }) m.heap) refl

  check_handshake-config :
      (p : PendingChange) (candidate : SystemConfig) (tunnel : TunnelStatus) (m : Machine env)
      → ((check_handshake env p candidate tunnel m).1.heap p.tx).config ≡ (m.heap p.tx).config
  unfolding check_handshake
  check_handshake-config p candidate tunnel m =
      let m1 = (time_now env m).1 in
      let same : (m1.heap p.tx).config ≡ (m.heap p.tx).config =
        ap (λ (k : TxRef → Transaction). (k p.tx).config) (time_now-Frame env m).heap in
      elim (Option-cases (
        verify_wg_client_handshake tunnel.last_handshake candidate.wg_client.persistent_keepalive
          (some (pos p.handshake_not_before)) (pos ((time_now env m).0 / 10 ^ 9)))) [
            | inl e ↦ rw (e, check_handshake) same
            | inr (x, e) ↦ rw (e, check_handshake) (set_error-config p.tx _ m1 ∙ same)
          ]

  query_tunnel-config :
      (p : PendingChange) (tx_id : Bytes) (candidate : SystemConfig) (m : Machine env)
      → ((query_tunnel env p tx_id candidate m).1.heap p.tx).config ≡ (m.heap p.tx).config
  unfolding query_tunnel
  query_tunnel-config p tx_id candidate m =
      let a = privileged env (seconds 15) (status_request tx_id candidate) m in
      let same : (a.1.heap p.tx).config ≡ (m.heap p.tx).config =
        ap (λ (k : TxRef → Transaction). (k p.tx).config)
          (privileged-Frame env (seconds 15) (status_request tx_id candidate) m).heap in
      elim (Option-cases (tunnel_of a.0)) [
        | inl e ↦ rw (e, query_tunnel) (set_error-config p.tx _ a.1 ∙ same)
        | inr (t, e) ↦ rw (e, query_tunnel) (check_handshake-config p candidate t a.1 ∙ same)
      ]

  check_tunnel-config :
      (p : PendingChange) (tx_id : Bytes) (candidate : SystemConfig) (m : Machine env)
      → ((check_tunnel env p tx_id candidate m).1.heap p.tx).config ≡ (m.heap p.tx).config
  unfolding check_tunnel
  check_tunnel-config p tx_id candidate m =
      elim (Bool-cases (needs_handshake env p.previous candidate)) [
        | inl b ↦ rw (b, check_tunnel) (query_tunnel-config p tx_id candidate m)
        | inr b ↦ rw (b, check_tunnel) refl
      ]

  confirm_locked-Inv :
      (p : PendingChange) (tx_id : Bytes) (m : Machine env)
      → Waiting env base p m
      → Inv env base (confirm_locked env p tx_id m).1
  unfolding confirm_locked
  confirm_locked-Inv p tx_id m h =
      let candidate = (m.heap p.tx).config in
      let a = check_tunnel env p tx_id candidate m in
      let h1 : Waiting env base p a.1 = check_tunnel-Waiting env base p tx_id candidate m h in
      if_cases (λ (r : Answer × Machine env). Inv env base r.1) p.canonical_committed _ _
        (λ b. acknowledge_confirmed-Inv env base p tx_id candidate m h (h.sound.candidate b))
        (λ b. elim (Option-cases a.0) [
          | inr (x, e) ↦ rw e (Waiting-Inv env base p a.1 h1)
          | inl e ↦ rw e (
              subst (λ c. Inv env base (commit_candidate env p tx_id c a.1).1)
                (check_tunnel-config p tx_id candidate m)
                (commit_candidate-Inv env base p tx_id a.1 h1))
        ])

  confirm_pending-Inv :
      (p : PendingChange) (tx_id : Bytes) (m : Machine env)
      → Waiting env base p m
      → Inv env base (confirm_pending env p tx_id m).1
  unfolding confirm_pending
  confirm_pending-Inv p tx_id m h = elim (Bool-cases (bytes_eq (m.heap p.tx).id tx_id)) [
    | inr b ↦ rw (b, confirm_pending) (Waiting-Inv env base p m h)
    | inl b ↦
        rw (b, confirm_pending)
          (audit_transaction-Inv env base p.tx p.previous.revision confirm_phase _
            (confirm_locked-Inv p tx_id m h))
  ]

  -- Whatever the helper, the store and the generators answer, a confirmation keeps the invariant:
  -- the canonical configuration is the one saved last, if there is a store, and a change that
  -- still waits either is not saved and can be rolled back by its armed timer, or is the
  -- canonical configuration.
  pub confirm_transaction-Inv :
      (tx_id : Bytes) (m : Machine env)
      → Inv env base m
      → Inv env base (confirm_transaction env tx_id m).1
  unfolding confirm_transaction
  confirm_transaction-Inv tx_id m h = elim (Option-cases m.engine.pending) [
    | inl e ↦ rw (e, confirm_transaction) h
    | inr (p, e) ↦
        rw (e, confirm_transaction)
          (confirm_pending-Inv p tx_id m (record {
            durable = h.durable;
            idle = h.idle;
            pending = e;
            sound = rw e at h.pending_ok;
          }))
  ]
