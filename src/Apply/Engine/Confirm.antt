-- ===== src/Apply/Engine/Confirm.antt =====
-- engine.rs, `confirm_transaction` and `confirm_locked`: the operator confirms a change that runs. Each
-- function is a stretch of `confirm_locked` up to its next call or early return.

use minimalrouter.Apply.Engine.{
  Answer, Environment, Machine, PendingChange, State, Transaction, committed,
  privileged_apply_timeout, seconds, stop, suffixed, write,
}
use minimalrouter.Apply.Engine.Handshake.{
  HandshakeError, handshake_stale, new_handshake_required, no_completed_handshake,
  timestamp_in_future, verify_wg_client_handshake,
}
use minimalrouter.Apply.Engine.Outcome.{recover}
use minimalrouter.Apply.Engine.Privileged.{
  attempt, audit_transaction, build_apply_request, confirm_phase, new_request, persist, privileged,
  set_error, set_state, time_now,
}
use minimalrouter.Apply.Ipc.{
  ApplyRequest, ApplyResponse, OperationType, TunnelStatus, commit_confirmed, wg_tunnel_status,
}
use minimalrouter.Config.Model.{SystemConfig}
use minimalrouter.Config.Policy.{equal_json}
use minimalrouter.Net.Show.{decimal}
use minimalrouter.Prelude.{
  Bool, Bytes, Message, Option, Result, bytes_eq, err, false, if◌then◌else◌, none, not, ok,
  shown_error, some, text, true, ℕ, ◌&&◌, ◌++◌, ◌+◌, ◌/◌, ◌<>◌, ◌^◌, ◌||◌,
}
use minimalrouter.Prelude.Int.{pos}

abbrev pub not_awaiting : Message
not_awaiting = text "transaction is not awaiting confirmation"

abbrev pub handshake_text : HandshakeError → Message
handshake_text no_completed_handshake = text "WireGuard client tunnel has no completed handshake"
handshake_text timestamp_in_future = text "WireGuard client handshake timestamp is in the future"
handshake_text new_handshake_required =
    text "WireGuard client requires a new handshake after configuration activation"
handshake_text handshake_stale = text "WireGuard client handshake is stale"

abbrev handshake_prefix : Message → Message
handshake_prefix e = text "WireGuard client confirmation failed: " <> e

-- The tunnel that a status answer shows.
unfoldable pub tunnel_of : Result Message ApplyResponse → Option TunnelStatus
tunnel_of (err e) = none
tunnel_of (ok r) = if r.success then r.tunnel_status else none

unfoldable pub confirm_failure : Result Message ApplyResponse → Option Message
confirm_failure (err e) = some (
    text "canonical configuration was committed but helper last-good acknowledgement is unknown: "
    <> e)
confirm_failure (ok r) =
    if not r.success || not r.verified
    then some (
        text "canonical configuration was committed but helper last-good acknowledgement failed: "
        <> shown_error r.error)
    else none

unfoldable pub finalize_failure : Result Message ApplyResponse → Option Message
finalize_failure (err e) = some (
    text "canonical LAN configuration was committed but final runtime reconciliation is unknown: "
    <> e)
finalize_failure (ok r) =
    if not r.success || not r.verified
    then some (
        text "canonical LAN configuration was committed but final runtime reconciliation failed: "
        <> shown_error r.error)
    else none

unfoldable pub is_lan_moved : SystemConfig → SystemConfig → Bool
is_lan_moved previous candidate =
    not (bytes_eq previous.lan.ip_address candidate.lan.ip_address)
    || not (bytes_eq previous.lan.cidr candidate.lan.cidr)

unfoldable pub status_request : Bytes → SystemConfig → ApplyRequest
status_request tx_id candidate =
    let base = new_request (suffixed tx_id "-wg1-status") wg_tunnel_status 0 candidate in
    record base { tunnel_interface = candidate.wg_client.interface }

unfoldable pub confirm_request : Bytes → ℕ → SystemConfig → ApplyRequest
confirm_request tx_id attempt candidate =
    let id = suffixed tx_id "-commit-confirmed-" ++ decimal attempt in
    let base = new_request id commit_confirmed candidate.revision candidate in
    record base { skip_wan_verify = true }

module _ (env : Environment) where
  unfoldable pub set_pending : Option PendingChange → Machine env → Machine env
  set_pending p m = record m { engine = record m.engine { pending = p } }

  -- The handshake that a changed outbound tunnel must have made since the change ran.
  unfoldable pub check_handshake :
      PendingChange → SystemConfig → TunnelStatus → Machine env → Option Message × Machine env
  check_handshake p candidate tunnel m =
      let (now, m1) = time_now env m in
      elim (verify_wg_client_handshake tunnel.last_handshake
        candidate.wg_client.persistent_keepalive (some (pos p.handshake_not_before))
        (pos (now / 10 ^ 9))) [
          | none ↦ (none, m1)
          | some e ↦
              (some (handshake_text e), set_error env p.tx (handshake_prefix (handshake_text e)) m1)
        ]

  unfoldable pub query_tunnel :
      PendingChange → Bytes → SystemConfig → Machine env → Option Message × Machine env
  query_tunnel p tx_id candidate m =
      let (answer, m1) = privileged env (seconds 15) (status_request tx_id candidate) m in
      let unavailable = text "WireGuard client confirmation failed: tunnel status is unavailable" in
      elim (tunnel_of answer) [
        | none ↦ (some unavailable, set_error env p.tx unavailable m1)
        | some tunnel ↦ check_handshake p candidate tunnel m1
      ]

  unfoldable pub needs_handshake : SystemConfig → SystemConfig → Bool
  needs_handshake previous candidate =
      not (
        equal_json (env.json.wg_client previous.wg_client) (env.json.wg_client candidate.wg_client))
      && candidate.wg_client.enabled

  unfoldable pub check_tunnel :
      PendingChange → Bytes → SystemConfig → Machine env → Option Message × Machine env
  check_tunnel p tx_id candidate m =
      if needs_handshake p.previous candidate then query_tunnel p tx_id candidate m else (none, m)

  -- The end of a confirmed change.
  unfoldable pub complete : PendingChange → SystemConfig → Machine env → Answer × Machine env
  complete p candidate m =
      let (now, m1) = time_now env m in
      let tx = m1.heap p.tx in
      let done : Transaction = record tx { confirmed_at = some now; current_state = committed } in
      (
        ok tt,
        record m1 {
          heap = write p.tx done m1.heap;
          engine = record m1.engine {
            current_config = candidate;
            pending = none;
            active_tx = some p.tx;
            recovery_required = false;
            recovery_reason = none;
          };
        },
      )

  -- A moved LAN is reconciled once more behind the commit.
  unfoldable pub finalize :
      PendingChange → Bytes → SystemConfig → Machine env → Answer × Machine env
  finalize p tx_id candidate m =
      elim (build_apply_request env (suffixed tx_id "-finalize-lan") candidate) [
        | err (what, e) ↦
            recover env p.tx
              (text
                  "canonical LAN configuration was committed but final federation request could not be generated: "
                <> e)
              e m
        | ok req ↦
            let (answer, m1) =
              privileged env privileged_apply_timeout (record req { op = OperationType.reconcile })
                m in
            elim (finalize_failure answer) [
              | some msg ↦ recover env p.tx msg (text "LAN runtime finalization failed") m1
              | none ↦ complete p candidate m1
            ]
      ]

  -- The helper's acknowledgement of a candidate that the store holds.
  unfoldable pub acknowledge_confirmed :
      PendingChange → Bytes → SystemConfig → Machine env → Answer × Machine env
  acknowledge_confirmed p tx_id candidate m =
      let p1 = record p { commit_attempts = p.commit_attempts + 1 } in
      let (answer, m1) =
        privileged env privileged_apply_timeout (confirm_request tx_id p1.commit_attempts candidate)
          (set_pending (some p1) m) in
      elim (confirm_failure answer) [
        | some msg ↦ recover env p1.tx msg (text "confirmed helper commit failed") m1
        | none ↦
            if is_lan_moved p1.previous candidate
            then finalize p1 tx_id candidate m1
            else complete p1 candidate m1
      ]

  -- The candidate becomes canonical, and the deadline's timer is stopped.
  unfoldable pub make_canonical :
      PendingChange → SystemConfig → Machine env → PendingChange × Machine env
  make_canonical p candidate m =
      let p1 = record p { canonical_committed = true; timer = stop p.timer } in
      (p1, record m { engine = record m.engine { pending = some p1; current_config = candidate } })

  -- The store's answer; without a store there is none.
  unfoldable pub save : SystemConfig → Machine env → Option Message × Machine env
  save candidate m = if env.has_store then persist env env.save_config candidate m else (none, m)

  abbrev retry_text : Message
  retry_text =
      text
        "management-path confirmation succeeded but canonical configuration could not be committed; retry confirmation or allow verified rollback"

  unfoldable pub commit_candidate :
      PendingChange → Bytes → SystemConfig → Machine env → Answer × Machine env
  commit_candidate p tx_id candidate m =
      let (failed, m1) = save candidate m in
      elim failed [
        | some e ↦ (
          err (text "failed to commit confirmed configuration: " <> e),
          set_state env p.tx State.recovery_required (some retry_text) m1,
        )
        | none ↦
            let (p1, m2) = make_canonical p candidate m1 in
            acknowledge_confirmed p1 tx_id candidate m2
      ]

  unfoldable pub confirm_locked : PendingChange → Bytes → Machine env → Answer × Machine env
  confirm_locked p tx_id m =
      let candidate = (m.heap p.tx).config in
      let (failed, m1) = check_tunnel p tx_id candidate m in
      if p.canonical_committed
      then acknowledge_confirmed p tx_id candidate m
      else elim failed [ some e ↦ (err e, m1) | none ↦ commit_candidate p tx_id candidate m1 ]

  unfoldable pub confirm_pending : PendingChange → Bytes → Machine env → Answer × Machine env
  confirm_pending p tx_id m =
      let (result, m1) = confirm_locked p tx_id m in
      if bytes_eq (m.heap p.tx).id tx_id
      then (result, audit_transaction env p.tx p.previous.revision confirm_phase m1)
      else (err not_awaiting, m)

  unfoldable pub confirm_transaction : Bytes → Machine env → Answer × Machine env
  confirm_transaction tx_id m = elim m.engine.pending [
    | none ↦ (err not_awaiting, m)
    | some p ↦ confirm_pending p tx_id m
  ]
