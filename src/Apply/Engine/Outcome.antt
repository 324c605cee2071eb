-- ===== src/Apply/Engine/Outcome.antt =====
-- engine.rs, `process_locked`: what follows the helper's answer, up to the commit or the wait for a
-- confirmation.

use minimalrouter.Apply.Engine.{
  Answer, CommitFn, Environment, Machine, PendingChange, State, Transaction, TxRef, applied,
  awaiting_confirmation, committed, confirmation_timeout, privileged_apply_timeout, rejected,
  require_recovery, rolled_back, seconds, suffixed, timer_after, verified, write,
}
use minimalrouter.Apply.Engine.Admission.{Change, refuse}
use minimalrouter.Apply.Engine.Privileged.{
  build_apply_request, new_request, persist, privileged, set_config, set_state, time_now,
}
use minimalrouter.Apply.Ipc.{ApplyRequest, ApplyResponse, commit_confirmed}
use minimalrouter.Config.Model.{SystemConfig}
use minimalrouter.Prelude.{
  Bool, Bytes, Message, Option, Result, err, false, if◌then◌else◌, none, not, ok, shown_error, some,
  text, true, ℕ, ◌&&◌, ◌+◌, ◌<>◌, ◌||◌,
}

-- The last-good acknowledgement of a configuration that the store holds.
unfoldable pub ack_request : Bytes → SystemConfig → ApplyRequest
ack_request tx_id cfg =
    let base =
      new_request (suffixed tx_id "-commit-canonical-0") commit_confirmed cfg.revision cfg in
    record base { skip_wan_verify = true }

module _ (env : Environment) where
  -- `st.require_recovery(msg)` beside the transaction's own state.
  unfoldable pub recover : TxRef → Message → Message → Machine env → Answer × Machine env
  recover r msg returned m =
      let m1 = set_state env r State.recovery_required (some msg) m in
      (err returned, record m1 { engine = require_recovery msg m1.engine })

  unfoldable pub adopt : SystemConfig → Machine env → Machine env
  adopt cfg m = record m { engine = record m.engine { current_config = cfg } }

  unfoldable pub finish : TxRef → SystemConfig → Machine env → Answer × Machine env
  finish r cfg m = (ok tt, adopt cfg (set_state env r committed none m))

  -- Whether an acknowledgement failed, and the text for it.
  unfoldable pub ack_failure : Result Message ApplyResponse → Option Message
  ack_failure (err e) = some (
      text "canonical configuration was committed but helper last-good acknowledgement is unknown: "
      <> e)
  ack_failure (ok r) =
      if not r.success || not r.verified
      then some (
          text
            "canonical configuration was committed but the helper last-good acknowledgement failed: "
          <> shown_error r.error)
      else none

  unfoldable pub acknowledge : Change env.World → SystemConfig → Machine env → Answer × Machine env
  acknowledge ch cfg m =
      let (answer, m1) = privileged env privileged_apply_timeout (ack_request ch.tx_id cfg) m in
      elim (ack_failure answer) [
        | some msg ↦ recover ch.tx msg (text "helper commit acknowledgement failed") m1
        | none ↦ finish ch.tx cfg m1
      ]

  -- Whether the helper proved that the previous configuration runs again.
  unfoldable pub is_restored : Result Message ApplyResponse → Bool
  is_restored (err e) = false
  is_restored (ok r) = r.success && (r.verified && not r.recovery_required)

  -- The store refused the configuration that runs: the previous one is applied again.
  unfoldable pub undo : Change env.World → Message → Machine env → Answer × Machine env
  undo ch e m =
      let msg = text "failed to commit config store: " <> e in
      elim (build_apply_request env (suffixed ch.tx_id "-rollback") m.engine.current_config) [
        | err _ ↦
            recover ch.tx
              (msg <> text "; rollback request could not be generated and recovery is required") e m
        | ok req ↦
            let (answer, m1) = privileged env privileged_apply_timeout req m in
            if is_restored answer
            then refuse env ch.tx
                (record {
                  state = rolled_back;
                  shown_text = msg <> text "; previous configuration was verified restored";
                  returned = e;
                })
                m1
            else recover ch.tx
                (msg <> text "; rollback could not be verified and recovery is required") e m1
      ]

  -- The commit of a verified change: the store first, then the helper's last-good state.
  unfoldable pub commit_now :
      Change env.World
      → SystemConfig
      → Bool
      → Option (CommitFn env.World)
      → Machine env
      → Answer × Machine env
  commit_now ch cfg defer none m = finish ch.tx cfg m
  commit_now ch cfg defer (some f) m =
      let (failed, m1) = persist env f cfg m in
      elim failed [
        | some e ↦ undo ch e m1
        | none ↦
            if defer then acknowledge ch cfg (adopt cfg m1) else finish ch.tx cfg (adopt cfg m1)
      ]

  unfoldable pub await_confirmation : Change env.World → ℕ → Machine env → Answer × Machine env
  await_confirmation ch not_before m =
      let (now, m1) = time_now env m in
      let tx = m1.heap ch.tx in
      let waiting : Transaction = record tx {
        current_state = awaiting_confirmation;
        confirmation_deadline = some (now + seconds confirmation_timeout);
      } in
      let change : PendingChange = record {
        tx = ch.tx;
        handshake_not_before = not_before;
        previous = ch.current;
        timer = some (timer_after confirmation_timeout ch.tx_id);
        rollback_attempts = 0;
        commit_attempts = 0;
        canonical_committed = false;
      } in
      (
        ok tt,
        record m1 {
          heap = write ch.tx waiting m1.heap;
          engine = record m1.engine { pending = some change };
        },
      )

  unfoldable pub refused_state : ApplyResponse → State
  refused_state resp =
      if resp.recovery_required
      then State.recovery_required
      else if resp.rolled_back
      then rolled_back
      else rejected

  -- The helper reports that the change was not applied.
  unfoldable pub helper_refused : TxRef → ApplyResponse → Machine env → Answer × Machine env
  helper_refused r resp m =
      let msg = text "privileged apply failed: " <> shown_error resp.error in
      let returned = text "apply rejected by router-applyd: " <> shown_error resp.error in
      if resp.recovery_required
      then recover r msg returned m
      else refuse env r
          (record { state = refused_state resp; shown_text = msg; returned = returned }) m

  unfoldable pub applied_outcome :
      Change env.World
      → SystemConfig
      → ApplyRequest
      → Option (CommitFn env.World)
      → ℕ
      → ApplyResponse
      → Machine env
      → Answer × Machine env
  applied_outcome ch cfg req commit not_before resp m =
      let m1 = set_state env ch.tx applied none m in
      let m2 = set_config env ch.tx cfg (set_state env ch.tx verified none m1) in
      let unverified =
        text "router-applyd did not verify the active configuration; recovery is required" in
      if not resp.success
      then helper_refused ch.tx resp m
      else if not resp.verified
      then recover ch.tx unverified unverified m1
      else if req.require_confirmation
      then await_confirmation ch not_before m2
      else commit_now ch cfg req.defer_last_good commit m2

  unfoldable pub apply_outcome :
      Change env.World
      → SystemConfig
      → ApplyRequest
      → Option (CommitFn env.World)
      → ℕ
      → Result Message ApplyResponse
      → Machine env
      → Answer × Machine env
  apply_outcome ch cfg req commit not_before (ok resp) m =
      applied_outcome ch cfg req commit not_before resp m
  apply_outcome ch cfg req commit not_before (err e) m =
      let msg =
        text
          "privileged apply outcome remained unknown after retry; recovery or reboot reconciliation is required: "
        <> e in
      recover ch.tx msg msg m
