-- ===== src/Apply/Engine/Rollback.antt =====
-- engine.rs, `rollback_expired`: the timer of an unconfirmed change fires.

use minimalrouter.Apply.Engine.{
  Environment, Machine, PendingChange, State, maximum_rollback_attempts, privileged_apply_timeout,
  require_recovery, rollback_retry_delay, rolled_back, suffixed, timer_after,
}
use minimalrouter.Apply.Engine.Confirm.{set_pending}
use minimalrouter.Apply.Engine.Privileged.{
  audit_transaction, build_apply_request, privileged, set_state, timeout_rollback,
}
use minimalrouter.Apply.Ipc.{ApplyResponse}
use minimalrouter.Net.Show.{decimal}
use minimalrouter.Prelude.{
  Bool, Bytes, Message, Result, bytes_eq, err, false, if◌then◌else◌, ltb, none, not, ok, some, text,
  true, ℕ, ◌&&◌, ◌*◌, ◌++◌, ◌+◌, ◌-◌, ◌^◌, ◌||◌,
}

abbrev exhausted : Message
exhausted = text "confirmation deadline expired and automatic rollback attempts were exhausted"

abbrev restored_text : Message
restored_text = text "confirmation deadline expired; previous configuration restored"

abbrev apply_failed : Message
apply_failed =
    text
      "confirmation deadline expired and privileged rollback failed; retry scheduled while candidate access remains available"

abbrev generation_failed : Message
generation_failed =
    text
      "confirmation deadline expired and rollback generation failed; retry scheduled while candidate access remains available"

-- Whether the helper applied and verified the previous configuration.
unfoldable pub is_rolled_back : Result Message ApplyResponse → Bool
is_rolled_back (err e) = false
is_rolled_back (ok r) = r.success && r.verified

-- The delay before the next attempt: 10 s, 20 s, 40 s, ...
unfoldable pub retry_delay : ℕ → ℕ
retry_delay attempts = rollback_retry_delay * 2 ^ (attempts - 1)

module _ (env : Environment) where
  unfoldable pub audit_rollback : PendingChange → Machine env → Machine env
  audit_rollback p m = audit_transaction env p.tx p.previous.revision timeout_rollback m

  unfoldable pub give_up : PendingChange → Machine env → Machine env
  give_up p m =
      let m1 = set_state env p.tx State.recovery_required (some exhausted) m in
      audit_rollback p (record m1 {
        engine = (let st = require_recovery exhausted m1.engine in record st { pending = none });
      })

  unfoldable pub restored : PendingChange → Machine env → Machine env
  restored p m =
      let m1 = set_state env p.tx rolled_back (some restored_text) m in
      audit_rollback p (record m1 {
        engine = record m1.engine {
          pending = none;
          recovery_required = false;
          recovery_reason = none;
        };
      })

  -- The next attempt is scheduled, with the delay doubled.
  unfoldable pub rearm : PendingChange → Bytes → Message → Machine env → Machine env
  rearm p tx_id reason m =
      let p1 = record p { timer = some (timer_after (retry_delay p.rollback_attempts) tx_id) } in
      audit_rollback p
        (set_pending env (some p1) (set_state env p.tx State.recovery_required (some reason) m))

  unfoldable pub try_rollback : PendingChange → Bytes → Machine env → Machine env
  try_rollback p tx_id m =
      elim (build_apply_request env
        (suffixed tx_id "-timeout-rollback-" ++ decimal p.rollback_attempts) p.previous) [
          | err _ ↦ rearm p tx_id generation_failed m
          | ok req ↦
              let (answer, m1) = privileged env privileged_apply_timeout req m in
              if is_rolled_back answer then restored p m1 else rearm p tx_id apply_failed m1
        ]

  unfoldable pub expire : PendingChange → Bytes → Machine env → Machine env
  expire p tx_id m =
      let p1 = record p { rollback_attempts = p.rollback_attempts + 1 } in
      let m1 = set_pending env (some p1) m in
      if ltb maximum_rollback_attempts p1.rollback_attempts
      then give_up p1 m1
      else try_rollback p1 tx_id m1

  -- A timer of another transaction, or of one that is committed already, does nothing.
  unfoldable pub rollback_expired : Bytes → Machine env → Machine env
  rollback_expired tx_id m = elim m.engine.pending [
    | none ↦ m
    | some p ↦
        if not (bytes_eq (m.heap p.tx).id tx_id) || p.canonical_committed
        then m
        else expire p tx_id m
  ]

  -- The thread of the pending change's timer wakes, once: it is done, and where it was not stopped its
  -- closure is called.
  unfoldable pub fire_timer : Machine env → Machine env
  fire_timer m = elim m.engine.pending [
    | none ↦ m
    | some p ↦ elim p.timer [
      | none ↦ m
      | some t ↦
          let p1 = record p { timer = some (record t { fired = true }) } in
          let m1 = set_pending env (some p1) m in
          if t.fired then m else if t.cancelled then m1 else rollback_expired t.tx_id m1
    ]
  ]
