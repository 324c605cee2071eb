-- ===== src/Apply/Engine/Process.antt =====
-- engine.rs, `process` and `process_locked`: the life of one configuration change. Each function is a
-- stretch of `process_locked` up to its next call or early return.

use minimalrouter.Apply.Engine.{
  Answer, CommitFn, Environment, Machine, Transaction, generated, planned, privileged_apply_timeout,
  received, rejected, snapshotted, write,
}
use minimalrouter.Apply.Engine.Admission.{Change, admission, refuse, transition}
use minimalrouter.Apply.Engine.Outcome.{apply_outcome}
use minimalrouter.Apply.Engine.Privileged.{
  apply_phase, audit_transaction, build_apply_request, privileged, set_config, set_state, time_now,
}
use minimalrouter.Apply.Ipc.{ApplyRequest}
use minimalrouter.Config.Model.{SystemConfig}
use minimalrouter.Config.Policy.{equal_json, requires_confirmation}
use minimalrouter.Prelude.{
  Bool, Bytes, Message, Option, [], err, false, if◌then◌else◌, is_some, leb, none, not, ok, some,
  suc, text, true, ◌&&◌, ◌+◌, ◌/◌, ◌<>◌, ◌^◌,
}
use minimalrouter.Prelude.Int.{i64_max}

module _ (env : Environment) where
  -- The callback of the caller, or the store, or nothing.
  unfoldable pub commit_config : Option (CommitFn env.World) → Option (CommitFn env.World)
  commit_config (some c) = some c
  commit_config none = if env.has_store then some env.save_config else none

  unfoldable pub apply_request : Change env.World → SystemConfig → ApplyRequest → ApplyRequest
  apply_request ch cfg req =
      let confirm =
        not ch.allow_interface_change && requires_confirmation env.json ch.current cfg in
      record req {
        require_confirmation = confirm;
        defer_last_good = not confirm && is_some (commit_config ch.commit);
      }

  unfoldable pub activate :
      Change env.World → SystemConfig → ApplyRequest → Machine env → Answer × Machine env
  activate ch cfg req m =
      let (now, m1) = time_now env m in
      let (answer, m2) = privileged env privileged_apply_timeout (apply_request ch cfg req) m1 in
      apply_outcome env ch cfg (apply_request ch cfg req) (commit_config ch.commit) (now / 10 ^ 9)
        answer m2

  unfoldable pub take_snapshot : SystemConfig → Machine env → Option Message × Machine env
  take_snapshot current m =
      let (e, w) = env.create_snapshot current m.world in
      if env.has_store then (e, record m { world = w }) else (none, m)

  unfoldable pub snapshot :
      Change env.World → SystemConfig → ApplyRequest → Machine env → Answer × Machine env
  snapshot ch cfg req m =
      let (failed, m1) = take_snapshot ch.current m in
      elim failed [
        | some e ↦
            refuse env ch.tx
              (record {
                state = rejected;
                shown_text = text "Pre-apply snapshot creation failed: " <> e;
                returned = e;
              })
              m1
        | none ↦ activate ch cfg req (set_state env ch.tx snapshotted none m1)
      ]

  unfoldable pub generate : Change env.World → SystemConfig → Machine env → Answer × Machine env
  generate ch cfg m = elim (build_apply_request env ch.tx_id cfg) [
    | err (what, e) ↦
        refuse env ch.tx
          (record {
            state = rejected;
            shown_text = text what <> text " generator failed: " <> e;
            returned = e;
          })
          m
    | ok req ↦ snapshot ch cfg req (set_state env ch.tx generated none m)
  ]

  -- The candidate gets the next revision, if there is one that an `i64` holds.
  unfoldable pub plan : Change env.World → SystemConfig → Machine env → Answer × Machine env
  plan ch new_cfg m =
      let limit = text "configuration revision limit reached" in
      let (now, m1) = time_now env m in
      let cfg = record new_cfg { revision = ch.current.revision + 1; updated_at = now } in
      if leb (ch.current.revision + 1) i64_max
      then generate ch cfg (set_state env ch.tx planned none (set_config env ch.tx cfg m1))
      else refuse env ch.tx (record { state = rejected; shown_text = limit; returned = limit }) m

  unfoldable pub process_locked :
      Change env.World → SystemConfig → Machine env → Answer × Machine env
  process_locked ch new_cfg m = elim (admission env m.engine new_cfg ch.allow_interface_change) [
    | some f ↦ refuse env ch.tx f m
    | none ↦
        let (refused, m1) = transition env ch.allow_interface_change ch.current new_cfg m in
        elim refused [ some f ↦ refuse env ch.tx f m1 | none ↦ plan ch new_cfg m1 ]
  ]

  -- The transaction that `process` enters, as the newest one of the heap and the active one.
  unfoldable pub enter : Bytes → SystemConfig → Machine env → Machine env
  enter tx_id new_cfg m =
      let (now, m1) = time_now env m in
      let tx : Transaction = record {
        id = tx_id;
        current_state = received;
        config = new_cfg;
        diff = [];
        error = none;
        created_at = now;
        confirmed_at = none;
        confirmation_deadline = none;
        firewall_changed = not (
            equal_json (env.json.firewall m1.engine.current_config.firewall)
              (env.json.firewall new_cfg.firewall));
      } in
      record m1 {
        heap = write m1.next tx m1.heap;
        next = suc m1.next;
        engine = record m1.engine { active_tx = some m1.next };
      }

  unfoldable pub process :
      Bytes → SystemConfig → Bool → Option (CommitFn env.World) → Machine env → Answer × Machine env
  process tx_id new_cfg allow commit m =
      let ch : Change env.World = record {
        tx = m.next;
        tx_id = tx_id;
        current = m.engine.current_config;
        allow_interface_change = allow;
        commit = commit;
      } in
      let (result, m1) = process_locked ch new_cfg (enter tx_id new_cfg m) in
      (result, audit_transaction env m.next m.engine.current_config.revision apply_phase m1)

  unfoldable pub process_transaction : Bytes → SystemConfig → Machine env → Answer × Machine env
  process_transaction tx_id new_cfg m = process tx_id new_cfg false none m

  unfoldable pub process_initial_setup :
      Bytes → SystemConfig → CommitFn env.World → Machine env → Answer × Machine env
  process_initial_setup tx_id new_cfg commit m = process tx_id new_cfg true (some commit) m
