-- ===== src/Apply/Engine/Reconcile.antt =====
-- engine.rs, `reconcile`, `with_qos_bypassed` and the read-only views of the engine.

use minimalrouter.Apply.Engine.{
  Answer, EngineState, Environment, Machine, PendingChange, State, Transaction, committed,
  privileged_apply_timeout, require_recovery, rolled_back, write,
}
use minimalrouter.Apply.Engine.Privileged.{
  apply_privileged, build_apply_request, privileged, set_applying, time_now,
}
use minimalrouter.Apply.Ipc.{ApplyRequest, ApplyResponse, OperationType}
use minimalrouter.Config.Model.{SystemConfig}
use minimalrouter.Net.Show.{decimal}
use minimalrouter.Prelude.{
  Bool, Bytes, List, Message, Option, Result, [], codes, err, false, if◌then◌else◌, is_none,
  is_some, none, not, ok, shown_error, some, text, true, ℕ, ◌&&◌, ◌++◌, ◌<>◌, ◌||◌, ◌∷◌,
}

pub record EngineStatus : Type 0 where
  pub applying : Bool
  pub recovery_required : Bool
  pub recovery_reason : Option Message
  pub active_transaction_id : Bytes
  pub active_state : Option State

abbrev discarded : Message
discarded = text "unconfirmed candidate discarded; canonical configuration restored"

abbrev not_verified : Option Message → Message
not_verified e = text "boot reconciliation was not verified: " <> shown_error e

-- Whether the helper proved that the canonical configuration runs.
unfoldable pub is_reconciled : ApplyResponse → Bool
is_reconciled r = r.success && (r.verified && not r.recovery_required)

-- The errors of `with_qos_bypassed`, one line each.
unfoldable pub join_errors : List (Option Message) → Option Message
join_errors [] = none
join_errors (e ∷ es) = elim e [
  | none ↦ join_errors es
  | some a ↦ elim (join_errors es) [ none ↦ some a | some b ↦ some (a <> text "\n" <> b) ]
]

module _ (env : Environment) where
  -- A candidate that waited is committed if the store holds it, and discarded otherwise.
  unfoldable pub settle : PendingChange → Machine env → Machine env
  settle p m =
      let (now, m1) = time_now env m in
      let tx = record (m1.heap p.tx) { confirmation_deadline = none } in
      let done : Transaction = record tx {
        confirmed_at = some now;
        current_state = committed;
        error = none;
      } in
      let dropped : Transaction = record tx {
        current_state = rolled_back;
        error = some discarded;
      } in
      let engine = record m.engine { pending = none; active_tx = some p.tx } in
      if p.canonical_committed
      then record m1 { heap = write p.tx done m1.heap; engine = engine }
      else record m { heap = write p.tx dropped m.heap; engine = engine }

  unfoldable pub settle_pending : Machine env → Machine env
  settle_pending m = elim m.engine.pending [ none ↦ m | some p ↦ settle p m ]

  unfoldable pub clear_recovery : Machine env → Machine env
  clear_recovery m = record m {
    engine = record m.engine { recovery_required = false; recovery_reason = none };
  }

  unfoldable pub block : Message → Machine env → Answer × Machine env
  block reason m = (err reason, record m { engine = require_recovery reason m.engine })

  unfoldable pub reconcile_outcome :
      Result Message ApplyResponse → Machine env → Answer × Machine env
  reconcile_outcome (err e) m = block (text "boot reconciliation failed: " <> e) m
  reconcile_outcome (ok r) m =
      if is_reconciled r
      then (ok tt, clear_recovery (settle_pending m))
      else block (not_verified r.error) m

  -- The canonical configuration is applied again, before a deadline of the caller.
  unfoldable pub reconcile : ℕ → Machine env → Answer × Machine env
  reconcile deadline m =
      let (now, m1) = time_now env m in
      elim (build_apply_request env (codes "boot-reconcile-" ++ decimal now)
        m1.engine.current_config) [
          | err (what, e) ↦ (err e, m1)
          | ok req ↦
              let (answer, m2) =
                apply_privileged env deadline (record req { op = OperationType.reconcile })
                  (set_applying env true m1) in
              reconcile_outcome answer (set_applying env false m2)
        ]

  unfoldable pub get_status : Machine env → EngineStatus
  get_status m = record {
    applying = m.engine.applying;
    recovery_required = m.engine.recovery_required;
    recovery_reason = m.engine.recovery_reason;
    active_transaction_id = elim m.engine.active_tx [ none ↦ [] | some r ↦ (m.heap r).id ];
    active_state = elim m.engine.active_tx [ none ↦ none | some r ↦ some (m.heap r).current_state ];
  }

  unfoldable pub get_pending_transaction : Machine env → Option Transaction
  get_pending_transaction m = elim m.engine.pending [ none ↦ none | some p ↦ some (m.heap p.tx) ]

  unfoldable pub action_allowed : Machine env → Bool
  action_allowed m =
      not m.engine.applying && (not m.engine.recovery_required && is_none m.engine.pending)

  unfoldable pub temporary_failure : Result Message ApplyResponse → Option Message
  temporary_failure (err e) = some e
  temporary_failure (ok r) =
      if not r.success || not r.verified
      then elim r.error [
        | some e ↦ some (text "router-applyd rejected temporary runtime: " <> e)
        | none ↦ some (text "router-applyd did not verify temporary runtime")
      ]
      else none

  unfoldable pub apply_temporary_runtime : ApplyRequest → Machine env → Option Message × Machine env
  apply_temporary_runtime req m =
      let (answer, m1) = privileged env privileged_apply_timeout req m in
      (temporary_failure answer, m1)

  -- The restore runs whatever happened before it; its failure blocks further changes.
  unfoldable pub restore_qos : SystemConfig → Machine env → Option Message × Machine env
  restore_qos canonical m =
      let (now, m1) = time_now env m in
      elim (build_apply_request env (codes "speedtest-qos-restore-" ++ decimal now) canonical) [
        | err (what, e) ↦ (some (text "build canonical QoS restore: " <> e), m1)
        | ok req ↦
            let (failed, m2) =
              apply_temporary_runtime
                (record req {
                  op = OperationType.reconcile;
                  require_confirmation = false;
                  defer_last_good = false;
                })
                m1 in
            (
              elim failed [
                | none ↦ none
                | some e ↦ some (text "restore canonical QoS runtime: " <> e)
              ],
              m2,
            )
      ]

  unfoldable pub require_restored : Option Message → Machine env → Machine env
  require_restored none m = m
  require_restored (some e) m =
      let reason = text "temporary QoS bypass could not restore the canonical runtime: " <> e in
      record m { engine = require_recovery reason m.engine }

  -- The measurement, which runs only behind a bypass that works.
  unfoldable pub measure :
      (env.World → Option Message × env.World)
      → Option Message
      → Machine env
      → Option Message × Machine env
  measure f (some e) m = (none, m)
  measure f none m = let (failed, w) = f m.world in (failed, record m { world = w })

  unfoldable pub run_bypassed :
      (env.World → Option Message × env.World)
      → SystemConfig
      → ApplyRequest
      → Machine env
      → Answer × Machine env
  run_bypassed f canonical req m =
      let (bypass, m1) =
        apply_temporary_runtime
          (record req { require_confirmation = false; defer_last_good = true }) m in
      let bypass_err : Option Message = elim bypass [
        | none ↦ none
        | some e ↦ some (text "activate temporary QoS bypass: " <> e)
      ] in
      let (measured, m2) = measure f bypass_err m1 in
      let (restore_err, m3) = restore_qos canonical m2 in
      (
        elim (join_errors (bypass_err ∷ measured ∷ restore_err ∷ [])) [
          | none ↦ ok tt
          | some e ↦ err e
        ],
        require_restored restore_err m3,
      )

  unfoldable pub bypass_refusal : EngineState → Option Message
  bypass_refusal st =
      if st.recovery_required
      then some (elim st.recovery_reason [
        | none ↦ text "temporary QoS bypass is blocked while recovery is required"
        | some r ↦ text "temporary QoS bypass is blocked while recovery is required: " <> r
      ])
      else if is_some st.pending
      then some
          (text "temporary QoS bypass is blocked while a configuration change awaits confirmation")
      else none

  unfoldable pub bypass :
      (env.World → Option Message × env.World) → SystemConfig → Machine env → Answer × Machine env
  bypass f canonical m =
      let (now, m1) = time_now env m in
      let without = record canonical { qos = record canonical.qos { enabled = false } } in
      elim (build_apply_request env (codes "speedtest-qos-bypass-" ++ decimal now) without) [
        | err (what, e) ↦ (err (text "build temporary QoS bypass: " <> e), m1)
        | ok req ↦ run_bypassed f canonical req m1
      ]

  -- Runs `f` while shaping is removed; the canonical configuration is never changed.
  unfoldable pub with_qos_bypassed :
      (env.World → Option Message × env.World) → Machine env → Answer × Machine env
  with_qos_bypassed f m =
      let (failed, m1) = measure f none m in
      elim (bypass_refusal m.engine) [
        | some e ↦ (err e, m)
        | none ↦
            if m.engine.current_config.qos.enabled
            then bypass f m.engine.current_config m
            else (elim failed [ none ↦ ok tt | some e ↦ err e ], m1)
      ]
