-- ===== src/Apply/Engine/Invariant/Process.antt =====
-- `process` keeps the invariant, on each of its returns.

use minimalrouter.Apply.Engine.{
  CommitFn, EngineState, Environment, Machine, PendingChange, Transaction, TxRef, generated,
  planned, snapshotted, write,
}
use minimalrouter.Apply.Engine.Admission.{
  Change, Refusal, admission, inspect_lan, refuse, transition,
}
use minimalrouter.Apply.Engine.Invariant.{Inv, PendingOk, Settled-Inv}
use minimalrouter.Apply.Engine.Invariant.Activate.{
  Ready, activate-Inv, set_config-Ready, set_state-Ready, time_now-Ready,
}
use minimalrouter.Apply.Engine.Invariant.Outcome.{refuse-Settled, write_self}
use minimalrouter.Apply.Engine.Privileged.{
  Phase, audit_transaction, build_apply_request, record_audit, set_state, time_now,
}
use minimalrouter.Apply.Engine.Process.{
  enter, generate, plan, process, process_locked, snapshot, take_snapshot,
}
use minimalrouter.Apply.Ipc.{ApplyRequest}
use minimalrouter.Apply.Safety.{is_lan_unchanged}
use minimalrouter.Config.Model.{SystemConfig}
use minimalrouter.Prelude.{
  Bool, Bool-cases, Bytes, Option, Option-cases, Result-cases, ap, arith, false, inl, inr, leb,
  none, refl, some, suc, sym, true, ℕ, ◌+◌, ◌<◌, ◌∙◌, ◌≡◌, ◌≤◌,
}
use minimalrouter.Prelude.Int.{i64_max}

-- An entry below the one that is written stays.
write_below :
    (r q : TxRef) (t : Transaction) (heap : TxRef → Transaction) → q < r → write r t heap q ≡ heap q
unfolding write
write_below r q t heap lt = ground arith

-- A pending change needs no more of the heap than its own transaction.
PendingOk-heap :
    (current : SystemConfig) (heap heap' : TxRef → Transaction) (next next' : TxRef)
    (p : Option PendingChange)
    → ((q : TxRef) → q < next → heap' q ≡ heap q)
    → next ≤ next'
    → PendingOk current heap next p
    → PendingOk current heap' next' p
PendingOk-heap current heap heap' next next' none same le h = tt
PendingOk-heap current heap heap' next next' (some p) same le h =
    let e : heap' p.tx ≡ heap p.tx = same p.tx h.entered in
    record {
      entered = (let lt : p.tx < next = h.entered in omega arith);
      baseline = h.baseline;
      candidate = λ c. h.candidate c ∙ sym (ap (λ (t : Transaction). t.config) e);
      successor = rw e h.successor;
      armed = rw e h.armed;
      attempts = h.attempts;
      waits = rw e h.waits;
    }

module _ (env : Environment) (base : SystemConfig) where
  refuse-Inv :
      (ch : Change env.World) (f : Refusal) (m : Machine env)
      → Ready env base ch m
      → Inv env base (refuse env ch.tx f m).1
  refuse-Inv ch f m h = Settled-Inv env base _ (refuse-Settled env base ch.tx f m h.settled)

  world-Ready :
      (ch : Change env.World) (w : env.World) (m : Machine env)
      → Ready env base ch m
      → Ready env base ch (record m { world = w })
  world-Ready ch w m h = record {
    settled = record {
      durable = h.settled.durable;
      idle = h.settled.idle;
      no_pending = h.settled.no_pending;
    };
    current = h.current;
    entered = h.entered;
    named = h.named;
  }

  take_snapshot-Ready :
      (ch : Change env.World) (m : Machine env)
      → Ready env base ch m
      → Ready env base ch (take_snapshot env ch.current m).1
  unfolding take_snapshot
  take_snapshot-Ready ch m h = elim (Bool-cases env.has_store) [
    | inl b ↦ rw (b, take_snapshot) (world-Ready ch _ m h)
    | inr b ↦ rw (b, take_snapshot) h
  ]

  snapshot-Inv :
      (ch : Change env.World) (cfg : SystemConfig) (req : ApplyRequest) (m : Machine env)
      → Ready env base ch m
      → cfg.revision ≡ ch.current.revision + 1
      → Inv env base (snapshot env ch cfg req m).1
  unfolding snapshot
  snapshot-Inv ch cfg req m h s =
      let m1 = (take_snapshot env ch.current m).1 in
      let h1 : Ready env base ch m1 = take_snapshot-Ready ch m h in
      elim (Option-cases (take_snapshot env ch.current m).0) [
        | inr (e, failed) ↦ rw (failed, snapshot) (refuse-Inv ch _ m1 h1)
        | inl done ↦
            rw (done, snapshot)
              (activate-Inv env base ch cfg req _
                (set_state-Ready env base ch ch.tx snapshotted none m1 h1) s)
      ]

  generate-Inv :
      (ch : Change env.World) (cfg : SystemConfig) (m : Machine env)
      → Ready env base ch m
      → cfg.revision ≡ ch.current.revision + 1
      → Inv env base (generate env ch cfg m).1
  unfolding generate
  generate-Inv ch cfg m h s = elim (Result-cases (build_apply_request env ch.tx_id cfg)) [
    | inl (req, built) ↦
        rw (built, generate)
          (snapshot-Inv ch cfg req _ (set_state-Ready env base ch ch.tx generated none m h) s)
    | inr (x, failed) ↦ rw (failed, generate) (refuse-Inv ch _ m h)
  ]

  plan-Inv :
      (ch : Change env.World) (new_cfg : SystemConfig) (m : Machine env)
      → Ready env base ch m
      → Inv env base (plan env ch new_cfg m).1
  unfolding plan
  plan-Inv ch new_cfg m h =
      let h1 : Ready env base ch (time_now env m).1 = time_now-Ready env base ch m h in
      elim (Bool-cases (leb (ch.current.revision + 1) i64_max)) [
        | inl b ↦
            rw (b, plan)
              (generate-Inv ch _ _
                (set_state-Ready env base ch ch.tx planned none _
                  (set_config-Ready env base ch ch.tx _ _ h1))
                refl)
        | inr b ↦ rw (b, plan) (refuse-Inv ch _ m h)
      ]

  inspect_lan-Ready :
      (ch : Change env.World) (new_cfg : SystemConfig) (m : Machine env)
      → Ready env base ch m
      → Ready env base ch (inspect_lan env ch.current new_cfg m).1
  unfolding inspect_lan
  inspect_lan-Ready ch new_cfg m h =
      elim (Bool-cases (is_lan_unchanged env.ipv6 env.json ch.current new_cfg)) [
        | inl b ↦ rw (b, inspect_lan) h
        | inr b ↦ rw (b, inspect_lan) (world-Ready ch _ m h)
      ]

  transition-Ready :
      (allow : Bool) (ch : Change env.World) (new_cfg : SystemConfig) (m : Machine env)
      → Ready env base ch m
      → Ready env base ch (transition env allow ch.current new_cfg m).1
  unfolding transition
  transition-Ready true ch new_cfg m h = h
  transition-Ready false ch new_cfg m h = inspect_lan-Ready ch new_cfg m h

  -- A change that the guards let through finds nothing pending.
  pub admission_idle :
      (st : EngineState) (new_cfg : SystemConfig) (allow : Bool)
      → admission env st new_cfg allow ≡ none
      → (st.recovery_required ≡ false) × (st.pending ≡ none)
  unfolding admission
  admission_idle st new_cfg allow e = elim (Bool-cases st.recovery_required) [
    | inl b ↦ ground (arith, e, b)
    | inr b ↦ elim (Option-cases st.pending) [
      | inl p ↦ (b, p)
      | inr (q, p) ↦ ground (arith, e, b, p)
    ]
  ]

  pub audit_transaction-Inv :
      (r : TxRef) (revision : ℕ) (phase : Phase) (m : Machine env)
      → Inv env base m
      → Inv env base (audit_transaction env r revision phase m)
  unfolding audit_transaction record_audit
  audit_transaction-Inv r revision phase m h = elim (Bool-cases env.has_store) [
    | inl b ↦ elim (Bool-cases (m.heap r).firewall_changed) [
      | inl c ↦
          rw (b, c, audit_transaction)
            (record { durable = λ _. h.durable b; idle = h.idle; pending_ok = h.pending_ok })
      | inr c ↦
          rw (b, c, audit_transaction)
            (record { durable = λ _. h.durable b; idle = h.idle; pending_ok = h.pending_ok })
    ]
    | inr b ↦ rw (b, audit_transaction) h
  ]

  pub refused_heap :
      (tx_id : Bytes) (new_cfg : SystemConfig) (f : Refusal) (m : Machine env) (q : TxRef)
      → q < m.next
      → (refuse env m.next f (enter env tx_id new_cfg m)).1.heap q ≡ m.heap q
  unfolding refuse set_state enter time_now
  refused_heap tx_id new_cfg f m q lt =
      write_below m.next q _ _ lt ∙ write_below m.next q _ m.heap lt

  -- A refused change leaves the pending one as it was.
  refused-Inv :
      (tx_id : Bytes) (new_cfg : SystemConfig) (f : Refusal) (m : Machine env)
      → Inv env base m
      → Inv env base (refuse env m.next f (enter env tx_id new_cfg m)).1
  unfolding refuse set_state enter time_now
  refused-Inv tx_id new_cfg f m h = record {
    durable = h.durable;
    idle = h.idle;
    pending_ok =
        PendingOk-heap m.engine.current_config m.heap _ m.next (suc m.next) m.engine.pending
          (refused_heap tx_id new_cfg f m) (omega arith) h.pending_ok;
  }

  enter-Ready :
      (tx_id : Bytes) (new_cfg : SystemConfig) (allow : Bool) (commit : Option (CommitFn env.World))
      (m : Machine env)
      → Inv env base m
      → m.engine.pending ≡ none
      → Ready env base
          (record {
            tx = m.next;
            tx_id = tx_id;
            current = m.engine.current_config;
            allow_interface_change = allow;
            commit = commit;
          })
          (enter env tx_id new_cfg m)
  unfolding enter time_now
  enter-Ready tx_id new_cfg allow commit m h e = record {
    settled = record { durable = h.durable; idle = h.idle; no_pending = e };
    current = refl;
    entered = omega arith;
    named = rw (write_self m.next _ m.heap) refl;
  }

  admitted-Inv :
      (ch : Change env.World) (new_cfg : SystemConfig) (m : Machine env)
      → admission env m.engine new_cfg ch.allow_interface_change ≡ none
      → Ready env base ch m
      → Inv env base (process_locked env ch new_cfg m).1
  unfolding process_locked
  admitted-Inv ch new_cfg m admitted h =
      let m1 = (transition env ch.allow_interface_change ch.current new_cfg m).1 in
      let h1 : Ready env base ch m1 = transition-Ready ch.allow_interface_change ch new_cfg m h in
      rw (admitted, process_locked)
        (elim (Option-cases (transition env ch.allow_interface_change ch.current new_cfg m).0) [
          | inr (f, r) ↦ rw (r, process_locked) (refuse-Inv ch f m1 h1)
          | inl r ↦ rw (r, process_locked) (plan-Inv ch new_cfg m1 h1)
        ])

  -- Whatever the helper, the store and the generators answer, `process` keeps the invariant (the
  -- canonical configuration is the one saved last, if there is a store; no call is under way; a
  -- pending change that is not saved has the canonical configuration as its previous one, an
  -- armed timer and at most five attempts behind it, and a saved one is canonical).
  pub process-Inv :
      (tx_id : Bytes) (new_cfg : SystemConfig) (allow : Bool) (commit : Option (CommitFn env.World))
      (m : Machine env)
      → Inv env base m
      → Inv env base (process env tx_id new_cfg allow commit m).1
  unfolding process enter time_now process_locked
  process-Inv tx_id new_cfg allow commit m h =
      let e = enter env tx_id new_cfg m in
      audit_transaction-Inv m.next _ _ _
        (elim (Option-cases (admission env e.engine new_cfg allow)) [
          | inr (f, refused) ↦ rw (refused, process_locked) (refused-Inv tx_id new_cfg f m h)
          | inl admitted ↦ admitted-Inv _ new_cfg e admitted (
              enter-Ready tx_id new_cfg allow commit m h
                (admission_idle _ new_cfg allow admitted).1)
        ])
