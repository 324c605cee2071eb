-- ===== src/Apply/Engine/Blocked.antt =====
-- engine.rs: what a change finds when recovery is required or another change waits.
use minimalrouter.Apply.Engine.{
  Answer, CommitFn, EngineState, Environment, Event, Machine, TxRef, audited, called, saved,
}
use minimalrouter.Apply.Engine.Admission.{Refusal, admission, refuse}
use minimalrouter.Apply.Engine.Invariant.Process.{refused_heap}
use minimalrouter.Apply.Engine.Privileged.{
  Phase, audit_transaction, record_audit, set_state, time_now,
}
use minimalrouter.Apply.Engine.Process.{enter, process, process_locked}
use minimalrouter.Config.Model.{SystemConfig}
use minimalrouter.Prelude.{
  Bool, Bool-cases, Bytes, List, Option, Option-cases, [], arith, err, false, inl, inr, is_some,
  none, ok, refl, some, true, ℕ, ◌<◌, ◌||◌, ◌∷◌, ◌≡◌,
}

-- The calls of the helper and the saved configurations, without the audits.
abbrev pub effects : List Event → List Event
effects [] = []
effects (called req ∷ es) = called req ∷ effects es
effects (saved c ∷ es) = saved c ∷ effects es
effects (audited _ ∷ es) = effects es

abbrev pub is_accepted : Answer → Bool
is_accepted (ok _) = true
is_accepted (err _) = false

abbrev pub is_blocked : EngineState → Bool
is_blocked st = st.recovery_required || is_some st.pending

module _ (env : Environment) where
  -- `m'` has the configuration, the pending change, the transactions and the effects of `m`, but for
  -- transactions that are entered after those of `m`.
  pub record Quiet (m m' : Machine env) : Type 0 where
    pub current_config : m'.engine.current_config ≡ m.engine.current_config
    pub pending : m'.engine.pending ≡ m.engine.pending
    pub recovery_required : m'.engine.recovery_required ≡ m.engine.recovery_required
    pub transactions : (r : TxRef) → r < m.next → m'.heap r ≡ m.heap r
    pub effects : effects m'.log ≡ effects m.log

  admission_blocked :
      (st : EngineState) (new_cfg : SystemConfig) (allow : Bool)
      → is_blocked st ≡ true
      → is_some (admission env st new_cfg allow) ≡ true
  unfolding admission
  admission_blocked st new_cfg allow h = elim (Bool-cases st.recovery_required) [
    | inl b ↦ rw (b, admission) refl
    | inr b ↦ elim (Option-cases st.pending) [
      | inl p ↦ ground (arith, h, b, p)
      | inr (q, p) ↦ rw (b, p, admission) refl
    ]
  ]

  admission_refuses :
      (st : EngineState) (new_cfg : SystemConfig) (allow : Bool)
      → is_blocked st ≡ true
      → (f : Refusal) × (admission env st new_cfg allow ≡ some f)
  admission_refuses st new_cfg allow h = elim (Option-cases (admission env st new_cfg allow)) [
    | inr (f, e) ↦ (f, e)
    | inl e ↦
        let b : is_some {A = Refusal} none ≡ true =
          rw e at (admission_blocked st new_cfg allow h) in
        ground (arith, b)
  ]

  audit_transaction-Quiet :
      (r : TxRef) (revision : ℕ) (phase : Phase) (m m' : Machine env)
      → Quiet m m'
      → Quiet m (audit_transaction env r revision phase m')
  unfolding audit_transaction record_audit
  audit_transaction-Quiet r revision phase m m' h = elim (Bool-cases env.has_store) [
    | inr b ↦ rw (b, audit_transaction) h
    | inl b ↦ elim (Bool-cases (m'.heap r).firewall_changed) [
      | inl c ↦
          rw (b, c, audit_transaction)
            (record {
              current_config = h.current_config;
              pending = h.pending;
              recovery_required = h.recovery_required;
              transactions = h.transactions;
              effects = h.effects;
            })
      | inr c ↦
          rw (b, c, audit_transaction)
            (record {
              current_config = h.current_config;
              pending = h.pending;
              recovery_required = h.recovery_required;
              transactions = h.transactions;
              effects = h.effects;
            })
    ]
  ]

  -- A change that arrives while recovery is required or another one waits for its confirmation is
  -- answered by an error, and neither calls the helper, nor saves, nor touches the canonical
  -- configuration, the change that waits, or any transaction that was entered before it.
  pub process_blocked :
      (tx_id : Bytes) (new_cfg : SystemConfig) (allow : Bool) (commit : Option (CommitFn env.World))
      (m : Machine env)
      → is_blocked m.engine ≡ true
      → (is_accepted (process env tx_id new_cfg allow commit m).0 ≡ false)
        × Quiet m (process env tx_id new_cfg allow commit m).1
  unfolding process enter time_now process_locked refuse set_state
  process_blocked tx_id new_cfg allow commit m h =
      let (f, refused) = admission_refuses (enter env tx_id new_cfg m).engine new_cfg allow h in
      rw (refused, process_locked)
        (
          refl,
          audit_transaction-Quiet m.next _ _ m _ (record {
            current_config = refl;
            pending = refl;
            recovery_required = refl;
            transactions = refused_heap env m.engine.current_config tx_id new_cfg f m;
            effects = refl;
          }),
        )
