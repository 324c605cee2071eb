-- ===== src/Apply/Engine/Reach.antt =====
-- engine.rs as a whole: `Engine::with_client`, and the runs of an engine. The operation lock makes the
-- operations run one after another, in any order, so a run is a sequence of steps.
use minimalrouter.Apply.Engine.{
  CommitFn, EngineState, Environment, Machine, PendingChange, maximum_rollback_attempts,
}
use minimalrouter.Apply.Engine.Confirm.{confirm_transaction}
use minimalrouter.Apply.Engine.Frame.{last_saved}
use minimalrouter.Apply.Engine.Invariant.{Inv, PendingSound, is_live}
use minimalrouter.Apply.Engine.Invariant.Bypass.{with_qos_bypassed-Inv}
use minimalrouter.Apply.Engine.Invariant.Confirmed.{confirm_transaction-Inv}
use minimalrouter.Apply.Engine.Invariant.Firing.{fire_timer-Inv}
use minimalrouter.Apply.Engine.Invariant.Process.{process-Inv}
use minimalrouter.Apply.Engine.Invariant.Reconcile.{reconcile-Inv}
use minimalrouter.Apply.Engine.Invariant.Rollback.{rollback_expired-Inv}
use minimalrouter.Apply.Engine.Process.{process}
use minimalrouter.Apply.Engine.Reconcile.{reconcile, with_qos_bypassed}
use minimalrouter.Apply.Engine.Rollback.{fire_timer, rollback_expired}
use minimalrouter.Config.Model.{SystemConfig}
use minimalrouter.Prelude.{
  Bool, Bytes, Message, Option, [], false, none, refl, some, sym, true, ℕ, ◌+◌, ◌≡◌, ◌≤◌,
}

-- The engine that starts with a configuration and no transaction.
unfoldable pub fresh : SystemConfig → EngineState
fresh initial = record {
  active_tx = none;
  applying = false;
  current_config = initial;
  pending = none;
  recovery_required = false;
  recovery_reason = none;
}

module _ (env : Environment) where
  pub data Step (m : Machine env) : Machine env → Type 0 where
    processed :
        (tx_id : Bytes) (cfg : SystemConfig) (allow : Bool) (commit : Option (CommitFn env.World))
        → Step m (process env tx_id cfg allow commit m).1
    confirmed : (tx_id : Bytes) → Step m (confirm_transaction env tx_id m).1
    fired : Step m (fire_timer env m)
    -- A closure of a timer that no change holds any more, or that was stopped after it woke.
    expired : (tx_id : Bytes) → Step m (rollback_expired env tx_id m)
    reconciled : (deadline : ℕ) → Step m (reconcile env deadline m).1
    bypassed : (f : env.World → Option Message × env.World) → Step m (with_qos_bypassed env f m).1
    -- Between two operations the rest of the world goes on.
    elsewhere : (w : env.World) → Step m (record m { world = w })

  pub data Reach (m : Machine env) : Machine env → Type 0 where
    nowhere : Reach m m
    onward : {a b : Machine env} → Reach m a → Step a b → Reach m b

module _ (env : Environment) (base : SystemConfig) where
  Step-Inv : {m m' : Machine env} → Step env m m' → Inv env base m → Inv env base m'
  Step-Inv {m} (processed tx_id cfg allow commit) h =
      process-Inv env base tx_id cfg allow commit m h
  Step-Inv {m} (confirmed tx_id) h = confirm_transaction-Inv env base tx_id m h
  Step-Inv {m} fired h = fire_timer-Inv env base m h
  Step-Inv {m} (expired tx_id) h = rollback_expired-Inv env base tx_id m h
  Step-Inv {m} (reconciled deadline) h = reconcile-Inv env base deadline m h
  Step-Inv {m} (bypassed f) h = with_qos_bypassed-Inv env base f m h
  Step-Inv {m} (elsewhere w) h = record {
    durable = h.durable;
    idle = h.idle;
    pending_ok = h.pending_ok;
  }

  pub Reach-Inv : {m m' : Machine env} → Inv env base m → Reach env m m' → Inv env base m'
  Reach-Inv h nowhere = h
  Reach-Inv h (onward r s) = Step-Inv s (Reach-Inv h r)

  pub fresh-Inv : (m : Machine env) → m.engine ≡ fresh base → m.log ≡ [] → Inv env base m
  unfolding fresh
  fresh-Inv m e l = record {
    durable = λ st. rw (e, l) refl;
    idle = rw e refl;
    pending_ok = rw e tt;
  }

-- However an engine that starts with `initial` is used, and whatever the helper, the store, the
-- generators and the clock answer: its canonical configuration is the one that the store took last,
-- `initial` if it took none.
pub Reach-durable :
    (env : Environment) (initial : SystemConfig) (m m' : Machine env)
    → m.engine ≡ fresh initial
    → m.log ≡ []
    → Reach env m m'
    → env.has_store ≡ true
    → m'.engine.current_config ≡ last_saved initial m'.log
Reach-durable env initial m m' e l r st =
    sym ((Reach-Inv env initial (fresh-Inv env initial m e l) r).durable st)

-- However an engine that starts with `initial` is used: a change that waits for its confirmation and is
-- not saved keeps the configuration to go back to, which is the canonical one, has a timer that was
-- neither stopped nor has fired and that calls back for this change, has at most five rollbacks tried,
-- and asks for the revision that follows.
pub Reach-rollbackable :
    (env : Environment) (initial : SystemConfig) (m m' : Machine env) (p : PendingChange)
    → m.engine ≡ fresh initial
    → m.log ≡ []
    → Reach env m m'
    → m'.engine.pending ≡ some p
    → p.canonical_committed ≡ false
    → (m'.engine.current_config ≡ p.previous)
      × (is_live (m'.heap p.tx).id p.timer ≡ true)
      × (p.rollback_attempts ≤ maximum_rollback_attempts)
      × ((m'.heap p.tx).config.revision ≡ m'.engine.current_config.revision + 1)
Reach-rollbackable env initial m m' p e l r q c =
    let h : Inv env initial m' = Reach-Inv env initial (fresh-Inv env initial m e l) r in
    let s : PendingSound m'.engine.current_config m'.heap m'.next p = rw q at h.pending_ok in
    (s.baseline c, s.armed c, s.attempts, rw (s.baseline c) s.successor)
