-- ===== src/Apply/Engine/Expiry.antt =====
-- engine.rs, the deadline of an unconfirmed change over time: its timer fires, and each firing either
-- ends the change or arms the next one.

use minimalrouter.Apply.Engine.{
  Environment, Machine, PendingChange, State, TxRef, maximum_rollback_attempts,
  privileged_apply_timeout, require_recovery, rolled_back, suffixed, timer_after,
}
use minimalrouter.Apply.Engine.Confirm.{set_pending}
use minimalrouter.Apply.Engine.Frame.{Frame, privileged-Frame}
use minimalrouter.Apply.Engine.Invariant.Outcome.{write_self}
use minimalrouter.Apply.Engine.Privileged.{
  audit_transaction, build_apply_request, privileged, record_audit, set_state,
}
use minimalrouter.Apply.Engine.Rollback.{
  audit_rollback, expire, give_up, is_rolled_back, rearm, restored, retry_delay, rollback_expired,
  try_rollback,
}
use minimalrouter.Net.Show.{decimal}
use minimalrouter.Prelude.{
  Bool-cases, Bytes, List, Message, Result-cases, [], arith, bytes_eq, false, if_cases, inl, inr,
  length, ltb, none, refl, some, true, ℕ, ◌++◌, ◌+◌, ◌<◌, ◌∷◌, ◌≡◌, ◌≤◌, ◌⊎◌,
}

module _ (env : Environment) where
  -- The timer of `tx_id` fires once in each of the worlds, with nothing else in between.
  unfoldable pub expirations : Bytes → List env.World → Machine env → Machine env
  expirations tx_id [] m = m
  expirations tx_id (w ∷ ws) m =
      expirations tx_id ws (rollback_expired env tx_id (record m { world = w }))

  -- The change of `r` is over: rolled back, or left to a recovery that the engine asks for.
  pub data Resolved (r : TxRef) (m : Machine env) : Type 0 where
    went_back :
        m.engine.pending ≡ none
        → (m.heap r).current_state ≡ rolled_back
        → m.engine.recovery_required ≡ false
        → Resolved r m
    gave_up :
        m.engine.pending ≡ none
        → (m.heap r).current_state ≡ State.recovery_required
        → m.engine.recovery_required ≡ true
        → Resolved r m

  -- The change of `r` waits for the confirmation of `tx_id`, with `n` attempts behind it.
  pub record Waits (r : TxRef) (tx_id : Bytes) (n : ℕ) (m : Machine env) : Type 0 where
    pub change : PendingChange
    pub pending : m.engine.pending ≡ some change
    pub reference : change.tx ≡ r
    pub uncommitted : change.canonical_committed ≡ false
    pub named : bytes_eq (m.heap r).id tx_id ≡ true
    pub attempts : change.rollback_attempts ≡ n

  Resolved-pending : {r : TxRef} {m : Machine env} → Resolved r m → m.engine.pending ≡ none
  Resolved-pending (went_back p s b) = p
  Resolved-pending (gave_up p s b) = p

  audit_rollback-engine :
      (p : PendingChange) (m : Machine env) → (audit_rollback env p m).engine ≡ m.engine
  unfolding audit_rollback audit_transaction record_audit
  audit_rollback-engine p m =
      if_cases (λ (k : Machine env). k.engine ≡ m.engine) env.has_store _ _
        (λ _.
          if_cases (λ (k : Machine env). k.engine ≡ m.engine) (m.heap p.tx).firewall_changed _ _
            (λ _. refl) (λ _. refl))
        (λ _. refl)

  audit_rollback-heap :
      (p : PendingChange) (m : Machine env) → (audit_rollback env p m).heap ≡ m.heap
  unfolding audit_rollback audit_transaction record_audit
  audit_rollback-heap p m =
      if_cases (λ (k : Machine env). k.heap ≡ m.heap) env.has_store _ _
        (λ _.
          if_cases (λ (k : Machine env). k.heap ≡ m.heap) (m.heap p.tx).firewall_changed _ _
            (λ _. refl) (λ _. refl))
        (λ _. refl)

  audited-Resolved :
      (p : PendingChange) (r : TxRef) (m : Machine env)
      → Resolved r m
      → Resolved r (audit_rollback env p m)
  audited-Resolved p r m (went_back a b c) =
      went_back (rw (audit_rollback-engine p m) a) (rw (audit_rollback-heap p m) b)
        (rw (audit_rollback-engine p m) c)
  audited-Resolved p r m (gave_up a b c) =
      gave_up (rw (audit_rollback-engine p m) a) (rw (audit_rollback-heap p m) b)
        (rw (audit_rollback-engine p m) c)

  audited-Waits :
      (p : PendingChange) (r : TxRef) (tx_id : Bytes) (n : ℕ) (m : Machine env)
      → Waits r tx_id n m
      → Waits r tx_id n (audit_rollback env p m)
  audited-Waits p r tx_id n m h = record {
    change = h.change;
    pending = rw (audit_rollback-engine p m) h.pending;
    reference = h.reference;
    uncommitted = h.uncommitted;
    named = rw (audit_rollback-heap p m) h.named;
    attempts = h.attempts;
  }

  give_up-Resolved : (p : PendingChange) (m : Machine env) → Resolved p.tx (give_up env p m)
  unfolding give_up set_state require_recovery
  give_up-Resolved p m =
      audited-Resolved p p.tx _ (gave_up refl (rw (write_self p.tx _ m.heap) refl) refl)

  restored-Resolved : (p : PendingChange) (m : Machine env) → Resolved p.tx (restored env p m)
  unfolding restored set_state
  restored-Resolved p m =
      audited-Resolved p p.tx _ (went_back refl (rw (write_self p.tx _ m.heap) refl) refl)

  rearm-Waits :
      (p : PendingChange) (reason : Message) (tx_id : Bytes) (m : Machine env)
      → p.canonical_committed ≡ false
      → bytes_eq (m.heap p.tx).id tx_id ≡ true
      → Waits p.tx tx_id p.rollback_attempts (rearm env p tx_id reason m)
  unfolding rearm set_state set_pending
  rearm-Waits p reason tx_id m c named = audited-Waits p p.tx tx_id p.rollback_attempts _ (record {
    change = record p { timer = some (timer_after (retry_delay p.rollback_attempts) tx_id) };
    pending = refl;
    reference = refl;
    uncommitted = c;
    named = rw (write_self p.tx _ m.heap) named;
    attempts = refl;
  })

  -- One attempt.
  try_rollback-progress :
      (p : PendingChange) (tx_id : Bytes) (m : Machine env)
      → p.canonical_committed ≡ false
      → bytes_eq (m.heap p.tx).id tx_id ≡ true
      → Resolved p.tx (try_rollback env p tx_id m)
        ⊎ Waits p.tx tx_id p.rollback_attempts (try_rollback env p tx_id m)
  unfolding try_rollback
  try_rollback-progress p tx_id m c named =
      elim (Result-cases (
        build_apply_request env (suffixed tx_id "-timeout-rollback-" ++ decimal p.rollback_attempts)
          p.previous)) [
            | inr (x, failed) ↦ rw (failed, try_rollback) (inr (rearm-Waits p _ tx_id m c named))
            | inl (req, built) ↦
                let a = privileged env privileged_apply_timeout req m in
                let f : Frame env m a.1 = privileged-Frame env privileged_apply_timeout req m in
                rw (built, try_rollback)
                  (elim (Bool-cases (is_rolled_back a.0)) [
                    | inl b ↦ rw b (inl (restored-Resolved p a.1))
                    | inr b ↦ rw b (inr (rearm-Waits p _ tx_id a.1 c (rw f.heap named)))
                  ])
          ]

  -- Each firing ends the change or adds one attempt, and never more than the bound.
  expire-progress :
      (p : PendingChange) (tx_id : Bytes) (m : Machine env)
      → p.canonical_committed ≡ false
      → bytes_eq (m.heap p.tx).id tx_id ≡ true
      → Resolved p.tx (expire env p tx_id m)
        ⊎ (Waits p.tx tx_id (p.rollback_attempts + 1) (expire env p tx_id m)
            × (p.rollback_attempts < maximum_rollback_attempts))
  unfolding expire set_pending
  expire-progress p tx_id m c named =
      let p1 = record p { rollback_attempts = p.rollback_attempts + 1 } in
      let m1 = set_pending env (some p1) m in
      elim (Bool-cases (ltb maximum_rollback_attempts (p.rollback_attempts + 1))) [
        | inl b ↦ rw b (inl (give_up-Resolved p1 m1))
        | inr b ↦ rw b (elim (try_rollback-progress p1 tx_id m1 c named) [
          | inl r ↦ inl r
          | inr w ↦ inr (w, ground (arith, b))
        ])
      ]

  pub fires :
      (p : PendingChange) (tx_id : Bytes) (m : Machine env)
      → m.engine.pending ≡ some p
      → bytes_eq (m.heap p.tx).id tx_id ≡ true
      → p.canonical_committed ≡ false
      → rollback_expired env tx_id m ≡ expire env p tx_id m
  unfolding rollback_expired
  fires p tx_id m e named c = simp (e, named, c, rollback_expired)

  rollback_expired-progress :
      (r : TxRef) (tx_id : Bytes) (n : ℕ) (m : Machine env)
      → Waits r tx_id n m
      → Resolved r (rollback_expired env tx_id m)
        ⊎ (Waits r tx_id (n + 1) (rollback_expired env tx_id m) × (n < maximum_rollback_attempts))
  rollback_expired-progress r tx_id n m h =
      let p = h.change in
      let named : bytes_eq (m.heap p.tx).id tx_id ≡ true = rw h.reference h.named in
      rw (fires p tx_id m h.pending named h.uncommitted, ← h.reference, ← h.attempts)
        (expire-progress p tx_id m h.uncommitted named)

  in_world :
      (r : TxRef) (w : env.World) (m : Machine env)
      → Resolved r m
      → Resolved r (record m { world = w })
  in_world r w m (went_back a b c) = went_back a b c
  in_world r w m (gave_up a b c) = gave_up a b c

  Resolved-idle :
      (r : TxRef) (tx_id : Bytes) (m : Machine env)
      → Resolved r m
      → rollback_expired env tx_id m ≡ m
  unfolding rollback_expired
  Resolved-idle r tx_id m h = simp (Resolved-pending h, rollback_expired)

  Resolved-expirations :
      (r : TxRef) (tx_id : Bytes) (ws : List env.World) (m : Machine env)
      → Resolved r m
      → Resolved r (expirations tx_id ws m)
  unfolding expirations
  Resolved-expirations r tx_id [] m h = h
  Resolved-expirations r tx_id (w ∷ ws) m h =
      Resolved-expirations r tx_id ws _
        (rw (Resolved-idle r tx_id _ (in_world r w m h)) (in_world r w m h))

  -- A change that waits unconfirmed for `tx_id`, with `n` attempts behind it, is over after enough
  -- firings of its timer to pass the bound of five attempts, whatever the helper and the generators
  -- answer: it is rolled back, or a recovery is required of the engine and nothing is pending.
  pub expirations-resolve :
      (r : TxRef) (tx_id : Bytes) (n : ℕ) (ws : List env.World) (m : Machine env)
      → Waits r tx_id n m
      → n ≤ maximum_rollback_attempts
      → maximum_rollback_attempts < n + length ws
      → Resolved r (expirations tx_id ws m)
  unfolding expirations
  expirations-resolve r tx_id n [] m h bound enough = absurd (omega arith)
  expirations-resolve r tx_id n (w ∷ ws) m h bound enough =
      let m0 = record m { world = w } in
      let h0 : Waits r tx_id n m0 = record {
        change = h.change;
        pending = h.pending;
        reference = h.reference;
        uncommitted = h.uncommitted;
        named = h.named;
        attempts = h.attempts;
      } in
      elim (rollback_expired-progress r tx_id n m0 h0) [
        | inl d ↦ Resolved-expirations r tx_id ws _ d
        | inr (h1, lt) ↦ expirations-resolve r tx_id (n + 1) ws _ h1 (omega arith) (omega arith)
      ]
