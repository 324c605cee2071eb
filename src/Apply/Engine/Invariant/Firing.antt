-- ===== src/Apply/Engine/Invariant/Firing.antt =====
-- engine.rs, `Timer::after`: the firing of the pending change's timer keeps the invariant.

use mathlib.Core.Path.{subst}
use minimalrouter.Apply.Engine.{Environment, Machine, PendingChange, Timer}
use minimalrouter.Apply.Engine.Confirm.{set_pending}
use minimalrouter.Apply.Engine.Expiry.{fires}
use minimalrouter.Apply.Engine.Invariant.{Inv, PendingSound, is_live}
use minimalrouter.Apply.Engine.Invariant.Rollback.{
  Expiring, expire-Inv, pending-Expiring, rollback_expired-Inv, set_pending-Expiring,
}
use minimalrouter.Apply.Engine.Rollback.{fire_timer, rollback_expired}
use minimalrouter.Config.Model.{SystemConfig}
use minimalrouter.Prelude.{
  Bool-cases, Bytes, Option-cases, arith, bytes_eq, bytes_eq_refl, bytes_eq→eq, false, if_cases,
  if◌then◌else◌, inl, inr, refl, some, sym, true, ◌≡◌,
}

module _ (env : Environment) (base : SystemConfig) where
  -- The machine in which the thread of the timer `t` of the change `p` is done.
  abbrev woken : PendingChange → Timer → Machine env → Machine env
  woken p t m = set_pending env (some (record p { timer = some (record t { fired = true }) })) m

  -- Of a change that is saved, the timer does not matter.
  woken_saved :
      (p : PendingChange) (t : Timer) (m : Machine env)
      → Inv env base m
      → m.engine.pending ≡ some p
      → p.canonical_committed ≡ true
      → Inv env base (woken p t m)
  unfolding set_pending
  woken_saved p t m h e c =
      let s : PendingSound m.engine.current_config m.heap m.next p = rw e at h.pending_ok in
      record {
        durable = h.durable;
        idle = h.idle;
        pending_ok = record {
          entered = s.entered;
          baseline = s.baseline;
          candidate = s.candidate;
          successor = s.successor;
          armed = λ b. ground (arith, b, c);
          attempts = s.attempts;
          waits = s.waits;
        };
      }

  -- Of a change that is not saved, the timer's closure is called for that change.
  woken_unsaved :
      (p : PendingChange) (t : Timer) (m : Machine env)
      → Inv env base m
      → m.engine.pending ≡ some p
      → p.canonical_committed ≡ false
      → (m.heap p.tx).id ≡ t.tx_id
      → Inv env base (rollback_expired env t.tx_id (woken p t m))
  unfolding set_pending
  woken_unsaved p t m h e c named =
      let p1 = record p { timer = some (record t { fired = true }) } in
      let h1 : Expiring env base p1 t.tx_id (woken p t m) =
        set_pending-Expiring env base p p1 t.tx_id m
          (pending-Expiring env base p t.tx_id m h e c named) refl refl refl in
      let same : bytes_eq (m.heap p.tx).id t.tx_id ≡ true = rw named (bytes_eq_refl t.tx_id) in
      subst (Inv env base) (sym (fires env p1 t.tx_id (woken p t m) refl same c))
        (expire-Inv env base p1 t.tx_id (woken p t m) h1)

  -- What a live timer is.
  live_timer :
      (id : Bytes) (t : Timer)
      → is_live id (some t) ≡ true
      → (t.cancelled ≡ false) × (t.fired ≡ false) × (id ≡ t.tx_id)
  live_timer id t h = (ground arith, ground arith, sym (bytes_eq→eq t.tx_id id (ground arith)))

  woken-Inv :
      (p : PendingChange) (t : Timer) (m : Machine env)
      → Inv env base m
      → m.engine.pending ≡ some p
      → p.timer ≡ some t
      → Inv env base
          (if t.cancelled then woken p t m else rollback_expired env t.tx_id (woken p t m))
  woken-Inv p t m h e q =
      let s : PendingSound m.engine.current_config m.heap m.next p = rw e at h.pending_ok in
      elim (Bool-cases p.canonical_committed) [
        | inl c ↦
            let i = woken_saved p t m h e c in
            if_cases (Inv env base) t.cancelled _ _ (λ _. i)
              (λ _. rollback_expired-Inv env base t.tx_id (woken p t m) i)
        | inr c ↦
            let (b, f, named) = live_timer (m.heap p.tx).id t (rw q at (s.armed c)) in
            if_cases (Inv env base) t.cancelled _ _ (λ stopped. absurd (ground (arith, b, stopped)))
              (λ _. woken_unsaved p t m h e c named)
      ]

  -- When the timer of a pending change fires, the invariant is kept, whatever the helper and the
  -- generators answer: the canonical configuration is still the one saved last, if there is a store, and
  -- a change that still waits unsaved has a timer that was neither stopped nor has fired and that will
  -- call back for the change's transaction, with at most five attempts behind it.
  pub fire_timer-Inv : (m : Machine env) → Inv env base m → Inv env base (fire_timer env m)
  unfolding fire_timer
  fire_timer-Inv m h = elim (Option-cases m.engine.pending) [
    | inl e ↦ rw (e, fire_timer) h
    | inr (p, e) ↦ elim (Option-cases p.timer) [
      | inl q ↦ rw (e, q, fire_timer) h
      | inr (t, q) ↦
          rw (e, q, fire_timer)
            (if_cases (Inv env base) t.fired _ _ (λ _. h) (λ _. woken-Inv p t m h e q))
    ]
  ]
