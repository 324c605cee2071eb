-- ===== src/Apply/Engine/Invariant/Bypass.antt =====
-- `with_qos_bypassed` keeps the invariant: shaping is removed and restored, and nothing else changes.

use minimalrouter.Apply.Engine.{Answer, Environment, Machine, privileged_apply_timeout}
use minimalrouter.Apply.Engine.Frame.{privileged-Frame, privileged_idle}
use minimalrouter.Apply.Engine.Invariant.{Inv}
use minimalrouter.Apply.Engine.Invariant.Reconcile.{Frame-Inv, require_recovery-Inv, time_now-Inv}
use minimalrouter.Apply.Engine.Privileged.{build_apply_request, privileged, time_now}
use minimalrouter.Apply.Engine.Reconcile.{
  apply_temporary_runtime, bypass, bypass_refusal, measure, require_restored, restore_qos,
  run_bypassed, with_qos_bypassed,
}
use minimalrouter.Apply.Ipc.{ApplyRequest}
use minimalrouter.Config.Model.{SystemConfig}
use minimalrouter.Net.Show.{decimal}
use minimalrouter.Prelude.{
  Message, Option, Option-cases, Result-cases, codes, false, if_cases, inl, inr, none, some, ℕ,
  ◌++◌,
}

module _ (env : Environment) (base : SystemConfig) where
  privileged-Inv :
      (timeout : ℕ) (req : ApplyRequest) (m : Machine env)
      → Inv env base m
      → Inv env base (privileged env timeout req m).1
  privileged-Inv timeout req m h =
      Frame-Inv env base m _ (privileged-Frame env timeout req m)
        (privileged_idle env timeout req m) h

  apply_temporary_runtime-Inv :
      (req : ApplyRequest) (m : Machine env)
      → Inv env base m
      → Inv env base (apply_temporary_runtime env req m).1
  unfolding apply_temporary_runtime
  apply_temporary_runtime-Inv req m h = privileged-Inv privileged_apply_timeout req m h

  measure-Inv :
      (f : env.World → Option Message × env.World) (e : Option Message) (m : Machine env)
      → Inv env base m
      → Inv env base (measure env f e m).1
  unfolding measure
  measure-Inv f (some e) m h = h
  measure-Inv f none m h = record { durable = h.durable; idle = h.idle; pending_ok = h.pending_ok }

  require_restored-Inv :
      (e : Option Message) (m : Machine env)
      → Inv env base m
      → Inv env base (require_restored env e m)
  unfolding require_restored
  require_restored-Inv none m h = h
  require_restored-Inv (some e) m h = require_recovery-Inv env base _ m h

  restore_qos-Inv :
      (canonical : SystemConfig) (m : Machine env)
      → Inv env base m
      → Inv env base (restore_qos env canonical m).1
  unfolding restore_qos
  restore_qos-Inv canonical m h =
      let m1 = (time_now env m).1 in
      let h1 : Inv env base m1 = time_now-Inv env base m h in
      elim (Result-cases (
        build_apply_request env (codes "speedtest-qos-restore-" ++ decimal (time_now env m).0)
          canonical)) [
            | inr (x, failed) ↦ rw (failed, restore_qos) h1
            | inl (req, built) ↦ rw (built, restore_qos) (apply_temporary_runtime-Inv _ m1 h1)
          ]

  run_bypassed-Inv :
      (f : env.World → Option Message × env.World) (canonical : SystemConfig) (req : ApplyRequest)
      (m : Machine env)
      → Inv env base m
      → Inv env base (run_bypassed env f canonical req m).1
  unfolding run_bypassed
  run_bypassed-Inv f canonical req m h =
      require_restored-Inv _ _
        (restore_qos-Inv canonical _ (measure-Inv f _ _ (apply_temporary_runtime-Inv _ m h)))

  bypass-Inv :
      (f : env.World → Option Message × env.World) (canonical : SystemConfig) (m : Machine env)
      → Inv env base m
      → Inv env base (bypass env f canonical m).1
  unfolding bypass
  bypass-Inv f canonical m h =
      let m1 = (time_now env m).1 in
      let h1 : Inv env base m1 = time_now-Inv env base m h in
      elim (Result-cases (
        build_apply_request env (codes "speedtest-qos-bypass-" ++ decimal (time_now env m).0)
          (record canonical { qos = record canonical.qos { enabled = false } }))) [
            | inr (x, failed) ↦ rw (failed, bypass) h1
            | inl (req, built) ↦ rw (built, bypass) (run_bypassed-Inv f canonical req m1 h1)
          ]

  -- Whatever the helper, the generators and the measurement answer, a measurement without shaping
  -- keeps the invariant: the canonical configuration is still the one saved last, if there is a store.
  pub with_qos_bypassed-Inv :
      (f : env.World → Option Message × env.World) (m : Machine env)
      → Inv env base m
      → Inv env base (with_qos_bypassed env f m).1
  unfolding with_qos_bypassed
  with_qos_bypassed-Inv f m h = elim (Option-cases (bypass_refusal env m.engine)) [
    | inr (e, refused) ↦ rw (refused, with_qos_bypassed) h
    | inl free ↦
        rw (free, with_qos_bypassed)
          (if_cases (λ (r : Answer × Machine env). Inv env base r.1)
            m.engine.current_config.qos.enabled _ _ (λ _. bypass-Inv f m.engine.current_config m h)
            (λ _. measure-Inv f none m h))
  ]
