-- ===== src/Tests/Witnesses.antt =====
-- The theorems at the small router.

use minimalrouter.Apply.Engine.{Machine, called, privileged_apply_attempts, seconds, timer_after}
use minimalrouter.Apply.Engine.Blocked.{Quiet, effects, is_accepted, process_blocked}
use minimalrouter.Apply.Engine.Calls.{apply_privileged-effects, apply_privileged-outcome}
use minimalrouter.Apply.Engine.Confirm.{confirm_transaction}
use minimalrouter.Apply.Engine.Invariant.{Inv}
use minimalrouter.Apply.Engine.Invariant.Confirmed.{confirm_transaction-Inv}
use minimalrouter.Apply.Engine.Invariant.Firing.{fire_timer-Inv}
use minimalrouter.Apply.Engine.Invariant.Process.{process-Inv}
use minimalrouter.Apply.Engine.Invariant.Reconcile.{reconcile-Inv, reconcile-settles}
use minimalrouter.Apply.Engine.Outcome.{ack_request}
use minimalrouter.Apply.Engine.Privileged.{
  apply_privileged, attempt, build_apply_request, call, checked, instant_now, new_request,
  set_applying, time_now,
}
use minimalrouter.Apply.Engine.Process.{process}
use minimalrouter.Apply.Engine.Reconcile.{
  clear_recovery, is_reconciled, reconcile, reconcile_outcome, settle_pending,
}
use minimalrouter.Apply.Engine.Rollback.{fire_timer}
use minimalrouter.Apply.Ipc.{Outcome, flags, response_flags, validate}
use minimalrouter.Apply.Ipc.Outcomes.{validate_outcomes}
use minimalrouter.Apply.Safety.{validate_transition_safety}
use minimalrouter.Apply.Safety.Subnet.{validate_transition_safety_same}
use minimalrouter.Net.Address.{v4}
use minimalrouter.Net.Mask.{cidr, cidr_bytes, size}
use minimalrouter.Net.Mask.Size.{size-cidr}
use minimalrouter.Net.Membership.{contains-parse_cidr}
use minimalrouter.Net.Network.{contains}
use minimalrouter.Prelude.{
  [], codes, false, none, refl, replicate, some, true, ℕ, ◌++◌, ◌↔◌, ◌∷◌, ◌≡◌, ◌≤◌,
}
use minimalrouter.Tests.Fixture.{
  good_response, lan_net, lan_parsed, longer_lease, other_spelling, plain, plain_ipv6, router_env,
  same_lan, started, started-Inv, waiting, waiting-Inv,
}

process-Inv_example :
    Inv router_env plain (process router_env (codes "tx-1") longer_lease false none started).1
process-Inv_example =
    process-Inv router_env plain (codes "tx-1") longer_lease false none started started-Inv

fire_timer-Inv_example : Inv router_env plain (fire_timer router_env waiting)
fire_timer-Inv_example = fire_timer-Inv router_env plain waiting waiting-Inv

-- The router while its first change waits for its confirmation.
abbrev busy : Machine router_env
busy = record started {
  next = 1;
  engine = record started.engine {
    pending = some (record {
      tx = 0;
      handshake_not_before = 1000;
      previous = plain;
      timer = some (timer_after 60 []);
      rollback_attempts = 0;
      commit_attempts = 0;
      canonical_committed = false;
    });
  };
}

process_blocked_example :
    (is_accepted (process router_env (codes "tx-2") longer_lease false none busy).0 ≡ false)
    × Quiet router_env busy (process router_env (codes "tx-2") longer_lease false none busy).1
process_blocked_example =
    process_blocked router_env (codes "tx-2") longer_lease false none busy refl

apply_privileged-effects_example :
    (k : ℕ) × (k ≤ privileged_apply_attempts)
    × (effects
          (apply_privileged router_env
            (seconds 120)
            (ack_request (codes "tx-1") plain)
            started).1.log
        ≡ replicate k (called (ack_request (codes "tx-1") plain)) ++ effects started.log)
apply_privileged-effects_example =
    apply_privileged-effects router_env (seconds 120) (ack_request (codes "tx-1") plain) started

apply_privileged-outcome_example : (o : Outcome) × (response_flags good_response ≡ flags o)
unfolding apply_privileged attempt instant_now call checked validate
apply_privileged-outcome_example =
    apply_privileged-outcome router_env (seconds 120) (ack_request (codes "tx-1") plain) started
      good_response refl

validate_outcomes_example :
    (validate good_response ≡ none) ↔ ((o : Outcome) × (response_flags good_response ≡ flags o))
validate_outcomes_example = validate_outcomes good_response

validate_transition_safety_same_example :
    validate_transition_safety plain_ipv6 plain other_spelling ≡ none
validate_transition_safety_same_example =
    validate_transition_safety_same plain_ipv6 plain other_spelling same_lan

size-cidr_example : size (255 ∷ 255 ∷ 240 ∷ 0 ∷ []) ≡ (20, 32)
unfolding cidr cidr_bytes
size-cidr_example = size-cidr 20 32 refl

contains-parse_cidr_example : contains lan_net (v4 192 168 1 7) ≡ true
contains-parse_cidr_example =
    contains-parse_cidr plain_ipv6 (codes "192.168.1.7/24") lan_parsed refl

confirm_transaction-Inv_example :
    Inv router_env plain (confirm_transaction router_env (codes "tx-1") waiting).1
confirm_transaction-Inv_example =
    confirm_transaction-Inv router_env plain (codes "tx-1") waiting waiting-Inv

reconcile-Inv_example : Inv router_env plain (reconcile router_env (seconds 270) waiting).1
reconcile-Inv_example = reconcile-Inv router_env plain (seconds 270) waiting waiting-Inv

reconcile-settles_example :
    ((reconcile router_env (seconds 270) started).1.engine.pending ≡ none)
    × ((reconcile router_env (seconds 270) started).1.engine.recovery_required ≡ false)
unfolding reconcile reconcile_outcome is_reconciled build_apply_request apply_privileged attempt
    instant_now call checked validate time_now set_applying settle_pending clear_recovery
    new_request
reconcile-settles_example =
    reconcile-settles router_env plain (seconds 270) started started-Inv refl
