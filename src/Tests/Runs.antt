-- ===== src/Tests/Runs.antt =====
-- The theorems on runs of the engine, and on versions, at the small router.
use minimalrouter.Apply.Engine.{
  Machine, PendingChange, maximum_rollback_attempts, timer_after, write,
}
use minimalrouter.Apply.Engine.Admission.{
  admission, inspect_lan, refuse, restricts_management, transition, transition_refusal,
}
use minimalrouter.Apply.Engine.Expiry.{Resolved, Waits, expirations, expirations-resolve}
use minimalrouter.Apply.Engine.Frame.{last_saved}
use minimalrouter.Apply.Engine.Invariant.{Inv, is_live}
use minimalrouter.Apply.Engine.Invariant.Bypass.{with_qos_bypassed-Inv}
use minimalrouter.Apply.Engine.Outcome.{
  ack_failure, ack_request, acknowledge, adopt, applied_outcome, apply_outcome, await_confirmation,
  commit_now, finish, helper_refused, is_restored, recover, refused_state, undo,
}
use minimalrouter.Apply.Engine.Privileged.{
  apply_privileged, attempt, audit_event, audit_reason, audit_transaction, build_apply_request,
  call, checked, instant_now, new_request, or_else, persist, privileged, record_audit, set_applying,
  set_config, set_error, set_state, state_reason, time_now,
}
use minimalrouter.Apply.Engine.Process.{
  activate, apply_request, commit_config, enter, generate, plan, process, process_initial_setup,
  process_locked, process_transaction, snapshot, take_snapshot,
}
use minimalrouter.Apply.Engine.Reach.{
  Reach, Reach-durable, Reach-rollbackable, fresh, nowhere, onward, processed,
}
use minimalrouter.Apply.Engine.Reconcile.{with_qos_bypassed}
use minimalrouter.Apply.Ipc.{outcome, validate}
use minimalrouter.Apply.Safety.{
  changed_by_ip, cidr_contained_by_any, first_collision, inspect_lan_observation, is_lan_unchanged,
  is_unchanged, lease_collision, migration_trust, previous_by_id, same_ipv4_network, same_net,
  validate_transition_safety, zone_holds, zone_text_holds,
}
use minimalrouter.Config.Policy.{
  equal_json, firewall_rule_scope, is_wireguard_only, network_contains_network,
  requires_confirmation, validate_baseline, validate_live_candidate,
}
use minimalrouter.Firmware.Version.{
  after_digits, before, behind, compare_identifiers, compare_numeric_strings, compare_parsed,
  compare_prereleases, compare_release_versions, digits_dot, digits_of, is_release_version,
  is_suffix, is_suffix_byte, numeric_identifier, parse_core, parse_release_version, some_digits,
  strip_v, trim_zeros, validate_forward_upgrade, zip_order,
}
use minimalrouter.Firmware.Version.Forward.{upgrades_never_return, validate_forward_upgrade_trans}
use minimalrouter.Net.Address.{
  equal, is_global_unicast, is_link_local_unicast, is_loopback, is_multicast, is_private,
  is_unspecified, to16, to4, v4,
}
use minimalrouter.Net.Mask.{
  and_bytes, cidr, cidr_bytes, leading_ones, mask, mask_length_from, simple_mask_length, size,
}
use minimalrouter.Net.Network.{
  broadcast_bytes, contains, dtoi, dtoi_from, ipv4_broadcast, network_number_and_mask, parse_cidr,
  parse_cidr_address, parse_network,
}
use minimalrouter.Net.Parse.{
  decimal_from, from_octets, parse_ip, parse_ipv4, parse_ipv4_strict, parse_octet, parse_octets,
}
use minimalrouter.Prelude.{
  Bytes, List, Option, [], arith, bytes_eq, codes, false, get_elem?, lexicographic, none, ok, refl,
  some, split, split_once, strip_prefix, true, ℕ, ◌+◌, ◌∷◌, ◌≡◌, ◌≢◌, ◌≤◌,
}
use minimalrouter.Tests.Fixture.{moved, plain, router_env, started, started-Inv}

-- The router as it starts, and as a run of one change leaves it.
abbrev first : Machine router_env
unfolding fresh
first = record started { engine = fresh plain }

abbrev after_moved : Machine router_env
after_moved = (process router_env (codes "tx-1") moved false none first).1

moved_reached : Reach router_env first after_moved
moved_reached = onward nowhere (processed (codes "tx-1") moved false none)

Reach-durable_example : after_moved.engine.current_config ≡ last_saved plain after_moved.log
unfolding fresh first
Reach-durable_example =
    Reach-durable router_env plain first after_moved refl refl moved_reached refl

with_qos_bypassed-Inv_example :
    Inv router_env plain (with_qos_bypassed router_env (λ w. (none, w)) started).1
with_qos_bypassed-Inv_example =
    with_qos_bypassed-Inv router_env plain (λ w. (none, w)) started started-Inv

validate_forward_upgrade_trans_example :
    validate_forward_upgrade (codes "0.3.1") (codes "0.3.0-rc.2") ≡ ok tt
unfolding validate_forward_upgrade compare_release_versions parse_release_version is_release_version
    digits_dot some_digits strip_v strip_prefix after_digits is_suffix parse_core split before
    split_once compare_parsed compare_numeric_strings digits_of trim_zeros lexicographic behind
    compare_identifiers compare_prereleases is_suffix_byte numeric_identifier zip_order
validate_forward_upgrade_trans_example =
    validate_forward_upgrade_trans (codes "0.3.1") (codes "0.3.0") (codes "0.3.0-rc.2") refl refl
      refl

abbrev passed_versions : List Bytes
passed_versions = codes "0.3.0" ∷ codes "0.3.0-rc.2" ∷ []

upgrades_never_return_example : get_elem? passed_versions 1 ≢ some (codes "0.3.1")
unfolding validate_forward_upgrade compare_release_versions parse_release_version is_release_version
    digits_dot some_digits strip_v strip_prefix after_digits is_suffix parse_core split before
    split_once compare_parsed compare_numeric_strings digits_of trim_zeros lexicographic behind
    compare_identifiers compare_prereleases is_suffix_byte numeric_identifier zip_order
upgrades_never_return_example =
    upgrades_never_return (codes "0.3.1") passed_versions 1 (refl, refl, (refl, refl, refl))

abbrev waiting_change : PendingChange
waiting_change = record {
  tx = 0;
  handshake_not_before = 1000;
  previous = plain;
  timer = some (timer_after 1 []);
  rollback_attempts = 0;
  commit_attempts = 0;
  canonical_committed = false;
}

abbrev unconfirmed : Machine router_env
unconfirmed = record started { engine = record started.engine { pending = some waiting_change } }

abbrev some_worlds : List ℕ
some_worlds = 2000 ∷ 3000 ∷ 4000 ∷ 5000 ∷ 6000 ∷ 7000 ∷ []

unconfirmed-Waits : Waits router_env 0 [] 0 unconfirmed
unfolding bytes_eq
unconfirmed-Waits = record {
  change = waiting_change;
  pending = refl;
  reference = refl;
  uncommitted = refl;
  named = refl;
  attempts = refl;
}

expirations-resolve_example :
    Resolved router_env 0 (expirations router_env [] some_worlds unconfirmed)
expirations-resolve_example =
    expirations-resolve router_env 0 [] 0 some_worlds unconfirmed unconfirmed-Waits (omega arith)
      (omega arith)

abbrev pending_of : Option PendingChange → PendingChange
pending_of none = waiting_change
pending_of (some p) = p

Reach-rollbackable_example :
    (after_moved.engine.current_config ≡ (pending_of after_moved.engine.pending).previous)
    × (is_live
          (after_moved.heap (pending_of after_moved.engine.pending).tx).id
          (pending_of after_moved.engine.pending).timer
        ≡ true)
    × ((pending_of after_moved.engine.pending).rollback_attempts ≤ maximum_rollback_attempts)
    × ((after_moved.heap (pending_of after_moved.engine.pending).tx).config.revision
        ≡ after_moved.engine.current_config.revision + 1)
unfolding fresh first write commit_config apply_request activate take_snapshot snapshot generate
    plan process_locked enter process process_transaction process_initial_setup restricts_management
    admission transition_refusal inspect_lan transition refuse ack_request recover adopt finish
    ack_failure acknowledge is_restored undo commit_now await_confirmation refused_state
    helper_refused applied_outcome apply_outcome new_request or_else checked state_reason
    audit_reason audit_event time_now instant_now call attempt apply_privileged set_applying
    privileged build_apply_request record_audit audit_transaction set_state set_config set_error
    persist zone_holds zone_text_holds cidr_contained_by_any same_net same_ipv4_network
    migration_trust validate_transition_safety previous_by_id is_unchanged changed_by_ip
    lease_collision first_collision inspect_lan_observation is_lan_unchanged equal_json
    is_wireguard_only network_contains_network firewall_rule_scope requires_confirmation
    validate_baseline validate_live_candidate decimal_from parse_octet parse_octets
    parse_ipv4_strict from_octets parse_ip parse_ipv4 network_number_and_mask contains
    broadcast_bytes ipv4_broadcast dtoi_from dtoi parse_network parse_cidr_address parse_cidr
    cidr_bytes cidr leading_ones mask_length_from simple_mask_length size and_bytes mask v4 to4 to16
    equal is_unspecified is_loopback is_multicast is_private is_link_local_unicast is_global_unicast
    validate outcome bytes_eq split_once split strip_prefix
Reach-rollbackable_example =
    Reach-rollbackable router_env plain first after_moved (pending_of after_moved.engine.pending)
      refl refl moved_reached refl refl
