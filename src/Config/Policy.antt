-- ===== src/Config/Policy.antt =====
-- rust/crates/mr-config/src/config/policy.rs: comparison of sections, the classification of changes
-- that need a confirmation, and the admission of live candidates.
pub mod Trust
pub mod Legacy
pub mod Live
pub mod Scenario
use minimalrouter.Prelude.{
  Bool, false, not, ◌&&◌, ◌||◌, Option, none, some, Bytes, bytes_eq, codes, Message, text, ◌<>◌,
  leb, ◌==◌, if◌then◌else◌,
}
use minimalrouter.Config.Model.{
  SystemConfig, WireGuardConfig, WgClientConfig, WifiConfig, FirewallConfig, StaticLease,
  FirewallRule, GoList,
}
use minimalrouter.Net.Network.{IpNet, contains}
use minimalrouter.Net.Mask.{size}

-- `goish::json::marshal` of the sections that are compared: serde's output, or its failure.
pub record Marshal : Type 0 where
  pub firewall : FirewallConfig → Option Bytes
  pub wireguard : WireGuardConfig → Option Bytes
  pub wg_client : WgClientConfig → Option Bytes
  pub wifi : WifiConfig → Option Bytes
  pub trusted_networks : GoList Bytes → Option Bytes
  pub static_leases : GoList StaticLease → Option Bytes

-- `equal_json` on the two encodings, and so `equal_section`.
unfoldable pub equal_json : Option Bytes → Option Bytes → Bool
equal_json (some a) (some b) = bytes_eq a b
equal_json (some a) none = false
equal_json none b = false

abbrev pub wireguard_only : Bytes
wireguard_only = codes "wireguard_only"

unfoldable pub is_wireguard_only : SystemConfig → Bool
is_wireguard_only c = bytes_eq c.system.management_access wireguard_only

unfoldable pub network_contains_network : IpNet → IpNet → Bool
network_contains_network parent child =
    let (p, pb) = size parent.mask in
    let (c, cb) = size child.mask in pb == cb && (leb p c && contains parent child.ip)

pub data RuleScope : Type 0 where
  router wan every_zone : RuleScope

unfoldable pub firewall_rule_scope : FirewallRule → RuleScope
firewall_rule_scope rule =
    if bytes_eq rule.direction (codes "input")
    then router
    else if bytes_eq rule.action (codes "allow") || bytes_eq rule.scope (codes "wan")
    then wan
    else every_zone

module _ (json : Marshal) where
  -- Changes that can disrupt the operator's access.
  unfoldable pub requires_confirmation : SystemConfig → SystemConfig → Bool
  requires_confirmation current candidate =
      let wireguard_management_changed =
        (is_wireguard_only current || is_wireguard_only candidate)
        && not
            (equal_json (json.wireguard current.wireguard) (json.wireguard candidate.wireguard)) in
      let wifi_changed =
        not (equal_json (json.wifi current.wifi) (json.wifi candidate.wifi))
        && (current.wifi.enabled || candidate.wifi.enabled) in
      not (bytes_eq current.lan.ip_address candidate.lan.ip_address)
      || (not (bytes_eq current.lan.cidr candidate.lan.cidr)
          || (not (bytes_eq current.system.management_access candidate.system.management_access)
              || (wifi_changed
                  || (wireguard_management_changed
                      || (not (
                            equal_json (json.wg_client current.wg_client)
                              (json.wg_client candidate.wg_client))
                          || not (
                              equal_json (json.trusted_networks current.trusted_networks)
                                (json.trusted_networks candidate.trusted_networks)))))))

-- `SystemConfig::validate` and `validate_scenario_safety`: `none`, or the errors they collect.
pub record Validators : Type 0 where
  pub validate : SystemConfig → Option Message
  pub scenario_safety : SystemConfig → Option Message

abbrev baseline_prefix : Message → Message
baseline_prefix e =
    text "rollback baseline requires local configuration migration before live changes: " <> e

module _ (rules : Validators) where
  unfoldable pub validate_baseline : Option SystemConfig → Option Message
  validate_baseline none = none
  validate_baseline (some previous) = elim (rules.validate previous) [
    | some e ↦ some (baseline_prefix e)
    | none ↦ elim (rules.scenario_safety previous) [
      | some e ↦ some (baseline_prefix e)
      | none ↦ none
    ]
  ]

  -- Admits only complete, valid configurations with a recoverable baseline.
  unfoldable pub validate_live_candidate : SystemConfig → Option SystemConfig → Option Message
  validate_live_candidate candidate previous = elim (rules.validate candidate) [
    | some e ↦ some e
    | none ↦ elim (rules.scenario_safety candidate) [
      | some e ↦ some e
      | none ↦ validate_baseline previous
    ]
  ]
