-- ===== src/Config/Policy/Scenario.antt =====
-- rust/crates/mr-config/src/config/policy.rs, `validate_scenario_safety` and what it calls, and
-- `ValidationErrors` of validation.rs: the checks that protect the management of the router.
-- `str::trim` is a parameter.

pub mod Host
pub mod Safe
pub mod Private
use minimalrouter.Config.Model.{DnsRecord, FirewallRule, SystemConfig, WgClientConfig, items}
use minimalrouter.Net.Address.{to4}
use minimalrouter.Net.HostPort.{split_host_port}
use minimalrouter.Net.Mask.{cidr, size}
use minimalrouter.Net.Network.{IpNet, contains, parse_cidr}
use minimalrouter.Net.Parse.{Ipv6Std, parse_ip}
use minimalrouter.Prelude.{
  Bool, Bytes, List, Message, String, [], all, any, bytes_eq, codes, err, false, if◌then◌else◌,
  is_ascii_digit, is_empty, is_none, is_some, leb, length, ltb, none, not, ok, shown, some, split,
  suc, text, true, ℕ, ◌&&◌, ◌++◌, ◌<>◌, ◌==◌, ◌||◌, ◌∷◌,
}

pub record ValidationError : Type 0 where
  pub field : Message
  pub message : Message

abbrev pub ValidationErrors : Type 0
ValidationErrors = List ValidationError

-- `errs.add(field, message)`, behind a condition.
abbrev pub add_if : Bool → Message → Message → ValidationErrors
add_if true field message = record { field = field; message = message } ∷ []
add_if false field message = []

-- A loop that adds one error for each item, at its index, that a test is true of.
unfoldable pub add_each {ℓ} :
    {A : Type ℓ} → (A → Bool) → (ℕ → Message) → Message → ℕ → List A → ValidationErrors
add_each bad field message i [] = []
add_each bad field message i (x ∷ xs) =
    add_if (bad x) (field i) message ++ add_each bad field message (suc i) xs

abbrev indexed : String → String → ℕ → Message
indexed before behind i = text before <> shown i <> text behind

-- `r.is_ascii_alphanumeric() || r == '-'`.
unfoldable pub is_label_byte : ℕ → Bool
is_label_byte r =
    is_ascii_digit r || ((leb b'A' r && leb r b'Z') || ((leb b'a' r && leb r b'z') || r == b'-'))

unfoldable pub starts_with : ℕ → Bytes → Bool
starts_with c [] = false
starts_with c (b ∷ _) = b == c

unfoldable pub ends_with : ℕ → Bytes → Bool
ends_with c [] = false
ends_with c (b ∷ []) = b == c
ends_with c (_ ∷ b ∷ bs) = ends_with c (b ∷ bs)

unfoldable pub valid_label : Bytes → Bool
valid_label label =
    not (is_empty label)
    && (leb (length label) 63
        && (not (starts_with b'-' label)
            && (not (ends_with b'-' label) && all is_label_byte label)))

unfoldable pub network_contained_in : IpNet → IpNet → Bool
network_contained_in candidate zone =
    if is_none (to4 candidate.ip) || is_none (to4 zone.ip)
    then false
    else (size candidate.mask).1 == 32
      && ((size zone.mask).1 == 32
          && (leb (size zone.mask).0 (size candidate.mask).0 && contains zone candidate.ip))

-- A custom rule that is refused.
unfoldable pub denies_input : FirewallRule → Bool
denies_input rule =
    rule.enabled && (bytes_eq rule.direction (codes "input") && bytes_eq rule.action (codes "deny"))

module _ (std : Ipv6Std) (trim : Bytes → Bytes) where
  unfoldable pub valid_dns_name_strict : Bytes → Bool
  valid_dns_name_strict text_of =
      let value = trim text_of in
      if is_empty value
        || (ltb 253 (length value) || (starts_with b'.' value || ends_with b'.' value))
      then false
      else all valid_label (split b'.' value)

  -- One of the three zones.
  unfoldable pub zone_contains : IpNet → Bytes → Bool
  zone_contains network cidr = elim (parse_cidr std cidr) [
    | none ↦ false
    | some (_, zone) ↦ network_contained_in network zone
  ]

  unfoldable pub is_private_site_network : IpNet → Bool
  is_private_site_network network =
      any (zone_contains network)
        (codes "10.0.0.0/8" ∷ codes "172.16.0.0/12" ∷ codes "192.168.0.0/16" ∷ [])

  abbrev address_field : Message
  address_field = text "wg_client.address"

  unfoldable pub address_errors : Bytes → ValidationErrors
  address_errors address = elim (parse_cidr std address) [
    | some (ip, network) ↦
        if not (is_empty address) && is_some (to4 ip)
        then add_if (not ((size network.mask).0 == 32)) address_field
            (text "must be a /32 address in this appliance version")
        else add_if true address_field
            (text "is required and must be a valid IPv4 /32 when the outbound tunnel is enabled")
    | none ↦
        add_if true address_field
          (text "is required and must be a valid IPv4 /32 when the outbound tunnel is enabled")
  ]

  -- An allowed network that is refused: an IPv4 network outside the private zones.
  unfoldable pub leaves_site : Bytes → Bool
  leaves_site entry = elim (parse_cidr std (trim entry)) [
    | none ↦ false
    | some (_, remote) ↦ is_some (to4 remote.ip) && not (is_private_site_network remote)
  ]

  unfoldable pub endpoint_bad : Bytes → Bool
  endpoint_bad endpoint = elim (split_host_port endpoint) [
    | err e ↦ false
    | ok (host, port) ↦ is_none (parse_ip std host) && not (valid_dns_name_strict host)
  ]

  unfoldable pub tunnel_errors : WgClientConfig → ValidationErrors
  tunnel_errors tunnel =
      if tunnel.enabled
      then address_errors (trim tunnel.address)
        ++ (add_each leaves_site (indexed "wg_client.allowed_ips[" "]")
              (text
                "must be contained in an RFC1918 private site network (10/8, 172.16/12, or 192.168/16)")
              0 (items tunnel.allowed_ips)
            ++ add_if (endpoint_bad tunnel.endpoint) (text "wg_client.endpoint")
                (text "hostname must contain valid DNS labels"))
      else []

  unfoldable pub validate_scenario_safety : SystemConfig → ValidationErrors
  validate_scenario_safety c =
      add_if (not (valid_dns_name_strict c.system.domain)) (text "system.domain") (
        text
          "must contain valid DNS labels (1-63 alphanumeric/hyphen characters, no empty labels or edge hyphens)")
      ++ (add_each (λ (rec : DnsRecord). not (valid_dns_name_strict rec.name))
            (indexed "dns.records[" "].name") (text "must contain valid DNS labels") 0
            (items c.dns.records)
          ++ (tunnel_errors c.wg_client
              ++ add_each denies_input (indexed "firewall.custom_rules[" "]")
                  (text
                    "custom input deny rules are unavailable because they can lock out router management; use trusted networks or feature-specific access controls")
                  0 (items c.firewall.custom_rules)))
