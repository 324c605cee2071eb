-- ===== src/Tests/Policy.antt =====
-- The theorems on policies, at a small router that trusts its LAN and runs a site-to-site tunnel.

use minimalrouter.Config.Model.{ExtraLanConfig, SystemConfig, items, nil, slice}
use minimalrouter.Config.Policy.{validate_live_candidate}
use minimalrouter.Config.Policy.Legacy.{
  KeepsDigits, be32, first_host, from_be32, migrate_legacy_fields, migrate_legacy_fields_idem,
  router_address_of,
}
use minimalrouter.Config.Policy.Live.{
  IsBaseline, IsComplete, live_rules, validate_live_candidate-IsComplete,
}
use minimalrouter.Config.Policy.Scenario.{
  add_each, address_errors, denies_input, endpoint_bad, ends_with, is_label_byte,
  is_private_site_network, leaves_site, network_contained_in, starts_with, tunnel_errors,
  valid_dns_name_strict, valid_label, validate_scenario_safety, zone_contains,
}
use minimalrouter.Config.Policy.Scenario.Private.{validate_scenario_safety-routes}
use minimalrouter.Config.Policy.Scenario.Safe.{IsSafe, validate_scenario_safety-IsSafe}
use minimalrouter.Config.Policy.Trust.{
  Holds, is_trusted_client_address, is_trusted_client_address_iff,
}
use minimalrouter.Net.Address.{is_loopback, is_private, to4, v4}
use minimalrouter.Net.HostPort.{
  check_brackets, join_host_port, rsplit_once, split_bare, split_host_port,
  split_host_port-join_host_port,
}
use minimalrouter.Net.Mask.{
  and_bytes, cidr, cidr_bytes, leading_ones, mask, mask_length_from, simple_mask_length, size,
}
use minimalrouter.Net.Network.{
  contains, dtoi, dtoi_from, network_number_and_mask, parse_cidr, parse_cidr_address, parse_network,
}
use minimalrouter.Net.Parse.{
  Ipv6Std, decimal_from, from_octets, parse_ip, parse_ipv4_strict, parse_octet, parse_octets,
}
use minimalrouter.Net.Show.{decimal, digits_from, show_ip, show_octets}
use minimalrouter.Prelude.{
  Bool-cases, Bytes, Message, Option, [], arith, bytes_eq, codes, if◌then◌else◌, inl, inr, is_empty,
  length, none, ok, refl, some, split, split_once, text, true, ◌↔◌, ◌∷◌, ◌≡◌, ◌⊎◌,
}
use minimalrouter.Prelude.Int.{pos}
use minimalrouter.Tests.Fixture.{lan_net, lan_parsed, plain, plain_ipv6}

abbrev site : SystemConfig
site = record plain {
  trusted_networks = slice (codes "192.168.1.7/24" ∷ []);
  wg_client = record plain.wg_client {
    enabled = true;
    address = codes "10.9.0.2/32";
    endpoint = codes "vpn.example:51820";
    allowed_ips = slice (codes "192.168.1.7/24" ∷ []);
  };
}

-- Text of the tests has no white space around it.
abbrev as_it_is : Bytes → Bytes
as_it_is s = s

split_host_port-join_host_port_example :
    split_host_port (join_host_port (codes "fe80::1") (codes "443"))
    ≡ ok (codes "fe80::1", codes "443")
split_host_port-join_host_port_example =
    split_host_port-join_host_port (codes "fe80::1") (codes "443") (refl, refl) (refl, refl) refl

peer_parsed : parse_ip plain_ipv6 (codes "192.168.1.9") ≡ some (v4 192 168 1 9)
unfolding parse_ip parse_ipv4_strict parse_octets parse_octet decimal_from from_octets split v4
peer_parsed = refl

is_trusted_client_address_iff_example :
    (is_trusted_client_address plain_ipv6 as_it_is site
        (join_host_port (codes "192.168.1.9") (codes "50000"))
      ≡ true)
    ↔ ((is_loopback (v4 192 168 1 9) ≡ true)
        ⊎ Holds plain_ipv6 (v4 192 168 1 9) (items site.trusted_networks))
is_trusted_client_address_iff_example =
    is_trusted_client_address_iff plain_ipv6 as_it_is site (codes "192.168.1.9") (codes "50000")
      (refl, refl) (refl, refl) refl peer_parsed

validate_scenario_safety-IsSafe_example :
    (validate_scenario_safety plain_ipv6 as_it_is site ≡ []) ↔ IsSafe plain_ipv6 as_it_is site
validate_scenario_safety-IsSafe_example = validate_scenario_safety-IsSafe plain_ipv6 as_it_is site

site_accepted : validate_scenario_safety plain_ipv6 as_it_is site ≡ []
unfolding validate_scenario_safety valid_dns_name_strict valid_label is_label_byte starts_with
    ends_with add_each tunnel_errors address_errors leaves_site endpoint_bad denies_input
    is_private_site_network zone_contains network_contained_in contains network_number_and_mask
    split_host_port split_bare check_brackets rsplit_once parse_ip parse_cidr parse_cidr_address
    parse_network parse_ipv4_strict parse_octets parse_octet decimal_from from_octets dtoi dtoi_from
    cidr cidr_bytes mask and_bytes split_once split to4 size simple_mask_length mask_length_from
    leading_ones bytes_eq v4
site_accepted = refl

validate_scenario_safety-routes_example : (is_private lan_net.ip ≡ true) ⊎ (to4 lan_net.ip ≡ none)
validate_scenario_safety-routes_example =
    validate_scenario_safety-routes plain_ipv6 as_it_is site 0 site_accepted refl refl lan_parsed

-- A full validation that wants a host name.
abbrev has_hostname : SystemConfig → Option Message
has_hostname c = if is_empty c.system.hostname then some (text "no host name") else none

validate_live_candidate-IsComplete_example :
    (validate_live_candidate (live_rules plain_ipv6 as_it_is has_hostname) site (some plain) ≡ none)
    ↔ (IsComplete plain_ipv6 as_it_is has_hostname site
        × IsBaseline plain_ipv6 as_it_is has_hostname (some plain))
validate_live_candidate-IsComplete_example =
    validate_live_candidate-IsComplete plain_ipv6 as_it_is has_hostname site (some plain)

as_it_is-KeepsDigits : KeepsDigits as_it_is
as_it_is-KeepsDigits [] h = absurd (ground arith)
as_it_is-KeepsDigits (_ ∷ _) h = refl

-- A LAN that was saved before it had an address of the router.
abbrev guests : ExtraLanConfig
guests = record {
  id = codes "guests";
  name = codes "Guests";
  interface = codes "eth2";
  cidr = codes "192.168.1.7/24";
  router_address = [];
  dst_ip = [];
  dst_port = pos 0;
  protocol = [];
  allow_from = nil;
  enabled = true;
}

abbrev with_guests : SystemConfig
with_guests = record site { firewall = record site.firewall { extra_lans = slice (guests ∷ []) } }

migrate_legacy_fields_idem_example :
    migrate_legacy_fields plain_ipv6 as_it_is
      (migrate_legacy_fields plain_ipv6 as_it_is with_guests)
    ≡ migrate_legacy_fields plain_ipv6 as_it_is with_guests
migrate_legacy_fields_idem_example =
    migrate_legacy_fields_idem plain_ipv6 as_it_is as_it_is-KeepsDigits with_guests

-- The address that is filled in.
guests_address : router_address_of plain_ipv6 as_it_is guests ≡ some (codes "192.168.1.1/24")
unfolding router_address_of first_host from_be32 be32 show_ip show_octets decimal digits_from
    parse_cidr parse_cidr_address parse_network parse_ipv4_strict parse_octets parse_octet
    decimal_from from_octets dtoi dtoi_from cidr cidr_bytes mask and_bytes split_once split to4 size
    simple_mask_length mask_length_from leading_ones bytes_eq v4
guests_address = refl

-- A reader of IPv6 that knows one spelling, of an IPv4 address.
abbrev mapped_text : Bytes
mapped_text = codes "::ffff:10.9.0.2"

mapped_octets : Bytes
mapped_octets = 0 ∷ 0 ∷ 0 ∷ 0 ∷ 0 ∷ 0 ∷ 0 ∷ 0 ∷ 0 ∷ 0 ∷ 255 ∷ 255 ∷ 10 ∷ 9 ∷ 0 ∷ 2 ∷ []

abbrev read_mapped : Bytes → Option Bytes
read_mapped s = if bytes_eq s mapped_text then some mapped_octets else none

read_mapped-length : (s o : Bytes) → read_mapped s ≡ some o → length o ≡ 16
unfolding mapped_octets
read_mapped-length s o h = elim (Bool-cases (bytes_eq s mapped_text)) [
  | inl e ↦ let same : mapped_octets ≡ o = ground (arith, h, e) in rw (← same) refl
  | inr e ↦ absurd (ground (arith, h, e))
]

abbrev mapped_ipv6 : Ipv6Std
mapped_ipv6 = record { parse = read_mapped; print = λ o. o; parse_length = read_mapped-length }

-- The check of the tunnel's address lets an IPv6 spelling through.
mapped_accepted : address_errors mapped_ipv6 as_it_is (codes "::ffff:10.9.0.2/32") ≡ []
unfolding address_errors mapped_octets bytes_eq to4 size simple_mask_length mask_length_from
    leading_ones parse_cidr parse_cidr_address parse_network parse_ipv4_strict parse_octets
    parse_octet decimal_from from_octets dtoi dtoi_from cidr cidr_bytes mask and_bytes split_once
    split v4
mapped_accepted = refl
