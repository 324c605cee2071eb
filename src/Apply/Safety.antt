-- ===== src/Apply/Safety.antt =====
-- rust/crates/mr-services/src/apply/safety.rs, and `same_ipv4_network` of engine.rs: the checks that
-- depend on both the canonical and the candidate configuration.
pub mod Subnet
use minimalrouter.Prelude.{
  Bool, false, not, ◌&&◌, ◌||◌, Option, none, some, List, [], ◌∷◌, Bytes, bytes_eq, Message, text,
  quoted, ◌<>◌, leb, ◌==◌, if◌then◌else◌, is_some, is_none, Result, ok, err, any,
}
use minimalrouter.Prelude.Int.{ℤ, pos, ltb_ℤ}
use minimalrouter.Config.Model.{SystemConfig, StaticLease, items, Time}
use minimalrouter.Config.Policy.{Marshal, equal_json}
use minimalrouter.Net.Address.{to4, equal}
use minimalrouter.Net.Mask.{size}
use minimalrouter.Net.Parse.{Ipv6Std}
use minimalrouter.Net.Network.{IpNet, contains, parse_cidr}
use minimalrouter.Net.Show.{show_net}
use minimalrouter.Net.Mac.{ipv4_identity, mac_identity}

-- `telemetry::DHCPLeaseSnapshot`.
pub record DhcpLease : Type 0 where
  pub expires_at : ℤ
  pub mac : Bytes
  pub ip_address : Bytes
  pub hostname : Bytes

pub record DhcpLeaseStatus : Type 0 where
  pub available : Bool
  pub collected_at : Time
  pub truncated : Bool
  pub rejected_entries : ℤ
  pub error : Bytes

pub record DhcpLeaseSnapshot : Type 0 where
  pub status : DhcpLeaseStatus
  pub leases : List DhcpLease

-- Whether a parsed network is an IPv4 network with a 32-bit mask.
abbrev is_v4_net : IpNet → Bool
is_v4_net n = is_some (to4 n.ip) && (size n.mask).1 == 32

-- One zone of `cidr_contained_by_any`.
unfoldable pub zone_holds : IpNet → IpNet → Bool
zone_holds candidate zone =
    is_some (to4 zone.ip)
    && ((size zone.mask).1 == 32
        && (leb (size zone.mask).0 (size candidate.mask).0 && contains zone candidate.ip))

-- The two texts of `validate_transition_safety` behind its checks.
abbrev untrusted : Bytes → Message
untrusted net =
    text "LAN subnet migration requires the new subnet "
    <> quoted net
    <> text " to be added to trusted_networks in a separate confirmed transaction first"

abbrev trust_dropped : Bytes → Message
trust_dropped net =
    text "LAN subnet migration candidate must retain trusted management access for the new subnet "
    <> quoted net

module _ (std : Ipv6Std) where
  unfoldable pub zone_text_holds : IpNet → Bytes → Bool
  zone_text_holds candidate z = elim (parse_cidr std z) [
    | none ↦ false
    | some (_, zone) ↦ zone_holds candidate zone
  ]

  unfoldable pub cidr_contained_by_any : Bytes → List Bytes → Bool
  cidr_contained_by_any candidate zones = elim (parse_cidr std candidate) [
    | none ↦ false
    | some (_, net) ↦ is_v4_net net && any (zone_text_holds net) zones
  ]

  -- engine.rs: both texts are IPv4 networks of one prefix length and one address.
  unfoldable pub same_net : IpNet → IpNet → Bool
  same_net an bn =
      (is_some (to4 an.ip) && is_some (to4 bn.ip))
      && ((size an.mask).1 == 32
          && ((size bn.mask).1 == 32
              && ((size an.mask).0 == (size bn.mask).0 && equal an.ip bn.ip)))

  unfoldable pub same_ipv4_network : Bytes → Bytes → Bool
  same_ipv4_network a b = elim (parse_cidr std a) [
    | none ↦ false
    | some (_, an) ↦ elim (parse_cidr std b) [ none ↦ false | some (_, bn) ↦ same_net an bn ]
  ]

  -- The checks on the two parsed LAN networks.
  unfoldable pub migration_trust : IpNet → IpNet → SystemConfig → SystemConfig → Option Message
  migration_trust old_net new_net current candidate =
      if is_none (to4 old_net.ip)
        || (is_none (to4 new_net.ip) || bytes_eq (show_net std old_net) (show_net std new_net))
      then none
      else if not (cidr_contained_by_any (show_net std new_net) (items current.trusted_networks))
      then some (untrusted (show_net std new_net))
      else if not (cidr_contained_by_any (show_net std new_net) (items candidate.trusted_networks))
      then some (trust_dropped (show_net std new_net))
      else none

  -- A move to another subnet wants that subnet trusted before and after.
  unfoldable pub validate_transition_safety : SystemConfig → SystemConfig → Option Message
  validate_transition_safety current candidate =
      if bytes_eq current.lan.cidr candidate.lan.cidr
      then none
      else elim (parse_cidr std current.lan.cidr) [
        | none ↦ none
        | some (_, old_net) ↦ elim (parse_cidr std candidate.lan.cidr) [
          | none ↦ none
          | some (_, new_net) ↦ migration_trust old_net new_net current candidate
        ]
      ]

  -- `previous_by_id.get(id)`: of two reservations with one id the later one.
  unfoldable pub previous_by_id : Bytes → List StaticLease → Option StaticLease
  previous_by_id id [] = none
  previous_by_id id (r ∷ rs) = elim (previous_by_id id rs) [
    | some found ↦ some found
    | none ↦ if bytes_eq r.id id then some r else none
  ]

  unfoldable pub is_unchanged : List StaticLease → StaticLease → Bool
  is_unchanged previous r = elim (previous_by_id r.id previous) [
    | none ↦ false
    | some p ↦
        bytes_eq (ipv4_identity std p.ip_address) (ipv4_identity std r.ip_address)
        && bytes_eq (mac_identity p.mac) (mac_identity r.mac)
  ]

  -- `changed_by_ip.get(ip)`: the address of the hardware that the last changed reservation names.
  unfoldable pub changed_by_ip : List StaticLease → List StaticLease → Bytes → Option Bytes
  changed_by_ip previous [] ip = none
  changed_by_ip previous (r ∷ rs) ip = elim (changed_by_ip previous rs ip) [
    | some found ↦ some found
    | none ↦
        if not (is_unchanged previous r) && bytes_eq (ipv4_identity std r.ip_address) ip
        then some (mac_identity r.mac)
        else none
  ]

  -- What one lease collides with.
  unfoldable pub lease_collision : SystemConfig → SystemConfig → DhcpLease → Option Message
  lease_collision current candidate lease =
      let lease_ip = ipv4_identity std lease.ip_address in
      let gateway = ipv4_identity std candidate.lan.ip_address in
      if not (bytes_eq gateway (ipv4_identity std current.lan.ip_address))
        && bytes_eq gateway lease_ip
      then some (text "new LAN gateway is currently leased to " <> quoted lease.mac)
      else elim (changed_by_ip (items current.dhcp.static_leases)
          (items candidate.dhcp.static_leases) lease_ip) [
            | none ↦ none
            | some mac ↦
                if not (bytes_eq mac (mac_identity lease.mac))
                then some (
                    text "reserved address "
                    <> quoted lease.ip_address
                    <> text " is currently leased to "
                    <> quoted lease.mac)
                else none
          ]

  unfoldable pub first_collision : SystemConfig → SystemConfig → List DhcpLease → Option Message
  first_collision current candidate [] = none
  first_collision current candidate (l ∷ ls) = elim (lease_collision current candidate l) [
    | some e ↦ some e
    | none ↦ first_collision current candidate ls
  ]

  -- Observations can reject a known collision, but never prove that an address is free.
  unfoldable pub inspect_lan_observation :
      SystemConfig → SystemConfig → DhcpLeaseSnapshot → Result Message (List Message)
  inspect_lan_observation current candidate snapshot =
      elim (first_collision current candidate snapshot.leases) [
        | some e ↦ err e
        | none ↦
            if not snapshot.status.available
              || (snapshot.status.truncated || ltb_ℤ (pos 0) snapshot.status.rejected_entries)
            then ok (
                text
                  "DHCP observation is unavailable or incomplete; check for address conflicts before applying."
                ∷ [])
            else ok (
                text
                  "Only known DHCP collisions were checked. Manually configured devices may not be observed."
                ∷ [])
      ]

  -- The test of `inspect_lan_change`: the LAN address and the reservations stay. Otherwise it reads
  -- the leases and goes on to `inspect_lan_observation`.
  unfoldable pub is_lan_unchanged : Marshal → SystemConfig → SystemConfig → Bool
  is_lan_unchanged json current candidate =
      bytes_eq current.lan.ip_address candidate.lan.ip_address
      && equal_json (json.static_leases current.dhcp.static_leases)
          (json.static_leases candidate.dhcp.static_leases)
