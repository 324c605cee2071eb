-- ===== src/Config/Policy/Scenario/Private.antt =====
-- The private zones of `is_private_site_network`, against the addresses that goish/net.rs counts as
-- private.

use mathlib.Core.Path.{subst}
use minimalrouter.Config.Model.{SystemConfig, items}
use minimalrouter.Config.Policy.Scenario.{
  is_private_site_network, network_contained_in, validate_scenario_safety, zone_contains,
}
use minimalrouter.Config.Policy.Scenario.Safe.{StaysPrivate, validate_scenario_safety-IsSafe}
use minimalrouter.Net.Address.{Ip, is_private, to4, v4}
use minimalrouter.Net.Mask.{IpMask, and_bytes, cidr, cidr_bytes, mask, simple_mask_length, size}
use minimalrouter.Net.Mask.Size.{and_bytes-All}
use minimalrouter.Net.Membership.{length-ip, parse_cidr-IsV4Net}
use minimalrouter.Net.Network.{
  IpNet, contains, dtoi, dtoi_from, network_number_and_mask, parse_cidr, parse_cidr_address,
  parse_network,
}
use minimalrouter.Net.Parse.{
  Ipv6Std, decimal_from, from_octets, parse_ipv4_strict, parse_octet, parse_octets,
}
use minimalrouter.Prelude.{
  ==→eq, All, Bool, Bool-cases, Bytes, List, Option, Option-cases, [], any_inv, arith, bit_and,
  bytes_eq, codes, false, get_elem?, inl, inr, is_some, length, none, passes_below, passes_below_at,
  refl, some, split, split_once, suc, sym, true, zero, ℕ, ◌<◌, ◌==◌, ◌∷◌, ◌≡◌, ◌⊎◌,
}

abbrev zone_10 : IpNet
zone_10 = record { ip = 10 ∷ 0 ∷ 0 ∷ 0 ∷ []; mask = 255 ∷ 0 ∷ 0 ∷ 0 ∷ [] }

abbrev zone_172 : IpNet
zone_172 = record { ip = 172 ∷ 16 ∷ 0 ∷ 0 ∷ []; mask = 255 ∷ 240 ∷ 0 ∷ 0 ∷ [] }

abbrev zone_192 : IpNet
zone_192 = record { ip = 192 ∷ 168 ∷ 0 ∷ 0 ∷ []; mask = 255 ∷ 255 ∷ 0 ∷ 0 ∷ [] }

module _ (std : Ipv6Std) where
  zone_10_parsed : parse_cidr std (codes "10.0.0.0/8") ≡ some (v4 10 0 0 0, zone_10)
  unfolding parse_cidr parse_cidr_address parse_network parse_ipv4_strict parse_octets parse_octet
      decimal_from from_octets dtoi dtoi_from cidr cidr_bytes mask and_bytes split_once split v4
      bytes_eq
  zone_10_parsed = refl

  zone_172_parsed : parse_cidr std (codes "172.16.0.0/12") ≡ some (v4 172 16 0 0, zone_172)
  unfolding parse_cidr parse_cidr_address parse_network parse_ipv4_strict parse_octets parse_octet
      decimal_from from_octets dtoi dtoi_from cidr cidr_bytes mask and_bytes split_once split v4
      bytes_eq
  zone_172_parsed = refl

  zone_192_parsed : parse_cidr std (codes "192.168.0.0/16") ≡ some (v4 192 168 0 0, zone_192)
  unfolding parse_cidr parse_cidr_address parse_network parse_ipv4_strict parse_octets parse_octet
      decimal_from from_octets dtoi dtoi_from cidr cidr_bytes mask and_bytes split_once split v4
      bytes_eq
  zone_192_parsed = refl

-- A mask of eight ones keeps a byte.
keeps : ℕ → Bool
keeps x = bit_and x 255 == x

all_kept : passes_below 256 keeps ≡ true
unfolding passes_below keeps
all_kept = refl

bit_and-byte : (x : ℕ) → x < 256 → bit_and x 255 ≡ x
unfolding keeps
bit_and-byte x lt = ==→eq _ _ (passes_below_at 256 keeps x all_kept lt)

module _ (p q r s : ℕ) (hp : p < 256) (hq : q < 256) where
  abbrev here : Ip
  here = p ∷ q ∷ r ∷ s ∷ []

  zone_10_private : contains zone_10 here ≡ true → p ≡ 10
  unfolding contains network_number_and_mask to4 and_bytes bytes_eq
  zone_10_private h = let e = bit_and-byte p hp in ground arith

  zone_172_private : contains zone_172 here ≡ true → (p ≡ 172) × (bit_and q 240 ≡ 16)
  unfolding contains network_number_and_mask to4 and_bytes bytes_eq
  zone_172_private h = let e = bit_and-byte p hp in (ground arith, ground arith)

  zone_192_private : contains zone_192 here ≡ true → (p ≡ 192) × (q ≡ 168)
  unfolding contains network_number_and_mask to4 and_bytes bytes_eq
  zone_192_private h =
      let e = bit_and-byte p hp in let f = bit_and-byte q hq in (ground arith, ground arith)

  here_private :
      (contains zone_10 here ≡ true)
        ⊎ ((contains zone_172 here ≡ true) ⊎ (contains zone_192 here ≡ true))
      → is_private here ≡ true
  unfolding is_private to4
  here_private (inl h) = let e = zone_10_private h in ground arith
  here_private (inr (inl h)) = let (e, f) = zone_172_private h in ground arith
  here_private (inr (inr h)) = let (e, f) = zone_192_private h in ground arith

private_list :
    (l : Bytes)
    → length l ≡ 4
    → All (λ b. b < 256) l
    → (contains zone_10 l ≡ true) ⊎ ((contains zone_172 l ≡ true) ⊎ (contains zone_192 l ≡ true))
    → is_private l ≡ true
private_list (p ∷ q ∷ r ∷ s ∷ []) len h zones = here_private p q r s h.0 h.1.0 zones
private_list _ len h zones = absurd (omega arith)

length_of_size : (m : IpMask) → (size m).1 ≡ 32 → length m ≡ 4
unfolding size
length_of_size m h = elim (Option-cases (simple_mask_length m)) [
  | inl e ↦ absurd (ground (arith, h, e))
  | inr (ones, e) ↦ ground (arith, h, e)
]

module _ (std : Ipv6Std) (trim : Bytes → Bytes) (network : IpNet) where
  zone_contains_inv :
      (cidr_text : Bytes) {ip : Ip} {zone : IpNet}
      → parse_cidr std cidr_text ≡ some (ip, zone)
      → zone_contains std trim network cidr_text ≡ true
      → contains zone network.ip ≡ true
  unfolding zone_contains network_contained_in
  zone_contains_inv cidr_text e h = ground (arith, e, h)

  in_a_zone :
      is_private_site_network std trim network ≡ true
      → (contains zone_10 network.ip ≡ true)
        ⊎ ((contains zone_172 network.ip ≡ true) ⊎ (contains zone_192 network.ip ≡ true))
  unfolding is_private_site_network
  in_a_zone h = elim (Bool-cases (zone_contains std trim network (codes "10.0.0.0/8"))) [
    | inl a ↦ inl (zone_contains_inv (codes "10.0.0.0/8") (zone_10_parsed std) a)
    | inr a ↦ elim (Bool-cases (zone_contains std trim network (codes "172.16.0.0/12"))) [
      | inl b ↦ inr (inl (zone_contains_inv (codes "172.16.0.0/12") (zone_172_parsed std) b))
      | inr b ↦
          let c : zone_contains std trim network (codes "192.168.0.0/16") ≡ true =
            ground (arith, a, b, h) in
          inr (inr (zone_contains_inv (codes "192.168.0.0/16") (zone_192_parsed std) c))
    ]
  ]

  size-zone_contains :
      (cidr_text : Bytes)
      → zone_contains std trim network cidr_text ≡ true
      → (size network.mask).1 ≡ 32
  unfolding zone_contains network_contained_in
  size-zone_contains cidr_text h = elim (Option-cases (parse_cidr std cidr_text)) [
    | inl e ↦ absurd (ground (arith, h, e))
    | inr (r, e) ↦ ground (arith, h, e)
  ]

  mask-is_private_site_network :
      is_private_site_network std trim network ≡ true → length network.mask ≡ 4
  unfolding is_private_site_network
  mask-is_private_site_network h =
      let (i, zone, at, holds) =
        any_inv (zone_contains std trim network)
          (codes "10.0.0.0/8" ∷ codes "172.16.0.0/12" ∷ codes "192.168.0.0/16" ∷ []) h in
      length_of_size network.mask (size-zone_contains zone holds)

  private_site :
      (v : Bytes) {ip : Ip}
      → parse_cidr std v ≡ some (ip, network)
      → is_private_site_network std trim network ≡ true
      → is_private network.ip ≡ true
  private_site v {ip} e h =
      let n = parse_cidr-IsV4Net std v e (mask-is_private_site_network h) in
      private_list network.ip (length-ip ip network n)
        (subst (All (λ b. b < 256)) (sym n.masked)
          (and_bytes-All 4 n.ones (n.a ∷ n.b ∷ n.c ∷ n.d ∷ []) n.bytes))
        (in_a_zone h)

module _ {A : Type 0} (P : A → Type 0) where
  All-at : (xs : List A) (i : ℕ) {x : A} → get_elem? xs i ≡ some x → All P xs → P x
  All-at [] i at h = absurd (ground arith)
  All-at (y ∷ ys) zero {x} at h = let e : y ≡ x = ground arith in subst P e h.0
  All-at (y ∷ ys) (suc i) at h = All-at ys i at h.1

is_some-false : (o : Option Ip) → is_some o ≡ false → o ≡ none
is_some-false none h = refl
is_some-false (some _) h = absurd (ground arith)

-- Where a configuration with an enabled outbound tunnel is accepted, each network that it routes into the
-- tunnel and that reads as a CIDR text has a private address, or one that is not IPv4.
pub validate_scenario_safety-routes :
    (std : Ipv6Std) (trim : Bytes → Bytes) (c : SystemConfig) (i : ℕ) {entry : Bytes} {ip : Ip}
    {network : IpNet}
    → validate_scenario_safety std trim c ≡ []
    → c.wg_client.enabled ≡ true
    → get_elem? (items c.wg_client.allowed_ips) i ≡ some entry
    → parse_cidr std (trim entry) ≡ some (ip, network)
    → (is_private network.ip ≡ true) ⊎ (to4 network.ip ≡ none)
validate_scenario_safety-routes std trim c i {entry} {ip} {network} accepted on at e =
    let safe = (validate_scenario_safety-IsSafe std trim c).0 accepted in
    elim safe.1.1.0 [
      | inl off ↦ absurd (ground (arith, on, off))
      | inr tunnel ↦
          elim (All-at (StaysPrivate std trim) (items c.wg_client.allowed_ips) i at tunnel.1.0) [
            | inl unread ↦ absurd (ground (arith, e, unread))
            | inr (ip', net, f, stays) ↦
                let same : net ≡ network = ground (arith, e, f) in
                subst (λ n. (is_private n.ip ≡ true) ⊎ (to4 n.ip ≡ none)) same
                  (elim stays [
                    | inl v6 ↦ inr (is_some-false (to4 net.ip) v6)
                    | inr zone ↦ inl (private_site std trim net (trim entry) f zone)
                  ])
          ]
    ]
