-- ===== src/Config/Policy/Scenario/Host.antt =====
-- What `validate_scenario_safety` accepts as the outbound tunnel's own address.

use minimalrouter.Config.Policy.Scenario.{address_errors}
use minimalrouter.Net.Address.{Ip, to4, v4}
use minimalrouter.Net.Mask.{
  IpMask, cidr_bytes, leading_ones, mask_length_from, simple_mask_length, size,
}
use minimalrouter.Net.Mask.Size.{cidr_inv, size-cidr}
use minimalrouter.Net.Membership.{IsV4Net, parse_cidr-IsV4Net, parse_cidr_inv, to4-v4}
use minimalrouter.Net.Network.{IpNet, parse_cidr}
use minimalrouter.Net.Parse.{Ipv6Std}
use minimalrouter.Prelude.{
  Bytes, Option-cases, [], ap, arith, false, inl, inr, is_empty, is_some, none, refl, some,
  split_once, sym, true, ℕ, ◌↔◌, ◌∙◌, ◌∷◌, ◌≡◌, ◌≢◌, ◌⊎◌,
}

module _ (std : Ipv6Std) (trim : Bytes → Bytes) where
  -- The text of one IPv4 address with its full mask, `a.b.c.d/32`.
  abbrev pub IsOneAddress : Bytes → Type 0
  IsOneAddress address =
      (ip : Ip) × (net : IpNet) × (parse_cidr std address ≡ some (ip, net))
      × (net.mask ≡ 255 ∷ 255 ∷ 255 ∷ 255 ∷ [])

  -- An IPv4 address in an IPv6 spelling, such as `::ffff:a.b.c.d/32`: its mask has 32 ones of 128.
  abbrev pub IsMapped32 : Bytes → Type 0
  IsMapped32 address =
      (ip : Ip) × (net : IpNet) × (parse_cidr std address ≡ some (ip, net))
      × (is_some (to4 ip) ≡ true)
      × (net.mask ≡ cidr_bytes 16 32)

  -- What the check of the tunnel's own address lets through.
  abbrev pub IsHost : Bytes → Type 0
  IsHost address = IsOneAddress address ⊎ IsMapped32 address

  parse_cidr-empty : parse_cidr std [] ≡ none
  unfolding parse_cidr split_once
  parse_cidr-empty = refl

  is_empty-parse_cidr :
      (address : Bytes) {ip : Ip} {net : IpNet}
      → parse_cidr std address ≡ some (ip, net)
      → is_empty address ≡ false
  is_empty-parse_cidr [] e = let none_read = parse_cidr-empty in cc
  is_empty-parse_cidr (_ ∷ _) e = refl

  -- A network of 32 ones is one dotted address, or has the wide mask.
  mask_32 :
      (address : Bytes) {ip : Ip} {net : IpNet}
      → parse_cidr std address ≡ some (ip, net)
      → (size net.mask).0 ≡ 32
      → (net.mask ≡ cidr_bytes 4 32) ⊎ (net.mask ≡ cidr_bytes 16 32)
  mask_32 address {ip} {net} e h =
      let (ones, bits, addr, p) = parse_cidr_inv std address e in
      let (le, width, m) = cidr_inv ones bits p.prefix_mask in
      let full : ones ≡ 32 =
        ap (λ (x : ℕ × ℕ). x.0) (sym (size-cidr ones bits p.prefix_mask)) ∙ h in
      elim width [ inl w ↦ inl (sym (rw (w, full) at m)) | inr w ↦ inr (sym (rw (w, full) at m)) ]

  is_some-IsV4Net : {ip : Ip} {net : IpNet} → IsV4Net ip net → is_some (to4 ip) ≡ true
  is_some-IsV4Net n = rw (n.address, to4-v4 n.a n.b n.c n.d) refl

  one_address-size : (m : IpMask) → m ≡ 255 ∷ 255 ∷ 255 ∷ 255 ∷ [] → (size m).0 ≡ 32
  unfolding size simple_mask_length mask_length_from leading_ones
  one_address-size m e = rw e refl

  mapped-size : (m : IpMask) → m ≡ cidr_bytes 16 32 → (size m).0 ≡ 32
  unfolding size simple_mask_length mask_length_from leading_ones cidr_bytes
  mapped-size m e = rw e refl

  full_mask : cidr_bytes 4 32 ≡ 255 ∷ 255 ∷ 255 ∷ 255 ∷ []
  unfolding cidr_bytes
  full_mask = refl

  -- Both the dotted address and the wide mask pass the two tests of the code.
  address_errors_pass :
      (address : Bytes) {ip : Ip} {net : IpNet}
      → parse_cidr std address ≡ some (ip, net)
      → is_some (to4 ip) ≡ true
      → (size net.mask).0 ≡ 32
      → address_errors std trim address ≡ []
  unfolding address_errors
  address_errors_pass address e v4 ones =
      let full = is_empty-parse_cidr address e in ground (arith, e, v4, ones, full)

  address_errors_inv :
      (address : Bytes) {ip : Ip} {net : IpNet}
      → parse_cidr std address ≡ some (ip, net)
      → address_errors std trim address ≡ []
      → (is_some (to4 ip) ≡ true) × ((size net.mask).0 ≡ 32)
  unfolding address_errors
  address_errors_inv address e h =
      let full = is_empty-parse_cidr address e in
      (ground (arith, h, e, full), ground (arith, h, e, full))

  address_errors_unread :
      (address : Bytes) → parse_cidr std address ≡ none → address_errors std trim address ≢ []
  unfolding address_errors
  address_errors_unread address e h = ground (arith, h, e)

  pub address_errors-IsHost :
      (address : Bytes) → (address_errors std trim address ≡ []) ↔ IsHost address
  address_errors-IsHost address = (
    λ h. elim (Option-cases (parse_cidr std address)) [
      | inl e ↦ absurd (address_errors_unread address e h)
      | inr ((ip, net), e) ↦
          let (v4, ones) = address_errors_inv address e h in
          elim (mask_32 address e ones) [
            | inl m ↦ inl (ip, net, e, m ∙ full_mask)
            | inr m ↦ inr (ip, net, e, v4, m)
          ]
    ],
    elim [
      | inl (ip, net, e, m) ↦
          address_errors_pass address e
            (is_some-IsV4Net (parse_cidr-IsV4Net std address e (rw m refl)))
            (one_address-size net.mask m)
      | inr (ip, net, e, v4, m) ↦ address_errors_pass address e v4 (mapped-size net.mask m)
    ],
  )
