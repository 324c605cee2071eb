-- ===== src/Apply/Safety/Subnet.antt =====
-- Two texts that `same_ipv4_network` accepts stand for one network, so the subnet migration checks
-- of `validate_transition_safety` have nothing left to refuse behind it.
use minimalrouter.Prelude.{
  ℕ, ◌≡◌, sym, ap, true, none, some, arith, Bytes, bytes_eq_refl, bytes_eq→eq, length, Option-cases,
  inl, inr,
}
use minimalrouter.Config.Model.{SystemConfig}
use minimalrouter.Net.Address.{Ip, equal}
use minimalrouter.Net.Mask.{size, cidr_bytes}
use minimalrouter.Net.Mask.Size.{size-cidr, cidr_inv, length-cidr_bytes}
use minimalrouter.Net.Parse.{Ipv6Std}
use minimalrouter.Net.Network.{IpNet, parse_cidr}
use minimalrouter.Net.Membership.{IsV4Net, parse_cidr-IsV4Net, parse_cidr_inv, length-ip}
use minimalrouter.Net.Show.{show_net}
use minimalrouter.Apply.Safety.{
  same_net, same_ipv4_network, validate_transition_safety, migration_trust,
}

record IsSameNet (an bn : IpNet) : Type 0 where
  width_a : (size an.mask).1 ≡ 32
  width_b : (size bn.mask).1 ≡ 32
  ones : (size an.mask).0 ≡ (size bn.mask).0
  equal_ip : equal an.ip bn.ip ≡ true

same_net_parts : (std : Ipv6Std) (an bn : IpNet) → same_net std an bn ≡ true → IsSameNet an bn
unfolding same_net
same_net_parts std an bn h = ground arith

equal_bytes : (a b : Ip) → length a ≡ 4 → length b ≡ 4 → equal a b ≡ true → a ≡ b
unfolding equal
equal_bytes a b ha hb h = bytes_eq→eq a b (ground arith)

module _ (std : Ipv6Std) (v : Bytes) {ip : Ip} {net : IpNet} (h : parse_cidr std v ≡ some (ip, net))
    (s : (size net.mask).1 ≡ 32) where
  -- A parsed network whose mask has the size of an IPv4 mask is one of the dotted spelling.
  v4_mask : net.mask ≡ cidr_bytes 4 (size net.mask).0
  v4_mask =
      let (ones, bits, addr, p) = parse_cidr_inv std v h in
      let e = size-cidr ones bits p.prefix_mask in
      let width : bits ≡ 32 = cc (ap (λ (q : ℕ × ℕ). q.1) e, s) in
      let bytes = (cidr_inv ones bits p.prefix_mask).2 in
      sym (rw (ap (λ (q : ℕ × ℕ). q.0) e) (rw width at bytes))

  v4_net : IsV4Net ip net
  v4_net = parse_cidr-IsV4Net std v h (rw v4_mask (length-cidr_bytes 4 (size net.mask).0))

module _ (std : Ipv6Std) (v w : Bytes) {a b : Ip} {an bn : IpNet}
    (ha : parse_cidr std v ≡ some (a, an)) (hb : parse_cidr std w ≡ some (b, bn)) where
  same_net_eq : same_net std an bn ≡ true → an ≡ bn
  same_net_eq h =
      let p = same_net_parts std an bn h in
      let masks : an.mask ≡ bn.mask =
        cc (v4_mask std v ha p.width_a, v4_mask std w hb p.width_b, p.ones) in
      let ips : an.ip ≡ bn.ip =
        equal_bytes an.ip bn.ip (length-ip a an (v4_net std v ha p.width_a))
          (length-ip b bn (v4_net std w hb p.width_b)) p.equal_ip in
      λ i. record { ip = ips i; mask = masks i }

migration_trust_same :
    (std : Ipv6Std) (n : IpNet) (current candidate : SystemConfig)
    → migration_trust std n n current candidate ≡ none
unfolding migration_trust
migration_trust_same std n current candidate = ground (arith, bytes_eq_refl (show_net std n))

-- Behind the gate that both LAN subnets are one IPv4 network, the transition checks pass: whatever
-- the trusted networks are, no candidate that reaches them is refused.
pub validate_transition_safety_same :
    (std : Ipv6Std) (current candidate : SystemConfig)
    → same_ipv4_network std current.lan.cidr candidate.lan.cidr ≡ true
    → validate_transition_safety std current candidate ≡ none
unfolding same_ipv4_network validate_transition_safety
validate_transition_safety_same std current candidate h =
    elim (Option-cases (parse_cidr std current.lan.cidr)) [
      | inl e ↦ ground (arith, e)
      | inr ((a, an), e) ↦ elim (Option-cases (parse_cidr std candidate.lan.cidr)) [
        | inl f ↦ ground (arith, e, f)
        | inr ((b, bn), f) ↦
            let same : same_net std an bn ≡ true = ground (arith, e, f) in
            ground (
              arith,
              e,
              f,
              same_net_eq std _ _ e f same,
              migration_trust_same std bn current candidate,
            )
      ]
    ]
