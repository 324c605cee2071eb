-- ===== src/Net/Membership.antt =====
-- What `parse_cidr` guarantees of its network: the mask is a prefix mask whose size is the prefix
-- read, the address masked by it is the network's, and an IPv4 network contains its address.
use mathlib.Core.Path.{subst}
use minimalrouter.Net.Address.{Ip, byte_at, to4, v4}
use minimalrouter.Net.Mask.{and_bytes, cidr, cidr_bytes, mask}
use minimalrouter.Net.Mask.Size.{and_bytes_twice, cidr_inv, length-and_bytes, length-cidr_bytes}
use minimalrouter.Net.Network.{
  IpNet, contains, dtoi, network_number_and_mask, parse_cidr, parse_cidr_address, parse_network,
}
use minimalrouter.Net.Parse.{Ipv6Std, from_octets, parse_ipv4_strict, parse_octet, parse_octets}
use minimalrouter.Prelude.{
  All, Bytes, List, Option-cases, [], ap, arith, bytes_eq, bytes_eq_refl, inl, inr, length, refl,
  some, split, split_once, suc, sym, true, zero, ℕ, ◌/◌, ◌<◌, ◌∷◌, ◌≡◌, ◌≤◌,
}

-- What a parsed network is: a prefix mask of `ones` ones, and the address masked by it.
pub record IsParsed (std : Ipv6Std) (ip : Ip) (net : IpNet) (ones bits : ℕ) (addr : Bytes)
    : Type 0 where
  pub spelled : parse_cidr_address std addr ≡ some (ip, bits)
  pub prefix_mask : cidr ones bits ≡ some net.mask
  pub masked : mask ip net.mask ≡ some net.ip

module _ (ip16 : Ip) (bits : ℕ) (prefix : Bytes) {ip : Ip} {net : IpNet}
    (h : parse_network ip16 bits prefix ≡ some (ip, net)) where
  parse_network_address : ip16 ≡ ip
  unfolding parse_network
  parse_network_address = ground arith

  parse_network_mask : cidr (dtoi prefix).0 bits ≡ some net.mask
  unfolding parse_network
  parse_network_mask = ground arith

  parse_network_masked : mask ip net.mask ≡ some net.ip
  unfolding parse_network
  parse_network_masked = ground arith

module _ (std : Ipv6Std) where
  pub parse_cidr_inv :
      (v : Bytes) {ip : Ip} {net : IpNet}
      → parse_cidr std v ≡ some (ip, net)
      → (ones bits : ℕ) × (addr : Bytes) × IsParsed std ip net ones bits addr
  unfolding parse_cidr
  parse_cidr_inv v {ip} {net} h = elim (Option-cases (split_once b'/' v)) [
    | inl e ↦ ground (arith, e)
    | inr ((addr, prefix), e) ↦ elim (Option-cases (parse_cidr_address std addr)) [
      | inl f ↦ ground (arith, e, f)
      | inr ((ip16, bits), f) ↦
          let g : parse_network ip16 bits prefix ≡ some (ip, net) = ground (arith, e, f) in
          (
            (dtoi prefix).0,
            bits,
            addr,
            record {
              spelled = rw f (rw (parse_network_address ip16 bits prefix g));
              prefix_mask = parse_network_mask ip16 bits prefix g;
              masked = parse_network_masked ip16 bits prefix g;
            },
          )
    ]
  ]

parse_octet-lt : (p : Bytes) {n : ℕ} → parse_octet p ≡ some n → n < 256
unfolding parse_octet
parse_octet-lt p h = ground arith

abbrev AreOctets : ℕ → Bytes → Type 0
AreOctets k o = (length o ≡ k) × All (λ b. b < 256) o

parse_octets-AreOctets :
    (k : ℕ) (ps : List Bytes) {o : Bytes} → parse_octets k ps ≡ some o → AreOctets k o
unfolding parse_octets
parse_octets-AreOctets zero [] {o} h =
    let e : [] ≡ o = ground arith in subst (AreOctets 0) e (refl, tt)
parse_octets-AreOctets zero (p ∷ ps) h = cc
parse_octets-AreOctets (suc k) [] h = cc
parse_octets-AreOctets (suc k) (p ∷ ps) {o} h = elim (Option-cases (parse_octet p)) [
  | inl e ↦ ground (arith, e)
  | inr (n, e) ↦ elim (Option-cases (parse_octets k ps)) [
    | inl f ↦ ground (arith, e, f)
    | inr (ns, f) ↦
        let g : n ∷ ns ≡ o = ground (arith, e, f) in
        let (len, bytes) = parse_octets-AreOctets k ps f in
        subst (AreOctets (suc k)) g (ap suc len, (parse_octet-lt p e, bytes))
  ]
]

-- Four octets below 256, with their address.
pub data IsV4 (ip : Ip) : Type 0 where
  octets : (a b c d : ℕ) → a < 256 → b < 256 → c < 256 → d < 256 → ip ≡ v4 a b c d → IsV4 ip

pub parse_ipv4_strict-IsV4 :
    (s : Bytes) {o : Bytes} → parse_ipv4_strict s ≡ some o → IsV4 (from_octets o)
unfolding parse_ipv4_strict from_octets
parse_ipv4_strict-IsV4 s {o} h = four o (parse_octets-AreOctets 4 (split b'.' s) h)
  where
    four :
        (o : Bytes)
        → AreOctets 4 o
        → IsV4 (v4 (byte_at o 0) (byte_at o 1) (byte_at o 2) (byte_at o 3))
    four (a ∷ b ∷ c ∷ d ∷ []) (e, h) = octets a b c d h.0 h.1.0 h.1.1.0 h.1.1.1.0 refl
    four _ (e, h) = absurd (omega arith)

pub parse_cidr_address-IsV4 :
    (std : Ipv6Std) (s : Bytes) {ip : Ip} → parse_cidr_address std s ≡ some (ip, 32) → IsV4 ip
unfolding parse_cidr_address
parse_cidr_address-IsV4 std s {ip} h = elim (Option-cases (parse_ipv4_strict s)) [
  | inl e ↦ ground (arith, e)
  | inr (o, e) ↦
      let f : from_octets o ≡ ip = ground (arith, e) in rw f at (parse_ipv4_strict-IsV4 s e)
]

mask-v4 :
    (a b c d : ℕ) (m : Bytes)
    → length m ≡ 4
    → mask (v4 a b c d) m ≡ some (and_bytes (a ∷ b ∷ c ∷ d ∷ []) m)
unfolding mask v4 bytes_eq
mask-v4 a b c d m h = rw h (rw h)

pub to4-v4 : (a b c d : ℕ) → to4 (v4 a b c d) ≡ some (a ∷ b ∷ c ∷ d ∷ [])
unfolding to4 v4 bytes_eq
to4-v4 a b c d = refl

to4_of_length : (ip : Ip) → length ip ≡ 4 → to4 ip ≡ some ip
unfolding to4
to4_of_length ip h = rw h

-- A network of an IPv4 address behind a 4-byte mask, and membership in it.
network_v4 :
    (n : IpNet)
    → length n.ip ≡ 4
    → length n.mask ≡ 4
    → network_number_and_mask n ≡ some (n.ip, n.mask)
unfolding network_number_and_mask
network_v4 n hi hm = ground (arith, to4_of_length n.ip hi)

contains-v4 :
    (n : IpNet) (a b c d : ℕ)
    → length n.ip ≡ 4
    → length n.mask ≡ 4
    → contains n (v4 a b c d)
      ≡ bytes_eq (and_bytes n.ip n.mask) (and_bytes (a ∷ b ∷ c ∷ d ∷ []) n.mask)
unfolding contains
contains-v4 n a b c d hi hm = ground (arith, network_v4 n hi hm, to4-v4 a b c d)

-- A network read from the dotted spelling, spelled out.
pub record IsV4Net (ip : Ip) (net : IpNet) : Type 0 where
  pub a : ℕ
  pub b : ℕ
  pub c : ℕ
  pub d : ℕ
  pub bytes : All (λ x. x < 256) (a ∷ b ∷ c ∷ d ∷ [])
  pub address : ip ≡ v4 a b c d
  pub ones : ℕ
  pub ones_le : ones ≤ 32
  pub prefix_mask : net.mask ≡ cidr_bytes 4 ones
  pub masked : net.ip ≡ and_bytes (a ∷ b ∷ c ∷ d ∷ []) (cidr_bytes 4 ones)

v4_masked :
    (ip : Ip) (net : IpNet) (ones : ℕ)
    → IsV4 ip
    → ones ≤ 32
    → cidr_bytes 4 ones ≡ net.mask
    → mask ip net.mask ≡ some net.ip
    → IsV4Net ip net
v4_masked ip net ones (octets a b c d ha hb hc hd e) le m masked = record {
  a = a;
  b = b;
  c = c;
  d = d;
  bytes = (ha, (hb, (hc, (hd, tt))));
  address = e;
  ones = ones;
  ones_le = le;
  prefix_mask = sym m;
  masked = ground (arith, mask-v4 a b c d net.mask (rw (← m) (length-cidr_bytes 4 ones)));
}

pub parse_cidr-IsV4Net :
    (std : Ipv6Std) (v : Bytes) {ip : Ip} {net : IpNet}
    → parse_cidr std v ≡ some (ip, net)
    → length net.mask ≡ 4
    → IsV4Net ip net
parse_cidr-IsV4Net std v {ip} {net} h len =
    let (ones, bits, addr, p) = parse_cidr_inv std v h in
    let (le, width, e) = cidr_inv ones bits p.prefix_mask in
    elim width [
      | inl w ↦
          v4_masked ip net ones (parse_cidr_address-IsV4 std addr (rw w at (p.spelled)))
            (rw w at le) (rw w at e) p.masked
      | inr w ↦ absurd (omega (arith, len, ap length e, length-cidr_bytes (bits / 8) ones, w))
    ]

module _ (ip : Ip) (net : IpNet) (n : IsV4Net ip net) where
  pub length-mask : length net.mask ≡ 4
  length-mask = rw n.prefix_mask (length-cidr_bytes 4 n.ones)

  pub length-ip : length net.ip ≡ 4
  length-ip = rw n.masked (
      length-and_bytes (n.a ∷ n.b ∷ n.c ∷ n.d ∷ []) (cidr_bytes 4 n.ones)
        (sym (length-cidr_bytes 4 n.ones)))

  -- Membership of a dotted address: both masked are the network's address.
  pub contains-IsV4Net :
      (x y z w : ℕ)
      → contains net (v4 x y z w)
        ≡ bytes_eq net.ip (and_bytes (x ∷ y ∷ z ∷ w ∷ []) (cidr_bytes 4 n.ones))
  contains-IsV4Net x y z w = cc (
    contains-v4 net x y z w length-ip length-mask,
    n.masked,
    n.prefix_mask,
    and_bytes_twice 4 n.ones (n.a ∷ n.b ∷ n.c ∷ n.d ∷ []) n.bytes,
  )

-- A CIDR text whose mask has 4 bytes, that is one in the dotted spelling, stands for a network
-- that contains the address written in it.
pub contains-parse_cidr :
    (std : Ipv6Std) (v : Bytes) {ip : Ip} {net : IpNet}
    → parse_cidr std v ≡ some (ip, net)
    → length net.mask ≡ 4
    → contains net ip ≡ true
contains-parse_cidr std v {ip} {net} h len =
    let n = parse_cidr-IsV4Net std v h len in
    rw (n.address, contains-IsV4Net ip net n n.a n.b n.c n.d, n.masked)
      (bytes_eq_refl (and_bytes (n.a ∷ n.b ∷ n.c ∷ n.d ∷ []) (cidr_bytes 4 n.ones)))
