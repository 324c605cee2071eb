-- ===== src/Net/Network.antt =====
-- goish/net.rs, `IPNet` and `parse_cidr`: networks, membership, broadcast addresses and their text.
use minimalrouter.Prelude.{
  ℕ, ◌+◌, ◌-◌, ◌*◌, Bool, true, false, ◌||◌, not, Option, none, some, [], ◌∷◌, bit_or, ltb, leb,
  ◌==◌, if◌then◌else◌, Bytes, bytes_eq, split_once, is_ascii_digit, contains_byte, length, drop,
}
use minimalrouter.Net.Address.{Ip, to4}
use minimalrouter.Net.Mask.{IpMask, cidr, mask, and_bytes}
use minimalrouter.Net.Parse.{Ipv6Std, parse_ipv4_strict, from_octets}

pub record IpNet : Type 0 where
  pub ip : Ip
  pub mask : IpMask

unfoldable pub network_number_and_mask : IpNet → Option (Ip × Bytes)
network_number_and_mask n =
    let ip : Option Ip = elim (to4 n.ip) [
      | some v ↦ some v
      | none ↦ if length n.ip == 16 then some n.ip else none
    ] in
    elim ip [
      | none ↦ none
      | some a ↦
          if length n.mask == 4
          then (if length a == 4 then some (a, n.mask) else none)
          else if length n.mask == 16
          then some (a, if length a == 4 then drop 12 n.mask else n.mask)
          else none
    ]

-- `n.Contains(ip)`.
unfoldable pub contains : IpNet → Ip → Bool
contains n ip = elim (network_number_and_mask n) [
  | none ↦ false
  | some (nn, m) ↦
      let a : Ip = elim (to4 ip) [ some v ↦ v | none ↦ ip ] in
      if length a == length nn then bytes_eq (and_bytes nn m) (and_bytes a m) else false
]

unfoldable pub broadcast_bytes : Bytes → Bytes → Bytes
broadcast_bytes [] ms = []
broadcast_bytes (a ∷ xs) [] = []
broadcast_bytes (a ∷ xs) (m ∷ ms) = bit_or a (255 - m) ∷ broadcast_bytes xs ms

-- The broadcast address of an IPv4 network.
unfoldable pub ipv4_broadcast : IpNet → Option Ip
ipv4_broadcast n = elim (to4 n.ip) [
  | none ↦ none
  | some a ↦ if ltb (length n.mask) 4 then none else some (broadcast_bytes a n.mask)
]

-- Go's `dtoi`, from a value and a count: (value, consumed, ok).
unfoldable pub dtoi_from : ℕ → ℕ → Bytes → ℕ × ℕ × Bool
dtoi_from n i [] = (if i == 0 then (0, 0, false) else (n, i, true))
dtoi_from n i (b ∷ bs) =
    let next = n * 10 + (b - b'0') in
    let rest = dtoi_from next (i + 1) bs in
    if not (is_ascii_digit b)
    then (if i == 0 then (0, 0, false) else (n, i, true))
    else if leb 0xFFFFFF next
    then (0xFFFFFF, i, false)
    else rest

unfoldable pub dtoi : Bytes → ℕ × ℕ × Bool
dtoi s = dtoi_from 0 0 s

-- The second half of `parse_cidr`: the prefix length, its mask, and the masked network.
unfoldable pub parse_network : Ip → ℕ → Bytes → Option (Ip × IpNet)
parse_network ip16 bits prefix =
    let (n, i, done) = dtoi prefix in
    if not done || (not (i == length prefix) || ltb bits n) then none else elim (cidr n bits) [
      | none ↦ none
      | some m ↦ elim (mask ip16 m) [
        | none ↦ none
        | some network_ip ↦ some (ip16, record { ip = network_ip; mask = m })
      ]
    ]

module _ (std : Ipv6Std) where
  -- The address of a CIDR text, and the width of its prefix: 32 for the dotted spelling, else 128.
  unfoldable pub parse_cidr_address : Bytes → Option (Ip × ℕ)
  parse_cidr_address addr = elim (parse_ipv4_strict addr) [
    | some o ↦ some (from_octets o, 32)
    | none ↦
        if contains_byte b':' addr
        then elim (std.parse addr) [ some o ↦ some (o, 128) | none ↦ none ]
        else none
  ]

  -- `net.ParseCIDR`: the full address and the masked network.
  unfoldable pub parse_cidr : Bytes → Option (Ip × IpNet)
  parse_cidr value = elim (split_once b'/' value) [
    | none ↦ none
    | some (addr, prefix) ↦
        if contains_byte b'%' addr then none else elim (parse_cidr_address addr) [
          | none ↦ none
          | some (ip16, bits) ↦ parse_network ip16 bits prefix
        ]
  ]
