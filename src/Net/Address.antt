-- ===== src/Net/Address.antt =====
-- goish/net.rs, `IP`: a Go `net.IP` of 4 or 16 bytes, and its classification.
use minimalrouter.Prelude.{
  ℕ, zero, suc, Bool, false, not, ◌&&◌, ◌||◌, Option, none, some, [], ◌∷◌, ◌++◌, bit_and, ◌==◌,
  if◌then◌else◌, Bytes, bytes_eq, length, take, drop, replicate,
}

abbrev pub Ip : Type 0
Ip = Bytes

abbrev pub v4_in_v6_prefix : Bytes
v4_in_v6_prefix = 0 ∷ 0 ∷ 0 ∷ 0 ∷ 0 ∷ 0 ∷ 0 ∷ 0 ∷ 0 ∷ 0 ∷ 255 ∷ 255 ∷ []

-- An index that the code takes behind a check of the length.
abbrev pub byte_at : Bytes → ℕ → ℕ
byte_at [] i = 0
byte_at (b ∷ bs) zero = b
byte_at (b ∷ bs) (suc i) = byte_at bs i

unfoldable pub v4 : ℕ → ℕ → ℕ → ℕ → Ip
v4 a b c d = v4_in_v6_prefix ++ (a ∷ b ∷ c ∷ d ∷ [])

unfoldable pub to4 : Ip → Option Ip
to4 ip =
    if length ip == 4
    then some ip
    else if length ip == 16 && bytes_eq (take 12 ip) v4_in_v6_prefix
    then some (drop 12 ip)
    else none

unfoldable pub to16 : Ip → Option Ip
to16 ip =
    if length ip == 4
    then some (v4_in_v6_prefix ++ ip)
    else if length ip == 16
    then some ip
    else none

-- `ip.Equal(x)`: the 4-byte and the 16-byte form of one IPv4 address are equal.
unfoldable pub equal : Ip → Ip → Bool
equal a b =
    if length a == length b
    then bytes_eq a b
    else if length a == 4 && length b == 16
    then bytes_eq (take 12 b) v4_in_v6_prefix && bytes_eq a (drop 12 b)
    else if length a == 16 && length b == 4
    then bytes_eq (take 12 a) v4_in_v6_prefix && bytes_eq (drop 12 a) b
    else false

unfoldable pub is_unspecified : Ip → Bool
is_unspecified ip = equal ip (v4 0 0 0 0) || equal ip (replicate 16 0)

unfoldable pub is_loopback : Ip → Bool
is_loopback ip = elim (to4 ip) [
  | some v ↦ byte_at v 0 == 127
  | none ↦ equal ip (replicate 15 0 ++ (1 ∷ []))
]

unfoldable pub is_multicast : Ip → Bool
is_multicast ip = elim (to4 ip) [
  | some v ↦ bit_and (byte_at v 0) 0xf0 == 0xe0
  | none ↦ length ip == 16 && byte_at ip 0 == 0xff
]

unfoldable pub is_private : Ip → Bool
is_private ip = elim (to4 ip) [
  | some v ↦
      byte_at v 0 == 10
      || ((byte_at v 0 == 172 && bit_and (byte_at v 1) 0xf0 == 16)
          || (byte_at v 0 == 192 && byte_at v 1 == 168))
  | none ↦ length ip == 16 && bit_and (byte_at ip 0) 0xfe == 0xfc
]

unfoldable pub is_link_local_unicast : Ip → Bool
is_link_local_unicast ip = elim (to4 ip) [
  | some v ↦ byte_at v 0 == 169 && byte_at v 1 == 254
  | none ↦ length ip == 16 && (byte_at ip 0 == 0xfe && bit_and (byte_at ip 1) 0xc0 == 0x80)
]

unfoldable pub is_global_unicast : Ip → Bool
is_global_unicast ip =
    (length ip == 4 || length ip == 16)
    && (not (equal ip (v4 255 255 255 255))
        && (not (is_unspecified ip)
            && (not (is_loopback ip) && (not (is_multicast ip) && not (is_link_local_unicast ip)))))
