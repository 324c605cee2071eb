-- ===== src/Net/Mac.antt =====
-- goish/net.rs, `parse_mac` and `mac_string`, and network/address_identity.rs.
use minimalrouter.Prelude.{
  ℕ, zero, suc, ◌+◌, ◌-◌, ◌*◌, ◌/◌, ◌%◌, Bool, not, ◌&&◌, ◌||◌, Option, none, some, [], ◌∷◌, ltb,
  leb, ◌==◌, if◌then◌else◌, Bytes, length, drop, take, is_ascii_digit,
}
use minimalrouter.Net.Address.{byte_at}
use minimalrouter.Net.Parse.{Ipv6Std, parse_ipv4}
use minimalrouter.Net.Show.{hex_digit, show_ip}

-- `char::to_digit(16)`.
unfoldable pub from_hex : ℕ → Option ℕ
from_hex c =
    if is_ascii_digit c
    then some (c - b'0')
    else if leb b'a' c && leb c b'f'
    then some (c - b'a' + 10)
    else if leb b'A' c && leb c b'F'
    then some (c - b'A' + 10)
    else none

unfoldable pub xtoi2 : Bytes → ℕ → Option ℕ
xtoi2 s sep =
    if ltb 2 (length s) && not (byte_at s 2 == sep)
    then none
    else if ltb (length s) 2
    then none
    else elim (from_hex (byte_at s 0)) [
      | none ↦ none
      | some hi ↦ elim (from_hex (byte_at s 1)) [ none ↦ none | some lo ↦ some (hi * 16 + lo) ]
    ]

-- The loop over `n` bytes in the spellings `aa:bb` and `aa-bb`.
unfoldable pub parse_colons : ℕ → ℕ → Bytes → Option Bytes
parse_colons zero sep s = some []
parse_colons (suc n) sep s = elim (xtoi2 s sep) [
  | none ↦ none
  | some x ↦ elim (parse_colons n sep (drop 3 s)) [ none ↦ none | some xs ↦ some (x ∷ xs) ]
]

-- The loop over `n` pairs of bytes in the spelling `aabb.ccdd`.
unfoldable pub parse_dots : ℕ → ℕ → Bytes → Option Bytes
parse_dots zero sep s = some []
parse_dots (suc n) sep s = elim (xtoi2 (take 2 s) 0) [
  | none ↦ none
  | some x ↦ elim (xtoi2 (drop 2 s) sep) [
    | none ↦ none
    | some y ↦ elim (parse_dots n sep (drop 5 s)) [ none ↦ none | some xs ↦ some (x ∷ y ∷ xs) ]
  ]
]

abbrev is_mac_length : ℕ → Bool
is_mac_length n = n == 6 || (n == 8 || n == 20)

-- `net.ParseMAC`.
unfoldable pub parse_mac : Bytes → Option Bytes
parse_mac b =
    let len = length b + 1 in
    if ltb (length b) 14
    then none
    else if byte_at b 2 == b':' || byte_at b 2 == b'-'
    then (if len % 3 == 0 && is_mac_length (len / 3)
        then parse_colons (len / 3) (byte_at b 2) b
        else none)
    else if byte_at b 4 == b'.'
    then (if len % 5 == 0 && is_mac_length (2 * len / 5)
        then parse_dots (2 * len / 5 / 2) (byte_at b 4) b
        else none)
    else none

-- `HardwareAddr.String()`.
unfoldable pub mac_string : Bytes → Bytes
mac_string [] = []
mac_string (b ∷ []) = hex_digit (b / 16) ∷ hex_digit (b % 16) ∷ []
mac_string (b ∷ bs) = hex_digit (b / 16) ∷ hex_digit (b % 16) ∷ b':' ∷ mac_string bs

-- Compares the colon, dash and dotted forms; anything else stays as it is.
unfoldable pub mac_identity : Bytes → Bytes
mac_identity value = elim (parse_mac value) [
  | some mac ↦ if length mac == 6 then mac_string mac else value
  | none ↦ value
]

unfoldable pub ipv4_identity : Ipv6Std → Bytes → Bytes
ipv4_identity std value = elim (parse_ipv4 std value) [ some ip ↦ show_ip std ip | none ↦ value ]
