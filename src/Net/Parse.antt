-- ===== src/Net/Parse.antt =====
-- goish/net.rs, `parse_ip` and `parse_ipv4`: Go's rules for the text of an address. The parser of
-- the IPv6 spellings is `str::parse::<Ipv6Addr>` of Rust's library, a parameter.
use minimalrouter.Prelude.{
  ℕ, zero, suc, ◌+◌, ◌-◌, ◌*◌, ◌≡◌, ◌&&◌, ◌||◌, not, Option, none, some, List, [], ◌∷◌, ltb, ◌==◌,
  if◌then◌else◌, Bytes, split, is_ascii_digit, contains_byte, is_empty, length, all,
}
use minimalrouter.Net.Address.{Ip, v4, to4, byte_at}

-- `Ipv6Addr::from_str` and `Display`, over the 16 octets.
pub record Ipv6Std : Type 0 where
  pub parse : Bytes → Option Bytes
  pub print : Bytes → Bytes
  pub parse_length : (s o : Bytes) → parse s ≡ some o → length o ≡ 16

-- `str::parse` of a run of decimal digits.
unfoldable pub decimal_from : ℕ → Bytes → ℕ
decimal_from n [] = n
decimal_from n (c ∷ cs) = decimal_from (n * 10 + (c - b'0')) cs

-- One field: 1 to 3 digits, no leading zero, at most 255.
unfoldable pub parse_octet : Bytes → Option ℕ
parse_octet part =
    if is_empty part || (ltb 3 (length part) || not (all is_ascii_digit part))
    then none
    else if ltb 1 (length part) && byte_at part 0 == b'0'
    then none
    else if ltb 255 (decimal_from 0 part)
    then none
    else some (decimal_from 0 part)

-- The loop over the fields of which `left` may still come.
unfoldable pub parse_octets : ℕ → List Bytes → Option Bytes
parse_octets zero [] = some []
parse_octets (suc left) [] = none
parse_octets zero (_ ∷ _) = none
parse_octets (suc left) (p ∷ ps) = elim (parse_octet p) [
  | none ↦ none
  | some n ↦ elim (parse_octets left ps) [ none ↦ none | some ns ↦ some (n ∷ ns) ]
]

-- Go 1.17+ dotted decimal: the four octets.
unfoldable pub parse_ipv4_strict : Bytes → Option Bytes
parse_ipv4_strict value = parse_octets 4 (split b'.' value)

unfoldable pub from_octets : Bytes → Ip
from_octets o = v4 (byte_at o 0) (byte_at o 1) (byte_at o 2) (byte_at o 3)

module _ (std : Ipv6Std) where
  -- `net.ParseIP`: dotted IPv4, or IPv6 without a zone; always the 16-byte form.
  unfoldable pub parse_ip : Bytes → Option Ip
  parse_ip value = if contains_byte b'%' value then none else elim (parse_ipv4_strict value) [
    | some o ↦ some (from_octets o)
    | none ↦ if contains_byte b':' value then std.parse value else none
  ]

  -- The config package's `parseIPv4`: `net.ParseIP(value).To4()`.
  unfoldable pub parse_ipv4 : Bytes → Option Ip
  parse_ipv4 value = elim (parse_ip value) [ some ip ↦ to4 ip | none ↦ none ]
