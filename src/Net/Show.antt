-- ===== src/Net/Show.antt =====
-- The text of addresses and networks: `Display` of `IP` and `IPNet` in goish/net.rs.
use minimalrouter.Prelude.{
  ℕ, zero, suc, ◌+◌, ◌-◌, ◌/◌, ◌%◌, none, some, [], ◌∷◌, ◌++◌, ltb, ◌==◌, if◌then◌else◌, Bytes,
  codes, is_empty, length,
}
use minimalrouter.Net.Address.{Ip, to4, byte_at}
use minimalrouter.Net.Mask.{simple_mask_length}
use minimalrouter.Net.Parse.{Ipv6Std}
use minimalrouter.Net.Network.{IpNet, network_number_and_mask}

-- The decimal digits of `n`, in front of `acc`; `fuel` above `n` is enough.
unfoldable pub digits_from : ℕ → ℕ → Bytes → Bytes
digits_from zero n acc = acc
digits_from (suc fuel) n acc =
    let rest = digits_from fuel (n / 10) ((n % 10 + b'0') ∷ acc) in
    if ltb n 10 then (n + b'0') ∷ acc else rest

unfoldable pub decimal : ℕ → Bytes
decimal n = digits_from (suc n) n []

unfoldable pub hex_digit : ℕ → ℕ
hex_digit n = if ltb n 10 then n + b'0' else n - 10 + b'a'

-- `{:02x}` of each byte, one after another.
unfoldable pub hex_bytes : Bytes → Bytes
hex_bytes [] = []
hex_bytes (b ∷ bs) = hex_digit (b / 16) ∷ hex_digit (b % 16) ∷ hex_bytes bs

-- `Display` of `Ipv4Addr`.
unfoldable pub show_octets : Bytes → Bytes
show_octets o =
    decimal (byte_at o 0)
    ++ (b'.'
        ∷ (decimal (byte_at o 1)
            ++ (b'.' ∷ (decimal (byte_at o 2) ++ (b'.' ∷ decimal (byte_at o 3))))))

module _ (std : Ipv6Std) where
  -- `ip.String()`.
  unfoldable pub show_ip : Ip → Bytes
  show_ip ip = if is_empty ip then codes "<nil>" else elim (to4 ip) [
    | some v ↦ show_octets v
    | none ↦ if length ip == 16 then std.print ip else b'?' ∷ hex_bytes ip
  ]

  -- `Display` of `IPNet`.
  unfoldable pub show_net : IpNet → Bytes
  show_net n = elim (network_number_and_mask n) [
    | none ↦ codes "<nil>"
    | some (nn, m) ↦
        show_ip nn
        ++ (b'/' ∷ elim (simple_mask_length m) [
          | some ones ↦ decimal ones
          | none ↦ if is_empty m then codes "<nil>" else hex_bytes m
        ])
  ]
