-- ===== src/Net/Mask.antt =====
-- goish/net.rs, `IPMask`: the prefix masks, their size, and `IP::mask`.
pub mod Size
use minimalrouter.Prelude.{
  ℕ, zero, suc, ◌+◌, ◌-◌, ◌*◌, ◌/◌, ◌%◌, ◌^◌, Bool, ◌&&◌, ◌||◌, Option, none, some, [], ◌∷◌,
  bit_and, leb, ◌==◌, if◌then◌else◌, Bytes, bytes_eq, length, take, drop, all,
}
use minimalrouter.Net.Address.{Ip, v4_in_v6_prefix}

abbrev pub IpMask : Type 0
IpMask = Bytes

-- The loop of `IPMask::cidr` over the bytes of the mask, `n` one bits still to write.
unfoldable pub cidr_bytes : ℕ → ℕ → Bytes
cidr_bytes zero n = []
cidr_bytes (suc k) n =
    (if leb 8 n then 255 else 255 - 255 / 2 ^ n) ∷ cidr_bytes k (if leb 8 n then n - 8 else 0)

-- `net.CIDRMask(ones, bits)`.
unfoldable pub cidr : ℕ → ℕ → Option IpMask
cidr ones bits =
    if (bits == 32 || bits == 128) && leb ones bits then some (cidr_bytes (bits / 8) ones) else none

-- `u8::leading_ones`, with the number of bits still to look at.
unfoldable pub leading_ones : ℕ → ℕ → ℕ
leading_ones zero b = 0
leading_ones (suc k) b = if leb 128 b then suc (leading_ones k ((b * 2) % 256)) else 0

abbrev all_zero : Bytes → Bool
all_zero = all (λ b. b == 0)

-- The loop of `simple_mask_length`; behind the first byte that is not 0xff all are zero.
unfoldable pub mask_length_from : ℕ → Bytes → Option ℕ
mask_length_from ones [] = some ones
mask_length_from ones (b ∷ bs) =
    let rest = mask_length_from (ones + 8) bs in
    let lead = leading_ones 8 b in
    if b == 255
    then rest
    else if ((b * 2 ^ lead) % 256) == 0 && all_zero bs
    then some (ones + lead)
    else none

unfoldable pub simple_mask_length : IpMask → Option ℕ
simple_mask_length m = mask_length_from 0 m

-- `mask.Size()`: (ones, bits), or (0, 0) for a mask that is no prefix.
unfoldable pub size : IpMask → ℕ × ℕ
size m = elim (simple_mask_length m) [ some ones ↦ (ones, length m * 8) | none ↦ (0, 0) ]

unfoldable pub and_bytes : Bytes → Bytes → Bytes
and_bytes [] ms = []
and_bytes (a ∷ xs) [] = []
and_bytes (a ∷ xs) (m ∷ ms) = bit_and a m ∷ and_bytes xs ms

-- `ip.Mask(mask)`.
unfoldable pub mask : Ip → IpMask → Option Ip
mask ip m =
    let m' =
      if length m == 16 && (length ip == 4 && all (λ b. b == 255) (take 12 m))
      then drop 12 m
      else m in
    let ip' =
      if length m' == 4 && (length ip == 16 && bytes_eq (take 12 ip) v4_in_v6_prefix)
      then drop 12 ip
      else ip in
    if length ip' == length m' then some (and_bytes ip' m') else none
