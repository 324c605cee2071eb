-- ===== src/Net/Mask/Size.antt =====
-- The masks that `IPMask::cidr` builds: their length, their size, and masking twice.
use minimalrouter.Prelude.{
  ℕ, zero, suc, ◌-◌, ◌/◌, ◌^◌, ◌≤◌, ◌<◌, ◌≡◌, refl, ap, Bool, true, ◌&&◌, ◌⊎◌, inl, inr, some, [],
  ◌∷◌, arith, bit_and, leb, ltb, ◌==◌, if◌then◌else◌, Bytes, length, passes_below, passes_below_at,
  ==→eq, tests, Bool-cases, All,
}
use minimalrouter.Net.Mask.{
  IpMask, cidr, cidr_bytes, size, simple_mask_length, mask_length_from, leading_ones, and_bytes,
}

has_size : ℕ → ℕ → Bool
unfolding cidr_bytes size simple_mask_length mask_length_from leading_ones
has_size bits ones =
    (size (cidr_bytes (bits / 8) ones)).0 == ones && (size (cidr_bytes (bits / 8) ones)).1 == bits

pair_eq : (p : ℕ × ℕ) (a b : ℕ) → (p.0 == a && p.1 == b) ≡ true → p ≡ (a, b)
pair_eq (x, y) a b h = ground arith

sizes_32 : passes_below 33 (has_size 32) ≡ true
unfolding passes_below has_size
sizes_32 = refl

sizes_128 : passes_below 129 (has_size 128) ≡ true
unfolding passes_below has_size
sizes_128 = refl

size-cidr_bytes_32 : (ones : ℕ) → ones ≤ 32 → size (cidr_bytes 4 ones) ≡ (ones, 32)
unfolding has_size
size-cidr_bytes_32 ones h =
    pair_eq _ ones 32 (passes_below_at 33 (has_size 32) ones sizes_32 (omega arith))

size-cidr_bytes_128 : (ones : ℕ) → ones ≤ 128 → size (cidr_bytes 16 ones) ≡ (ones, 128)
unfolding has_size
size-cidr_bytes_128 ones h =
    pair_eq _ ones 128 (passes_below_at 129 (has_size 128) ones sizes_128 (omega arith))

pub cidr_inv :
    (ones bits : ℕ) {m : IpMask}
    → cidr ones bits ≡ some m
    → (ones ≤ bits) × ((bits ≡ 32) ⊎ (bits ≡ 128)) × (cidr_bytes (bits / 8) ones ≡ m)
unfolding cidr
cidr_inv ones bits h = (ground arith, ground arith, ground arith)

-- `CIDRMask(ones, bits).Size()` is `(ones, bits)`: every prefix mask is recognised as the prefix it is.
pub size-cidr : (ones bits : ℕ) {m : IpMask} → cidr ones bits ≡ some m → size m ≡ (ones, bits)
size-cidr ones bits {m} h =
    let (le, width, e) = cidr_inv ones bits h in
    elim width [
      | inl w ↦ rw (← e, w) (size-cidr_bytes_32 ones (omega arith))
      | inr w ↦ rw (← e, w) (size-cidr_bytes_128 ones (omega arith))
    ]

pub length-cidr_bytes : (k n : ℕ) → length (cidr_bytes k n) ≡ k
unfolding cidr_bytes
length-cidr_bytes zero n = refl
length-cidr_bytes (suc k) n = ap suc (length-cidr_bytes k (if leb 8 n then n - 8 else 0))

-- The bytes of a prefix mask, by the number of ones in the byte.
abbrev mask_byte : ℕ → ℕ
mask_byte n = if leb 8 n then 255 else 255 - 255 / 2 ^ n

abbrev is_twice : ℕ → ℕ → Bool
is_twice n x = bit_and (bit_and x (mask_byte n)) (mask_byte n) == bit_and x (mask_byte n)

masks_twice : ℕ → Bool
masks_twice n = passes_below 256 (is_twice n)

masks_twice_all : passes_below 9 masks_twice ≡ true
unfolding passes_below masks_twice
masks_twice_all = refl

masks_twice_at : (n x : ℕ) → n < 9 → x < 256 → is_twice n x ≡ true
unfolding masks_twice
masks_twice_at n x below lt =
    passes_below_at 256 (is_twice n) x (passes_below_at 9 masks_twice n masks_twice_all below) lt

mask_byte_twice :
    (n x : ℕ) → x < 256 → bit_and (bit_and x (mask_byte n)) (mask_byte n) ≡ bit_and x (mask_byte n)
mask_byte_twice n x lt = elim (Bool-cases (leb 8 n)) [
  | inl big ↦ rw big (==→eq _ _ (masks_twice_at 8 x (omega arith) lt))
  | inr small ↦ ==→eq _ _ (masks_twice_at n x (omega (tests, small)) lt)
]

-- Masking an address twice by a prefix mask is masking it once.
pub and_bytes_twice :
    (k n : ℕ) (a : Bytes)
    → All (λ b. b < 256) a
    → and_bytes (and_bytes a (cidr_bytes k n)) (cidr_bytes k n) ≡ and_bytes a (cidr_bytes k n)
unfolding and_bytes cidr_bytes
and_bytes_twice zero n [] h = refl
and_bytes_twice zero n (x ∷ xs) h = refl
and_bytes_twice (suc k) n [] h = refl
and_bytes_twice (suc k) n (x ∷ xs) h =
    cc (mask_byte_twice n x h.0, and_bytes_twice k (if leb 8 n then n - 8 else 0) xs h.1)

pub length-and_bytes : (a m : Bytes) → length a ≡ length m → length (and_bytes a m) ≡ length a
unfolding and_bytes
length-and_bytes [] m h = refl
length-and_bytes (x ∷ xs) [] h = absurd (omega (arith, h))
length-and_bytes (x ∷ xs) (y ∷ ys) h = omega (arith, length-and_bytes xs ys (omega (arith, h)))

abbrev is_small : ℕ → ℕ → Bool
is_small n x = ltb (bit_and x (mask_byte n)) 256

small_at_each : ℕ → Bool
small_at_each n = passes_below 256 (is_small n)

small_everywhere : passes_below 9 small_at_each ≡ true
unfolding passes_below small_at_each
small_everywhere = refl

small_at : (n x : ℕ) → n < 9 → x < 256 → is_small n x ≡ true
unfolding small_at_each
small_at n x below lt =
    passes_below_at 256 (is_small n) x (passes_below_at 9 small_at_each n small_everywhere below) lt

mask_byte_lt : (n x : ℕ) → x < 256 → bit_and x (mask_byte n) < 256
mask_byte_lt n x lt = elim (Bool-cases (leb 8 n)) [
  | inl big ↦ let s = small_at 8 x (omega arith) lt in rw big (omega (tests, s))
  | inr small ↦ let s = small_at n x (omega (tests, small)) lt in omega (tests, s)
]

-- What a prefix mask leaves of an address is bytes again.
pub and_bytes-All :
    (k n : ℕ) (a : Bytes) → All (λ b. b < 256) a → All (λ b. b < 256) (and_bytes a (cidr_bytes k n))
unfolding and_bytes cidr_bytes
and_bytes-All zero n [] h = tt
and_bytes-All zero n (x ∷ xs) h = tt
and_bytes-All (suc k) n [] h = tt
and_bytes-All (suc k) n (x ∷ xs) h =
    (mask_byte_lt n x h.0, and_bytes-All k (if leb 8 n then n - 8 else 0) xs h.1)
