-- ===== src/Auth/Base32.antt =====
-- auth.rs, `base32_encode` and `base32_decode`. The fields that are put together by `|` do not overlap, so
-- it is `+` here; a shift is a product or quotient by a power of two.
pub mod RoundTrip
use minimalrouter.Prelude.{
  Bool, Bytes, Option, [], codes, get_elem?, if◌then◌else◌, is_empty, length, ltb, none, not, some,
  suc, take, ℕ, ◌%◌, ◌&&◌, ◌*◌, ◌++◌, ◌+◌, ◌-◌, ◌/◌, ◌==◌, ◌^◌, ◌||◌, ◌∷◌,
}

infixl 10 ◌>>=◌
abbrev ◌>>=◌ : {A B : Type 0} → Option A → (A → Option B) → Option B
none >>= f = none
some a >>= f = f a

abbrev alphabet : Bytes
alphabet = codes "ABCDEFGHIJKLMNOPQRSTUVWXYZ234567"

abbrev pub padding : ℕ
padding = b'='

-- `BASE32[i]`, for an index below 32.
unfoldable pub letter : ℕ → ℕ
letter i = elim (get_elem? alphabet i) [ none ↦ 0 | some b ↦ b ]

-- `BASE32.iter().position(|c| c == b)`.
unfoldable pub position : ℕ → Bytes → Option ℕ
position b [] = none
position b (c ∷ cs) =
    let rest = position b cs in
    if c == b then some 0 else elim rest [ none ↦ none | some i ↦ some (i + 1) ]

unfoldable pub value_of : ℕ → Option ℕ
value_of b = position b alphabet

abbrev pub bits_of : ℕ → ℕ → ℕ → ℕ → ℕ → ℕ
bits_of a b c d e = a * 2 ^ 32 + b * 2 ^ 24 + c * 2 ^ 16 + d * 2 ^ 8 + e

unfoldable pub symbol : ℕ → ℕ → ℕ → ℕ
symbol bits chars i = if ltb i chars then letter (bits / 2 ^ (35 - i * 5) % 32) else padding

-- The eight symbols of a chunk.
unfoldable pub symbols : ℕ → ℕ → Bytes
symbols bits chars =
    let at = symbol bits chars in at 0 ∷ at 1 ∷ at 2 ∷ at 3 ∷ at 4 ∷ at 5 ∷ at 6 ∷ at 7 ∷ []

unfoldable pub base32_encode : Bytes → Bytes
base32_encode [] = []
base32_encode (a ∷ []) = symbols (bits_of a 0 0 0 0) 2
base32_encode (a ∷ b ∷ []) = symbols (bits_of a b 0 0 0) 4
base32_encode (a ∷ b ∷ c ∷ []) = symbols (bits_of a b c 0 0) 5
base32_encode (a ∷ b ∷ c ∷ d ∷ []) = symbols (bits_of a b c d 0) 7
base32_encode (a ∷ b ∷ c ∷ d ∷ e ∷ rest) = symbols (bits_of a b c d e) 8 ++ base32_encode rest

-- How many bytes `c` a text ends in.
unfoldable pub trailing : ℕ → Bytes → ℕ
trailing c [] = 0
trailing c (b ∷ bs) = let n = trailing c bs in if n == length bs && b == c then suc n else n

unfoldable pub byte_count : ℕ → Option ℕ
byte_count data_len =
    if data_len == 8
    then some 5
    else if data_len == 7
    then some 4
    else if data_len == 5
    then some 3
    else if data_len == 4
    then some 2
    else if data_len == 2
    then some 1
    else none

unfoldable pub gather : ℕ → Bytes → Option ℕ
gather i [] = some 0
gather i (b ∷ bs) = do v ← value_of b; rest ← gather (i + 1) bs; some (v * 2 ^ (35 - i * 5) + rest)

abbrev pub low_bytes : ℕ → Bytes
low_bytes bits =
    bits / 2 ^ 32 % 256
    ∷ bits / 2 ^ 24 % 256
    ∷ bits / 2 ^ 16 % 256
    ∷ bits / 2 ^ 8 % 256
    ∷ bits % 256
    ∷ []

unfoldable pub decode_quantum : Bytes → Bool → Option Bytes
decode_quantum quantum is_last =
    let data_len = 8 - trailing padding quantum in
    if ltb 0 (trailing padding quantum) && not is_last then none else (do
      count ← byte_count data_len
      bits ← gather 0 (take data_len quantum)
      some (take count (low_bytes bits)))

unfoldable pub decode_quanta : Bytes → Option Bytes
decode_quanta [] = some []
decode_quanta (a ∷ b ∷ c ∷ d ∷ e ∷ f ∷ g ∷ h ∷ rest) = do
  bytes ← decode_quantum (a ∷ b ∷ c ∷ d ∷ e ∷ f ∷ g ∷ h ∷ []) (is_empty rest)
  others ← decode_quanta rest
  some (bytes ++ others)
decode_quanta _ = none

unfoldable pub drop_line_breaks : Bytes → Bytes
drop_line_breaks [] = []
drop_line_breaks (b ∷ bs) =
    let rest = drop_line_breaks bs in if b == 13 || b == 10 then rest else b ∷ rest

unfoldable pub base32_decode : Bytes → Option Bytes
base32_decode input =
    let clean = drop_line_breaks input in
    if length clean % 8 == 0 then decode_quanta clean else none
