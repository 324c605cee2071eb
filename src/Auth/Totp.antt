-- ===== src/Auth/Totp.antt =====
-- auth.rs, the one-time codes: canonical_totp_inputs, validate_totp_at, compute_totp and build_totp_uri; and
-- `to_upper` of goish/strings.rs. What the code calls of other crates and of Rust's text functions beyond
-- ASCII is the parameter Std. An `i64` is its integer: a Unix time leaves room for the steps of one period.
pub mod Drift
use minimalrouter.Auth.Base32.{base32_decode, base32_encode}
use minimalrouter.Prelude.{
  Bool, Bytes, Option, [], all, codes, false, get_elem?, if◌then◌else◌, is_empty, leb, length, ltb,
  map, none, not, some, ℕ, ◌%◌, ◌&&◌, ◌*◌, ◌++◌, ◌+◌, ◌-◌, ◌/◌, ◌==◌, ◌^◌, ◌||◌, ◌∷◌,
}
use minimalrouter.Prelude.Int.{negsuc, pos, ℤ, ◌+ℤ◌}

pub record Std : Type 0 where
  pub hmac_sha1 : Bytes → Bytes → Bytes  -- of a key and a message
  pub ct_eq : Bytes → Bytes → Bool  -- subtle::ConstantTimeEq
  pub upper_chars : Bytes → Bytes  -- `char::to_uppercase`, its first character, throughout
  pub trim : Bytes → Bytes

abbrev pub totp_period : ℕ
totp_period = 30

abbrev pub totp_digits : ℕ
totp_digits = 6

abbrev to_ascii_upper : ℕ → ℕ
to_ascii_upper c = if leb b'a' c && leb c b'z' then c - 32 else c

unfoldable pub drop_spaces : Bytes → Bytes
drop_spaces [] = []
drop_spaces (c ∷ cs) = let rest = drop_spaces cs in if c == b' ' then rest else c ∷ rest

-- `now_unix.div_euclid(TOTP_PERIOD)`.
unfoldable pub counter_at : ℤ → ℤ
counter_at (pos n) = pos (n / totp_period)
counter_at (negsuc n) = negsuc (n / totp_period)

-- `counter as u64`.
unfoldable pub as_u64 : ℤ → ℕ
as_u64 (pos n) = n % 2 ^ 64
as_u64 (negsuc n) = 2 ^ 64 - 1 - n % 2 ^ 64

abbrev pub be64 : ℕ → Bytes
be64 n =
    n / 2 ^ 56 % 256
    ∷ n / 2 ^ 48 % 256
    ∷ n / 2 ^ 40 % 256
    ∷ n / 2 ^ 32 % 256
    ∷ n / 2 ^ 24 % 256
    ∷ n / 2 ^ 16 % 256
    ∷ n / 2 ^ 8 % 256
    ∷ n % 256
    ∷ []

-- `hash[i]`, read below the hash's length only.
abbrev pub hash_at : Bytes → ℕ → ℕ
hash_at hash i = elim (get_elem? hash i) [ none ↦ 0 | some b ↦ b ]

-- `{:06}` of a number below a million.
unfoldable pub six_digits : ℕ → Bytes
six_digits n =
    (b'0' + n / 100000 % 10)
    ∷ (b'0' + n / 10000 % 10)
    ∷ (b'0' + n / 1000 % 10)
    ∷ (b'0' + n / 100 % 10)
    ∷ (b'0' + n / 10 % 10)
    ∷ (b'0' + n % 10)
    ∷ []

module _ (std : Std) where
  unfoldable pub to_upper : Bytes → Bytes
  to_upper value =
      if all (λ c. ltb c 128) value then map to_ascii_upper value else std.upper_chars value

  -- Decoding and encoding again canonicalises line breaks and unused bits.
  unfoldable pub canonical_secret : Bytes → Bytes
  canonical_secret secret =
      let upper = to_upper (drop_spaces secret) in
      elim (base32_decode upper) [ none ↦ upper | some key ↦ base32_encode key ]

  unfoldable pub canonical_totp_inputs : Bytes → Bytes → Bytes × Bytes
  canonical_totp_inputs secret code = (canonical_secret secret, std.trim code)

  unfoldable pub compute_totp : Bytes → ℤ → Bytes
  compute_totp key counter =
      let hash = std.hmac_sha1 key (be64 (as_u64 counter)) in
      let offset = hash_at hash (length hash - 1) % 16 in
      let word =
        hash_at hash offset * 2 ^ 24
        + hash_at hash (offset + 1) * 2 ^ 16
        + hash_at hash (offset + 2) * 2 ^ 8
        + hash_at hash (offset + 3) in
      six_digits (word % 2 ^ 31 % 1000000)

  -- The code of the period before, of this one, and of the one behind.
  unfoldable pub matches_near : Bytes → Bytes → ℤ → Bool
  matches_near key code counter =
      std.ct_eq code (compute_totp key (counter +ℤ negsuc 0))
      || (std.ct_eq code (compute_totp key counter)
          || std.ct_eq code (compute_totp key (counter +ℤ pos 1)))

  unfoldable pub validate_totp_at : Bytes → Bytes → ℤ → Bool
  validate_totp_at secret code now =
      let inputs = canonical_totp_inputs secret code in
      if not (length inputs.1 == totp_digits) then false else elim (base32_decode inputs.0) [
        | none ↦ false
        | some key ↦ matches_near key inputs.1 (counter_at now)
      ]

  -- `verify_totp`, with what the store holds.
  unfoldable pub verify_totp : Bytes → Bytes → ℤ → Option Bool
  verify_totp secret code now =
      if is_empty secret then none else some (validate_totp_at secret code now)

abbrev totp_issuer : Bytes
totp_issuer = codes "Minimal Router OS"

unfoldable pub build_totp_uri : Bytes → Bytes → Bytes
build_totp_uri username secret =
    codes "otpauth://totp/"
    ++ (totp_issuer
        ++ (codes ":"
            ++ (username
                ++ (codes "?secret="
                    ++ (secret
                        ++ (codes "&issuer="
                            ++ (totp_issuer ++ codes "&algorithm=SHA1&digits=6&period=30")))))))
