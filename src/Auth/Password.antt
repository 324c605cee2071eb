-- ===== src/Auth/Password.antt =====
-- auth.rs, hash_password and verify_password, and `raw_std_decode` of goish/base64.rs. Argon2id, base64, the
-- comparison in constant time and the random salt are parameters, as is whether a slot for the key
-- derivation is free.
pub mod Verify
use minimalrouter.Auth.Base32.{drop_line_breaks}
use minimalrouter.Prelude.{
  Bool, Bytes, List, Option, Result, [], all, codes, err, false, if◌then◌else◌, is_ascii_digit,
  is_empty, leb, length, ltb, none, not, ok, some, split, strip_prefix, suc, true, ℕ, ◌&&◌, ◌*◌,
  ◌++◌, ◌+◌, ◌-◌, ◌==◌, ◌>>=◌, ◌||◌, ◌∷◌,
}

pub data PasswordError : Type 0 where
  too_short too_long invalid_hash incompatible_version no_salt slot_busy argon2_failed :
      PasswordError

pub record Kdf : Type 0 where
  -- Of a password, a salt, the iterations, the memory, the threads and the length of the output.
  pub argon2_id : Bytes → Bytes → ℕ → ℕ → ℕ → ℕ → Option Bytes
  pub encode : Bytes → Bytes  -- STANDARD_NO_PAD.encode
  pub decode : Bytes → Option Bytes  -- RAW_STD.decode
  pub ct_eq : Bytes → Bytes → Bool

abbrev pub argon_memory : ℕ
argon_memory = 65536

abbrev pub argon_iterations : ℕ
argon_iterations = 3

abbrev pub argon_parallelism : ℕ
argon_parallelism = 2

abbrev pub argon_key_len : ℕ
argon_key_len = 32

abbrev pub argon_version : ℕ
argon_version = 19

-- `chars().count()` of UTF-8 text: the bytes that do not continue a character.
unfoldable pub chars_count : Bytes → ℕ
chars_count [] = 0
chars_count (b ∷ bs) = let n = chars_count bs in if leb 128 b && ltb b 192 then n else suc n

abbrev pub prefix : Bytes
prefix = codes "$argon2id$v=19$m=65536,t=3,p=2$"

abbrev pub or_fail : {A : Type 0} → PasswordError → Option A → Result PasswordError A
or_fail e none = err e
or_fail e (some a) = ok a

abbrev pub check : Bool → PasswordError → Result PasswordError (Unit {0})
check true e = ok tt
check false e = err e

infixl 10 ◌>>◌
abbrev pub ◌>>◌ :
    {B : Type 0} → Result PasswordError (Unit {0}) → Result PasswordError B → Result PasswordError B
m >> k = m >>= λ _. k

-- `digits.parse()` of a type that holds the numbers up to `limit`.
unfoldable pub digits_value : ℕ → Bytes → ℕ
digits_value n [] = n
digits_value n (d ∷ ds) = digits_value (n * 10 + (d - b'0')) ds

unfoldable pub parse_digits : ℕ → Bytes → Option ℕ
parse_digits limit digits =
    if is_empty digits || not (all is_ascii_digit digits)
    then none
    else if leb (digits_value 0 digits) limit
    then some (digits_value 0 digits)
    else none

unfoldable pub scan_field : ℕ → Bytes → Bytes → Option ℕ
scan_field limit input name = elim (strip_prefix name input) [
  | none ↦ none
  | some rest ↦ elim (strip_prefix (codes "=") rest) [
    | none ↦ none
    | some digits ↦ parse_digits limit digits
  ]
]

abbrev u32_max : ℕ
u32_max = 4294967295

-- `(low..=high).contains(&n)`.
abbrev pub between : ℕ → ℕ → ℕ → Bool
between low high n = leb low n && leb n high

module _ (kdf : Kdf) where
  unfoldable pub raw_std_decode : Bytes → Option Bytes
  raw_std_decode input = kdf.decode (drop_line_breaks input)

  unfoldable pub hash_password : Bool → Option Bytes → Bytes → Result PasswordError Bytes
  hash_password slot_free random password = do
    check (leb 12 (chars_count password)) too_short
    check (leb (length password) 1024) too_long
    salt ← or_fail no_salt random
    check slot_free slot_busy
    hash ←
        or_fail argon2_failed (
          kdf.argon2_id password salt argon_iterations argon_memory argon_parallelism argon_key_len)
    ok (prefix ++ (kdf.encode salt ++ (codes "$" ++ kdf.encode hash)))

  -- The parameters between the third and the fourth dollar.
  unfoldable pub verify_fields :
      Bool → Bytes → List Bytes → Bytes → Bytes → Result PasswordError Bool
  verify_fields slot_free password (m ∷ t ∷ p ∷ []) salt_text hash_text = do
    memory ← or_fail invalid_hash (scan_field u32_max m (codes "m"))
    iterations ← or_fail invalid_hash (scan_field u32_max t (codes "t"))
    parallelism ← or_fail invalid_hash (scan_field 255 p (codes "p"))
    check (between 16384 262144 memory && (between 1 10 iterations && between 1 8 parallelism))
        invalid_hash
    salt ← or_fail invalid_hash (raw_std_decode salt_text)
    check (between 16 64 (length salt)) invalid_hash
    hash ← or_fail invalid_hash (raw_std_decode hash_text)
    check (between 16 64 (length hash)) invalid_hash
    check slot_free slot_busy
    other ←
        or_fail argon2_failed
          (kdf.argon2_id password salt iterations memory parallelism (length hash))
    ok (kdf.ct_eq hash other)
  verify_fields slot_free password _ salt_text hash_text = err invalid_hash

  unfoldable pub verify_parts : Bool → Bytes → List Bytes → Result PasswordError Bool
  verify_parts slot_free password (start ∷ name ∷ v ∷ fields ∷ salt ∷ hash ∷ []) = do
    version ← or_fail invalid_hash (scan_field u32_max v (codes "v"))
    check (version == argon_version) incompatible_version
    verify_fields slot_free password (split b',' fields) salt hash
  verify_parts slot_free password _ = err invalid_hash

  unfoldable pub verify_password : Bool → Bytes → Bytes → Result PasswordError Bool
  verify_password slot_free password encoded_hash =
      if ltb 1024 (length password) || ltb 512 (length encoded_hash)
      then err invalid_hash
      else verify_parts slot_free password (split b'$' encoded_hash)
