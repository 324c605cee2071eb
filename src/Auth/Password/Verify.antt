-- ===== src/Auth/Password/Verify.antt =====
-- auth.rs: the hash that `hash_password` makes of a password is one that `verify_password` takes.
use minimalrouter.Auth.Base32.{drop_line_breaks}
use minimalrouter.Auth.Password.{
  Kdf, argon_iterations, argon_key_len, argon_memory, argon_parallelism, chars_count, digits_value,
  hash_password, parse_digits, prefix, raw_std_decode, scan_field, verify_fields, verify_parts,
  verify_password,
}
use minimalrouter.Prelude.{
  ==_refl, Bool-cases, Bytes, List, Option-cases, [], ap, arith, codes, contains_byte, false, inl,
  inr, leb, length, length-append, ltb, ok, refl, some, split, strip_prefix, true, ℕ, ◌*◌, ◌++◌,
  ◌+◌, ◌==◌, ◌∙◌, ◌∷◌, ◌≡◌, ◌≤◌,
}

-- What base64 promises: its text has no byte but those of its alphabet, is a third longer at most, and is
-- decoded to what was encoded.
pub record Base64 (kdf : Kdf) : Type 0 where
  pub round_trip : (b : Bytes) → kdf.decode (kdf.encode b) ≡ some b
  pub no_dollar : (b : Bytes) → contains_byte b'$' (kdf.encode b) ≡ false
  pub no_break : (b : Bytes) → drop_line_breaks (kdf.encode b) ≡ kdf.encode b
  pub short : (b : Bytes) → 3 * length (kdf.encode b) ≤ 4 * length b + 2

split_plain : (c : ℕ) (s : Bytes) → contains_byte c s ≡ false → split c s ≡ s ∷ []
unfolding split
split_plain c [] h = refl
split_plain c (b ∷ bs) h =
    let here : (b == c) ≡ false = ground arith in
    let later : contains_byte c bs ≡ false = ground arith in rw (here, split_plain c bs later) refl

split_at :
    (c : ℕ) (s rest : Bytes)
    → contains_byte c s ≡ false
    → split c (s ++ c ∷ rest) ≡ s ∷ split c rest
unfolding split
split_at c [] rest h = rw (==_refl c) refl
split_at c (b ∷ bs) rest h =
    let here : (b == c) ≡ false = ground arith in
    let later : contains_byte c bs ≡ false = ground arith in
    rw (here, split_at c bs rest later) refl

split-prefix :
    (rest : Bytes)
    → split b'$' (prefix ++ rest)
      ≡ [] ∷ codes "argon2id" ∷ codes "v=19" ∷ codes "m=65536,t=3,p=2" ∷ split b'$' rest
unfolding split
split-prefix rest = refl

module _ (kdf : Kdf) (base : Base64 kdf) where
  parts_read :
      (salt hash : Bytes)
      → split b'$' (prefix ++ (kdf.encode salt ++ (codes "$" ++ kdf.encode hash)))
        ≡ []
          ∷ codes "argon2id"
          ∷ codes "v=19"
          ∷ codes "m=65536,t=3,p=2"
          ∷ kdf.encode salt
          ∷ kdf.encode hash
          ∷ []
  parts_read salt hash =
      let a = split-prefix (kdf.encode salt ++ (codes "$" ++ kdf.encode hash)) in
      let b = split_at b'$' (kdf.encode salt) (kdf.encode hash) (base.no_dollar salt) in
      let c = split_plain b'$' (kdf.encode hash) (base.no_dollar hash) in
      a
      ∙ ap (λ (l : List Bytes). [] ∷ codes "argon2id" ∷ codes "v=19" ∷ codes "m=65536,t=3,p=2" ∷ l)
          (b ∙ ap (λ (l : List Bytes). kdf.encode salt ∷ l) c)

  decoded : (b : Bytes) → raw_std_decode kdf (kdf.encode b) ≡ some b
  unfolding raw_std_decode
  decoded b = ap kdf.decode (base.no_break b) ∙ base.round_trip b

  verify_parts_read :
      (password salt hash : Bytes)
      → length salt ≡ 16
      → length hash ≡ 32
      → kdf.ct_eq hash hash ≡ true
      → kdf.argon2_id password salt argon_iterations argon_memory argon_parallelism argon_key_len
        ≡ some hash
      → verify_parts kdf true password (
          []
          ∷ codes "argon2id"
          ∷ codes "v=19"
          ∷ codes "m=65536,t=3,p=2"
          ∷ kdf.encode salt
          ∷ kdf.encode hash
          ∷ [])
        ≡ ok true
  unfolding verify_parts verify_fields scan_field strip_prefix parse_digits digits_value split
  verify_parts_read password salt hash ls lh same derived =
      rw (decoded salt, ls, decoded hash, lh, derived, same) refl

-- The text of a hash is within the 512 bytes that a verification takes.
hash_short :
    (kdf : Kdf) (base : Base64 kdf) (salt hash : Bytes)
    → length salt ≡ 16
    → length hash ≡ 32
    → ltb 512 (length (prefix ++ (kdf.encode salt ++ (codes "$" ++ kdf.encode hash)))) ≡ false
hash_short kdf base salt hash ls lh = ground (
  arith,
  length-append (kdf.encode salt) (codes "$" ++ kdf.encode hash),
  base.short salt,
  base.short hash,
)

-- A password that was hashed is verified against its hash. Argon2id must fill the length that it is asked
-- for and `ct_eq` hold of equal texts; base64 must keep its promises.
pub verify_password-hash_password :
    (kdf : Kdf) (salt password stored : Bytes)
    → Base64 kdf
    → ((p s : Bytes) (t m n l : ℕ) (h : Bytes) → kdf.argon2_id p s t m n l ≡ some h → length h ≡ l)
    → ((a : Bytes) → kdf.ct_eq a a ≡ true)
    → length salt ≡ 16
    → hash_password kdf true (some salt) password ≡ ok stored
    → verify_password kdf true password stored ≡ ok true
unfolding verify_password hash_password
verify_password-hash_password kdf salt password stored base fills same ls h =
    elim (Bool-cases (leb 12 (chars_count password))) [
      | inr e ↦ absurd (ground (arith, h, e))
      | inl e ↦ elim (Bool-cases (leb (length password) 1024)) [
        | inr f ↦ absurd (ground (arith, h, e, f))
        | inl f ↦
            elim (Option-cases (
              kdf.argon2_id password salt argon_iterations argon_memory argon_parallelism
                argon_key_len)) [
                  | inl g ↦ absurd (ground (arith, h, e, f, g))
                  | inr (hash, g) ↦
                      let written : prefix ++ (kdf.encode salt ++ (codes "$" ++ kdf.encode hash))
                          ≡ stored =
                        ground (arith, h, e, f, g) in
                      let lh = fills password salt 3 65536 2 32 hash g in
                      let fits : ltb 1024 (length password) ≡ false = ground arith in
                      rw⁻¹ written (
                        rw
                          (fits, hash_short kdf base salt hash ls lh, parts_read kdf base salt hash)
                          (verify_parts_read kdf base password salt hash ls lh (same hash) g))
                ]
      ]
    ]
