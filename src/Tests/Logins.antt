-- ===== src/Tests/Logins.antt =====
-- The theorems on logins, at one address, one secret and one password.

use Prim.Native.Nat.{max}
use minimalrouter.Auth.Base32.{
  base32_decode, base32_encode, byte_count, decode_quanta, decode_quantum, drop_line_breaks, gather,
  letter, position, symbol, symbols, trailing, value_of,
}
use minimalrouter.Auth.Base32.RoundTrip.{base32_decode-encode}
use minimalrouter.Auth.Limiter.{login, nobody, passed, passed_bound, thread_round}
use minimalrouter.Auth.Password.{Kdf, chars_count, hash_password, prefix, verify_password}
use minimalrouter.Auth.Password.Verify.{Base64, verify_password-hash_password}
use minimalrouter.Auth.Sessions.{Sessions, new_session}
use minimalrouter.Auth.Sessions.Refinement.{
  Refines, check_cookie, promised, serve, serve-Refines, view,
}
use minimalrouter.Auth.Sessions.Table.{lookup}
use minimalrouter.Auth.Totp.{
  Std, canonical_secret, compute_totp, counter_at, drop_spaces, to_upper, validate_totp_at,
}
use minimalrouter.Auth.Totp.Drift.{validate_totp_at-compute_totp}
use minimalrouter.Prelude.{
  Bytes, [], ap, arith, bytes_eq, bytes_eq_refl, codes, contains_byte, false, length, ok, refl,
  replicate, some, suc, true, zero, ℕ, ◌*◌, ◌++◌, ◌+◌, ◌-◌, ◌∷◌, ◌≡◌, ◌≤◌,
}
use minimalrouter.Prelude.Int.{pos}

passed_bound_example :
    passed 2 10
      (codes "192.0.2.1")
      (login (codes "192.0.2.1") 5 ∷ thread_round 7 ∷ login (codes "192.0.2.1") 15 ∷ [])
      nobody
    ≤ 2 + max 2 1
passed_bound_example =
    passed_bound 2 10 (codes "192.0.2.1") 5
      (login (codes "192.0.2.1") 5 ∷ thread_round 7 ∷ login (codes "192.0.2.1") 15 ∷ []) nobody
      (omega arith)

base32_decode-encode_example :
    base32_decode (base32_encode (codes "foobar")) ≡ some (codes "foobar")
base32_decode-encode_example = base32_decode-encode (codes "foobar") (omega arith)

-- A key derivation and a code that stand in for the real ones.
abbrev toy_std : Std
toy_std = record {
  hmac_sha1 = λ key message. message ++ key;
  ct_eq = bytes_eq;
  upper_chars = λ b. b;
  trim = λ b. b;
}

abbrev toy_secret : Bytes
toy_secret = codes "MZXW 6ytb"

validate_totp_at-compute_totp_example :
    validate_totp_at toy_std toy_secret
      (compute_totp toy_std (codes "fooba") (counter_at (pos 59)))
      (pos 75)
    ≡ true
unfolding base32_decode canonical_secret drop_line_breaks to_upper drop_spaces decode_quanta
    decode_quantum trailing byte_count gather value_of position base32_encode symbols symbol letter
validate_totp_at-compute_totp_example =
    validate_totp_at-compute_totp toy_std toy_secret (codes "fooba") (pos 59) (pos 75) bytes_eq_refl
      refl refl (omega arith)

abbrev one_session : Sessions
unfolding new_session
one_session = (codes "s1", new_session (codes "s1") (codes "t1") false (pos 50)) ∷ []

serve-Refines_example :
    Refines
      (serve bytes_eq (check_cookie (codes "s1") (pos 60)) one_session)
      (promised (check_cookie (codes "s1") (pos 60)) (view one_session))
unfolding lookup one_session new_session
serve-Refines_example =
    serve-Refines bytes_eq (check_cookie (codes "s1") (pos 60)) one_session (λ a b. refl) (refl, tt)

-- Base64 and Argon2id for the test: every byte is moved up, and every output is the same.
move_up : Bytes → Bytes
move_up [] = []
move_up (b ∷ bs) = (b + 100) ∷ move_up bs

move_down : Bytes → Bytes
move_down [] = []
move_down (b ∷ bs) = (b - 100) ∷ move_down bs

abbrev toy_output : ℕ → Bytes
toy_output l = replicate l 7

abbrev toy_kdf : Kdf
toy_kdf = record {
  argon2_id = λ p s t m n l. some (toy_output l);
  encode = move_up;
  decode = λ b. some (move_down b);
  ct_eq = bytes_eq;
}

moved_back : (b : Bytes) → move_down (move_up b) ≡ b
unfolding move_up move_down
moved_back [] = refl
moved_back (b ∷ bs) = let e : b + 100 - 100 ≡ b = omega arith in rw (e, moved_back bs) refl

moved_no_dollar : (b : Bytes) → contains_byte b'$' (move_up b) ≡ false
unfolding move_up
moved_no_dollar [] = refl
moved_no_dollar (b ∷ bs) = ground (arith, moved_no_dollar bs)

moved_no_break : (b : Bytes) → drop_line_breaks (move_up b) ≡ move_up b
unfolding move_up drop_line_breaks
moved_no_break [] = refl
moved_no_break (b ∷ bs) = ground (arith, moved_no_break bs)

moved_short : (b : Bytes) → 3 * length (move_up b) ≤ 4 * length b + 2
unfolding move_up
moved_short [] = omega arith
moved_short (b ∷ bs) = omega (arith, moved_short bs)

toy-Base64 : Base64 toy_kdf
toy-Base64 = record {
  round_trip = λ b. ap some (moved_back b);
  no_dollar = moved_no_dollar;
  no_break = moved_no_break;
  short = moved_short;
}

toy_length : (l : ℕ) → length (toy_output l) ≡ l
toy_length zero = refl
toy_length (suc l) = omega (arith, toy_length l)

toy_fills :
    (p s : Bytes) (t m n l : ℕ) (h : Bytes) → toy_kdf.argon2_id p s t m n l ≡ some h → length h ≡ l
toy_fills p s t m n l h e = let q : toy_output l ≡ h = ground (arith, e) in rw⁻¹ q (toy_length l)

abbrev toy_password : Bytes
toy_password = codes "correct horse"

abbrev toy_stored : Bytes
toy_stored = prefix ++ (move_up (replicate 16 1) ++ (codes "$" ++ move_up (toy_output 32)))

verify_password-hash_password_example :
    verify_password toy_kdf true toy_password toy_stored ≡ ok true
unfolding hash_password chars_count
verify_password-hash_password_example =
    verify_password-hash_password toy_kdf (replicate 16 1) toy_password toy_stored toy-Base64
      toy_fills bytes_eq_refl refl refl
