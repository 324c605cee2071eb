-- ===== src/Auth/Base32/RoundTrip.antt =====
-- auth.rs: what `base32_encode` writes, `base32_decode` reads back.
use minimalrouter.Auth.Base32.{
  base32_decode, base32_encode, bits_of, byte_count, decode_quanta, decode_quantum,
  drop_line_breaks, gather, letter, low_bytes, padding, position, symbol, symbols, trailing,
  value_of,
}
use minimalrouter.Prelude.{
  All, Bool, Bytes, Option-cases, [], ap, arith, false, if_cases, inl, inr, is_empty, length, ltb,
  none, not, passes_below, passes_below_at, refl, some, take, true, ℕ, ◌%◌, ◌&&◌, ◌*◌, ◌++◌, ◌+◌,
  ◌-◌, ◌/◌, ◌<◌, ◌==◌, ◌^◌, ◌||◌, ◌∙◌, ◌∷◌, ◌≡◌,
}

-- Every digit is found at its place, and is no padding and no line break.
reads_back : ℕ → Bool
reads_back k =
    elim (value_of (letter k)) [ none ↦ false | some i ↦ i == k ]
    && not (letter k == padding)
    && not (letter k == 13 || letter k == 10)

digits_read_back : passes_below 32 reads_back ≡ true
unfolding passes_below reads_back value_of letter position
digits_read_back = refl

digit_facts :
    (k : ℕ)
    → k < 32
    → (value_of (letter k) ≡ some k)
      × ((letter k == padding) ≡ false)
      × ((letter k == 13 || letter k == 10) ≡ false)
unfolding reads_back
digit_facts k h =
    let t = passes_below_at 32 reads_back k digits_read_back h in
    elim (Option-cases (value_of (letter k))) [
      | inl e ↦ absurd (ground (arith, t, e))
      | inr (i, e) ↦ (ground (arith, t, e), ground (arith, t, e), ground (arith, t, e))
    ]

module _ (bits : ℕ) where
  digit : ℕ → ℕ
  digit i = bits / 2 ^ (35 - i * 5) % 32

  digit_lt : (i : ℕ) → digit i < 32
  unfolding digit
  digit_lt i = omega arith

  read :
      (i : ℕ)
      → value_of (letter (bits / 2 ^ (35 - i * 5) % 32)) ≡ some (bits / 2 ^ (35 - i * 5) % 32)
  unfolding digit
  read i = (digit_facts (digit i) (digit_lt i)).0

  unpadded : (i : ℕ) → (letter (bits / 2 ^ (35 - i * 5) % 32) == padding) ≡ false
  unfolding digit
  unpadded i = (digit_facts (digit i) (digit_lt i)).1

  abbrev term : ℕ → ℕ
  term i = bits / 2 ^ (35 - i * 5) % 32 * 2 ^ (35 - i * 5)

  full_quantum :
      (is_last : Bool)
      → decode_quantum (symbols bits 8) is_last
        ≡ some (
            low_bytes (
              term 0
              + (term 1 + (term 2 + (term 3 + (term 4 + (term 5 + (term 6 + (term 7 + 0)))))))))
  unfolding decode_quantum symbols symbol trailing byte_count gather
  full_quantum is_last =
      rw (unpadded 7, read 0, read 1, read 2, read 3, read 4, read 5, read 6, read 7) refl

  four_quantum :
      decode_quantum (symbols bits 7) true
      ≡ some (
          take 4 (
            low_bytes
              (term 0 + (term 1 + (term 2 + (term 3 + (term 4 + (term 5 + (term 6 + 0)))))))))
  unfolding decode_quantum symbols symbol trailing byte_count gather
  four_quantum = rw (unpadded 6, read 0, read 1, read 2, read 3, read 4, read 5, read 6) refl

  three_quantum :
      decode_quantum (symbols bits 5) true
      ≡ some (take 3 (low_bytes (term 0 + (term 1 + (term 2 + (term 3 + (term 4 + 0)))))))
  unfolding decode_quantum symbols symbol trailing byte_count gather
  three_quantum = rw (unpadded 4, read 0, read 1, read 2, read 3, read 4) refl

  two_quantum :
      decode_quantum (symbols bits 4) true
      ≡ some (take 2 (low_bytes (term 0 + (term 1 + (term 2 + (term 3 + 0))))))
  unfolding decode_quantum symbols symbol trailing byte_count gather
  two_quantum = rw (unpadded 3, read 0, read 1, read 2, read 3) refl

  one_quantum :
      decode_quantum (symbols bits 2) true ≡ some (take 1 (low_bytes (term 0 + (term 1 + 0))))
  unfolding decode_quantum symbols symbol trailing byte_count gather
  one_quantum = rw (unpadded 1, read 0, read 1) refl

full_bits :
    (bits : ℕ)
    → bits < 2 ^ 40
    → term bits 0
        + (term bits 1
            + (term bits 2
                + (term bits 3
                    + (term bits 4 + (term bits 5 + (term bits 6 + (term bits 7 + 0)))))))
      ≡ bits
full_bits bits h = omega arith

four_bits :
    (bits : ℕ)
    → bits < 2 ^ 40
    → bits % 2 ^ 5 ≡ 0
    → term bits 0
        + (term bits 1
            + (term bits 2 + (term bits 3 + (term bits 4 + (term bits 5 + (term bits 6 + 0))))))
      ≡ bits
four_bits bits h k = omega arith

three_bits :
    (bits : ℕ)
    → bits < 2 ^ 40
    → bits % 2 ^ 15 ≡ 0
    → term bits 0 + (term bits 1 + (term bits 2 + (term bits 3 + (term bits 4 + 0)))) ≡ bits
three_bits bits h k = omega arith

two_bits :
    (bits : ℕ)
    → bits < 2 ^ 40
    → bits % 2 ^ 20 ≡ 0
    → term bits 0 + (term bits 1 + (term bits 2 + (term bits 3 + 0))) ≡ bits
two_bits bits h k = omega arith

one_bits : (bits : ℕ) → bits < 2 ^ 40 → bits % 2 ^ 30 ≡ 0 → term bits 0 + (term bits 1 + 0) ≡ bits
one_bits bits h k = omega arith

bits_lt :
    (a b c d e : ℕ) → a < 256 → b < 256 → c < 256 → d < 256 → e < 256 → bits_of a b c d e < 2 ^ 40
bits_lt a b c d e ha hb hc hd he = omega arith

low_bytes-bits_of :
    (a b c d e : ℕ)
    → a < 256
    → b < 256
    → c < 256
    → d < 256
    → e < 256
    → low_bytes (bits_of a b c d e) ≡ a ∷ b ∷ c ∷ d ∷ e ∷ []
low_bytes-bits_of a b c d e ha hb hc hd he =
    let x = bits_of a b c d e in
    let p : x / 2 ^ 32 % 256 ≡ a = omega arith in
    let q : x / 2 ^ 24 % 256 ≡ b = omega arith in
    let r : x / 2 ^ 16 % 256 ≡ c = omega arith in
    let s : x / 2 ^ 8 % 256 ≡ d = omega arith in let t : x % 256 ≡ e = omega arith in cc

abbrev IsByte : ℕ → Type 0
IsByte b = b < 256

-- A quantum that yields these bits yields the bytes that they were made of.
from_bits :
    (n : ℕ) (quantum : Bytes) (is_last : Bool) (bits sum a b c d e : ℕ)
    → decode_quantum quantum is_last ≡ some (take n (low_bytes sum))
    → sum ≡ bits
    → low_bytes bits ≡ a ∷ b ∷ c ∷ d ∷ e ∷ []
    → decode_quantum quantum is_last ≡ some (take n (a ∷ b ∷ c ∷ d ∷ e ∷ []))
from_bits n quantum is_last bits sum a b c d e p q r =
    p ∙ ap (λ (m : ℕ). some (take n (low_bytes m))) q ∙ ap (λ (l : Bytes). some (take n l)) r

quanta-encode :
    (input : Bytes) → All IsByte input → decode_quanta (base32_encode input) ≡ some input
unfolding decode_quanta base32_encode symbols
quanta-encode [] h = refl
quanta-encode (a ∷ []) h =
    let bits = bits_of a 0 0 0 0 in
    let q =
      from_bits 1 (symbols bits 2) true bits _ a 0 0 0 0 (one_quantum bits)
        (one_bits bits (omega arith) (omega arith))
        (low_bytes-bits_of a 0 0 0 0 h.0 (omega arith) (omega arith) (omega arith) (omega arith)) in
    rw q refl
quanta-encode (a ∷ b ∷ []) h =
    let bits = bits_of a b 0 0 0 in
    let q =
      from_bits 2 (symbols bits 4) true bits _ a b 0 0 0 (two_quantum bits)
        (two_bits bits (omega arith) (omega arith))
        (low_bytes-bits_of a b 0 0 0 h.0 h.1.0 (omega arith) (omega arith) (omega arith)) in
    rw q refl
quanta-encode (a ∷ b ∷ c ∷ []) h =
    let bits = bits_of a b c 0 0 in
    let q =
      from_bits 3 (symbols bits 5) true bits _ a b c 0 0 (three_quantum bits)
        (three_bits bits (omega arith) (omega arith))
        (low_bytes-bits_of a b c 0 0 h.0 h.1.0 h.1.1.0 (omega arith) (omega arith)) in
    rw q refl
quanta-encode (a ∷ b ∷ c ∷ d ∷ []) h =
    let bits = bits_of a b c d 0 in
    let q =
      from_bits 4 (symbols bits 7) true bits _ a b c d 0 (four_quantum bits)
        (four_bits bits (omega arith) (omega arith))
        (low_bytes-bits_of a b c d 0 h.0 h.1.0 h.1.1.0 h.1.1.1.0 (omega arith)) in
    rw q refl
quanta-encode (a ∷ b ∷ c ∷ d ∷ e ∷ rest) h =
    let bits = bits_of a b c d e in
    let is_last = is_empty (base32_encode rest) in
    let q =
      from_bits 5 (symbols bits 8) is_last bits _ a b c d e (full_quantum bits is_last)
        (full_bits bits (omega arith))
        (low_bytes-bits_of a b c d e h.0 h.1.0 h.1.1.0 h.1.1.1.0 h.1.1.1.1.0) in
    rw (q, quanta-encode rest h.1.1.1.1.1) refl

abbrev NoBreak : ℕ → Type 0
NoBreak b = (b == 13 || b == 10) ≡ false

symbol-NoBreak : (bits chars i : ℕ) → NoBreak (symbol bits chars i)
unfolding symbol
symbol-NoBreak bits chars i =
    if_cases NoBreak (ltb i chars) _ _
      (λ _. (digit_facts (bits / 2 ^ (35 - i * 5) % 32) (omega arith)).2) (λ _. refl)

abbrev SymbolsKept : ℕ → ℕ → Bytes → Type 0
SymbolsKept bits chars rest =
    drop_line_breaks (symbols bits chars ++ rest) ≡ symbols bits chars ++ drop_line_breaks rest

symbols_have_no_breaks : (bits chars : ℕ) (rest : Bytes) → SymbolsKept bits chars rest
unfolding symbols drop_line_breaks
symbols_have_no_breaks bits chars rest =
    let f = symbol-NoBreak bits chars in rw (f 0, f 1, f 2, f 3, f 4, f 5, f 6, f 7) refl

encode_kept : (input : Bytes) → drop_line_breaks (base32_encode input) ≡ base32_encode input
unfolding base32_encode drop_line_breaks symbols
encode_kept [] = refl
encode_kept (a ∷ []) = symbols_have_no_breaks (bits_of a 0 0 0 0) 2 []
encode_kept (a ∷ b ∷ []) = symbols_have_no_breaks (bits_of a b 0 0 0) 4 []
encode_kept (a ∷ b ∷ c ∷ []) = symbols_have_no_breaks (bits_of a b c 0 0) 5 []
encode_kept (a ∷ b ∷ c ∷ d ∷ []) = symbols_have_no_breaks (bits_of a b c d 0) 7 []
encode_kept (a ∷ b ∷ c ∷ d ∷ e ∷ rest) =
    let bits = bits_of a b c d e in
    symbols_have_no_breaks bits 8 (base32_encode rest)
    ∙ ap (λ (l : Bytes). symbols bits 8 ++ l) (encode_kept rest)

length-encode : (input : Bytes) → length (base32_encode input) % 8 ≡ 0
unfolding base32_encode symbols
length-encode [] = omega arith
length-encode (a ∷ []) = omega arith
length-encode (a ∷ b ∷ []) = omega arith
length-encode (a ∷ b ∷ c ∷ []) = omega arith
length-encode (a ∷ b ∷ c ∷ d ∷ []) = omega arith
length-encode (a ∷ b ∷ c ∷ d ∷ e ∷ rest) = omega (arith, length-encode rest)

-- Whatever bytes are encoded, decoding gives them back.
pub base32_decode-encode :
    (input : Bytes)
    → All (λ (b : ℕ). b < 256) input
    → base32_decode (base32_encode input) ≡ some input
unfolding base32_decode
base32_decode-encode input h =
    let whole : (length (base32_encode input) % 8 == 0) ≡ true =
      ground (arith, length-encode input) in
    rw (encode_kept input, whole) (quanta-encode input h)
