-- ===== src/Auth/Totp/Drift.antt =====
-- auth.rs: which codes `validate_totp_at` takes.
use minimalrouter.Auth.Base32.{base32_decode}
use minimalrouter.Auth.Totp.{
  Std, canonical_secret, canonical_totp_inputs, compute_totp, counter_at, matches_near, six_digits,
  totp_period, validate_totp_at,
}
use minimalrouter.Prelude.{
  Bool-cases, Bytes, ap, arith, inl, inr, leb, length, refl, some, suc, true, ℕ, ◌+◌, ◌/◌, ◌==◌,
  ◌≡◌, ◌≤◌, ◌⊎◌,
}
use minimalrouter.Prelude.Int.{negsuc, pos, ℤ, ◌+ℤ◌, ◌≤ℤ◌}

-- The times are at most one period apart.
abbrev pub Near : ℤ → ℤ → Type 0
Near s t = (s ≤ℤ t +ℤ pos totp_period) × (t ≤ℤ s +ℤ pos totp_period)

three_ways : (a b : ℕ) → a ≤ b + 1 → b ≤ a + 1 → (suc a ≡ b) ⊎ (a ≡ b) ⊎ (a ≡ suc b)
three_ways a b h k = elim (Bool-cases (leb b a)) [
  | inr e ↦ inl (ground arith)
  | inl e ↦ elim (Bool-cases (leb a b)) [
    | inl f ↦ inr (inl (ground arith))
    | inr f ↦ inr (inr (ground arith))
  ]
]

counter-cases :
    (s t : ℤ)
    → Near s t
    → (counter_at s ≡ counter_at t +ℤ negsuc 0)
      ⊎ (counter_at s ≡ counter_at t)
      ⊎ (counter_at s ≡ counter_at t +ℤ pos 1)
unfolding counter_at
counter-cases (pos m) (pos n) h =
    let below : m ≤ n + 30 = ground arith in
    let above : n ≤ m + 30 = ground arith in
    elim (three_ways (m / totp_period) (n / totp_period) (omega arith) (omega arith)) [
      | inl e ↦ inl (ground arith)
      | inr (inl e) ↦ inr (inl (ap pos e))
      | inr (inr e) ↦ inr (inr (ground arith))
    ]
counter-cases (pos m) (negsuc n) h = inr (inr (ground arith))
counter-cases (negsuc m) (pos n) h = inl (ground arith)
counter-cases (negsuc m) (negsuc n) h =
    let below : m ≤ n + 30 = ground arith in
    let above : n ≤ m + 30 = ground arith in
    elim (three_ways (m / totp_period) (n / totp_period) (omega arith) (omega arith)) [
      | inl e ↦ inr (inr (ground arith))
      | inr (inl e) ↦ inr (inl (ap negsuc e))
      | inr (inr e) ↦ inl (ground arith)
    ]

module _ (std : Std) (ct_eq_refl : (a : Bytes) → std.ct_eq a a ≡ true) where
  ct_eq_same : (a b : Bytes) → a ≡ b → std.ct_eq a b ≡ true
  ct_eq_same a b e = rw e (ct_eq_refl b)

  matches_near-compute_totp :
      (key : Bytes) (s t : ℤ)
      → Near s t
      → matches_near std key (compute_totp std key (counter_at s)) (counter_at t) ≡ true
  unfolding matches_near
  matches_near-compute_totp key s t h =
      let code = compute_totp std key (counter_at s) in
      elim (counter-cases s t h) [
        | inl e ↦ ground (arith, ct_eq_same code _ (ap (compute_totp std key) e))
        | inr (inl e) ↦ ground (arith, ct_eq_same code _ (ap (compute_totp std key) e))
        | inr (inr e) ↦ ground (arith, ct_eq_same code _ (ap (compute_totp std key) e))
      ]

length-compute_totp :
    (std : Std) (key : Bytes) (c : ℤ) → (length (compute_totp std key c) == 6) ≡ true
unfolding compute_totp six_digits
length-compute_totp std key c = refl

-- A code that was computed at a time is taken at every time at most one period of thirty seconds away, in
-- either direction: `ct_eq` must hold of equal texts, and `trim` leave the code as it is.
pub validate_totp_at-compute_totp :
    (std : Std) (secret key : Bytes) (s t : ℤ)
    → ((a : Bytes) → std.ct_eq a a ≡ true)
    → std.trim (compute_totp std key (counter_at s)) ≡ compute_totp std key (counter_at s)
    → base32_decode (canonical_secret std secret) ≡ some key
    → Near s t
    → validate_totp_at std secret (compute_totp std key (counter_at s)) t ≡ true
unfolding validate_totp_at canonical_totp_inputs
validate_totp_at-compute_totp std secret key s t same trimmed decoded h =
    rw (trimmed, length-compute_totp std key (counter_at s), decoded, trimmed)
      (matches_near-compute_totp std same key s t h)
