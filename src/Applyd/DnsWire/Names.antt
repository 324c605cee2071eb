-- ===== src/Applyd/DnsWire/Names.antt =====
-- applyd/dnswire.rs: `read_name` ends, and where.

use mathlib.Core.Path.{subst}
use minimalrouter.Applyd.DnsWire.{
  Cursor, Round, WireError, continue, follow, is_pointer, no_fuel, or_else, pointer_loop,
  read_label, read_name, read_rounds, round, slice, stop, truncated_label, truncated_name,
  truncated_pointer,
}
use minimalrouter.Prelude.{
  Bool-cases, Bytes, Option, Option-cases, Result, [], arith, err, get_elem?, if_cases, inl, inr,
  leb, leb→le, length, ltb, ltb→le, none, ok, refl, some, suc, zero, ℕ, ◌*◌, ◌+◌, ◌-◌, ◌<◌, ◌==◌,
  ◌∷◌, ◌≡◌, ◌≢◌, ◌≤◌,
}

get_elem?-lt : (xs : Bytes) (i : ℕ) (b : ℕ) → get_elem? xs i ≡ some b → i < length xs
get_elem?-lt [] i b h = absurd (ground (arith, h))
get_elem?-lt (x ∷ xs) zero b h = omega arith
get_elem?-lt (x ∷ xs) (suc i) b h = omega (arith, get_elem?-lt xs i b h)

pub slice-le : (a n : ℕ) (packet s : Bytes) → slice a n packet ≡ some s → a + n ≤ length packet
unfolding slice
slice-le a n packet s h = elim (Bool-cases (leb (a + n) (length packet))) [
  | inl e ↦ leb→le (a + n) (length packet) e
  | inr e ↦ absurd (ground (arith, h, e))
]

-- The rounds left: a pointer starts one of 33 runs, and a label moves on in the run.
abbrev measure : Bytes → Cursor → ℕ
measure packet c = (32 - c.jumps) * (length packet + 1) + (length packet - c.offset)

-- The position behind a name that started at `start`.
abbrev Behind : ℕ → Bytes → Option ℕ → ℕ → Type 0
Behind start packet none offset = start ≤ offset
Behind start packet (some e) offset = (start < e) × (e ≤ length packet)

record Good (start : ℕ) (packet : Bytes) (c : Cursor) : Type 0 where
  behind : Behind start packet c.end c.offset
  few : c.jumps ≤ 32

-- What a result says: a position behind the start and in the packet, or an error of the code.
abbrev Settles : ℕ → Bytes → Result WireError (Bytes × ℕ) → Type 0
Settles start packet (ok (name, next)) = (start < next) × (next ≤ length packet)
Settles start packet (err e) = e ≢ no_fuel

abbrev Advances : ℕ → Bytes → Cursor → Round → Type 0
Advances start packet c (stop r) = Settles start packet r
Advances start packet c (continue c') =
    Good start packet c' × (measure packet c' < measure packet c)

jump_step : (j k : ℕ) → j + 1 ≤ 32 → (32 - j) * k ≡ (32 - (j + 1)) * k + k
jump_step j k h = let e : 32 - j ≡ suc (32 - (j + 1)) = omega arith in rw e (grind arith)

or_else_behind :
    (start : ℕ) (packet : Bytes) (e : Option ℕ) (offset n : ℕ)
    → Behind start packet e offset
    → offset < n
    → n ≤ length packet
    → (start < or_else e n) × (or_else e n ≤ length packet)
or_else_behind start packet none offset n b h k = (omega arith, k)
or_else_behind start packet (some e) offset n b h k = b

stays_behind :
    (start : ℕ) (packet : Bytes) (e : Option ℕ) (offset n : ℕ)
    → Behind start packet e offset
    → offset ≤ n
    → Behind start packet e n
stays_behind start packet none offset n b h = omega arith
stays_behind start packet (some e) offset n b h = b

module _ (start : ℕ) (packet : Bytes) (c : Cursor) (good : Good start packet c) where
  follow-Advances : (len : ℕ) → Advances start packet c (follow packet c len)
  unfolding follow
  follow-Advances len = elim (Option-cases (get_elem? packet (c.offset + 1))) [
    | inl e ↦ rw (e, follow) (λ (q : truncated_pointer ≡ no_fuel). cc)
    | inr (lo, e) ↦
        let bound = get_elem?-lt packet (c.offset + 1) lo e in
        rw (e, follow)
          (if_cases (Advances start packet c) (ltb 32 (c.jumps + 1)) _ _
            (λ _. λ (q : pointer_loop ≡ no_fuel). cc)
            (λ t.
              let few = ltb→le 32 (c.jumps + 1) t in
              let behind =
                or_else_behind start packet c.end c.offset (c.offset + 2) good.behind (omega arith)
                  (omega arith) in
              (
                record { behind = behind; few = few },
                omega (arith, jump_step c.jumps (length packet + 1) few),
              )))
  ]

  module _ (lossy : Bytes → Bytes) where
    read_label-Advances : (len : ℕ) → Advances start packet c (read_label lossy packet c len)
    unfolding read_label
    read_label-Advances len = elim (Option-cases (slice (c.offset + 1) len packet)) [
      | inl e ↦ rw (e, read_label) (λ (q : truncated_label ≡ no_fuel). cc)
      | inr (l, e) ↦
          let bound = slice-le (c.offset + 1) len packet l e in
          let behind =
            stays_behind start packet c.end c.offset (c.offset + 1 + len) good.behind
              (omega arith) in
          rw (e, read_label) (record { behind = behind; few = good.few }, omega arith)
    ]

    round-Advances : Advances start packet c (round lossy packet c)
    unfolding round
    round-Advances = elim (Option-cases (get_elem? packet c.offset)) [
      | inl e ↦ rw (e, round) (λ (q : truncated_name ≡ no_fuel). cc)
      | inr (len, e) ↦
          let bound = get_elem?-lt packet c.offset len e in
          rw (e, round)
            (if_cases (Advances start packet c) (is_pointer len) _ _ (λ _. follow-Advances len)
              (λ _.
                if_cases (Advances start packet c) (len == 0) _ _
                  (λ _.
                    or_else_behind start packet c.end c.offset (c.offset + 1) good.behind
                      (omega arith) (omega arith))
                  (λ _. read_label-Advances len)))
    ]

module _ (lossy : Bytes → Bytes) (start : ℕ) (packet : Bytes) where
  after_round :
      (fuel : ℕ) (c : Cursor)
      → ((c' : Cursor)
          → Good start packet c'
          → measure packet c' < fuel
          → Settles start packet (read_rounds lossy fuel packet c'))
      → measure packet c < suc fuel
      → (r : Round) → Advances start packet c r
      → Settles start packet
          (elim r [ stop q ↦ q | continue c' ↦ read_rounds lossy fuel packet c' ])
  after_round fuel c go_on h (stop q) a = a
  after_round fuel c go_on h (continue c') a = go_on c' a.0 (omega arith)

  read_rounds-Settles :
      (fuel : ℕ) (c : Cursor)
      → Good start packet c
      → measure packet c < fuel
      → Settles start packet (read_rounds lossy fuel packet c)
  unfolding read_rounds
  read_rounds-Settles zero c good h = absurd (omega arith)
  read_rounds-Settles (suc fuel) c good h =
      after_round fuel c (read_rounds-Settles fuel) h (round lossy packet c)
        (round-Advances start packet c good lossy)

  read_name-Settles : Settles start packet (read_name lossy packet start)
  unfolding read_name
  read_name-Settles =
      read_rounds-Settles _ _ (record { behind = omega arith; few = omega arith }) (omega arith)

-- The loop of `read_name` ends on every packet, also where its pointers go round: the rounds that the
-- model allows never run out.
pub read_name_ends :
    (lossy : Bytes → Bytes) (packet : Bytes) (start : ℕ)
    → read_name lossy packet start ≢ err no_fuel
read_name_ends lossy packet start h =
    let s = read_name-Settles lossy start packet in
    let t : Settles start packet (err no_fuel) = subst (Settles start packet) h s in t refl

-- A name that is read ends behind its start and in the packet.
pub read_name_bounds :
    (lossy : Bytes → Bytes) (packet : Bytes) (start : ℕ) (name : Bytes) (next : ℕ)
    → read_name lossy packet start ≡ ok (name, next)
    → (start < next) × (next ≤ length packet)
read_name_bounds lossy packet start name next h =
    subst (Settles start packet) h (read_name-Settles lossy start packet)
