-- ===== src/Applyd/DnsWire/Replies.antt =====
-- applyd/dnswire.rs: what `parse` and `txt_strings` make of a reply.

use minimalrouter.Applyd.DnsWire.{
  Answer, DnsMessage, byte_at, parse, read_answer, read_answers, read_name, read_questions, slice,
  txt_rounds, txt_strings, u16_at,
}
use minimalrouter.Applyd.DnsWire.Names.{read_name_bounds, slice-le}
use minimalrouter.Prelude.{
  Bool-cases, Bytes, List, Option-cases, [], arith, bind_inv, drop-append, inl, inr, leb, length,
  length-append, ltb, ltb→le, map, ok, refl, suc, take-append, zero, ℕ, ◌%◌, ◌*◌, ◌++◌, ◌+◌, ◌>>=◌,
  ◌∷◌, ◌≡◌, ◌≤◌, ◌⊎◌,
}

module _ (lossy : Bytes → Bytes) where
  -- An answer takes eleven bytes at least.
  read_answer_inv :
      (packet : Bytes) (offset : ℕ) (a : Answer) (next : ℕ)
      → read_answer lossy packet offset ≡ ok (a, next)
      → (offset + 11 ≤ next) × (next ≤ length packet)
  unfolding read_answer
  read_answer_inv packet offset a next h =
      let v = bind_inv (read_name lossy packet offset) _ (a, next) h in
      let behind = v.0.1 in
      let b = read_name_bounds lossy packet offset v.0.0 behind v.1 in
      elim (Option-cases (slice behind 10 packet)) [
        | inl e ↦ absurd (ground (arith, v.2, e))
        | inr (header, e) ↦
            let size = u16_at header 8 in
            elim (Option-cases (slice (behind + 10) size packet)) [
              | inl f ↦ absurd (ground (arith, v.2, e, f))
              | inr (rdata, f) ↦
                  let fits = slice-le (behind + 10) size packet rdata f in
                  let same : behind + 10 + size ≡ next = ground (arith, v.2, e, f) in
                  (omega arith, omega arith)
            ]
      ]

  read_answers_inv :
      (n : ℕ) (packet : Bytes) (offset : ℕ) (answers : List Answer)
      → read_answers lossy n packet offset ≡ ok answers
      → (length answers ≡ n) × ((n ≡ 0) ⊎ (offset + 11 * n ≤ length packet))
  unfolding read_answers
  read_answers_inv zero packet offset answers h =
      let e : answers ≡ [] = ground (arith, h) in (rw e refl, inl refl)
  read_answers_inv (suc n) packet offset answers h =
      let v = bind_inv (read_answer lossy packet offset) _ answers h in
      let w = bind_inv (read_answers lossy n packet v.0.1) _ answers v.2 in
      let b = read_answer_inv packet offset v.0.0 v.0.1 v.1 in
      let ih = read_answers_inv n packet v.0.1 w.0 w.1 in
      let e : answers ≡ v.0.0 ∷ w.0 = ground (arith, w.2) in
      let fits : offset + 11 * suc n ≤ length packet = elim ih.1 [
        | inl none_left ↦ omega arith
        | inr more ↦ omega arith
      ] in
      (rw e (omega (arith, ih.0)), inr fits)

  read_questions-le :
      (n : ℕ) (packet : Bytes) (offset next : ℕ)
      → read_questions lossy n packet offset ≡ ok next
      → offset ≤ next
  unfolding read_questions
  read_questions-le zero packet offset next h = let e : offset ≡ next = cc in omega arith
  read_questions-le (suc n) packet offset next h =
      let v = bind_inv (read_name lossy packet offset) _ next h in
      let b = read_name_bounds lossy packet offset v.0.0 v.0.1 v.1 in
      let ih = read_questions-le n packet (v.0.1 + 4) next v.2 in omega arith

abbrev finish : Bytes → List Answer → DnsMessage
finish packet answers = record {
  id = u16_at packet 0;
  response = leb 128 (byte_at packet 2);
  rcode = byte_at packet 3 % 16;
  answers = answers;
}

-- A parsed message has as many answers as its header says, and each takes eleven bytes of the packet at
-- least, behind the twelve of the header.
pub parse_bounds :
    (lossy : Bytes → Bytes) (packet : Bytes) (m : DnsMessage)
    → parse lossy packet ≡ ok m
    → (length m.answers ≡ u16_at packet 6) × (12 + 11 * length m.answers ≤ length packet)
unfolding parse
parse_bounds lossy packet m h = elim (Bool-cases (ltb (length packet) 12)) [
  | inl short ↦ absurd (ground (arith, h, short))
  | inr long ↦
      let big = ltb→le (length packet) 12 long in
      let chain = read_questions lossy (u16_at packet 4) packet 12 in
      let body : (chain >>= λ offset.
      read_answers lossy (u16_at packet 6) packet offset >>= λ answers. ok (finish packet answers))
          ≡ ok m =
        rw (long, parse) at h in
      let v = bind_inv chain _ m body in
      let w = bind_inv (read_answers lossy (u16_at packet 6) packet v.0) _ m v.2 in
      let start = read_questions-le lossy (u16_at packet 4) packet 12 v.0 v.1 in
      let a = read_answers_inv lossy (u16_at packet 6) packet v.0 w.0 w.1 in
      let e : m.answers ≡ w.0 = ground (arith, w.2) in
      let fits : 12 + 11 * u16_at packet 6 ≤ length packet = elim a.1 [
        | inl none_left ↦ omega arith
        | inr more ↦ omega arith
      ] in
      (rw e a.0, rw (e, a.0) fits)
]

-- A TXT record of these character-strings.
unfoldable pub txt_record : List Bytes → Bytes
txt_record [] = []
txt_record (s ∷ ss) = length s ∷ (s ++ txt_record ss)

unfoldable pub concat : List Bytes → Bytes
concat [] = []
concat (s ∷ ss) = s ++ concat ss

txt_rounds_record :
    (lossy : Bytes → Bytes) (ss : List Bytes) (fuel : ℕ)
    → length (txt_record ss) ≤ fuel
    → txt_rounds lossy fuel (txt_record ss) ≡ concat (map lossy ss)
unfolding txt_rounds txt_record concat
txt_rounds_record lossy [] zero h = refl
txt_rounds_record lossy [] (suc fuel) h = refl
txt_rounds_record lossy (s ∷ ss) zero h = absurd (omega arith)
txt_rounds_record lossy (s ∷ ss) (suc fuel) h =
    let ih = txt_rounds_record lossy ss fuel (omega (arith, length-append s (txt_record ss))) in
    rw (take-append s (txt_record ss), drop-append s (txt_record ss), ih) refl

-- The character-strings of a TXT record come out in their order, one behind the other, each as `lossy`
-- reads it, which is UTF-8 with what is invalid replaced: none is lost, split or read twice.
pub txt_strings-txt_record :
    (lossy : Bytes → Bytes) (ss : List Bytes)
    → txt_strings lossy (txt_record ss) ≡ concat (map lossy ss)
unfolding txt_strings
txt_strings-txt_record lossy ss = txt_rounds_record lossy ss _ (omega arith)
