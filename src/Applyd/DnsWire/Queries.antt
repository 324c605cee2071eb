-- ===== src/Applyd/DnsWire/Queries.antt =====
-- applyd/dnswire.rs: what is written is read back.

use mathlib.Core.List.{append-nil, append_assoc}
use mathlib.Core.Path.{subst}
use minimalrouter.Applyd.DnsWire.{
  Cursor, be16, build_query, continue, dotted, encode_labels, encode_name, labels, non_empty, parse,
  read_answers, read_label, read_name, read_questions, read_rounds, round, slice,
  to_ascii_lowercase, trim_end_matches,
}
use minimalrouter.Prelude.{
  All, Bool, Bool-cases, Bytes, List, Result-cases, [], ap, arith, bind_inv, drop, false, get_elem?,
  if◌then◌else◌, inl, inr, leb, length, length-append, ltb, ltb→le, none, ok, refl, some, split,
  suc, take-append, true, zero, ℕ, ◌%◌, ◌*◌, ◌++◌, ◌+◌, ◌/◌, ◌<◌, ◌==◌, ◌∙◌, ◌∷◌, ◌≡◌, ◌≤◌,
}

get_elem?-append : (xs ys : Bytes) (i : ℕ) → get_elem? (xs ++ ys) (length xs + i) ≡ get_elem? ys i
get_elem?-append [] ys i = let e : 0 + i ≡ i = omega arith in rw e refl
get_elem?-append (x ∷ xs) ys i =
    let e : suc (length xs) + i ≡ suc (length xs + i) = omega arith in
    rw e (get_elem?-append xs ys i)

drop-append-add : (xs ys : Bytes) (i : ℕ) → drop (length xs + i) (xs ++ ys) ≡ drop i ys
drop-append-add [] ys i = let e : 0 + i ≡ i = omega arith in rw e refl
drop-append-add (x ∷ xs) ys i =
    let e : suc (length xs) + i ≡ suc (length xs + i) = omega arith in
    rw e (drop-append-add xs ys i)

zero_behind : (n : ℕ) → n ≡ n + 0
zero_behind n = omega arith

-- The bytes of a label behind its length are found by `slice`.
slice-label :
    (prior l rest : Bytes) (n : ℕ)
    → slice (length prior + 1) (length l) (prior ++ n ∷ (l ++ rest)) ≡ some l
unfolding slice
slice-label prior l rest n =
    let fits : leb (length prior + 1 + length l) (length (prior ++ n ∷ (l ++ rest))) ≡ true =
      ground (arith, length-append prior (n ∷ (l ++ rest)), length-append l rest) in
    rw (fits, drop-append-add prior (n ∷ (l ++ rest)) 1, take-append l rest) refl

-- The labels as `read_name` returns them.
abbrev pub lowered : List Bytes → List Bytes
lowered [] = []
lowered (l ∷ ls) = to_ascii_lowercase l ∷ lowered ls

module _ (lossy : Bytes → Bytes) where
  -- `String::from_utf8_lossy` leaves the label as it is.
  abbrev pub Kept : Bytes → Type 0
  Kept l = lossy l ≡ l

  read_label_round :
      (prior l rest : Bytes) (seen : List Bytes) (jumps : ℕ)
      → 0 < length l
      → length l ≤ 63
      → Kept l
      → round lossy
          (prior ++ length l ∷ (l ++ rest))
          (record { offset = length prior; read = seen; end = none; jumps = jumps })
        ≡ continue (record {
          offset = length prior + 1 + length l;
          read = seen ++ to_ascii_lowercase l ∷ [];
          end = none;
          jumps = jumps;
        })
  unfolding round read_label
  read_label_round prior l rest seen jumps some_bytes short kept =
      let packet = prior ++ length l ∷ (l ++ rest) in
      let first : get_elem? packet (length prior) ≡ some (length l) =
        ap (get_elem? packet) (zero_behind (length prior))
        ∙ get_elem?-append prior (length l ∷ (l ++ rest)) 0 in
      let plain : leb 192 (length l) ≡ false = ground arith in
      let more : (length l == 0) ≡ false = ground arith in
      rw (first, plain, more, slice-label prior l rest (length l), kept, round, read_label) refl

  -- The labels of a name: there are bytes in each, and `lossy` keeps them.
  abbrev pub Plain : List Bytes → Type 0
  Plain = All (λ (l : Bytes). (0 < length l) × Kept l)

  encode_inv :
      (l : Bytes) (ls : List Bytes) (out : Bytes)
      → encode_labels (l ∷ ls) ≡ ok out
      → (length l ≤ 63)
        × ((rest : Bytes) × (encode_labels ls ≡ ok rest) × (out ≡ length l ∷ (l ++ rest)))
  unfolding encode_labels
  encode_inv l ls out h = elim (Bool-cases (ltb 63 (length l))) [
    | inl e ↦ absurd (ground (arith, h, e))
    | inr e ↦ elim (Result-cases (encode_labels ls)) [
      | inl (rest, q) ↦ (ltb→le 63 (length l) e, (rest, q, ground (arith, h, e, q)))
      | inr (x, q) ↦ absurd (ground (arith, h, e, q))
    ]
  ]

  abbrev at_offset : ℕ → List Bytes → Cursor
  at_offset offset seen = record { offset = offset; read = seen; end = none; jumps = 0 }

  read_end :
      (prior rest : Bytes) (seen : List Bytes) (fuel : ℕ)
      → read_rounds lossy (suc fuel) (prior ++ 0 ∷ rest) (at_offset (length prior) seen)
        ≡ ok (dotted seen, length prior + 1)
  unfolding read_rounds round
  read_end prior rest seen fuel =
      let packet = prior ++ 0 ∷ rest in
      let first : get_elem? packet (length prior) ≡ some 0 =
        ap (get_elem? packet) (zero_behind (length prior)) ∙ get_elem?-append prior (0 ∷ rest) 0 in
      rw (first, read_rounds, round) refl

  read_step :
      (fuel : ℕ) (packet : Bytes) (c c' : Cursor)
      → round lossy packet c ≡ continue c'
      → read_rounds lossy (suc fuel) packet c ≡ read_rounds lossy fuel packet c'
  unfolding read_rounds
  read_step fuel packet c c' e = rw (e, read_rounds) refl

  read_rounds-encode_labels :
      (ls : List Bytes) (out : Bytes)
      → encode_labels ls ≡ ok out
      → Plain ls
      → (prior rest : Bytes) (seen : List Bytes) (fuel : ℕ) → length ls < fuel
      → read_rounds lossy fuel (prior ++ (out ++ rest)) (at_offset (length prior) seen)
        ≡ ok (dotted (seen ++ lowered ls), length prior + length out)
  unfolding encode_labels
  read_rounds-encode_labels ls out h plain prior rest seen zero more = absurd (omega arith)
  read_rounds-encode_labels [] out h plain prior rest seen (suc fuel) more =
      let e : out ≡ 0 ∷ [] = ground (arith, h) in
      rw (e, append-nil seen) (read_end prior rest seen fuel)
  read_rounds-encode_labels (l ∷ ls) out h plain prior rest seen (suc fuel) more =
      let v = encode_inv l ls out h in
      let out' = v.1.0 in
      let head = length l ∷ l in
      let low = to_ascii_lowercase l in
      let packet = prior ++ length l ∷ (l ++ (out' ++ rest)) in
      let whole : prior ++ (out ++ rest) ≡ packet = rw (v.1.2, append_assoc l out' rest) refl in
      let step =
        read_step fuel packet (at_offset (length prior) seen) _
          (read_label_round prior l (out' ++ rest) seen 0 plain.0.0 v.0 plain.0.1) in
      let ih =
        read_rounds-encode_labels ls out' v.1.1 plain.1 (prior ++ head) rest (seen ++ low ∷ []) fuel
          (omega arith) in
      let place : length (prior ++ head) ≡ length prior + 1 + length l =
        omega (arith, length-append prior head) in
      let size : length prior + 1 + length l + length out' ≡ length prior + length out =
        rw v.1.2 (omega (arith, length-append l out')) in
      let ih' =
        rw
          (
            append_assoc prior head (out' ++ rest),
            place,
            append_assoc seen (low ∷ []) (lowered ls),
            size,
          )
          at ih in
      rw whole (step ∙ ih')

  non_empty-Plain : (ls : List Bytes) → All Kept (non_empty ls) → Plain (non_empty ls)
  unfolding non_empty
  non_empty-Plain [] k = tt
  non_empty-Plain ([] ∷ ls) k = non_empty-Plain ls k
  non_empty-Plain ((x ∷ xs) ∷ ls) k = ((omega arith, k.0), non_empty-Plain ls k.1)

  labels_short :
      (ls : List Bytes) (out : Bytes) → encode_labels ls ≡ ok out → length ls < length out
  unfolding encode_labels
  labels_short [] out h = let e : out ≡ 0 ∷ [] = ground (arith, h) in rw e (omega arith)
  labels_short (l ∷ ls) out h =
      let v = encode_inv l ls out h in
      let ih = labels_short ls v.1.0 v.1.1 in rw v.1.2 (omega (arith, length-append l v.1.0))

-- A name that is encoded anywhere in a packet is read back as its labels in lower case, each with a dot
-- behind it, and the reader ends just behind it; `lossy` must keep the labels, which are text.
pub read_name-encode_name :
    (lossy : Bytes → Bytes) (name out prior rest : Bytes)
    → All (λ (l : Bytes). lossy l ≡ l) (labels name)
    → encode_name name ≡ ok out
    → read_name lossy (prior ++ (out ++ rest)) (length prior)
      ≡ ok (dotted (lowered (labels name)), length prior + length out)
unfolding read_name encode_name labels
read_name-encode_name lossy name out prior rest kept h =
    let parts = split b'.' (trim_end_matches b'.' name) in
    read_rounds-encode_labels lossy (non_empty parts) out h (non_empty-Plain lossy parts kept) prior
      rest [] (33 * (length (prior ++ (out ++ rest)) + 1) + 1)
      (omega (
        arith,
        labels_short lossy (non_empty parts) out h,
        length-append prior (out ++ rest),
        length-append out rest,
      ))

-- The header of a query.
abbrev query_header : ℕ → Bool → Bytes
query_header id recursion =
    id / 256 ∷ id % 256 ∷ (if recursion then 1 else 0) ∷ 0 ∷ 0 ∷ 1 ∷ 0 ∷ 0 ∷ 0 ∷ 0 ∷ 0 ∷ 0 ∷ []

flag_clear : (recursion : Bool) → leb 128 (if recursion then 1 else 0) ≡ false
flag_clear recursion = ground arith

parse_query :
    (lossy : Bytes → Bytes) (id : ℕ) (recursion : Bool) (body name : Bytes) (n : ℕ)
    → id < 65536
    → read_name lossy (query_header id recursion ++ body) 12 ≡ ok (name, n)
    → parse lossy (query_header id recursion ++ body)
      ≡ ok (record { id = id; response = false; rcode = 0; answers = [] })
unfolding parse read_questions read_answers
parse_query lossy id recursion body name n small h =
    let whole = query_header id recursion ++ body in
    let long : ltb (length whole) 12 ≡ false = ground arith in
    let number : id / 256 * 256 + id % 256 ≡ id = omega arith in
    rw (long, h, number, flag_clear recursion, parse, read_questions) refl

-- A query that is built is parsed as a request with its id, no error and no answers.
pub parse-build_query :
    (lossy : Bytes → Bytes) (id : ℕ) (name : Bytes) (qtype : ℕ) (recursion : Bool) (query : Bytes)
    → id < 65536
    → All (λ (l : Bytes). lossy l ≡ l) (labels name)
    → build_query id name qtype recursion ≡ ok query
    → parse lossy query ≡ ok (record { id = id; response = false; rcode = 0; answers = [] })
unfolding build_query
parse-build_query lossy id name qtype recursion query small kept h =
    let v = bind_inv (encode_name name) _ query h in
    let tail = be16 qtype ++ be16 1 in
    let header = query_header id recursion in
    let e : header ++ (v.0 ++ tail) ≡ query = ground (arith, v.2) in
    let r = read_name-encode_name lossy name v.0 header tail kept v.1 in
    let header_read = parse_query lossy id recursion (v.0 ++ tail) _ _ small r in
    subst
      (λ (q : Bytes).
        parse lossy q ≡ ok (record { id = id; response = false; rcode = 0; answers = [] }))
      e header_read
