-- ===== src/Applyd/DnsWire.antt =====
-- applyd/dnswire.rs: the DNS messages of the resolver probes. A packet is its bytes. What
-- `String::from_utf8_lossy` makes of bytes is the parameter `lossy`; the UDP exchange is not modelled.
pub mod Names
pub mod Queries
pub mod Replies
use minimalrouter.Net.Mask.{size}
use minimalrouter.Prelude.{
  Bool, Bytes, List, Option, Result, [], drop, err, get_elem?, if◌then◌else◌, is_empty, leb, length,
  ltb, none, not, ok, some, split, suc, take, zero, ℕ, ◌%◌, ◌&&◌, ◌*◌, ◌++◌, ◌+◌, ◌/◌, ◌==◌, ◌>>=◌,
  ◌||◌, ◌∷◌,
}

pub data WireError : Type 0 where
  label_too_long truncated_name truncated_pointer pointer_loop truncated_label : WireError
  short_message truncated_answer truncated_rdata : WireError
  no_fuel : WireError  -- the model's own

-- `s.trim_end_matches(c)`.
unfoldable pub trim_end_matches : ℕ → Bytes → Bytes
trim_end_matches c [] = []
trim_end_matches c (b ∷ bs) =
    let rest = trim_end_matches c bs in if b == c && is_empty rest then [] else b ∷ rest

unfoldable pub non_empty : List Bytes → List Bytes
non_empty [] = []
non_empty (l ∷ ls) = let rest = non_empty ls in if is_empty l then rest else l ∷ rest

-- The labels of a name, as `encode_name` walks them.
unfoldable pub labels : Bytes → List Bytes
labels name = non_empty (split b'.' (trim_end_matches b'.' name))

unfoldable pub encode_labels : List Bytes → Result WireError Bytes
encode_labels [] = ok (0 ∷ [])
encode_labels (l ∷ ls) =
    let rest = encode_labels ls in
    if ltb 63 (length l) then err label_too_long else (rest >>= λ out. ok (length l ∷ l ++ out))

unfoldable pub encode_name : Bytes → Result WireError Bytes
encode_name name = encode_labels (labels name)

-- `n.to_be_bytes()` of a `u16`.
abbrev pub be16 : ℕ → Bytes
be16 n = n / 256 ∷ n % 256 ∷ []

unfoldable pub build_query : ℕ → Bytes → ℕ → Bool → Result WireError Bytes
build_query id name qtype recursion = do
  encoded ← encode_name name
  ok (
      be16 id
      ++ (if recursion then 1 else 0)
        ∷ 0
        ∷ 0
        ∷ 1
        ∷ 0
        ∷ 0
        ∷ 0
        ∷ 0
        ∷ 0
        ∷ 0
        ∷ (encoded ++ (be16 qtype ++ be16 1)))

-- `packet.get(a..a + n)`.
unfoldable pub slice : ℕ → ℕ → Bytes → Option Bytes
slice a n packet = if leb (a + n) (length packet) then some (take n (drop a packet)) else none

unfoldable pub to_ascii_lowercase : Bytes → Bytes
to_ascii_lowercase [] = []
to_ascii_lowercase (b ∷ bs) =
    (if leb b'A' b && leb b b'Z' then b + 32 else b) ∷ to_ascii_lowercase bs

-- `labels.join(".")` and a dot behind it.
unfoldable pub dotted : List Bytes → Bytes
dotted [] = b'.' ∷ []
dotted (l ∷ []) = l ++ b'.' ∷ []
dotted (l ∷ m ∷ ls) = l ++ b'.' ∷ dotted (m ∷ ls)

-- The variables of the loop of `read_name`.
pub record Cursor : Type 0 where
  pub offset : ℕ
  pub read : List Bytes
  pub end : Option ℕ
  pub jumps : ℕ

-- One round of the loop: it returns, or goes on.
pub data Round : Type 0 where
  stop : Result WireError (Bytes × ℕ) → Round
  continue : Cursor → Round

abbrev pub or_else : Option ℕ → ℕ → ℕ
or_else none n = n
or_else (some m) n = m

-- `len & 0xc0 == 0xc0`, for a byte.
abbrev pub is_pointer : ℕ → Bool
is_pointer len = leb 192 len

unfoldable pub follow : Bytes → Cursor → ℕ → Round
follow packet c len = elim (get_elem? packet (c.offset + 1)) [
  | none ↦ stop (err truncated_pointer)
  | some lo ↦
      if ltb 32 (c.jumps + 1)
      then stop (err pointer_loop)
      else continue (record c {
        offset = (len % 64) * 256 + lo;
        end = some (or_else c.end (c.offset + 2));
        jumps = c.jumps + 1;
      })
]

pub record Answer : Type 0 where
  pub name : Bytes
  pub rtype : ℕ
  pub rdata : Bytes

pub record DnsMessage : Type 0 where
  pub id : ℕ
  pub response : Bool
  pub rcode : ℕ
  pub answers : List Answer

-- `packet[i]`, read below the packet's length only.
abbrev pub byte_at : Bytes → ℕ → ℕ
byte_at packet i = elim (get_elem? packet i) [ none ↦ 0 | some b ↦ b ]

abbrev pub u16_at : Bytes → ℕ → ℕ
u16_at packet i = byte_at packet i * 256 + byte_at packet (i + 1)

-- What `lookup_a` makes of a reply.
pub data Lookup : Type 0 where
  found : List Bytes → Lookup
  malformed : WireError → Lookup
  invalid_response no_such_host : Lookup
  refused_with : ℕ → Lookup

abbrev pub type_a : ℕ
type_a = 1

unfoldable pub addresses : List Answer → List Bytes
addresses [] = []
addresses (a ∷ rest) =
    let others = addresses rest in
    if a.rtype == type_a && length a.rdata == 4 then a.rdata ∷ others else others

unfoldable pub lookup_reply : ℕ → Result WireError DnsMessage → Lookup
lookup_reply id (err e) = malformed e
lookup_reply id (ok m) =
    if not (m.id == id) || not m.response
    then invalid_response
    else if not (m.rcode == 0)
    then refused_with m.rcode
    else elim (addresses m.answers) [ [] ↦ no_such_host | a ∷ rest ↦ found (a ∷ rest) ]

module _ (lossy : Bytes → Bytes) where
  unfoldable pub read_label : Bytes → Cursor → ℕ → Round
  read_label packet c len = elim (slice (c.offset + 1) len packet) [
    | none ↦ stop (err truncated_label)
    | some l ↦ continue (record c {
      offset = c.offset + 1 + len;
      read = c.read ++ to_ascii_lowercase (lossy l) ∷ [];
    })
  ]

  unfoldable pub round : Bytes → Cursor → Round
  round packet c = elim (get_elem? packet c.offset) [
    | none ↦ stop (err truncated_name)
    | some len ↦
        if is_pointer len
        then follow packet c len
        else if len == 0
        then stop (ok (dotted c.read, or_else c.end (c.offset + 1)))
        else read_label packet c len
  ]

  unfoldable pub read_rounds : ℕ → Bytes → Cursor → Result WireError (Bytes × ℕ)
  read_rounds zero packet c = err no_fuel
  read_rounds (suc fuel) packet c = elim (round packet c) [
    | stop r ↦ r
    | continue c' ↦ read_rounds fuel packet c'
  ]

  -- Each pointer and each label moves on in one of 33 runs through the packet.
  unfoldable pub read_name : Bytes → ℕ → Result WireError (Bytes × ℕ)
  read_name packet offset =
      read_rounds (33 * (length packet + 1) + 1) packet
        (record { offset = offset; read = []; end = none; jumps = 0 })

  unfoldable pub read_questions : ℕ → Bytes → ℕ → Result WireError ℕ
  read_questions zero packet offset = ok offset
  read_questions (suc n) packet offset =
      read_name packet offset >>= λ r. read_questions n packet (r.1 + 4)

  unfoldable pub read_answer : Bytes → ℕ → Result WireError (Answer × ℕ)
  read_answer packet offset = read_name packet offset >>= λ r. elim (slice r.1 10 packet) [
    | none ↦ err truncated_answer
    | some header ↦
        let size = u16_at header 8 in
        elim (slice (r.1 + 10) size packet) [
          | none ↦ err truncated_rdata
          | some rdata ↦
              ok (record { name = r.0; rtype = u16_at header 0; rdata = rdata }, r.1 + 10 + size)
        ]
  ]

  unfoldable pub read_answers : ℕ → Bytes → ℕ → Result WireError (List Answer)
  read_answers zero packet offset = ok []
  read_answers (suc n) packet offset = do
    r ← read_answer packet offset
    rest ← read_answers n packet r.1
    ok (r.0 ∷ rest)

  unfoldable pub parse : Bytes → Result WireError DnsMessage
  parse packet = if ltb (length packet) 12 then err short_message else (do
    offset ← read_questions (u16_at packet 4) packet 12
    answers ← read_answers (u16_at packet 6) packet offset
    ok (record {
      id = u16_at packet 0;
      response = leb 128 (byte_at packet 2);
      rcode = byte_at packet 3 % 16;
      answers = answers;
    }))

  -- The character-strings of a TXT record; every round takes one byte at least.
  unfoldable pub txt_rounds : ℕ → Bytes → Bytes
  txt_rounds fuel [] = []
  txt_rounds zero (len ∷ rest) = []
  txt_rounds (suc fuel) (len ∷ rest) = lossy (take len rest) ++ txt_rounds fuel (drop len rest)

  unfoldable pub txt_strings : Bytes → Bytes
  txt_strings rdata = txt_rounds (length rdata) rdata
