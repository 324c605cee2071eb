-- ===== src/Tests/Dns.antt =====
-- The theorems on DNS messages, at one name and one packet.

use minimalrouter.Applyd.DnsWire.{
  DnsMessage, build_query, dotted, encode_labels, encode_name, labels, no_fuel, non_empty, parse,
  read_name, to_ascii_lowercase, trim_end_matches, txt_strings, u16_at,
}
use minimalrouter.Applyd.DnsWire.Names.{read_name_ends}
use minimalrouter.Applyd.DnsWire.Queries.{parse-build_query, read_name-encode_name}
use minimalrouter.Applyd.DnsWire.Replies.{concat, parse_bounds, txt_record, txt_strings-txt_record}
use minimalrouter.Prelude.{
  Bytes, [], arith, codes, err, false, length, ok, refl, split, true, ◌*◌, ◌++◌, ◌+◌, ◌∷◌, ◌≡◌, ◌≢◌,
  ◌≤◌,
}

abbrev same_text : Bytes → Bytes
same_text b = b

-- A pointer to itself.
abbrev circle : Bytes
circle = 192 ∷ 0 ∷ []

abbrev router_name : Bytes
router_name = codes "Filter.lan."

abbrev encoded_name : Bytes
encoded_name = 6 ∷ (codes "Filter" ++ 3 ∷ (codes "lan" ++ 0 ∷ []))

read_name_ends_example : read_name same_text circle 0 ≢ err no_fuel
read_name_ends_example = read_name_ends same_text circle 0

read_name-encode_name_example :
    read_name same_text (7 ∷ (encoded_name ++ 5 ∷ [])) 1 ≡ ok (codes "filter.lan.", 13)
unfolding labels trim_end_matches split non_empty encode_name encode_labels to_ascii_lowercase
    dotted
read_name-encode_name_example =
    read_name-encode_name same_text router_name encoded_name (7 ∷ []) (5 ∷ []) (refl, (refl, tt))
      refl

abbrev probe : Bytes
probe = 18 ∷ 52 ∷ 1 ∷ 0 ∷ 0 ∷ 1 ∷ 0 ∷ 0 ∷ 0 ∷ 0 ∷ 0 ∷ 0 ∷ (encoded_name ++ 0 ∷ 16 ∷ 0 ∷ 1 ∷ [])

abbrev no_answers : DnsMessage
no_answers = record { id = 4660; response = false; rcode = 0; answers = [] }

parsed_probe : parse same_text probe ≡ ok no_answers
unfolding labels trim_end_matches split non_empty encode_name encode_labels build_query
parsed_probe =
    parse-build_query same_text 4660 router_name 16 true probe (omega arith) (refl, (refl, tt)) refl

parse-build_query_example :
    parse same_text probe ≡ ok (record { id = 4660; response = false; rcode = 0; answers = [] })
unfolding labels trim_end_matches split non_empty encode_name encode_labels build_query
parse-build_query_example =
    parse-build_query same_text 4660 router_name 16 true probe (omega arith) (refl, (refl, tt)) refl

txt_strings-txt_record_example :
    txt_strings same_text (txt_record (codes "42" ∷ codes "ok" ∷ [])) ≡ codes "42ok"
unfolding concat
txt_strings-txt_record_example = txt_strings-txt_record same_text (codes "42" ∷ codes "ok" ∷ [])

parse_bounds_example :
    (length no_answers.answers ≡ u16_at probe 6)
    × (12 + 11 * length no_answers.answers ≤ length probe)
unfolding labels trim_end_matches split non_empty encode_name encode_labels build_query
parse_bounds_example = parse_bounds same_text probe no_answers parsed_probe
