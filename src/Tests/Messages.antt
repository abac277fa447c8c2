-- ===== src/Tests/Messages.antt =====
-- wire/message.go and wire/query.go at a concrete query.
use dnsdata_go.Common.{
  ◌+◌, ◌*◌, ◌≤◌, ◌≡◌, refl, arith, true, List, [], ◌∷◌, map, Bytes, length, ok, err,
}
use dnsdata_go.Wire.Name.{ascii_to_lower}
use dnsdata_go.Wire.Name.Labels.{assemble_name}
use dnsdata_go.Wire.Decompress.{cursor_step, contains, walk, parse_domain_name}
use dnsdata_go.Wire.Message.{
  malformed, RawMessage, parse_message, parse_sections, parse_rr_section, parse_rr, parse_rr_fields,
}
use dnsdata_go.Wire.Message.Bounds.{IsSection, parse_message_bounds}
use dnsdata_go.Wire.Query.{build_query_with_options, ensure_fqdn}
use dnsdata_go.Wire.Query.RoundTrip.{expected, parse-build_query}

-- "Ab", queried for type A.
abbrev name_labels : List Bytes
name_labels = (b'A' ∷ b'b' ∷ []) ∷ []

ensure_final_dot : ensure_fqdn (b'A' ∷ b'b' ∷ []) ≡ assemble_name name_labels
unfolding ensure_fqdn assemble_name
ensure_final_dot = refl

parse-build_query_example :
    (msg : Bytes) × (build_query_with_options 7 (b'A' ∷ b'b' ∷ []) 1 true ≡ ok msg)
    × (parse_message msg ≡ ok (expected msg 7 1 true (map (map ascii_to_lower) name_labels)))
parse-build_query_example =
    parse-build_query 7 1 true (b'A' ∷ b'b' ∷ []) name_labels (omega arith) (omega arith)
      ensure_final_dot (omega arith) (omega arith)

-- A response with one answer, whose owner is a pointer to the question's name.
abbrev response : Bytes
response =
    0 ∷ 7 ∷ 0x80 ∷ 0 ∷ 0 ∷ 1 ∷ 0 ∷ 1 ∷ 0 ∷ 0 ∷ 0 ∷ 0 ∷ 1 ∷ b'a' ∷ 0 ∷ 0 ∷ 1 ∷ 0 ∷ 1 ∷ 0xC0 ∷ 12 ∷ 0
    ∷ 1 ∷ 0 ∷ 1 ∷ 0 ∷ 0 ∷ 0 ∷ 60 ∷ 0 ∷ 4 ∷ 192 ∷ 0 ∷ 2 ∷ 1 ∷ []

abbrev parsed : RawMessage
parsed = record {
  raw = response;
  header = record {
    id = 7;
    flags = 0x8000;
    qd_count = 1;
    an_count = 1;
    ns_count = 0;
    ar_count = 0;
  };
  question = record { name = b'a' ∷ b'.' ∷ []; qtype = 1; class = 1 };
  answer =
      record {
        name = b'a' ∷ b'.' ∷ [];
        rrtype = 1;
        class = 1;
        ttl = 60;
        rdata = 192 ∷ 0 ∷ 2 ∷ 1 ∷ [];
        rdata_start = 31;
      }
      ∷ [];
  authority = [];
  additional = [];
}

parse_response : parse_message response ≡ ok parsed
unfolding parse_message parse_sections parse_rr_section parse_rr parse_rr_fields parse_domain_name
    walk cursor_step contains assemble_name
parse_response = refl

parse_short : parse_message (0 ∷ 7 ∷ []) ≡ err malformed
unfolding parse_message
parse_short = refl

parse_message_bounds_example :
    (parsed.header.qd_count ≡ 1)
    × IsSection response parsed.header.an_count parsed.answer
    × IsSection response parsed.header.ns_count parsed.authority
    × IsSection response parsed.header.ar_count parsed.additional
    × (17 + 11 * (length parsed.answer + length parsed.authority + length parsed.additional)
        ≤ length response)
parse_message_bounds_example = parse_message_bounds response parse_response
