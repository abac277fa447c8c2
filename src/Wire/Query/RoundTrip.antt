-- ===== src/Wire/Query/RoundTrip.antt =====
-- `ParseMessage` reads the query that `BuildQueryWithOptions` writes.
use dnsdata_go.Common.{
  ℕ, ◌+◌, ◌≤◌, ◌≡◌, refl, List, [], ◌∷◌, map, length, All, Bytes, IsU16, ok, Bool, le→not_ltb,
}
use dnsdata_go.Wire.Name.{ascii_to_lower}
use dnsdata_go.Wire.Name.Labels.{
  IsLabel, assemble_name, labels_wire, labels_fit_lem, IsLabelText-of_IsLabel,
}
use dnsdata_go.Wire.Name.RoundTrip.{encode_branches, map-IsLabel, lower_no_dot}
use dnsdata_go.Wire.Message.{RawMessage, parse_message}
use dnsdata_go.Wire.Query.Layout.{query_flags, one_header, query_layout, opt_record_at, parse_query}
use dnsdata_go.Wire.Query.{query_message, build_query_with_options, ensure_fqdn}

-- What `ParseMessage` reads from a query for the name with these labels.
abbrev pub expected : Bytes → ℕ → ℕ → Bool → List Bytes → RawMessage
expected msg id qtype cd ls = record {
  raw = msg;
  header = one_header id (query_flags cd);
  question = record { name = assemble_name ls; qtype = qtype; class = 1 };
  answer = [];
  authority = [];
  additional = opt_record_at (27 + length (labels_wire ls)) ∷ [];
}

-- For a name that is, with its final dot, one of labels of 1 to 63 octets and at most 255 octets in
-- wire form, and a 16-bit id and type, the query is built, and `ParseMessage` reads from it the id,
-- RD (and CD as asked), the one question for the name in lower case in class IN, no answer and no
-- authority, and one OPT record with the DO bit and the payload size.
pub parse-build_query :
    (id qtype : ℕ) (cd : Bool) (qname : Bytes) (ls : List Bytes)
    → IsU16 id
    → IsU16 qtype
    → ensure_fqdn qname ≡ assemble_name ls
    → All IsLabel ls
    → length (labels_wire ls) ≤ 255
    → (msg : Bytes) × (build_query_with_options id qname qtype cd ≡ ok msg)
      × (parse_message msg ≡ ok (expected msg id qtype cd (map (map ascii_to_lower) ls)))
unfolding build_query_with_options
parse-build_query id qtype cd qname ls hi ht named h fits =
    let lower = map (map ascii_to_lower) ls in
    let lower_labels = map-IsLabel ascii_to_lower lower_no_dot ls h in
    let encoded = encode_branches ls (IsLabelText-of_IsLabel ls h) in
    let short = le→not_ltb 255 (length (labels_wire ls)) fits in
    (
      query_message id (labels_wire lower) qtype cd,
      rw (named, encoded, labels_fit_lem ls h, short) refl,
      rw (query_layout id qtype cd (labels_wire lower))
          (parse_query id qtype cd lower hi ht lower_labels),
    )
