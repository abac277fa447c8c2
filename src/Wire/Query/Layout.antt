-- ===== src/Wire/Query/Layout.antt =====
-- The octets of a query, and `ParseMessage` on them, part by part.
use dnsdata_go.Common.{
  ℕ, ◌+◌, ◌/◌, ◌%◌, ◌^◌, ◌≤◌, ◌≡◌, ap, sym, ◌∙◌, arith, List, [], ◌∷◌, ◌++◌, length, length-append,
  All, Bytes, IsU16, ok, Bool, true, false, if◌then◌else◌, le→not_ltb, append_assoc,
}
use dnsdata_go.Wire.Builder.{uint16_at, uint32_at, uint16_behind, uint32_behind}
use dnsdata_go.Wire.Name.Labels.{IsLabel, assemble_name, labels_wire}
use dnsdata_go.Wire.Decompress.{parse_domain_name}
use dnsdata_go.Wire.Decompress.Uncompressed.{parse-labels_wire}
use dnsdata_go.Wire.Message.{
  RawRr, Header, Question, parse_rr_fields, parse_rr, parse_rr_section, header_of, question_at,
  parse_sections, parse_message,
}
use dnsdata_go.Wire.Query.{query_message}

abbrev pub query_flags : Bool → ℕ
query_flags checking_disabled = if checking_disabled then 0x0110 else 0x0100

-- The twelve octets in front of the question's name, and all that is behind it.
abbrev pub front : ℕ → Bool → Bytes
front id cd =
    (id / 2 ^ 8 % 256)
    ∷ (id % 256)
    ∷ 1
    ∷ (if cd then 0x10 else 0)
    ∷ 0
    ∷ 1
    ∷ 0
    ∷ 0
    ∷ 0
    ∷ 0
    ∷ 0
    ∷ 1
    ∷ []

-- Type and class; then the OPT record behind its name.
abbrev pub fields : ℕ → Bytes
fields qtype = (qtype / 2 ^ 8 % 256) ∷ (qtype % 256) ∷ 0 ∷ 1 ∷ []

abbrev pub opt_fields : Bytes
opt_fields = 0 ∷ 41 ∷ 16 ∷ 0 ∷ 0 ∷ 0 ∷ 128 ∷ 0 ∷ 0 ∷ 0 ∷ []

pub query_layout :
    (id qtype : ℕ) (cd : Bool) (w : Bytes)
    → query_message id w qtype cd ≡ front id cd ++ (w ++ (fields qtype ++ 0 ∷ opt_fields))
unfolding query_message
query_layout id qtype true w = simp append_assoc
query_layout id qtype false w = simp append_assoc

-- A record's fields, read from the words that stand there.
parse_empty_fields :
    (msg name : Bytes) (pos : ℕ) {t c ttl stop : ℕ}
    → uint16_at msg (pos + 0) ≡ t
    → uint16_at msg (pos + 2) ≡ c
    → uint32_at msg (pos + 4) ≡ ttl
    → uint16_at msg (pos + 8) ≡ 0
    → pos + 10 ≡ stop
    → stop ≤ length msg
    → parse_rr_fields msg name pos
      ≡ ok (
        record { name = name; rrtype = t; class = c; ttl = ttl; rdata = []; rdata_start = stop },
        stop,
      )
unfolding parse_rr_fields
parse_empty_fields msg name pos a b c d here fits =
    let e : pos + 0 ≡ pos = omega arith in let a' = rw e at a in rw (a', b, c, d) (ground arith)

abbrev pub one_header : ℕ → ℕ → Header
one_header id flags = record {
  id = id;
  flags = flags;
  qd_count = 1;
  an_count = 0;
  ns_count = 0;
  ar_count = 1;
}

one_section :
    (msg : Bytes) (pos : ℕ) {id flags end : ℕ} {q : Question} {rr : RawRr}
    → parse_rr msg pos ≡ ok (rr, end)
    → parse_sections msg (one_header id flags) q pos
      ≡ ok (record {
        raw = msg;
        header = one_header id flags;
        question = q;
        answer = [];
        authority = [];
        additional = rr ∷ [];
      })
unfolding parse_sections parse_rr_section
one_section msg pos first = rw first

to_sections :
    (msg : Bytes) {next : ℕ} {name : Bytes}
    → 12 ≤ length msg
    → (header_of msg).qd_count ≡ 1
    → parse_domain_name msg 12 ≡ ok (name, next)
    → next + 4 ≤ length msg
    → parse_message msg ≡ parse_sections msg (header_of msg) (question_at msg name next) (next + 4)
unfolding parse_message
to_sections msg room one named fits = rw (le→not_ltb _ _ room, one, named, le→not_ltb _ _ fits)

-- A message with a question and one additional record.
parse_one_additional :
    (msg : Bytes) {id flags next end : ℕ} {name : Bytes} {q : Question} {rr : RawRr}
    → 12 ≤ length msg
    → header_of msg
      ≡ record { id = id; flags = flags; qd_count = 1; an_count = 0; ns_count = 0; ar_count = 1 }
    → parse_domain_name msg 12 ≡ ok (name, next)
    → next + 4 ≤ length msg
    → question_at msg name next ≡ q
    → parse_rr msg (next + 4) ≡ ok (rr, end)
    → parse_message msg
      ≡ ok (record {
        raw = msg;
        header = record {
          id = id;
          flags = flags;
          qd_count = 1;
          an_count = 0;
          ns_count = 0;
          ar_count = 1;
        };
        question = q;
        answer = [];
        authority = [];
        additional = rr ∷ [];
      })
parse_one_additional msg {next = next} {name = name} room hdr named fits quest first =
    to_sections msg room (ap (λ (x : Header). x.qd_count) hdr) named fits
    ∙ ap (λ (x : Header). parse_sections msg x (question_at msg name next) (next + 4)) hdr
    ∙ rw quest (one_section msg _ first)

-- The OPT record whose data starts at an offset.
abbrev pub opt_record_at : ℕ → RawRr
opt_record_at start = record {
  name = b'.' ∷ [];
  rrtype = 41;
  class = 4096;
  ttl = 0x8000;
  rdata = [];
  rdata_start = start;
}

module _ (id qtype : ℕ) (cd : Bool) (ls : List Bytes) (id_fits : IsU16 id)
    (qtype_fits : IsU16 qtype) (h : All IsLabel ls) where
  abbrev pub query : Bytes
  query = front id cd ++ (labels_wire ls ++ (fields qtype ++ 0 ∷ opt_fields))

  abbrev before_fields : Bytes
  before_fields = front id cd ++ labels_wire ls

  split_fields : query ≡ before_fields ++ (fields qtype ++ 0 ∷ opt_fields)
  split_fields = sym (append_assoc (front id cd) (labels_wire ls) _)

  split_opt : query ≡ (before_fields ++ fields qtype) ++ (0 ∷ opt_fields)
  split_opt = split_fields ∙ sym (append_assoc before_fields (fields qtype) (0 ∷ opt_fields))

  -- The offset behind the question's name.
  abbrev behind : ℕ
  behind = 12 + length (labels_wire ls)

  length-before_fields : length before_fields ≡ behind
  length-before_fields = omega (arith, length-append (front id cd) (labels_wire ls))

  length-before_opt : length (before_fields ++ fields qtype) ≡ behind + 4
  length-before_opt =
      omega (arith, length-append before_fields (fields qtype), length-before_fields)

  read_qname : parse_domain_name query 12 ≡ ok (assemble_name ls, behind)
  read_qname = parse-labels_wire ls (front id cd) _ h

  read_qtype : uint16_at query behind ≡ qtype
  read_qtype = rw split_fields (
      omega (
        arith,
        uint16_behind before_fields (fields qtype ++ 0 ∷ opt_fields) {pos = behind} 0
            (omega (arith, length-before_fields)),
      ))

  read_qclass : uint16_at query (behind + 2) ≡ 1
  read_qclass = rw split_fields (
      uint16_behind before_fields (fields qtype ++ 0 ∷ opt_fields) 2
        (omega (arith, length-before_fields)))

  read_opt_name : parse_domain_name query (behind + 4) ≡ ok (b'.' ∷ [], behind + 5)
  unfolding assemble_name
  read_opt_name =
      let at_root = parse-labels_wire [] (before_fields ++ fields qtype) opt_fields tt in
      let e : behind + 4 + 1 ≡ behind + 5 = omega arith in
      rw split_opt (rw e at (rw length-before_opt at at_root))

  -- The fields of the OPT record, `k` octets behind its name.
  module _ (k : ℕ) where
    opt_at : behind + 5 + k ≡ length (before_fields ++ fields qtype) + (k + 1)
    opt_at = omega (arith, length-before_opt)

    opt_uint16 : uint16_at query (behind + 5 + k) ≡ uint16_at (0 ∷ opt_fields) (k + 1)
    opt_uint16 =
        rw split_opt (uint16_behind (before_fields ++ fields qtype) (0 ∷ opt_fields) (k + 1) opt_at)

    opt_uint32 : uint32_at query (behind + 5 + k) ≡ uint32_at (0 ∷ opt_fields) (k + 1)
    opt_uint32 =
        rw split_opt (uint32_behind (before_fields ++ fields qtype) (0 ∷ opt_fields) (k + 1) opt_at)

  length-query : length query ≡ 27 + length (labels_wire ls)
  length-query = omega (arith, length-append (labels_wire ls) (fields qtype ++ 0 ∷ opt_fields))

  abbrev opt_record : RawRr
  opt_record = opt_record_at (27 + length (labels_wire ls))

  read_opt : parse_rr query (behind + 4) ≡ ok (opt_record, 27 + length (labels_wire ls))
  unfolding parse_rr
  read_opt = rw read_opt_name (
      parse_empty_fields query (b'.' ∷ []) (behind + 5) (opt_uint16 0) (opt_uint16 2) (opt_uint32 4)
        (opt_uint16 8) (omega arith) (omega (arith, length-query)))

  abbrev query_header : Header
  query_header = record {
    id = id;
    flags = query_flags cd;
    qd_count = 1;
    an_count = 0;
    ns_count = 0;
    ar_count = 1;
  }

  read_header : header_of query ≡ query_header
  read_header = ground arith

  read_question :
      question_at query (assemble_name ls) behind
      ≡ record { name = assemble_name ls; qtype = qtype; class = 1 }
  read_question = ground (arith, read_qtype, read_qclass)

  pub parse_query :
      parse_message query
      ≡ ok (record {
        raw = query;
        header = query_header;
        question = record { name = assemble_name ls; qtype = qtype; class = 1 };
        answer = [];
        authority = [];
        additional = opt_record ∷ [];
      })
  parse_query =
      parse_one_additional query (omega (arith, length-query)) read_header read_qname
        (omega (arith, length-query)) read_question read_opt
