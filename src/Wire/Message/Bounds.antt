-- ===== src/Wire/Message/Bounds.antt =====
-- What a successful `ParseMessage` says of the message.
use dnsdata_go.Common.{
  ℕ, zero, suc, ◌+◌, ◌*◌, ◌-◌, ◌≤◌, ◌<◌, ◌≡◌, refl, arith, List, [], ◌∷◌, length, take, drop, All,
  Bytes, ok, Result-cases, length-take_le, length-drop, inl, inr,
}
use dnsdata_go.Wire.Builder.{uint16_at, uint32_at}
use dnsdata_go.Wire.Decompress.{parse_domain_name}
use dnsdata_go.Wire.Decompress.Relation.{name_end_bounds}
use dnsdata_go.Wire.Decompress.Sound.{parse_domain_name_sound}
use dnsdata_go.Wire.Message.{
  RawRr, RawMessage, Header, Question, parse_rr_fields, parse_rr, parse_rr_section, header_of,
  question_at, parse_sections, parse_message,
}

pub parse_domain_name_bounds :
    (msg : Bytes) (pos : ℕ) {name : Bytes} {next : ℕ}
    → parse_domain_name msg pos ≡ ok (name, next)
    → (pos < next) × (next ≤ length msg)
parse_domain_name_bounds msg pos e =
    let (ls, h, s, at, n, x, k) = parse_domain_name_sound msg pos e in
    let b = name_end_bounds at in (omega arith, omega arith)

-- The record's data is the slice of the message that it says, of the length that the record's
-- length field gives.
pub record IsPlaced (msg : Bytes) (rr : RawRr) : Type 0 where
  pub slice : rr.rdata ≡ take (length rr.rdata) (drop rr.rdata_start msg)
  pub inside : rr.rdata_start + length rr.rdata ≤ length msg
  pub counted : length rr.rdata ≡ uint16_at msg (rr.rdata_start - 2)

abbrev fields_at : Bytes → Bytes → ℕ → RawRr
fields_at msg name pos = record {
  name = name;
  rrtype = uint16_at msg pos;
  class = uint16_at msg (pos + 2);
  ttl = uint32_at msg (pos + 4);
  rdata = take (uint16_at msg (pos + 8)) (drop (pos + 10) msg);
  rdata_start = pos + 10;
}

parse_rr_fields-ok :
    (msg name : Bytes) (pos : ℕ) {rr : RawRr} {next : ℕ}
    → parse_rr_fields msg name pos ≡ ok (rr, next)
    → (rr ≡ fields_at msg name pos)
      × (next ≡ pos + 10 + uint16_at msg (pos + 8))
      × (pos + 10 + uint16_at msg (pos + 8) ≤ length msg)
unfolding parse_rr_fields
parse_rr_fields-ok msg name pos e = ground arith

fields_at-IsPlaced :
    (msg name : Bytes) (pos : ℕ)
    → pos + 10 + uint16_at msg (pos + 8) ≤ length msg
    → IsPlaced msg (fields_at msg name pos)
fields_at-IsPlaced msg name pos h =
    let rdlen = uint16_at msg (pos + 8) in
    let exact : length (take rdlen (drop (pos + 10) msg)) ≡ rdlen =
      length-take_le rdlen (drop (pos + 10) msg) (omega (arith, length-drop (pos + 10) msg)) in
    let back : pos + 10 - 2 ≡ pos + 8 = omega arith in
    record { slice = rw exact refl; inside = omega arith; counted = rw back exact }

parse_rr-ok :
    (msg : Bytes) (pos : ℕ) {rr : RawRr} {next : ℕ}
    → parse_rr msg pos ≡ ok (rr, next)
    → (name : Bytes) × (at : ℕ) × (parse_domain_name msg pos ≡ ok (name, at))
      × (parse_rr_fields msg name at ≡ ok (rr, next))
unfolding parse_rr
parse_rr-ok msg pos e = elim (Result-cases (parse_domain_name msg pos)) [
  | inl ((name, at), q) ↦ (name, at, q, ground arith)
  | inr (x, q) ↦ ground arith
]

-- A record takes 11 octets at least: one of the name, and the ten of the fixed fields.
parse_rr_bounds :
    (msg : Bytes) (pos : ℕ) {rr : RawRr} {next : ℕ}
    → parse_rr msg pos ≡ ok (rr, next)
    → IsPlaced msg rr × (pos + 11 ≤ next) × (next ≤ length msg)
parse_rr_bounds msg pos e =
    let (name, at, named, fields) = parse_rr-ok msg pos e in
    let b = parse_domain_name_bounds msg pos named in
    let (same, stop, fits) = parse_rr_fields-ok msg name at fields in
    (rw same (fields_at-IsPlaced msg name at fits), omega arith, omega arith)

parse_rr_section-ok :
    (msg : Bytes) (count pos : ℕ) {rrs : List RawRr} {end : ℕ}
    → parse_rr_section msg (suc count) pos ≡ ok (rrs, end)
    → (rr : RawRr) × (next : ℕ) × (rest : List RawRr) × (parse_rr msg pos ≡ ok (rr, next))
      × (parse_rr_section msg count next ≡ ok (rest, end))
      × (rrs ≡ rr ∷ rest)
unfolding parse_rr_section
parse_rr_section-ok msg count pos e = elim (Result-cases (parse_rr msg pos)) [
  | inl ((rr, next), q) ↦ elim (Result-cases (parse_rr_section msg count next)) [
    | inl ((rest, stop), r) ↦ (rr, next, rest, q, ground arith, ground arith)
    | inr (x, r) ↦ ground arith
  ]
  | inr (x, q) ↦ ground arith
]

pub parse_rr_section_bounds :
    (msg : Bytes) (count pos : ℕ) {rrs : List RawRr} {end : ℕ}
    → pos ≤ length msg
    → parse_rr_section msg count pos ≡ ok (rrs, end)
    → (length rrs ≡ count) × All (IsPlaced msg) rrs × (pos + 11 * count ≤ end) × (end ≤ length msg)
unfolding parse_rr_section
parse_rr_section_bounds msg zero pos {rrs} h e =
    let none_left : rrs ≡ [] = ground arith in
    (rw none_left, rw none_left tt, ground arith, ground arith)
parse_rr_section_bounds msg (suc count) pos h e =
    let (rr, next, rest, first, later, both) = parse_rr_section-ok msg count pos e in
    let (placed, on, fits) = parse_rr_bounds msg pos first in
    let (n, all, far, stop) = parse_rr_section_bounds msg count next fits later in
    (rw both (omega arith), rw both (placed, all), omega arith, stop)

-- The three sections, one behind the other.
parse_sections-ok :
    (msg : Bytes) (hdr : Header) (q : Question) (pos : ℕ) {m : RawMessage}
    → parse_sections msg hdr q pos ≡ ok m
    → (p₁ : ℕ) × (p₂ : ℕ) × (p₃ : ℕ) × (parse_rr_section msg hdr.an_count pos ≡ ok (m.answer, p₁))
      × (parse_rr_section msg hdr.ns_count p₁ ≡ ok (m.authority, p₂))
      × (parse_rr_section msg hdr.ar_count p₂ ≡ ok (m.additional, p₃))
      × (m.header ≡ hdr)
      × (m.question ≡ q)
unfolding parse_sections
parse_sections-ok msg hdr q pos e = elim (Result-cases (parse_rr_section msg hdr.an_count pos)) [
  | inl ((a, p₁), ea) ↦ elim (Result-cases (parse_rr_section msg hdr.ns_count p₁)) [
    | inl ((n, p₂), en) ↦ elim (Result-cases (parse_rr_section msg hdr.ar_count p₂)) [
      | inl ((d, p₃), ed) ↦
          (p₁, p₂, p₃, ground arith, ground arith, ground arith, ground arith, ground arith)
      | inr (x, ed) ↦ ground arith
    ]
    | inr (x, en) ↦ ground arith
  ]
  | inr (x, ea) ↦ ground arith
]

parse_message-ok :
    (msg : Bytes) {m : RawMessage}
    → parse_message msg ≡ ok m
    → (name : Bytes) × (next : ℕ) × (parse_domain_name msg 12 ≡ ok (name, next))
      × (next + 4 ≤ length msg)
      × ((header_of msg).qd_count ≡ 1)
      × (parse_sections msg (header_of msg) (question_at msg name next) (next + 4) ≡ ok m)
unfolding parse_message
parse_message-ok msg e = elim (Result-cases (parse_domain_name msg 12)) [
  | inl ((name, next), q) ↦ (name, next, q, ground arith, ground arith, ground arith)
  | inr (x, q) ↦ ground arith
]

-- The records of a section: as many as the header says, each placed in the message.
abbrev pub IsSection : Bytes → ℕ → List RawRr → Type 0
IsSection msg count rrs = (length rrs ≡ count) × All (IsPlaced msg) rrs

-- When `ParseMessage` succeeds the header counts one question, each section has the number of
-- records that the header says, every record's data is the slice of the message that its length
-- field gives and lies inside it, and the message has 17 octets and 11 more for each record.
pub parse_message_bounds :
    (msg : Bytes) {m : RawMessage}
    → parse_message msg ≡ ok m
    → (m.header.qd_count ≡ 1)
      × IsSection msg m.header.an_count m.answer
      × IsSection msg m.header.ns_count m.authority
      × IsSection msg m.header.ar_count m.additional
      × (17 + 11 * (length m.answer + length m.authority + length m.additional) ≤ length msg)
parse_message_bounds msg {m} e =
    let (name, next, named, room, one, sections) = parse_message-ok msg e in
    let b = parse_domain_name_bounds msg 12 named in
    let (p₁, p₂, p₃, an, ns, ar, hdr, qu) =
      parse_sections-ok msg (header_of msg) _ (next + 4) sections in
    let (la, pa, fa, ea) =
      parse_rr_section_bounds msg (header_of msg).an_count (next + 4) room an in
    let (ln, pn, fn, en) = parse_rr_section_bounds msg (header_of msg).ns_count p₁ ea ns in
    let (ld, pd, fd, ed) = parse_rr_section_bounds msg (header_of msg).ar_count p₂ en ar in
    rw hdr (one, (la, pa), (ln, pn), (ld, pd), omega arith)
