-- ===== src/Wire/Message.antt =====
-- wire/message.go: DNS messages, the header and the four sections.
pub mod Bounds
use dnsdata_go.Common.{
  ℕ, zero, suc, ◌+◌, ◌≡◌, Bool, true, false, not, List, [], ◌∷◌, ◌++◌, ltb, leb, ◌==◌,
  if◌then◌else◌, length, take, drop, Bytes, octet, Result, ok, err, ◌>>=◌, wrapped, bit_and,
}
use dnsdata_go.Wire.Builder.{uint16_at, uint32_at}
use dnsdata_go.Wire.Decompress.{parse_domain_name}
use dnsdata_go.Wire.Name.{NameError}

-- `ErrMessageMalformed`, or the error of a name that is passed on with `%w`.
pub data MessageError : Type 0 where
  malformed : MessageError
  bad_name : NameError → MessageError

pub record Header : Type 0 where
  pub id : ℕ
  pub flags : ℕ
  pub qd_count : ℕ
  pub an_count : ℕ
  pub ns_count : ℕ
  pub ar_count : ℕ

-- The methods of `Header`.
abbrev flag : ℕ → Header → Bool
flag mask h = not (bit_and h.flags mask == 0)

abbrev pub qr : Header → Bool
qr = flag 0x8000

abbrev pub aa : Header → Bool
aa = flag 0x0400

abbrev pub tc : Header → Bool
tc = flag 0x0200

abbrev pub rd : Header → Bool
rd = flag 0x0100

abbrev pub ra : Header → Bool
ra = flag 0x0080

abbrev pub ad : Header → Bool
ad = flag 0x0020

abbrev pub cd : Header → Bool
cd = flag 0x0010

abbrev pub r_code : Header → ℕ
r_code h = bit_and h.flags 0x000F

pub record Question : Type 0 where
  pub name : Bytes
  pub qtype : ℕ
  pub class : ℕ

pub record RawRr : Type 0 where
  pub name : Bytes
  pub rrtype : ℕ
  pub class : ℕ
  pub ttl : ℕ
  pub rdata : Bytes
  pub rdata_start : ℕ

pub record RawMessage : Type 0 where
  pub raw : Bytes
  pub header : Header
  pub question : Question
  pub answer : List RawRr
  pub authority : List RawRr
  pub additional : List RawRr

-- `parseRR` behind the owner name, at `pos`.
unfoldable pub parse_rr_fields : Bytes → Bytes → ℕ → Result MessageError (RawRr × ℕ)
parse_rr_fields msg name pos =
    let rdlen = uint16_at msg (pos + 8) in
    let start = pos + 10 in
    if ltb (length msg) (pos + 10)
    then err malformed
    else if ltb (length msg) (start + rdlen)
    then err malformed
    else ok (
      record {
        name = name;
        rrtype = uint16_at msg pos;
        class = uint16_at msg (pos + 2);
        ttl = uint32_at msg (pos + 4);
        rdata = take rdlen (drop start msg);
        rdata_start = start;
      },
      start + rdlen,
    )

-- `fmt.Errorf("owner name: %w", err)`
abbrev name_error {ℓ} : {A : Type ℓ} → Result NameError A → Result MessageError A
name_error (ok a) = ok a
name_error (err e) = err (bad_name e)

-- `parseRR`
unfoldable pub parse_rr : Bytes → ℕ → Result MessageError (RawRr × ℕ)
parse_rr msg pos = do
  (name, next) ← name_error (parse_domain_name msg pos)
  parse_rr_fields msg name next

-- `parseRRSection`: the number is the records left to read.
unfoldable pub parse_rr_section : Bytes → ℕ → ℕ → Result MessageError (List RawRr × ℕ)
parse_rr_section msg zero pos = ok ([], pos)
parse_rr_section msg (suc count) pos = do
  (rr, next) ← parse_rr msg pos
  (rrs, end) ← parse_rr_section msg count next
  ok (rr ∷ rrs, end)

abbrev pub header_of : Bytes → Header
header_of msg = record {
  id = uint16_at msg 0;
  flags = uint16_at msg 2;
  qd_count = uint16_at msg 4;
  an_count = uint16_at msg 6;
  ns_count = uint16_at msg 8;
  ar_count = uint16_at msg 10;
}

abbrev pub question_at : Bytes → Bytes → ℕ → Question
question_at msg name pos = record {
  name = name;
  qtype = uint16_at msg pos;
  class = uint16_at msg (pos + 2);
}

-- `ParseMessage` behind the question.
unfoldable pub parse_sections : Bytes → Header → Question → ℕ → Result MessageError RawMessage
parse_sections msg hdr q pos = do
  (answer, pos₁) ← wrapped malformed (parse_rr_section msg hdr.an_count pos)
  (authority, pos₂) ← wrapped malformed (parse_rr_section msg hdr.ns_count pos₁)
  (additional, pos₃) ← wrapped malformed (parse_rr_section msg hdr.ar_count pos₂)
  ok (record {
    raw = msg;
    header = hdr;
    question = q;
    answer = answer;
    authority = authority;
    additional = additional;
  })

-- `ParseMessage` from the question's name on.
unfoldable pub parse_body : Bytes → Result MessageError RawMessage
parse_body msg = do
  (qname, next) ← wrapped malformed (parse_domain_name msg 12)
  if ltb (length msg) (next + 4)
      then err malformed
      else parse_sections msg (header_of msg) (question_at msg qname next) (next + 4)

unfoldable pub parse_message : Bytes → Result MessageError RawMessage
unfolding parse_body
parse_message msg =
    if ltb (length msg) 12
    then err malformed
    else if not ((header_of msg).qd_count == 1)
    then err malformed
    else parse_body msg
