-- ===== src/Wire/Query.antt =====
-- wire/query.go: the query that the clients send. The transaction id is an argument
-- (`BuildQueryWithOptions`); `randomID` draws it.
pub mod Layout
pub mod RoundTrip
use dnsdata_go.Common.{
  ℕ, ◌+◌, ◌≡◌, Bool, true, false, List, [], ◌∷◌, ◌++◌, ◌==◌, if◌then◌else◌, length, octet, Bytes,
  Result, ok, err, ◌>>=◌, wrapped, bit_or,
}
use dnsdata_go.Wire.Builder.{append_uint16, append_uint32, append_bytes, append_uint8}
use dnsdata_go.Wire.Name.{domain_name_to_wire}

pub data QueryError : Type 0 where
  invalid_qname : QueryError

abbrev pub flag_rd : ℕ
flag_rd = 0x0100

abbrev pub flag_cd : ℕ
flag_cd = 0x0010

abbrev pub opt_type : ℕ
opt_type = 41

abbrev pub udp_payload_size : ℕ
udp_payload_size = 4096

abbrev pub do_bit : ℕ
do_bit = 0x8000

abbrev pub class_in : ℕ
class_in = 1

-- `name[len(name)-1] == '.'`
abbrev ends_in_dot : Bytes → Bool
ends_in_dot [] = false
ends_in_dot (c ∷ []) = c == b'.'
ends_in_dot (c ∷ d ∷ rest) = ends_in_dot (d ∷ rest)

-- `ensureFQDN`
unfoldable pub ensure_fqdn : Bytes → Bytes
ensure_fqdn [] = b'.' ∷ []
ensure_fqdn (c ∷ cs) = if ends_in_dot (c ∷ cs) then c ∷ cs else (c ∷ cs) ++ b'.' ∷ []

-- The message built around the question's name in wire form.
unfoldable pub query_message : ℕ → Bytes → ℕ → Bool → Bytes
query_message id name_wire qtype checking_disabled =
    let flags = if checking_disabled then bit_or flag_rd flag_cd else flag_rd in
    let header =
      append_uint16
        (append_uint16
          (append_uint16 (append_uint16 (append_uint16 (append_uint16 [] id) flags) 1) 0) 0)
        1 in
    let question = append_uint16 (append_uint16 (append_bytes header name_wire) qtype) class_in in
    let opt = append_uint16 (append_uint16 (append_uint8 question 0) opt_type) udp_payload_size in
    append_uint16 (append_uint32 opt do_bit) 0

-- `BuildQueryWithOptions`
unfoldable pub build_query_with_options : ℕ → Bytes → ℕ → Bool → Result QueryError Bytes
build_query_with_options id qname qtype checking_disabled = do
  name_wire ← wrapped invalid_qname (domain_name_to_wire (ensure_fqdn qname))
  ok (query_message id name_wire qtype checking_disabled)
