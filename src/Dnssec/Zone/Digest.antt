-- ===== src/Dnssec/Zone/Digest.antt =====
-- dnssec/zone.go and dnssec/rrsig.go: the octets that a signature over a record set covers.
pub mod Order
pub mod Unordered
use dnsdata_go.Common.{
  ℕ, Bool, true, false, List, [], ◌∷◌, ◌++◌, Option, none, some, ltb, ◌%◌, ◌^◌, if◌then◌else◌,
  length, drop, Bytes, equal, Result, ok, err, ◌>>=◌, Ordering,
}
use dnsdata_go.Text.{Unicode}
use dnsdata_go.Wire.Builder.{append_uint8, append_uint16, append_uint32, append_bytes}
use dnsdata_go.Wire.Name.{NameError, domain_name_to_wire}
use dnsdata_go.Zone.Canonical.{compare_bytes, label_count, last_n_labels}
use dnsdata_go.Dnssec.Crypto.{DnssecError, dnssec_error, name_error, Schemes}
use dnsdata_go.Dnssec.Zone.{RrSig, ZoneRecord, Zone, find_rr_set}

-- `wireHeaderForOwner`
unfoldable pub wire_header_for_owner : Bytes → ℕ → ℕ → Result NameError Bytes
wire_header_for_owner owner rr_type class = elim (domain_name_to_wire owner) [
  | err e ↦ err e
  | ok name_wire ↦ ok (append_uint16 (append_uint16 name_wire rr_type) class)
]

-- `RDataDigestTarget`; `uint32` keeps the low 32 bits of a time.
unfoldable pub rdata_digest_target : RrSig → Result DnssecError Bytes
rdata_digest_target s = elim (domain_name_to_wire s.signer) [
  | err e ↦ err (name_error e)
  | ok signer_wire ↦
      let b = append_uint8 (append_uint8 (append_uint16 [] s.type_covered) s.algorithm) s.labels in
      let b = append_uint32 (append_uint32 (append_uint32 b s.original_ttl) s.expire) s.inception in
      ok (append_bytes (append_uint16 b s.key_tag) signer_wire)
]

-- One turn of the loop of `CreateDigestTarget` that encodes the records.
unfoldable pub encode_record : ZoneRecord → Result DnssecError Bytes
encode_record r = elim r.body [
  | err e ↦ err dnssec_error
  | ok b ↦ if ltb (length b) 2 then err dnssec_error else ok b
]

-- That loop.
unfoldable pub collect_bodies : List ZoneRecord → Result DnssecError (List Bytes)
unfolding encode_record
collect_bodies [] = ok []
collect_bodies (r ∷ rs) =
    let rest = collect_bodies rs in encode_record r >>= λ b. rest >>= λ bs. ok (b ∷ bs)

-- The comparison that `slices.SortFunc` is called with.
abbrev pub compare_rdata : Bytes → Bytes → Ordering
compare_rdata a b = compare_bytes (drop 2 a) (drop 2 b)

-- `slices.CompactFunc(bodies, bytes.Equal)`: of equal neighbours one is kept.
unfoldable pub compact_bodies : List Bytes → List Bytes
compact_bodies [] = []
compact_bodies (x ∷ []) = x ∷ []
compact_bodies (x ∷ y ∷ rest) =
    let kept = compact_bodies (y ∷ rest) in if equal x y then kept else x ∷ kept

-- The bodies in the order of their data, without duplicates.
unfoldable pub canonical_bodies : Schemes → List ZoneRecord → Result DnssecError (List Bytes)
unfolding collect_bodies compact_bodies
canonical_bodies h rrset =
    collect_bodies rrset >>= λ bodies. ok (compact_bodies (h.sort_func compare_rdata bodies))

-- The loop of `CreateDigestTarget` that writes the records.
unfoldable pub append_records : Bytes → ℕ → List Bytes → Bytes → Bytes
append_records header ttl [] out = out
append_records header ttl (b ∷ bs) out =
    append_records header ttl bs (append_bytes (append_uint32 (append_bytes out header) ttl) b)

-- The end of `CreateDigestTarget`, from the header, the bodies and the fields of the signature.
unfoldable pub assemble :
    ℕ
    → Result NameError Bytes
    → Result DnssecError (List Bytes)
    → Result DnssecError Bytes
    → Result DnssecError (Option Bytes)
unfolding append_records
assemble ttl (err e) bodies target = err dnssec_error
assemble ttl (ok header) (err e) target = err e
assemble ttl (ok header) (ok bodies) (err e) = err e
assemble ttl (ok header) (ok bodies) (ok target) =
    ok (some (append_records header ttl bodies target))

module _ ⦃u : Unicode⦄ where
  -- The owner that `CreateDigestTarget` signs with: of a wildcard where the signature has fewer labels.
  unfoldable pub digest_owner : RrSig → Bytes → Bytes → Bytes
  digest_owner s label name =
      if ltb s.labels (label_count name) then b'*' ∷ b'.' ∷ last_n_labels name s.labels else label

  -- `CreateDigestTarget` on the record set that it finds; none without a record.
  unfoldable pub digest_target_of :
      Schemes → RrSig → Bytes → List ZoneRecord → Result DnssecError (Option Bytes)
  unfolding wire_header_for_owner rdata_digest_target digest_owner canonical_bodies assemble
  digest_target_of h s name [] = ok none
  digest_target_of h s name (first ∷ rest) =
      let owner = digest_owner s first.label name in
      assemble s.original_ttl (wire_header_for_owner owner first.rr_type first.class)
        (canonical_bodies h (first ∷ rest)) (rdata_digest_target s)

  -- `CreateDigestTarget`
  unfoldable pub create_digest_target :
      Schemes → Zone → RrSig → Bytes → ℕ → Result DnssecError (Option Bytes)
  unfolding find_rr_set digest_target_of
  create_digest_target h z s name type_covered =
      digest_target_of h s name (find_rr_set z.records name type_covered)
