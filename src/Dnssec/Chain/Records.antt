-- ===== src/Dnssec/Chain/Records.antt =====
-- RecordsCanonical of zone/canonical.go, which `newZoneView` reads. The sort is an argument, as the
-- standard library's; a body is what `WireBody` writes, with the length in front.
pub mod Ordered
pub mod Alike
use dnsdata_go.Common.{
  ℕ, Bool, true, false, List, [], ◌∷◌, map, leb, if◌then◌else◌, length, drop, Bytes, Ordering,
  compare, Result, ok, err, ◌>>=◌,
}
use dnsdata_go.Text.{Unicode}
use dnsdata_go.Zone.Canonical.{compare_bytes, compare_canonical_names}
use dnsdata_go.Dnssec.Crypto.{DnssecError}
use dnsdata_go.Dnssec.Nsec.{is_eq}
use dnsdata_go.Dnssec.Zone.{ZoneRecord}

-- `canonicalRecord`
pub record CanonicalRecord : Type 0 where
  pub rr : ZoneRecord
  pub rdata : Bytes

abbrev pub record_of : CanonicalRecord → ZoneRecord
record_of r = r.rr

-- `if len(body) >= 2 { body = body[2:] }`
unfoldable pub without_length : Bytes → Bytes
without_length body = if leb 2 (length body) then drop 2 body else body

-- A record in front of those behind it.
abbrev pub with_rdata :
    ZoneRecord
    → Bytes
    → Result DnssecError (List CanonicalRecord)
    → Result DnssecError (List CanonicalRecord)
with_rdata rr body (err e) = err e
with_rdata rr body (ok recs) = ok (record { rr = rr; rdata = body } ∷ recs)

-- The loop of `RecordsCanonical` over the records.
unfoldable pub collect_records : List ZoneRecord → Result DnssecError (List CanonicalRecord)
unfolding without_length
collect_records [] = ok []
collect_records (rr ∷ rrs) =
    let rest = collect_records rrs in rr.body >>= λ body. with_rdata rr (without_length body) rest

-- The first result that is not zero.
abbrev pub then_compare : Ordering → Ordering → Ordering
then_compare Ordering.eq other = other
then_compare Ordering.lt other = Ordering.lt
then_compare Ordering.gt other = Ordering.gt

module _ ⦃u : Unicode⦄ where
  -- `compareCanonicalRecords`
  unfoldable pub compare_canonical_records : CanonicalRecord → CanonicalRecord → Ordering
  compare_canonical_records a b = then_compare (compare_canonical_names a.rr.label b.rr.label) (
      then_compare (compare a.rr.rr_type b.rr.rr_type)
        (then_compare (compare a.rr.class b.rr.class) (compare_bytes a.rdata b.rdata)))

  -- `slices.CompactFunc`, from the record in front of the rest.
  unfoldable pub compact_after : CanonicalRecord → List CanonicalRecord → List CanonicalRecord
  unfolding compare_canonical_records
  compact_after prev [] = []
  compact_after prev (r ∷ rs) =
      let rest = compact_after r rs in
      if is_eq (compare_canonical_records r prev) then rest else r ∷ rest

  unfoldable pub compact_records : List CanonicalRecord → List CanonicalRecord
  unfolding compact_after
  compact_records [] = []
  compact_records (r ∷ rs) = r ∷ compact_after r rs

  -- `RecordsCanonical`, of the records that `AllRecords` lists.
  unfoldable pub records_canonical :
      ((CanonicalRecord → CanonicalRecord → Ordering) → List CanonicalRecord → List CanonicalRecord)
      → List ZoneRecord
      → Result DnssecError (List ZoneRecord)
  unfolding collect_records compact_records
  records_canonical sort_stable records = collect_records records >>= λ recs.
      ok (map (λ r. r.rr) (compact_records (sort_stable compare_canonical_records recs)))
