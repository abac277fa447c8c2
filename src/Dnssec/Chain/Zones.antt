-- ===== src/Dnssec/Chain/Zones.antt =====
-- `BuildNSEC` on the records that RecordsCanonical lists.
use dnsdata_go.Common.{
  ℕ, ◌≡◌, refl, sym, ap, subst, inl, inr, Result-cases, Bool, true, false, not, ◌&&◌, List, [], ◌∷◌,
  map, if◌then◌else◌, Bytes, Ordering, ok,
}
use mathlib.Core.List.{Memᴰ}
use mathlib.Core.List.Memᴰ
use dnsdata_go.Text.{Unicode}
use dnsdata_go.Dnssec.Nsec.{Nsec}
use dnsdata_go.Dnssec.Zone.{ZoneRecord}
use dnsdata_go.Dnssec.Chain.Denial.{count_nsec, name_link}
use dnsdata_go.Dnssec.Chain.View.{
  ZoneParts, is_generated_type, new_zone_view, is_below_cut, build_nsec,
}
use dnsdata_go.Dnssec.Chain.Sorted.{AreSorted}
use dnsdata_go.Dnssec.Chain.Named.{named}
use dnsdata_go.Dnssec.Chain.Records.{
  record_of, CanonicalRecord, without_length, collect_records, compare_canonical_records,
  compact_records, records_canonical,
}
use dnsdata_go.Dnssec.Chain.Built.{link_of_record, build_nsec_denies}
use dnsdata_go.Dnssec.Chain.Records.Ordered.{SortsRecords, AgreeOnCase, ordered-AreSorted}
use dnsdata_go.Dnssec.Chain.Records.Alike.{
  self-Alike, named_from, compact_records-keeps, compact_records-Mem, compact_records-IsOrdered,
}

module _ ⦃u : Unicode⦄ where
  collect_records-records :
      (records : List ZoneRecord) (recs : List CanonicalRecord)
      → collect_records records ≡ ok recs
      → map record_of recs ≡ records
  unfolding collect_records
  collect_records-records [] recs e = let same : [] ≡ recs = cc in rw (← same) refl
  collect_records-records (x ∷ records) recs e = elim (Result-cases x.body) [
    | inr (f, y) ↦ let k = rw (y) at e in cc
    | inl (body, y) ↦ elim (Result-cases (collect_records records)) [
      | inr (f, z) ↦ let k = rw (y, z) at e in cc
      | inl (rest, z) ↦
          let k = rw (y, z) at e in
          let same : record { rr = x; rdata = without_length body } ∷ rest ≡ recs = cc in
          rw (← same) (ap (λ xs. x ∷ xs) (collect_records-records records rest z))
    ]
  ]

  both_true : (a b : Bool) → (a ≡ true → b ≡ true) → (b ≡ true → a ≡ true) → a ≡ b
  both_true true b f g = sym (f refl)
  both_true false true f g = g refl
  both_true false false f g = refl

  module _
      (sort_stable : (CanonicalRecord → CanonicalRecord → Ordering)
        → List CanonicalRecord
        → List CanonicalRecord)
      (sorts : SortsRecords sort_stable) (records : List ZoneRecord) where
    -- RecordsCanonical lists records in canonical order, and keeps the names.
    pub records_canonical_lem :
        (out : List ZoneRecord) (q : Bytes)
        → AgreeOnCase records
        → records_canonical sort_stable records ≡ ok out
        → AreSorted out × (named out q ≡ named records q)
    unfolding records_canonical
    records_canonical_lem out q agree e = elim (Result-cases (collect_records records)) [
      | inr (f, y) ↦ let k = rw (y) at e in cc
      | inl (recs, y) ↦
          let sorted = sort_stable compare_canonical_records recs in
          let k = rw (y) at e in
          let same : map record_of (compact_records sorted) ≡ out = cc in
          let all : map record_of recs ≡ records = collect_records-records records recs y in
          let from_recs : (x : CanonicalRecord) → Memᴰ x (compact_records sorted) → Memᴰ x recs =
            λ x m. (sorts.members recs x).0 (compact_records-Mem x sorted m) in
          let inside : (x : CanonicalRecord) → Memᴰ x (compact_records sorted) → Memᴰ x.rr records =
            λ x m. subst (λ rs. Memᴰ x.rr rs) all (Memᴰ.map record_of (from_recs x m)) in
          rw (← same) (
            ordered-AreSorted (compact_records sorted) records agree inside
                (compact_records-IsOrdered sorted (sorts.ordered recs)),
            rw (← all) (
                both_true _ _
                  (named_from (compact_records sorted) recs q
                    (λ c m. (c, from_recs c m, self-Alike c)))
                  (named_from recs (compact_records sorted) q
                    (λ c m. compact_records-keeps c sorted ((sorts.members recs c).1 m)))),
          )
    ]

    -- In a zone of which the names compare as equal exactly when they differ at most in case, let the
    -- first record that RecordsCanonical lists stand at the apex and be of a type that signing does
    -- not make. Then of NSEC records with the owners and next owners that `BuildNSEC` writes none
    -- covers a name that a record of the zone has which is neither of such a type nor below a
    -- delegation, and exactly one covers each other name.
    pub zone_denies :
        (rr : ZoneRecord) (rrs : List ZoneRecord) (v : ZoneParts)
        (out : List ((Bytes × Bytes) × List ℕ)) (nsecs : List (Bytes × Nsec)) (q : Bytes)
        → AgreeOnCase records
        → records_canonical sort_stable records ≡ ok (rr ∷ rrs)
        → is_generated_type rr.rr_type ≡ false
        → new_zone_view rr.label (rr ∷ rrs) ≡ ok v
        → build_nsec rr.label (rr ∷ rrs) ≡ ok out
        → map name_link nsecs ≡ map link_of_record out
        → count_nsec nsecs q ≡ (if named records q && not (is_below_cut v.cuts q) then 0 else 1)
    zone_denies rr rrs v out nsecs q agree e kept y b read =
        let (sorted, names) = records_canonical_lem (rr ∷ rrs) q agree e in
        rw (← names) (build_nsec_denies rr rrs v out nsecs q sorted kept y b read)
