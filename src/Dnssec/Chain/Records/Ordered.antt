-- ===== src/Dnssec/Chain/Records/Ordered.antt =====
-- The order that RecordsCanonical gives the records.
use dnsdata_go.Common.{◌≡◌, ◌≢◌, ◌↔◌, refl, inl, inr, Bool-cases, List, [], ◌∷◌, map, Ordering}
use mathlib.Core.List.{Memᴰ}
use mathlib.Core.List.Memᴰ
use dnsdata_go.Text.{Unicode, to_lower}
use dnsdata_go.Zone.Canonical.{compare_canonical_names}
use dnsdata_go.Dnssec.Nsec.{is_eq}
use dnsdata_go.Dnssec.Zone.{ZoneRecord}
use dnsdata_go.Dnssec.Chain.Sorted.{Before, AreSorted}
use dnsdata_go.Dnssec.Chain.Records.{
  record_of, CanonicalRecord, compare_canonical_records, compact_after,
}

module _ ⦃u : Unicode⦄ where
  -- No record compares as greater than one behind it.
  abbrev pub IsOrdered : List CanonicalRecord → Type 0
  IsOrdered [] = Unit {0}
  IsOrdered (x ∷ xs) =
      ((y : CanonicalRecord) → Memᴰ y xs → compare_canonical_records x y ≢ Ordering.gt)
      × IsOrdered xs

  -- What `slices.SortStableFunc` promises of its result for `compareCanonicalRecords`.
  pub record SortsRecords
      (sort_stable : (CanonicalRecord → CanonicalRecord → Ordering)
        → List CanonicalRecord
        → List CanonicalRecord)
      : Type 0 where
    pub members :
        (xs : List CanonicalRecord) (x : CanonicalRecord)
        → Memᴰ x (sort_stable compare_canonical_records xs) ↔ Memᴰ x xs
    pub ordered : (xs : List CanonicalRecord) → IsOrdered (sort_stable compare_canonical_records xs)

  pub compact_after-Mem :
      (p x : CanonicalRecord) (rs : List CanonicalRecord) → Memᴰ x (compact_after p rs) → Memᴰ x rs
  unfolding compact_after
  compact_after-Mem p x [] m = m
  compact_after-Mem p x (r ∷ rs) m = elim (Bool-cases (is_eq (compare_canonical_records r p))) [
    | inl y ↦ Memᴰ.tail (compact_after-Mem r x rs (rw (y) at m))
    | inr n ↦ elim (Memᴰ.cases_cons (rw (n) at m)) [
      | inl e ↦ Memᴰ.head e
      | inr k ↦ Memᴰ.tail (compact_after-Mem r x rs k)
    ]
  ]

  -- Records of names that compare as equal exactly when they differ at most in case.
  abbrev pub AgreeOnCase : List ZoneRecord → Type 0
  AgreeOnCase records =
      (a b : ZoneRecord)
      → Memᴰ a records
      → Memᴰ b records
      → (compare_canonical_names a.label b.label ≡ Ordering.eq)
        ↔ (to_lower a.label ≡ to_lower b.label)

  names_ordered :
      (a b : CanonicalRecord)
      → compare_canonical_records a b ≢ Ordering.gt
      → compare_canonical_names a.rr.label b.rr.label ≢ Ordering.gt
  unfolding compare_canonical_records
  names_ordered a b h e = h (rw (e) refl)

  rest-Before :
      (a : CanonicalRecord) (rs : List CanonicalRecord) (records : List ZoneRecord)
      → AgreeOnCase records
      → ((x : CanonicalRecord) → Memᴰ x (a ∷ rs) → Memᴰ x.rr records)
      → ((y : CanonicalRecord) → Memᴰ y rs → compare_canonical_records a y ≢ Ordering.gt)
      → Before a.rr.label (map record_of rs)
  rest-Before a [] records agree inside h = tt
  rest-Before a (r ∷ rs) records agree inside h = (
    (
      names_ordered a r (h r (Memᴰ.head refl)),
      agree a.rr r.rr (inside a (Memᴰ.head refl)) (inside r (Memᴰ.tail (Memᴰ.head refl))),
    ),
    rest-Before a rs records agree (λ x m. inside x (skip x m)) (λ y m. h y (Memᴰ.tail m)),
  )
    where
      skip : (x : CanonicalRecord) → Memᴰ x (a ∷ rs) → Memᴰ x (a ∷ r ∷ rs)
      skip x m = elim (Memᴰ.cases_cons m) [ inl e ↦ Memᴰ.head e | inr k ↦ Memᴰ.tail (Memᴰ.tail k) ]

  pub ordered-AreSorted :
      (rs : List CanonicalRecord) (records : List ZoneRecord)
      → AgreeOnCase records
      → ((x : CanonicalRecord) → Memᴰ x rs → Memᴰ x.rr records)
      → IsOrdered rs
      → AreSorted (map record_of rs)
  ordered-AreSorted [] records agree inside o = tt
  ordered-AreSorted (r ∷ rs) records agree inside (h, o) = (
    rest-Before r rs records agree inside h,
    ordered-AreSorted rs records agree (λ x m. inside x (Memᴰ.tail m)) o,
  )

  pub compact_after-IsOrdered :
      (p : CanonicalRecord) (rs : List CanonicalRecord)
      → IsOrdered rs
      → IsOrdered (compact_after p rs)
  unfolding compact_after
  compact_after-IsOrdered p [] o = tt
  compact_after-IsOrdered p (r ∷ rs) (h, o) =
      elim (Bool-cases (is_eq (compare_canonical_records r p))) [
        | inl y ↦ rw (y) (compact_after-IsOrdered r rs o)
        | inr n ↦ rw (n) (λ x m. h x (compact_after-Mem r x rs m), compact_after-IsOrdered r rs o)
      ]
