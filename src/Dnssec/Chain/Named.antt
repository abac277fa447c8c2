-- ===== src/Dnssec/Chain/Named.antt =====
-- Which names the owners of `newZoneView` and of `BuildNSEC` are.
use dnsdata_go.Common.{
  ◌≡◌, ◌∙◌, refl, subst, inl, inr, arith, Bool-cases, Bool, true, false, not, ◌&&◌, ◌||◌, List, [],
  ◌∷◌, ◌++◌, Bytes, ok, Ordering,
}
use mathlib.Core.List.{Memᴰ}
use mathlib.Core.List.Memᴰ
use dnsdata_go.Text.{Unicode, to_lower}
use dnsdata_go.Zone.Canonical.{compare_canonical_names, canonical_labels}
use dnsdata_go.Zone.Canonical.Order.{compare_canonical_names_order}
use dnsdata_go.Dnssec.Zone.{ZoneRecord}
use dnsdata_go.Dnssec.Nsec.{is_eq}
use dnsdata_go.Dnssec.Chain.{owned}
use dnsdata_go.Dnssec.Chain.Denial.{names-IsOrder}
use dnsdata_go.Dnssec.Chain.View.{
  ZoneParts, is_generated_type, has_key, is_at_or_below, same_name, with_record, view_records,
  is_below_cut, authoritative_owners,
}
use dnsdata_go.Dnssec.Chain.Sorted.{AreSorted, IsView, with_record-IsView, skipped-IsView}

module _ ⦃u : Unicode⦄ where
  -- A record of a type that signing does not make has the name, up to case.
  abbrev pub named : List ZoneRecord → Bytes → Bool
  named [] q = false
  named (rr ∷ rrs) q =
      (not (is_generated_type rr.rr_type) && is_eq (compare_canonical_names q rr.label))
      || named rrs q

  owned-append :
      (os : List Bytes) (o q : Bytes)
      → owned compare_canonical_names (os ++ o ∷ []) q
        ≡ owned compare_canonical_names os q || is_eq (compare_canonical_names q o)
  owned-append [] o q = ground arith
  owned-append (p ∷ os) o q = ground (arith, owned-append os o q)

  owned_of :
      (os : List Bytes) (o q : Bytes)
      → Memᴰ o os
      → compare_canonical_names q o ≡ Ordering.eq
      → owned compare_canonical_names os q ≡ true
  owned_of [] o q m e = elim m [ ]
  owned_of (p ∷ os) o q m e = elim (Memᴰ.cases_cons m) [
    | inl s ↦
        let f = subst (λ x. compare_canonical_names q x ≡ Ordering.eq) s e in ground (arith, f)
    | inr k ↦ ground (arith, owned_of os o q k e)
  ]

  -- Names that compare as equal to one are equal to each other.
  pub eq_trans :
      (q l o : Bytes)
      → compare_canonical_names q l ≡ Ordering.eq
      → compare_canonical_names o l ≡ Ordering.eq
      → compare_canonical_names q o ≡ Ordering.eq
  eq_trans q l o e f = names-IsOrder.left q l o e ∙ (names-IsOrder.swap o l ∙ rw (f) refl)

  with_record-owned :
      (apex : Bytes) (v : ZoneParts) (rr : ZoneRecord) (rrs : List ZoneRecord) (q : Bytes)
      → IsView apex v (rr ∷ rrs)
      → owned compare_canonical_names (with_record v rr.label rr.rr_type).owners q
        ≡ owned compare_canonical_names v.owners q || is_eq (compare_canonical_names q rr.label)
  unfolding with_record
  with_record-owned apex v rr rrs q k = elim (Bool-cases (has_key v.types (to_lower rr.label))) [
    | inr n ↦ rw (n) (owned-append v.owners rr.label q)
    | inl y ↦
        let (o, m, e, b) = k.keys_kept (to_lower rr.label) y in
        let same = (b.0).1.1 e in
        rw (y) (ground (arith, eq_trans q rr.label o, same, owned_of v.owners o q m))
  ]

  pub view_records-owned :
      (apex : Bytes) (rrs : List ZoneRecord) (v out : ZoneParts) (q : Bytes)
      → AreSorted rrs
      → IsView apex v rrs
      → view_records rrs v ≡ ok out
      → owned compare_canonical_names out.owners q
        ≡ owned compare_canonical_names v.owners q || named rrs q
  unfolding view_records
  view_records-owned apex [] v out q s k e =
      let same : v ≡ out = cc in
      subst
        (λ z.
          owned compare_canonical_names z.owners q
          ≡ owned compare_canonical_names v.owners q || false)
        same (ground arith)
  view_records-owned apex (rr ∷ rrs) v out q s k e =
      elim (Bool-cases (is_generated_type rr.rr_type)) [
        | inl y ↦
            let rest =
              view_records-owned apex rrs v out q (s.1) (skipped-IsView apex v rr rrs k)
                (rw (y) at e) in
            ground (arith, rest, y)
        | inr n ↦ elim (Bool-cases (is_at_or_below rr.label v.apex)) [
          | inr o ↦ let x = rw (n, o) at e in cc
          | inl b ↦
              let rest =
                view_records-owned apex rrs (with_record v rr.label rr.rr_type) out q (s.1)
                  (with_record-IsView apex v rr rrs s b k) (rw (n, b) at e) in
              ground (arith, rest, n, with_record-owned apex v rr rrs q k)
        ]
      ]

  is_below_cut-same :
      (cuts : List Bytes) (a b : Bytes)
      → canonical_labels a ≡ canonical_labels b
      → is_below_cut cuts a ≡ is_below_cut cuts b
  unfolding is_below_cut same_name is_at_or_below
  is_below_cut-same [] a b e = refl
  is_below_cut-same (c ∷ cuts) a b e = rw (e, is_below_cut-same cuts a b e) refl

  -- The owners of the chain are those owners that are not occluded.
  pub authoritative_owners-owned :
      (cuts os : List Bytes) (q : Bytes)
      → owned compare_canonical_names (authoritative_owners cuts os) q
        ≡ owned compare_canonical_names os q && not (is_below_cut cuts q)
  unfolding authoritative_owners
  authoritative_owners-owned cuts [] q = refl
  authoritative_owners-owned cuts (o ∷ os) q =
      let rest = authoritative_owners-owned cuts os q in
      elim (Bool-cases (is_eq (compare_canonical_names q o))) [
        | inl y ↦
            let same =
              is_below_cut-same cuts q o
                ((compare_canonical_names_order q o).0.0 (ground (arith, y))) in
            elim (Bool-cases (is_below_cut cuts o)) [
              | inl b ↦ rw (b) (ground (arith, rest, y, same, b))
              | inr n ↦ rw (n) (ground (arith, rest, y, same, n))
            ]
        | inr n ↦ elim (Bool-cases (is_below_cut cuts o)) [
          | inl b ↦ rw (b) (ground (arith, rest, n))
          | inr c ↦ rw (c) (ground (arith, rest, n))
        ]
      ]
