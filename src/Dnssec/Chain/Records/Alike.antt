-- ===== src/Dnssec/Chain/Records/Alike.antt =====
-- The names that RecordsCanonical keeps.
use dnsdata_go.Common.{
  ◌≡◌, refl, sym, subst, ◌∙◌, inl, inr, arith, Bool-cases, true, false, not, ◌&&◌, List, [], ◌∷◌,
  map, Bytes, Ordering,
}
use mathlib.Core.List.{Memᴰ}
use mathlib.Core.List.Memᴰ
use dnsdata_go.Text.{Unicode}
use dnsdata_go.Zone.Canonical.{compare_canonical_names}
use dnsdata_go.Dnssec.Nsec.{is_eq}
use dnsdata_go.Dnssec.Zone.{ZoneRecord}
use dnsdata_go.Dnssec.Chain.View.{is_generated_type}
use dnsdata_go.Dnssec.Chain.Named.{named, eq_trans}
use dnsdata_go.Zone.Canonical.Order.{compare_canonical_names_order}
use dnsdata_go.Dnssec.Chain.Records.{
  record_of, CanonicalRecord, compare_canonical_records, compact_after, compact_records,
}
use dnsdata_go.Dnssec.Chain.Records.Ordered.{IsOrdered, compact_after-Mem, compact_after-IsOrdered}

module _ ⦃u : Unicode⦄ where
  -- The two records have one type, and names that compare as equal.
  abbrev pub Alike : CanonicalRecord → CanonicalRecord → Type 0
  Alike a b =
      (compare_canonical_names a.rr.label b.rr.label ≡ Ordering.eq) × (a.rr.rr_type ≡ b.rr.rr_type)

  pub self-Alike : (a : CanonicalRecord) → Alike a a
  self-Alike a = ((compare_canonical_names_order a.rr.label a.rr.label).0.1 refl, refl)

  pub Alike-swap : (a b : CanonicalRecord) → Alike a b → Alike b a
  Alike-swap a b (e, t) =
      ((compare_canonical_names_order a.rr.label b.rr.label).1 ∙ rw (e) refl, sym t)

  equal-Alike : (a b : CanonicalRecord) → is_eq (compare_canonical_records a b) ≡ true → Alike a b
  unfolding compare_canonical_records
  equal-Alike a b e = (ground (arith, e), ground (arith, e))

  Alike-trans : (a b c : CanonicalRecord) → Alike a b → Alike c b → Alike a c
  Alike-trans a b c (e, t) (f, u) = (eq_trans a.rr.label b.rr.label c.rr.label e f, t ∙ sym u)

  -- A record that is left out is like one that is kept.
  pub compact_after-keeps :
      (p x : CanonicalRecord) (rs : List CanonicalRecord)
      → Memᴰ x (p ∷ rs)
      → (y : CanonicalRecord) × Memᴰ y (p ∷ compact_after p rs) × Alike x y
  unfolding compact_after
  compact_after-keeps p x [] m = (x, m, self-Alike x)
  compact_after-keeps p x (r ∷ rs) m = elim (Memᴰ.cases_cons m) [
    | inl e ↦ (p, Memᴰ.head refl, subst (λ z. Alike z p) (sym e) (self-Alike p))
    | inr k ↦
        let (y, l, a) = compact_after-keeps r x rs k in
        elim (Bool-cases (is_eq (compare_canonical_records r p))) [
          | inr n ↦ (y, rw (n) (Memᴰ.tail l), a)
          | inl d ↦ elim (Memᴰ.cases_cons l) [
            | inl e ↦
                let to_r : Alike x r = subst (λ z. Alike x z) e a in
                let p_r : Alike p r = Alike-swap r p (equal-Alike r p d) in
                (p, Memᴰ.head refl, Alike-trans x r p to_r p_r)
            | inr j ↦ (y, rw (d) (Memᴰ.tail j), a)
          ]
        ]
  ]

  named_by :
      (rrs : List ZoneRecord) (x : ZoneRecord) (q : Bytes)
      → Memᴰ x rrs
      → is_generated_type x.rr_type ≡ false
      → compare_canonical_names q x.label ≡ Ordering.eq
      → named rrs q ≡ true
  named_by [] x q m g e = elim m [ ]
  named_by (r ∷ rrs) x q m g e = elim (Memᴰ.cases_cons m) [
    | inl s ↦
        let f = subst (λ z. compare_canonical_names q z.label ≡ Ordering.eq) s e in
        let h = subst (λ z. is_generated_type z.rr_type ≡ false) s g in ground (arith, f, h)
    | inr k ↦ ground (arith, named_by rrs x q k g e)
  ]

  named_of :
      (rrs : List ZoneRecord) (q : Bytes)
      → named rrs q ≡ true
      → (x : ZoneRecord) × Memᴰ x rrs
        × (is_generated_type x.rr_type ≡ false)
        × (compare_canonical_names q x.label ≡ Ordering.eq)
  named_of [] q h = cc
  named_of (r ∷ rrs) q h =
      elim (Bool-cases
        (not (is_generated_type r.rr_type) && is_eq (compare_canonical_names q r.label))) [
          | inl y ↦ (r, Memᴰ.head refl, ground (arith, y), ground (arith, y))
          | inr n ↦
              let (x, m, g, e) = named_of rrs q (ground (arith, n, h)) in (x, Memᴰ.tail m, g, e)
        ]

  -- The names of records are among those of others, when each record is like one of these.
  pub named_from :
      (xs ys : List CanonicalRecord) (q : Bytes)
      → ((c : CanonicalRecord) → Memᴰ c xs → (y : CanonicalRecord) × Memᴰ y ys × Alike c y)
      → named (map record_of xs) q ≡ true
      → named (map record_of ys) q ≡ true
  named_from xs ys q like h =
      let (x, m, g, e) = named_of (map record_of xs) q h in
      let (c, l, s) = Memᴰ.of_map record_of xs m in
      let (y, k, a) = like c l in
      let back = Alike-swap c y a in
      let at_c = subst (λ z. compare_canonical_names q z.label ≡ Ordering.eq) (sym s) e in
      let kept = subst (λ z. is_generated_type z.rr_type ≡ false) (sym s) g in
      named_by (map record_of ys) y.rr q (Memᴰ.map record_of k)
        (subst (λ t. is_generated_type t ≡ false) (a.1) kept)
        (eq_trans q c.rr.label y.rr.label at_c (back.0))

  pub compact_records-keeps :
      (x : CanonicalRecord) (rs : List CanonicalRecord)
      → Memᴰ x rs
      → (y : CanonicalRecord) × Memᴰ y (compact_records rs) × Alike x y
  unfolding compact_records
  compact_records-keeps x [] m = elim m [ ]
  compact_records-keeps x (r ∷ rs) m = compact_after-keeps r x rs m

  pub compact_records-Mem :
      (x : CanonicalRecord) (rs : List CanonicalRecord) → Memᴰ x (compact_records rs) → Memᴰ x rs
  unfolding compact_records
  compact_records-Mem x [] m = m
  compact_records-Mem x (r ∷ rs) m = elim (Memᴰ.cases_cons m) [
    | inl e ↦ Memᴰ.head e
    | inr k ↦ Memᴰ.tail (compact_after-Mem r x rs k)
  ]

  pub compact_records-IsOrdered :
      (rs : List CanonicalRecord) → IsOrdered rs → IsOrdered (compact_records rs)
  unfolding compact_records
  compact_records-IsOrdered [] o = tt
  compact_records-IsOrdered (r ∷ rs) (h, o) =
      (λ x m. h x (compact_after-Mem r x rs m), compact_after-IsOrdered r rs o)
