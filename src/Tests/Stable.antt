-- ===== src/Tests/Stable.antt =====
-- Insertion sort keeps what `slices.SortStableFunc` promises for `compareCanonicalRecords`.
use dnsdata_go.Common.{◌≡◌, ◌≢◌, sym, ap, ◌∙◌, inl, inr, arith, List, [], ◌∷◌, Ordering, compare}
use dnsdata_go.Common.Compare.{Ordering-cases, compare-IsTotalOrder}
use dnsdata_go.Text.{Unicode}
use dnsdata_go.Zone.Canonical.{compare_bytes, compare_canonical_names}
use dnsdata_go.Dnssec.Chain.Gaps.{IsOrder}
use dnsdata_go.Dnssec.Chain.Denial.{names-IsOrder, bytes-IsOrder}
use dnsdata_go.Dnssec.Chain.Records.{CanonicalRecord, then_compare, compare_canonical_records}
use dnsdata_go.Dnssec.Chain.Records.Ordered.{IsOrdered, SortsRecords}
use dnsdata_go.Tests.Sorting.{insertion_sort, sort-SameMembers, sort-IsPairwise, IsPairwise}

then-IsOrder :
    {A : Type 0} (f g : A → A → Ordering)
    → IsOrder f
    → IsOrder g
    → IsOrder (λ a b. then_compare (f a b) (g a b))
then-IsOrder f g o p = record {
  swap = λ a b. ground (arith, o.swap a b, p.swap a b);
  left = λ a b d e. ground (arith, o.left a b d, p.left a b d, e);
  lt_trans = λ a b d e h. ground (
    arith,
    o.lt_trans a b d,
    p.lt_trans a b d,
    o.left a b d,
    o.left b d a,
    o.swap a b,
    o.swap a d,
    o.swap b d,
    e,
    h,
  );
}

along-IsOrder :
    {A B : Type 0} (key : A → B) (f : B → B → Ordering)
    → IsOrder f
    → IsOrder (λ a b. f (key a) (key b))
along-IsOrder key f o = record {
  swap = λ a b. o.swap (key a) (key b);
  left = λ a b d. o.left (key a) (key b) (key d);
  lt_trans = λ a b d. o.lt_trans (key a) (key b) (key d);
}

numbers-IsOrder : IsOrder compare
numbers-IsOrder = record {
  swap = compare-IsTotalOrder.swap;
  left = λ a b d e. ap (λ x. compare x d) (compare-IsTotalOrder.same a b e);
  lt_trans = compare-IsTotalOrder.lt_trans;
}

le_trans_of :
    {A : Type 0} (f : A → A → Ordering)
    → IsOrder f
    → (a b d : A) → f a b ≢ Ordering.gt
    → f b d ≢ Ordering.gt
    → f a d ≢ Ordering.gt
le_trans_of f o a b d e h k = elim (Ordering-cases (f a b)) [
  | inr (inr g) ↦ e g
  | inr (inl q) ↦ h (sym (o.left a b d q) ∙ k)
  | inl l ↦ elim (Ordering-cases (f b d)) [
    | inr (inr g) ↦ h g
    | inl m ↦ let x = o.lt_trans a b d l m in cc
    | inr (inl q) ↦
        let x = o.left b d a q in
        let y = o.swap a b in let z = o.swap a d in absurd (ground (arith, x, y, z, l, k))
  ]
]

module _ ⦃u : Unicode⦄ where
  records-IsOrder : IsOrder compare_canonical_records
  unfolding compare_canonical_records
  records-IsOrder =
      then-IsOrder _ _
        (along-IsOrder (λ (r : CanonicalRecord). r.rr.label) compare_canonical_names names-IsOrder)
        (then-IsOrder _ _
          (along-IsOrder (λ (r : CanonicalRecord). r.rr.rr_type) compare numbers-IsOrder)
          (then-IsOrder _ _
            (along-IsOrder (λ (r : CanonicalRecord). r.rr.class) compare numbers-IsOrder)
            (along-IsOrder (λ (r : CanonicalRecord). r.rdata) compare_bytes bytes-IsOrder)))

  pairwise-IsOrdered :
      (xs : List CanonicalRecord) → IsPairwise compare_canonical_records xs → IsOrdered xs
  pairwise-IsOrdered [] h = tt
  pairwise-IsOrdered (x ∷ xs) (h, hs) = (h, pairwise-IsOrdered xs hs)

  turned :
      (a b : CanonicalRecord)
      → compare_canonical_records a b ≡ Ordering.gt
      → compare_canonical_records b a ≢ Ordering.gt
  turned a b e f = let s = records-IsOrder.swap a b in absurd (ground (arith, s, e, f))

  pub insertion_sort-SortsRecords : SortsRecords insertion_sort
  insertion_sort-SortsRecords = record {
    members = λ xs x. sort-SameMembers compare_canonical_records xs x;
    ordered = λ xs. pairwise-IsOrdered (insertion_sort compare_canonical_records xs) (
        sort-IsPairwise compare_canonical_records
          (le_trans_of compare_canonical_records records-IsOrder) turned xs);
  }
