-- ===== src/Dnssec/Chain/Keys.antt =====
-- What the steps of `newZoneView` and the filter of `BuildNSEC` keep.
use dnsdata_go.Common.{
  ℕ, ◌≡◌, ◌⊎◌, refl, inl, inr, arith, Bool-cases, true, List, [], ◌∷◌, ◌++◌, Bytes, equal,
  equal_iff, Ordering,
}
use dnsdata_go.Text.{Unicode}
use dnsdata_go.Zone.Canonical.{compare_canonical_names}
use dnsdata_go.Zone.Canonical.Order.{compare_canonical_names_trans}
use dnsdata_go.Dnssec.Chain.{IsIncreasing}
use dnsdata_go.Dnssec.Chain.View.{has_key, add_type, is_below_cut, authoritative_owners}

pub has_key-add_type :
    (types : List (Bytes × List ℕ)) (key other : Bytes) (t : ℕ)
    → has_key types other ≡ true
    → has_key (add_type types key t) other ≡ true
unfolding has_key add_type
has_key-add_type [] key other t h = cc
has_key-add_type ((k, ts) ∷ rest) key other t h = ground (arith, has_key-add_type rest key other t)

pub has_key-cases :
    (types : List (Bytes × List ℕ)) (key other : Bytes) (t : ℕ)
    → has_key (add_type types key t) other ≡ true
    → (has_key types other ≡ true) ⊎ (key ≡ other)
unfolding has_key add_type
has_key-cases [] key other t h = inr ((equal_iff key other).0 (ground (arith, h)))
has_key-cases ((k, ts) ∷ rest) key other t h = elim (Bool-cases (equal k other)) [
  | inl y ↦ inl (ground (arith, y))
  | inr n ↦ elim (Bool-cases (equal k key)) [
    | inl z ↦ inl (ground (arith, rw (z) at h, n))
    | inr z ↦ elim (has_key-cases rest key other t (ground (arith, rw (z) at h, n))) [
      | inl l ↦ inl (ground (arith, l))
      | inr l ↦ inr l
    ]
  ]
]

pub has_key-add_type_self :
    (types : List (Bytes × List ℕ)) (key : Bytes) (t : ℕ)
    → has_key (add_type types key t) key ≡ true
unfolding has_key add_type
has_key-add_type_self [] key t = ground (arith, (equal_iff key key).1 refl)
has_key-add_type_self ((k, ts) ∷ rest) key t = ground (arith, has_key-add_type_self rest key t)

abbrev pub last : Bytes → List Bytes → Bytes
last a [] = a
last a (b ∷ bs) = last b bs

pub last-append : (a b : Bytes) (bs : List Bytes) → last a (bs ++ b ∷ []) ≡ b
last-append a b [] = refl
last-append a b (c ∷ bs) = last-append c b bs

module _ ⦃u : Unicode⦄ where
  pub IsIncreasing-append :
      (a b : Bytes) (bs : List Bytes)
      → IsIncreasing compare_canonical_names a bs
      → compare_canonical_names (last a bs) b ≡ Ordering.lt
      → IsIncreasing compare_canonical_names a (bs ++ b ∷ [])
  IsIncreasing-append a b [] h l = (l, tt)
  IsIncreasing-append a b (c ∷ bs) (h, hs) l = (h, IsIncreasing-append c b bs hs l)

  IsIncreasing-skip :
      (a b : Bytes) (bs : List Bytes)
      → IsIncreasing compare_canonical_names a (b ∷ bs)
      → IsIncreasing compare_canonical_names a bs
  IsIncreasing-skip a b [] h = tt
  IsIncreasing-skip a b (c ∷ bs) (h, (k, hs)) = (compare_canonical_names_trans a b c h k, hs)

  -- Leaving owners out keeps the order.
  pub authoritative_owners-IsIncreasing :
      (cuts : List Bytes) (a : Bytes) (bs : List Bytes)
      → IsIncreasing compare_canonical_names a bs
      → IsIncreasing compare_canonical_names a (authoritative_owners cuts bs)
  unfolding authoritative_owners
  authoritative_owners-IsIncreasing cuts a [] h = tt
  authoritative_owners-IsIncreasing cuts a (b ∷ bs) h = elim (Bool-cases (is_below_cut cuts b)) [
    | inl y ↦ rw (y) (authoritative_owners-IsIncreasing cuts a bs (IsIncreasing-skip a b bs h))
    | inr n ↦ rw (n) (h.0, authoritative_owners-IsIncreasing cuts b bs (h.1))
  ]
