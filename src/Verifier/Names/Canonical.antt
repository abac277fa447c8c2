-- ===== src/Verifier/Names/Canonical.antt =====
-- What `CompareCanonicalNames` of zone/canonical.go makes of names written as their labels.
use dnsdata_go.Common.{
  ℕ, ◌<◌, ◌≡◌, ◌≢◌, inl, inr, refl, ap, ◌∙◌, arith, true, List, [], ◌∷◌, ◌++◌, map, reverse, length,
  All, Bytes, Ordering, compare, append_assoc,
}
use dnsdata_go.Common.Compare.{
  lex, lex-prefix, IsTotalOrder, lex-IsTotalOrder, compare-IsTotalOrder, Ordering-cases,
}
use dnsdata_go.Text.{Unicode, is_ascii, lower_octet, to_lower, join_dots}
use dnsdata_go.Zone.Canonical.{compare_bytes, canonical_labels, compare_canonical_names}
use dnsdata_go.Zone.Canonical.Order.{labels-IsTotalOrder}
use dnsdata_go.Verifier.Names.{dotted}
use dnsdata_go.Verifier.Names.Lower.{IsLowerOctet, IsLowerLabel, trim_dot_of-dotted, labels_of-join}
use dnsdata_go.Verifier.Names.Ancestors.{All-of_append}
use mathlib.Core.List.{reverse-append, reverse-cons, map-append}

-- An ASCII octet above the space that is no dot.
abbrev pub IsLabelOctet : ℕ → Type 0
IsLabelOctet c = (32 < c) × (c < 128) × (c ≢ b'.')

abbrev pub IsLabel : Bytes → Type 0
IsLabel l = (0 < length l) × All IsLabelOctet l

-- The ASCII letters of a label in lower case.
abbrev pub lowered : Bytes → Bytes
lowered = map lower_octet

lowered_octet : (c : ℕ) → IsLabelOctet c → IsLowerOctet (lower_octet c)
unfolding lower_octet
lowered_octet c h = ground arith

lowered_octets : (l : Bytes) → All IsLabelOctet l → All IsLowerOctet (lowered l)
lowered_octets [] h = tt
lowered_octets (c ∷ cs) (h, hs) = (lowered_octet c h, lowered_octets cs hs)

lowered-IsLowerLabel : (ls : List Bytes) → All IsLabel ls → All IsLowerLabel (map lowered ls)
lowered-IsLowerLabel [] h = tt
lowered-IsLowerLabel ([] ∷ ls) (h, hs) = absurd (omega (arith, h.0))
lowered-IsLowerLabel ((c ∷ cs) ∷ ls) (h, hs) =
    ((omega arith, lowered_octets (c ∷ cs) h.1), lowered-IsLowerLabel ls hs)

octets_ascii : (l : Bytes) → All IsLabelOctet l → is_ascii l ≡ true
unfolding is_ascii
octets_ascii [] h = refl
octets_ascii (c ∷ cs) (h, hs) = ground (arith, octets_ascii cs hs)

octets_then :
    (l rest : Bytes) → All IsLabelOctet l → is_ascii rest ≡ true → is_ascii (l ++ rest) ≡ true
unfolding is_ascii
octets_then [] rest h k = k
octets_then (c ∷ cs) rest (h, hs) k = ground (arith, octets_then cs rest hs k)

ascii-join : (ls : List Bytes) → All IsLabel ls → is_ascii (join_dots ls) ≡ true
unfolding join_dots is_ascii
ascii-join [] h = refl
ascii-join (l ∷ []) (h, hs) = octets_ascii l h.1
ascii-join (l ∷ m ∷ ls) (h, hs) =
    octets_then l (b'.' ∷ join_dots (m ∷ ls)) h.1 (ground (arith, ascii-join (m ∷ ls) hs))

lowered-join : (ls : List Bytes) → lowered (join_dots ls) ≡ join_dots (map lowered ls)
unfolding join_dots lower_octet
lowered-join [] = refl
lowered-join (l ∷ []) = refl
lowered-join (l ∷ m ∷ ls) =
    map-append lower_octet l (b'.' ∷ join_dots (m ∷ ls))
    ∙ ap (λ t. lowered l ++ b'.' ∷ t) (lowered-join (m ∷ ls))

abbrev bytes_order : IsTotalOrder compare_bytes
bytes_order = lex-IsTotalOrder compare compare-IsTotalOrder

-- The first elements that differ decide.
lex_differ :
    (s p q : List Bytes) (a b : Bytes)
    → a ≢ b
    → lex compare_bytes (s ++ a ∷ p) (s ++ b ∷ q) ≡ compare_bytes a b
unfolding lex
lex_differ [] p q a b d = elim (Ordering-cases (compare_bytes a b)) [
  | inl e ↦ rw (e, lex) refl
  | inr (inl e) ↦ absurd (d (bytes_order.same a b e))
  | inr (inr e) ↦ rw (e, lex) refl
]
lex_differ (t ∷ s) p q a b d = rw (bytes_order.self t, lex) (lex_differ s p q a b d)

module _ ⦃u : Unicode⦄ where
  canonical_labels-dotted :
      (ls : List Bytes) → All IsLabel ls → canonical_labels (dotted ls) ≡ map lowered ls
  unfolding canonical_labels to_lower
  canonical_labels-dotted ls h =
      rw (trim_dot_of-dotted ls, ascii-join ls h, lowered-join ls)
        (labels_of-join (map lowered ls) (lowered-IsLowerLabel ls h))

  reversed :
      (xs ds : List Bytes) (x : Bytes)
      → reverse (map lowered (xs ++ x ∷ ds))
        ≡ reverse (map lowered ds) ++ lowered x ∷ reverse (map lowered xs)
  reversed xs ds x =
      ap reverse (map-append lowered xs (x ∷ ds))
      ∙ reverse-append (map lowered xs) (lowered x ∷ map lowered ds)
      ∙ ap (λ k. k ++ reverse (map lowered xs)) (reverse-cons (lowered x) (map lowered ds))
      ∙ append_assoc (reverse (map lowered ds)) (lowered x ∷ []) (reverse (map lowered xs))

  -- For names of labels of ASCII octets above the space that are no dots: names with the same labels
  -- up to the case of letters compare as equal, a name sorts before those below it, and of other
  -- names the last labels that differ up to case decide, by their octets in lower case.
  pub compare_canonical_names_lem :
      (xs ys cs ds : List Bytes) (x y : Bytes)
      → All IsLabel (xs ++ x ∷ cs)
      → All IsLabel (ys ++ y ∷ ds)
      → map lowered cs ≡ map lowered ds
      → (compare_canonical_names (dotted cs) (dotted ds) ≡ Ordering.eq)
        × (compare_canonical_names (dotted cs) (dotted (ys ++ y ∷ ds)) ≡ Ordering.lt)
        × (lowered x ≢ lowered y
            → compare_canonical_names (dotted (xs ++ x ∷ cs)) (dotted (ys ++ y ∷ ds))
              ≡ compare_bytes (lowered x) (lowered y))
  unfolding compare_canonical_names
  compare_canonical_names_lem xs ys cs ds x y hx hy same =
      let hc = (All-of_append IsLabel xs (x ∷ cs) hx).1.1 in
      let hd = (All-of_append IsLabel ys (y ∷ ds) hy).1.1 in
      let at_c = canonical_labels-dotted cs hc in
      let at_d = canonical_labels-dotted ds hd in
      let below_c = canonical_labels-dotted (xs ++ x ∷ cs) hx in
      let below_d = canonical_labels-dotted (ys ++ y ∷ ds) hy in
      (
        rw (at_c, at_d, same) (labels-IsTotalOrder.self _),
        rw (at_c, below_d, reversed ys ds y, same) (lex-prefix compare_bytes bytes_order _ _ _),
        λ d.
            rw (below_c, below_d, reversed xs cs x, reversed ys ds y, same)
              (lex_differ _ _ _ _ _ d),
      )
