-- ===== src/Zone/Canonical/Order.antt =====
-- The canonical order is a total order of names up to case and the final dot.
use dnsdata_go.Common.{
  ◌≡◌, ◌≢◌, ◌↔◌, refl, sym, ap, ◌∙◌, arith, true, List, [], ◌∷◌, ◌++◌, map, reverse, Bytes,
  Ordering, compare, equal, equal_iff,
}
use dnsdata_go.Common.Compare.{
  IsTotalOrder, flip, lex, lex-IsTotalOrder, lex-prefix, compare-IsTotalOrder,
}
use dnsdata_go.Text.{Unicode, is_ascii, lower_octet, to_lower, equal_fold, trim_dot}
use dnsdata_go.Text.Split.{split_dots_injective, split_dots-ne-nil}
use dnsdata_go.Zone.Canonical.{
  compare_bytes, labels_of_text, canonical_labels, compare_canonical_names, equal_canonical_names,
}
use mathlib.Core.List.{reverse-append, reverse-reverse}

pub labels-IsTotalOrder : IsTotalOrder (lex compare_bytes)
labels-IsTotalOrder = lex-IsTotalOrder compare_bytes (lex-IsTotalOrder compare compare-IsTotalOrder)

abbrev order : IsTotalOrder (lex compare_bytes)
order = labels-IsTotalOrder

reverse_injective : (a b : List Bytes) → reverse a ≡ reverse b → a ≡ b
reverse_injective a b h = sym (reverse-reverse a) ∙ ap reverse h ∙ reverse-reverse b

reverse-ne-nil : (l : Bytes) (ls : List Bytes) → reverse (l ∷ ls) ≢ []
reverse-ne-nil l ls e = cc (reverse_injective (l ∷ ls) [] e)

prefix_before : (xs zs : List Bytes) → zs ≢ [] → lex compare_bytes xs (xs ++ zs) ≡ Ordering.lt
prefix_before xs [] h = absurd (h refl)
prefix_before xs (z ∷ zs) h =
    lex-prefix compare_bytes (lex-IsTotalOrder compare compare-IsTotalOrder) xs z zs

labels_of_text_injective : (a b : Bytes) → labels_of_text a ≡ labels_of_text b → a ≡ b
unfolding labels_of_text
labels_of_text_injective [] [] h = refl
labels_of_text_injective [] (y ∷ ys) h = absurd (split_dots-ne-nil (y ∷ ys) (sym h))
labels_of_text_injective (x ∷ xs) [] h = absurd (split_dots-ne-nil (x ∷ xs) h)
labels_of_text_injective (x ∷ xs) (y ∷ ys) h = split_dots_injective (x ∷ xs) (y ∷ ys) h

is_ascii-trim_dot : (s : Bytes) → is_ascii s ≡ true → is_ascii (trim_dot s) ≡ true
unfolding is_ascii trim_dot
is_ascii-trim_dot [] h = refl
is_ascii-trim_dot (c ∷ []) h = ground arith
is_ascii-trim_dot (c ∷ d ∷ rest) h = ground (arith, is_ascii-trim_dot (d ∷ rest))

module _ ⦃u : Unicode⦄ where
  -- Two names compare equal exactly when they have the same labels in lower case, and exchanging
  -- the names turns the result round.
  pub compare_canonical_names_order :
      (a b : Bytes)
      → ((compare_canonical_names a b ≡ Ordering.eq) ↔ (canonical_labels a ≡ canonical_labels b))
        × (compare_canonical_names b a ≡ flip (compare_canonical_names a b))
  unfolding compare_canonical_names
  compare_canonical_names_order a b =
      ((λ e. reverse_injective _ _ (order.same _ _ e), λ e. rw e (order.self _)), order.swap _ _)

  -- The order is transitive.
  pub compare_canonical_names_trans :
      (a b d : Bytes)
      → compare_canonical_names a b ≡ Ordering.lt
      → compare_canonical_names b d ≡ Ordering.lt
      → compare_canonical_names a d ≡ Ordering.lt
  unfolding compare_canonical_names
  compare_canonical_names_trans a b d h k = order.lt_trans _ _ _ h k

  -- A name sorts before every name below it.
  pub compare_descendant :
      (parent child : Bytes) (l : Bytes) (ls : List Bytes)
      → canonical_labels child ≡ (l ∷ ls) ++ canonical_labels parent
      → compare_canonical_names parent child ≡ Ordering.lt
  unfolding compare_canonical_names
  compare_descendant parent child l ls h =
      rw (h, reverse-append (l ∷ ls) (canonical_labels parent))
        (prefix_before (reverse (canonical_labels parent)) (reverse (l ∷ ls)) (reverse-ne-nil l ls))

  to_lower_ascii : (s : Bytes) → is_ascii s ≡ true → to_lower s ≡ map lower_octet s
  unfolding to_lower
  to_lower_ascii s h = rw h

  equal_fold_ascii :
      (a b : Bytes)
      → is_ascii a ≡ true
      → is_ascii b ≡ true
      → equal_fold a b ≡ equal (to_lower a) (to_lower b)
  unfolding equal_fold
  equal_fold_ascii a b ha hb = rw (ha, hb, to_lower_ascii a ha, to_lower_ascii b hb)

  equal_canonical_names_lower :
      (a b : Bytes)
      → is_ascii a ≡ true
      → is_ascii b ≡ true
      → equal_canonical_names a b ≡ equal (to_lower (trim_dot a)) (to_lower (trim_dot b))
  unfolding equal_canonical_names
  equal_canonical_names_lower a b ha hb =
      equal_fold_ascii _ _ (is_ascii-trim_dot a ha) (is_ascii-trim_dot b hb)

  -- `EqualCanonicalNames` on ASCII names agrees with `CompareCanonicalNames`.
  pub equal_canonical_names_iff :
      (a b : Bytes)
      → is_ascii a ≡ true
      → is_ascii b ≡ true
      → (equal_canonical_names a b ≡ true) ↔ (compare_canonical_names a b ≡ Ordering.eq)
  unfolding canonical_labels
  equal_canonical_names_iff a b ha hb =
      let same = (compare_canonical_names_order a b).0 in
      let texts = equal_iff (to_lower (trim_dot a)) (to_lower (trim_dot b)) in
      rw (equal_canonical_names_lower a b ha hb) (
        λ e. same.1 (ap labels_of_text (texts.0 e)),
        λ e. texts.1 (labels_of_text_injective _ _ (same.0 e)),
      )
