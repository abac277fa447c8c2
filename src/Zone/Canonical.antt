-- ===== src/Zone/Canonical.antt =====
-- zone/canonical.go and dnssec/canon.go: the canonical order of names (RFC 4034 §6.1).
pub mod Order
use dnsdata_go.Common.{
  ℕ, ◌-◌, ◌≡◌, Bool, true, false, ◌||◌, List, [], ◌∷◌, ◌++◌, Option, none, some, reverse, ltb, ◌==◌,
  if◌then◌else◌, length, drop, Bytes, Ordering, compare, equal,
}
use dnsdata_go.Common.Compare.{lex}
use dnsdata_go.Text.{Unicode, to_lower, equal_fold, trim_dot, split_dots, join_dots}

-- `strings.Compare` and `bytes.Compare`
abbrev pub compare_bytes : Bytes → Bytes → Ordering
compare_bytes = lex compare

-- Both files split a lower-cased text the same way: no labels for the empty text.
unfoldable pub labels_of_text : Bytes → List Bytes
labels_of_text [] = []
labels_of_text (c ∷ cs) = split_dots (c ∷ cs)

module _ ⦃u : Unicode⦄ where
  -- `canonicalLabels` of zone/canonical.go, `canonLabels` of dnssec/canon.go.
  unfoldable pub canonical_labels : Bytes → List Bytes
  canonical_labels name = labels_of_text (to_lower (trim_dot name))

  -- `CompareCanonicalNames`. The loop compares the labels from the right until two differ or one
  -- name has no more, and then the numbers of labels.
  unfoldable pub compare_canonical_names : Bytes → Bytes → Ordering
  compare_canonical_names a b =
      lex compare_bytes (reverse (canonical_labels a)) (reverse (canonical_labels b))

  -- `EqualCanonicalNames`
  unfoldable pub equal_canonical_names : Bytes → Bytes → Bool
  equal_canonical_names a b = equal_fold (trim_dot a) (trim_dot b)

  -- `LabelCount`
  unfoldable pub label_count : Bytes → ℕ
  label_count name = length (canonical_labels name)

  -- `LastNLabels`, for a count that is not negative.
  unfoldable pub last_n_labels : Bytes → ℕ → Bytes
  last_n_labels name n =
      let labels = canonical_labels name in
      if n == 0 || ltb (length labels) n
      then b'.' ∷ []
      else join_dots (drop (length labels - n) labels) ++ b'.' ∷ []
