-- ===== src/Verifier/Names.antt =====
-- The helpers on names of verifier/leaf_negative.go, and those of verifier/alias.go and
-- verifier/chain.go.
pub mod Lower
pub mod Ancestors
pub mod Derived
pub mod Canonical
use dnsdata_go.Common.{
  ℕ, suc, ◌-◌, Bool, true, false, ◌&&◌, ◌||◌, List, [], ◌∷◌, ◌++◌, reverse, ltb, leb, ◌==◌,
  if◌then◌else◌, length, take, drop, Bytes, equal,
}
use dnsdata_go.Text.{Unicode, to_lower, equal_fold, trim_space, trim_dot, split_dots, join_dots}
use dnsdata_go.Zone.Canonical.{labels_of_text, equal_canonical_names}

abbrev pub root_name : Bytes
root_name = b'.' ∷ []

-- `strings.Join(labels, ".") + "."`
unfoldable pub dotted : List Bytes → Bytes
dotted labels = join_dots labels ++ root_name

-- The loop of `ancestorsOf` over `labels[i:]`.
unfoldable pub suffix_names : List Bytes → List Bytes
suffix_names [] = []
suffix_names (l ∷ ls) = dotted (l ∷ ls) ∷ suffix_names ls

-- `wildcardAt`
unfoldable pub wildcard_at : Bytes → Bytes
wildcard_at ce = if equal ce root_name then b'*' ∷ root_name else b'*' ∷ b'.' ∷ ce

-- The end of `normalizeQName`: a final dot where there is none.
unfoldable pub with_dot : Bytes → Bytes
with_dot [] = root_name
with_dot (c ∷ []) = if c == b'.' then c ∷ [] else c ∷ root_name
with_dot (c ∷ d ∷ rest) = c ∷ with_dot (d ∷ rest)

-- The loop of `descendantZones`, from the last label to the first.
unfoldable pub descendants : List Bytes → List Bytes
descendants labels = reverse (suffix_names labels)

module _ ⦃u : Unicode⦄ where
  -- `normalizeQName`
  unfoldable pub normalize_q_name : Bytes → Bytes
  normalize_q_name s = with_dot (to_lower (trim_space s))

  -- `descendantZones`
  unfoldable pub descendant_zones : Bytes → List Bytes
  descendant_zones qname =
      let name = normalize_q_name qname in
      if equal name root_name then [] else descendants (split_dots (trim_dot name))

  -- `canonLabelsTrim`
  unfoldable pub canon_labels_trim : Bytes → List Bytes
  canon_labels_trim name = labels_of_text (to_lower (trim_dot (trim_space name)))

  -- `labelCount`
  unfoldable pub label_count_trim : Bytes → ℕ
  label_count_trim name = length (canon_labels_trim name)

  -- `ancestorsOf`
  unfoldable pub ancestors_of : Bytes → List Bytes
  ancestors_of qname =
      let name = to_lower (trim_space qname) in
      if equal name [] || equal name root_name
      then root_name ∷ []
      else suffix_names (split_dots (trim_dot name)) ++ root_name ∷ []

  -- The loop of `nextCloserName`, with the ancestor before the one looked at, or "".
  unfoldable pub next_closer_in : Bytes → Bytes → List Bytes → Bytes
  next_closer_in ce before [] = []
  next_closer_in ce before (a ∷ names) =
      let rest = next_closer_in ce a names in if equal_canonical_names a ce then before else rest

  -- `nextCloserName`
  unfoldable pub next_closer_name : Bytes → Bytes → Bytes
  next_closer_name qname ce = next_closer_in ce [] (ancestors_of qname)

  -- The loop of `longestCommonAncestor` over the labels from the right.
  unfoldable pub matched_labels : List Bytes → List Bytes → ℕ
  matched_labels (x ∷ xs) (y ∷ ys) =
      let rest = matched_labels xs ys in if equal_fold x y then suc rest else 0
  matched_labels _ _ = 0

  -- `longestCommonAncestor`
  unfoldable pub longest_common_ancestor : Bytes → Bytes → Bytes
  longest_common_ancestor a b =
      let la = canon_labels_trim a in
      let matched = matched_labels (reverse la) (reverse (canon_labels_trim b)) in
      if matched == 0 then root_name else dotted (drop (length la - matched) la)

  -- `isStrictSubdomain`
  unfoldable pub is_strict_subdomain : Bytes → Bytes → Bool
  is_strict_subdomain name parent =
      if leb (length (canon_labels_trim name)) (length (canon_labels_trim parent))
      then false
      else equal_canonical_names (longest_common_ancestor name parent) parent

  -- One round of the loop of `closestEncloserNSEC`.
  unfoldable pub better_ancestor : Bytes → Bytes → Bytes → Bytes
  better_ancestor best qname c =
      let anc = longest_common_ancestor qname c in
      if ltb (label_count_trim best) (label_count_trim anc) then anc else best

  -- `closestEncloserNSEC`
  unfoldable pub closest_encloser_nsec : Bytes → Bytes → Bytes → Bytes
  closest_encloser_nsec qname owner next =
      better_ancestor (better_ancestor [] qname owner) qname next

  -- The loop of `synthesiseDNAMETarget` over the labels of the owner.
  unfoldable pub ends_with : List Bytes → List Bytes → Bool
  ends_with (q ∷ qs) (o ∷ os) = equal_fold q o && ends_with qs os
  ends_with _ [] = true
  ends_with [] _ = false

  -- `synthesiseDNAMETarget`
  unfoldable pub synthesise_dname_target : Bytes → Bytes → Bytes → Bytes
  synthesise_dname_target qname owner target =
      let q = canon_labels_trim qname in
      let o = canon_labels_trim owner in
      let kept = length q - length o in
      if leb (length q) (length o)
      then []
      else if ends_with (drop kept q) o
      then dotted (take kept q ++ canon_labels_trim target)
      else []
