-- ===== src/Verifier/Steps/Wildcards.antt =====
-- The names that `detectWildcard` derives from a Labels field.
use dnsdata_go.Common.{
  none, false, ℕ, ◌+◌, ◌-◌, ◌≡◌, refl, sym, arith, List, [], ◌∷◌, ◌++◌, leb, some, length,
  length-append, drop-append, All, Bytes, append_assoc,
}
use dnsdata_go.Text.{Unicode, join_dots}
use dnsdata_go.Zone.Canonical.{canonical_labels, label_count, last_n_labels}
use dnsdata_go.Verifier.Names.{dotted, next_closer_name}
use dnsdata_go.Verifier.Names.Lower.{
  IsLowerLabel, trim_dot_of-dotted, to_lower-join, labels_of-join,
}
use dnsdata_go.Verifier.Names.Derived.{next_closer_name_lem}
use dnsdata_go.Verifier.Steps.{wildcard_info, detect_wildcard}

module _ ⦃u : Unicode⦄ where
  canonical-dotted : (ls : List Bytes) → All IsLowerLabel ls → canonical_labels (dotted ls) ≡ ls
  unfolding canonical_labels
  canonical-dotted ls h = rw (trim_dot_of-dotted ls, to_lower-join ls h) (labels_of-join ls h)

  last_labels :
      (front ce : List Bytes)
      → All IsLowerLabel (front ++ ce)
      → last_n_labels (dotted (front ++ ce)) (length ce) ≡ dotted ce
  unfolding last_n_labels dotted join_dots
  last_labels front [] h = refl
  last_labels front (l ∷ ce) h =
      let n : length (front ++ l ∷ ce) - length (l ∷ ce) ≡ length front =
        omega (arith, length-append front (l ∷ ce)) in
      rw (canonical-dotted (front ++ l ∷ ce) h, n, drop-append front (l ∷ ce))
        (ground (arith, length-append front (l ∷ ce)))

  last_labels_of :
      (xs front ce : List Bytes)
      → xs ≡ front ++ ce
      → All IsLowerLabel xs
      → last_n_labels (dotted xs) (length ce) ≡ dotted ce
  last_labels_of xs front ce e h = rw e (last_labels front ce (rw e at h))

  info_names :
      (front : List Bytes) (l : Bytes) (ce : List Bytes)
      → All IsLowerLabel (front ++ l ∷ ce)
      → wildcard_info (dotted (front ++ l ∷ ce)) (length ce) ≡ (record {
        source = b'*' ∷ b'.' ∷ dotted ce;
        closest_encloser = dotted ce;
        next_closer = next_closer_name (dotted (front ++ l ∷ ce)) (dotted ce);
        proof_reason = none;
      })
  unfolding wildcard_info
  info_names front l ce h =
      let one_more : length ce + 1 ≡ length (l ∷ ce) = omega arith in
      rw
        (
          last_labels_of (front ++ l ∷ ce) (front ++ l ∷ []) ce
              (sym (append_assoc front (l ∷ []) ce)) h,
          one_more,
          last_labels front (l ∷ ce) h,
          next_closer_name_lem front l ce h,
        )
        refl

  fewer_labels :
      (front : List Bytes) (l : Bytes) (ce : List Bytes)
      → All IsLowerLabel (front ++ l ∷ ce)
      → leb (label_count (dotted (front ++ l ∷ ce))) (length ce) ≡ false
  unfolding label_count
  fewer_labels front l ce h =
      rw (canonical-dotted (front ++ l ∷ ce) h) (ground (arith, length-append front (l ∷ ce)))

  -- For a signature with the labels of an ancestor, the closest encloser is the ancestor and the
  -- next closer name is that of `nextCloserName`.
  pub detect_wildcard_names :
      (front : List Bytes) (l : Bytes) (ce : List Bytes) (sigs : List ℕ)
      → All IsLowerLabel (front ++ l ∷ ce)
      → detect_wildcard (dotted (front ++ l ∷ ce)) (length ce ∷ sigs)
        ≡ some (record {
          source = b'*' ∷ b'.' ∷ dotted ce;
          closest_encloser = dotted ce;
          next_closer = next_closer_name (dotted (front ++ l ∷ ce)) (dotted ce);
          proof_reason = none;
        })
  unfolding detect_wildcard
  detect_wildcard_names front l ce sigs h =
      rw (fewer_labels front l ce h, info_names front l ce h) refl
