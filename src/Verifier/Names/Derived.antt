-- ===== src/Verifier/Names/Derived.antt =====
-- The names that the denial proofs and the redirections derive from a name in lower case.
use dnsdata_go.Common.{
  ℕ, ◌-◌, ◌<◌, ◌≡◌, ◌↔◌, inl, inr, refl, ap, ◌∙◌, sym, arith, true, false, List, [], ◌∷◌, ◌++◌, ltb,
  ◌==◌, ◌||◌, if◌then◌else◌, Bool-cases, length, length-append, drop, take, drop-append,
  take-append, take-drop, length-drop, length-take_le, All, All-append, Bytes, equal, equal_iff,
}
use dnsdata_go.Text.Space.{trim_space_none}
use dnsdata_go.Text.{Unicode, is_ascii, equal_fold, join_dots, to_lower, trim_dot}
use dnsdata_go.Zone.Canonical.{equal_canonical_names, labels_of_text}
use dnsdata_go.Verifier.Names.{
  root_name, dotted, suffix_names, canon_labels_trim, label_count_trim, longest_common_ancestor,
  is_strict_subdomain, ancestors_of, next_closer_in, next_closer_name, better_ancestor,
  closest_encloser_nsec, ends_with, synthesise_dname_target,
}
use dnsdata_go.Verifier.Names.Lower.{
  IsLowerLabel, canon_labels-dotted, equal_fold-lower, equal_canonical_names-dotted,
  trim_space-dotted, to_lower-dotted, trim_dot_of-dotted, split-join,
}
use dnsdata_go.Verifier.Names.Ancestors.{
  Suffix, LastsDiffer, longest_common_ancestor_lem, is_strict_subdomain_iff, All-of_append,
}

dotted-ne :
    (l : Bytes) (ls : List Bytes)
    → IsLowerLabel l
    → (equal (dotted (l ∷ ls)) [] || equal (dotted (l ∷ ls)) root_name) ≡ false
unfolding dotted join_dots equal
dotted-ne [] ls h = absurd (omega (arith, h.0))
dotted-ne (c ∷ cs) [] h = ground arith
dotted-ne (c ∷ cs) (m ∷ ls) h = ground arith

module _ ⦃u : Unicode⦄ where
  -- `ancestorsOf` is the name and every name above it, the root last.
  ancestors_of_lem :
      (ls : List Bytes)
      → All IsLowerLabel ls
      → ancestors_of (dotted ls) ≡ suffix_names ls ++ root_name ∷ []
  unfolding ancestors_of
  ancestors_of_lem [] h =
      rw (trim_space-dotted [] tt, to_lower-dotted [] tt)
        (unfold dotted join_dots suffix_names equal in refl)
  ancestors_of_lem (l ∷ ls) h =
      rw
        (
          trim_space-dotted (l ∷ ls) h,
          to_lower-dotted (l ∷ ls) h,
          dotted-ne l ls h.0,
          trim_dot_of-dotted (l ∷ ls),
          split-join l ls h,
        )
        refl

  suffix_from :
      (xs ys p q s : List Bytes)
      → All IsLowerLabel xs
      → All IsLowerLabel ys
      → xs ≡ p ++ s
      → ys ≡ q ++ s
      → LastsDiffer p q
      → longest_common_ancestor (dotted xs) (dotted ys) ≡ dotted s
  suffix_from xs ys p q s hx hy ex ey d =
      rw (ex, ey) (longest_common_ancestor_lem p q s (rw ex at hx) (rw ey at hy) d)

  common-lower :
      (xs ys : List Bytes) (k : Suffix xs ys) → All IsLowerLabel xs → All IsLowerLabel k.common
  common-lower xs ys k h = (All-of_append IsLowerLabel k.front_x k.common (rw k.split_x at h)).1

  lca_suffix :
      (xs ys : List Bytes) (k : Suffix xs ys)
      → All IsLowerLabel xs
      → All IsLowerLabel ys
      → longest_common_ancestor (dotted xs) (dotted ys) ≡ dotted k.common
  lca_suffix xs ys k hx hy =
      suffix_from xs ys k.front_x k.front_y k.common hx hy k.split_x k.split_y k.differ

  count-dotted : (ls : List Bytes) → All IsLowerLabel ls → label_count_trim (dotted ls) ≡ length ls
  unfolding label_count_trim
  count-dotted ls h = ap length (canon_labels-dotted ls h)

  count_empty : label_count_trim [] ≡ 0
  unfolding label_count_trim canon_labels_trim labels_of_text to_lower is_ascii trim_dot
  count_empty = rw (trim_space_none [] refl tt) refl

  -- `closestEncloserNSEC` is the longer of the suffixes that the name shares with the owner and
  -- with the next name, and "" when it shares no label with either.
  pub closest_encloser_nsec_lem :
      (q o n : List Bytes) (k : Suffix q o) (m : Suffix q n)
      → All IsLowerLabel q
      → All IsLowerLabel o
      → All IsLowerLabel n
      → closest_encloser_nsec (dotted q) (dotted o) (dotted n) ≡ (
          if ltb (length k.common) (length m.common)
          then dotted m.common
          else if length k.common == 0
          then []
          else dotted k.common)
  unfolding closest_encloser_nsec better_ancestor
  closest_encloser_nsec_lem q o n k m hq ho hn =
      rw
        (
          lca_suffix q o k hq ho,
          lca_suffix q n m hq hn,
          count_empty,
          count-dotted k.common (common-lower q o k hq),
          count-dotted m.common (common-lower q n m hq),
        )
        (elim (Bool-cases (ltb 0 (length k.common))) [
          | inl some_label ↦
              rw (some_label, count-dotted k.common (common-lower q o k hq)) (ground arith)
          | inr none_shared ↦ rw (none_shared, count_empty) (ground arith)
        ])

  longer_differs :
      (xs ys : List Bytes)
      → All IsLowerLabel xs
      → All IsLowerLabel ys
      → length ys < length xs
      → equal_canonical_names (dotted xs) (dotted ys) ≡ false
  longer_differs xs ys hx hy lt =
      elim (Bool-cases (equal_canonical_names (dotted xs) (dotted ys))) [
        | inl e ↦ absurd (omega (arith, ap length ((equal_canonical_names-dotted xs ys hx hy).0 e)))
        | inr n ↦ n
      ]

  closer_here :
      (ce : List Bytes) (before : Bytes)
      → All IsLowerLabel ce
      → next_closer_in (dotted ce) before (suffix_names ce ++ root_name ∷ []) ≡ before
  unfolding next_closer_in suffix_names equal_canonical_names equal_fold is_ascii trim_dot dotted
      join_dots
  closer_here [] before h = rw ((equal_canonical_names-dotted [] [] tt tt).1 refl) refl
  closer_here (l ∷ ls) before h =
      rw ((equal_canonical_names-dotted (l ∷ ls) (l ∷ ls) h h).1 refl) refl

  closer_below :
      (front : List Bytes) (l : Bytes) (ce : List Bytes) (before : Bytes)
      → All IsLowerLabel (front ++ l ∷ ce)
      → next_closer_in (dotted ce) before (suffix_names (front ++ l ∷ ce) ++ root_name ∷ [])
        ≡ dotted (l ∷ ce)
  unfolding next_closer_in suffix_names
  closer_below [] l ce before h =
      rw (longer_differs (l ∷ ce) ce h h.1 (omega arith), closer_here ce (dotted (l ∷ ce)) h.1) refl
  closer_below (x ∷ front) l ce before h =
      let above = (All-of_append IsLowerLabel front (l ∷ ce) h.1).1 in
      rw
        (
          longer_differs (x ∷ front ++ l ∷ ce) ce h above.1
              (omega (arith, length-append front (l ∷ ce))),
          closer_below front l ce (dotted (x ∷ front ++ l ∷ ce)) h.1,
        )
        refl

  -- `nextCloserName` is the ancestor with one label more.
  pub next_closer_name_lem :
      (front : List Bytes) (l : Bytes) (ce : List Bytes)
      → All IsLowerLabel (front ++ l ∷ ce)
      → next_closer_name (dotted (front ++ l ∷ ce)) (dotted ce) ≡ dotted (l ∷ ce)
  unfolding next_closer_name
  next_closer_name_lem front l ce h = rw (ancestors_of_lem _ h) (closer_below front l ce [] h)

  ends_with_iff :
      (xs ys : List Bytes)
      → All IsLowerLabel xs
      → All IsLowerLabel ys
      → length xs ≡ length ys
      → (ends_with xs ys ≡ true) ↔ (xs ≡ ys)
  unfolding ends_with
  ends_with_iff [] [] hx hy e = ground arith
  ends_with_iff (x ∷ xs) [] hx hy e = absurd (omega (arith, e))
  ends_with_iff [] (y ∷ ys) hx hy e = absurd (omega (arith, e))
  ends_with_iff (x ∷ xs) (y ∷ ys) (hx, hxs) (hy, hys) e =
      ground (arith, equal_fold-lower x y hx hy, equal_iff x y, ends_with_iff xs ys hxs hys)

  -- `synthesiseDNAMETarget` puts the target in the place of the owner.
  pub synthesise_below :
      (front owner target : List Bytes)
      → 0 < length front
      → All IsLowerLabel front
      → All IsLowerLabel owner
      → All IsLowerLabel target
      → synthesise_dname_target (dotted (front ++ owner)) (dotted owner) (dotted target)
        ≡ dotted (front ++ target)
  unfolding synthesise_dname_target
  synthesise_below front owner target some_label h ho ht =
      let kept : length (front ++ owner) - length owner ≡ length front =
        omega (arith, length-append front owner) in
      rw
        (
          canon_labels-dotted (front ++ owner) (All-append IsLowerLabel front owner h ho),
          canon_labels-dotted owner ho,
          canon_labels-dotted target ht,
          kept,
          drop-append front owner,
          take-append front owner,
          (ends_with_iff owner owner ho ho refl).1 refl,
        )
        (ground (arith, length-append front owner))

  strict_refuted :
      (front q o : List Bytes)
      → All IsLowerLabel q
      → All IsLowerLabel o
      → 0 < length front
      → q ≡ front ++ o
      → ¬ (is_strict_subdomain (dotted q) (dotted o) ≡ false)
  strict_refuted [] q o hq ho lt e h = absurd (omega arith)
  strict_refuted (l ∷ ls) q o hq ho lt e h =
      cc ((is_strict_subdomain_iff q o hq ho).1 (l, ls, e), h)

  not_below :
      (q o : List Bytes)
      → All IsLowerLabel q
      → All IsLowerLabel o
      → is_strict_subdomain (dotted q) (dotted o) ≡ false
      → length o < length q
      → ends_with (drop (length q - length o) q) o ≡ false
  not_below q o hq ho h lt = elim (Bool-cases (ends_with (drop (length q - length o) q) o)) [
    | inl e ↦
        let kept : ℕ = length q - length o in
        let parts = take-drop kept q in
        let lower = All-of_append IsLowerLabel (take kept q) (drop kept q) (rw parts hq) in
        let same =
          (ends_with_iff (drop kept q) o lower.1 ho (omega (arith, length-drop kept q))).0 e in
        absurd (
          strict_refuted (take kept q) q o hq ho
            (omega (arith, length-take_le kept q (omega arith)))
            (sym parts ∙ ap (λ k. take kept q ++ k) same) h)
    | inr n ↦ n
  ]

  -- It returns "" for a name that is not below the owner.
  pub synthesise_elsewhere :
      (qname owner target : List Bytes)
      → All IsLowerLabel qname
      → All IsLowerLabel owner
      → is_strict_subdomain (dotted qname) (dotted owner) ≡ false
      → synthesise_dname_target (dotted qname) (dotted owner) (dotted target) ≡ []
  unfolding synthesise_dname_target
  synthesise_elsewhere qname owner target hq ho h =
      rw (canon_labels-dotted qname hq, canon_labels-dotted owner ho)
        (ground (arith, not_below qname owner hq ho h))
