-- ===== src/Verifier/Names/Ancestors.antt =====
-- Common suffixes of names in lower case, as the walk of the chain and the denial proofs use them.
use dnsdata_go.Common.{
  ◌-◌, ◌<◌, ◌≡◌, ◌≢◌, ◌↔◌, inl, inr, refl, ap, ◌∙◌, sym, arith, true, false, List, [], ◌∷◌, ◌++◌,
  reverse, ◌==◌, leb, if◌then◌else◌, Bool-cases, length, length-append, drop, drop-append, All,
  All-append, Bytes, equal, equal_iff,
}
use dnsdata_go.Text.{Unicode, join_dots}
use dnsdata_go.Zone.Canonical.{equal_canonical_names}
use dnsdata_go.Verifier.Names.{
  root_name, dotted, matched_labels, longest_common_ancestor, is_strict_subdomain,
}
use dnsdata_go.Verifier.Names.Lower.{
  IsLowerLabel, canon_labels-dotted, equal_fold-lower, equal_canonical_names-dotted,
}
use mathlib.Core.List.{reverse-append, reverse-reverse, reverse-cons}

-- The first elements, if both lists have one, are not the same.
abbrev pub HeadsDiffer : List Bytes → List Bytes → Type 0
HeadsDiffer (x ∷ xs) (y ∷ ys) = x ≢ y
HeadsDiffer _ _ = Unit

-- The last labels, if there are two, are not the same.
abbrev pub LastsDiffer : List Bytes → List Bytes → Type 0
LastsDiffer p q = HeadsDiffer (reverse p) (reverse q)

differ_nil : (p : List Bytes) → HeadsDiffer p []
differ_nil [] = tt
differ_nil (x ∷ xs) = tt

length-reverse : (xs : List Bytes) → length (reverse xs) ≡ length xs
length-reverse [] = refl
length-reverse (x ∷ xs) =
    rw (reverse-cons x xs, length-append (reverse xs) (x ∷ []), length-reverse xs) (omega arith)

pub All-of_append :
    (P : Bytes → Type 0) (xs ys : List Bytes) → All P (xs ++ ys) → All P xs × All P ys
All-of_append P [] ys h = (tt, h)
All-of_append P (x ∷ xs) ys (h, hs) = let rest = All-of_append P xs ys hs in ((h, rest.0), rest.1)

All-reverse : (P : Bytes → Type 0) (xs : List Bytes) → All P xs → All P (reverse xs)
All-reverse P [] h = tt
All-reverse P (x ∷ xs) (h, hs) =
    rw (reverse-cons x xs) (All-append P (reverse xs) (x ∷ []) (All-reverse P xs hs) (h, tt))

-- Two names and their longest common suffix.
pub record Suffix (xs ys : List Bytes) : Type 0 where
  pub front_x : List Bytes
  pub front_y : List Bytes
  pub common : List Bytes
  pub split_x : xs ≡ front_x ++ common
  pub split_y : ys ≡ front_y ++ common
  pub differ : LastsDiffer front_x front_y

common_part :
    (p s : List Bytes)
    → (if length s == 0 then root_name else dotted (drop (length (p ++ s) - length s) (p ++ s)))
      ≡ dotted s
unfolding dotted join_dots
common_part p [] = refl
common_part p (l ∷ ls) =
    let n : length (p ++ l ∷ ls) - length (l ∷ ls) ≡ length p =
      omega (arith, length-append p (l ∷ ls)) in
    rw (n, drop-append p (l ∷ ls)) (ground arith)

-- The longest common prefix of two lists of labels.
common_prefix :
    (xs ys : List Bytes)
    → (s : List Bytes) × (p : List Bytes) × (q : List Bytes) × (xs ≡ s ++ p)
      × (ys ≡ s ++ q)
      × HeadsDiffer p q
common_prefix [] ys = ([], [], ys, refl, refl, tt)
common_prefix (x ∷ xs) [] = ([], x ∷ xs, [], refl, refl, tt)
common_prefix (x ∷ xs) (y ∷ ys) = elim (Bool-cases (equal x y)) [
  | inl e ↦
      let rest = common_prefix xs ys in
      let same = (equal_iff x y).0 e in
      (x ∷ rest.0, rest.1, rest.2, ap (λ k. x ∷ k) rest.3, cc (same, rest.4), rest.5)
  | inr n ↦ ([], x ∷ xs, y ∷ ys, refl, refl, λ e. ground (arith, equal_iff x y))
]

pub suffix_of : (xs ys : List Bytes) → Suffix xs ys
suffix_of xs ys =
    let parts = common_prefix (reverse xs) (reverse ys) in
    record {
      front_x = reverse parts.1;
      front_y = reverse parts.2;
      common = reverse parts.0;
      split_x = sym (reverse-reverse xs) ∙ ap reverse parts.3 ∙ reverse-append parts.0 parts.1;
      split_y = sym (reverse-reverse ys) ∙ ap reverse parts.4 ∙ reverse-append parts.0 parts.2;
      differ = rw (reverse-reverse parts.1, reverse-reverse parts.2) parts.5;
    }

module _ ⦃u : Unicode⦄ where
  matched_common :
      (s p q : List Bytes)
      → All IsLowerLabel s
      → All IsLowerLabel p
      → All IsLowerLabel q
      → HeadsDiffer p q
      → matched_labels (s ++ p) (s ++ q) ≡ length s
  unfolding matched_labels
  matched_common [] [] q hs hp hq d = refl
  matched_common [] (x ∷ p) [] hs hp hq d = refl
  matched_common [] (x ∷ p) (y ∷ q) hs hp hq d =
      ground (arith, equal_fold-lower x y hp.0 hq.0, equal_iff x y)
  matched_common (x ∷ s) p q (h, hs) hp hq d =
      ground (arith, equal_fold-lower x x h h, equal_iff x x, matched_common s p q hs hp hq d)

  -- `longestCommonAncestor` is the longest common suffix.
  pub longest_common_ancestor_lem :
      (p q s : List Bytes)
      → All IsLowerLabel (p ++ s)
      → All IsLowerLabel (q ++ s)
      → LastsDiffer p q
      → longest_common_ancestor (dotted (p ++ s)) (dotted (q ++ s)) ≡ dotted s
  unfolding longest_common_ancestor
  longest_common_ancestor_lem p q s hx hy d =
      let lx = All-of_append IsLowerLabel p s hx in
      let ly = All-of_append IsLowerLabel q s hy in
      let matched =
        matched_common (reverse s) (reverse p) (reverse q) (All-reverse IsLowerLabel s lx.1)
          (All-reverse IsLowerLabel p lx.0) (All-reverse IsLowerLabel q ly.0) d in
      rw
        (
          canon_labels-dotted (p ++ s) hx,
          canon_labels-dotted (q ++ s) hy,
          reverse-append p s,
          reverse-append q s,
          matched,
          length-reverse s,
        )
        (common_part p s)

  strict_of :
      (p q s : List Bytes)
      → All IsLowerLabel (p ++ s)
      → All IsLowerLabel (q ++ s)
      → LastsDiffer p q
      → is_strict_subdomain (dotted (p ++ s)) (dotted (q ++ s)) ≡ (
          if leb (length (p ++ s)) (length (q ++ s))
          then false
          else equal_canonical_names (dotted s) (dotted (q ++ s)))
  unfolding is_strict_subdomain
  strict_of p q s hx hy d = rw (
    canon_labels-dotted (p ++ s) hx,
    canon_labels-dotted (q ++ s) hy,
    longest_common_ancestor_lem p q s hx hy d,
  )

  below_parent :
      (p q s : List Bytes)
      → length (q ++ s) < length (p ++ s)
      → s ≡ q ++ s
      → (l : Bytes) × (ls : List Bytes) × (p ++ s ≡ (l ∷ ls) ++ (q ++ s))
  below_parent [] q s lt e = absurd (omega (arith, ap length e))
  below_parent (l ∷ ls) q s lt e = (l, ls, ap (λ k. (l ∷ ls) ++ k) e)

  strict_parts :
      (p q s : List Bytes)
      → All IsLowerLabel (p ++ s)
      → All IsLowerLabel (q ++ s)
      → LastsDiffer p q
      → is_strict_subdomain (dotted (p ++ s)) (dotted (q ++ s)) ≡ true
      → (l : Bytes) × (ls : List Bytes) × (p ++ s ≡ (l ∷ ls) ++ (q ++ s))
  strict_parts p q s hx hy d h =
      let hs = All-of_append IsLowerLabel q s hy in
      let same = equal_canonical_names-dotted s (q ++ s) hs.1 hy in
      let test = sym (strict_of p q s hx hy d) ∙ h in
      below_parent p q s (ground (arith, test)) (same.0 (ground (arith, test)))

  strict_from :
      (xs ys p q s : List Bytes)
      → All IsLowerLabel xs
      → All IsLowerLabel ys
      → xs ≡ p ++ s
      → ys ≡ q ++ s
      → LastsDiffer p q
      → is_strict_subdomain (dotted xs) (dotted ys) ≡ true
      → (l : Bytes) × (ls : List Bytes) × (xs ≡ (l ∷ ls) ++ ys)
  strict_from xs ys p q s hx hy ex ey d h =
      rw (ex, ey) (strict_parts p q s (rw ex at hx) (rw ey at hy) d (rw (ex, ey) at h))

  strict_above :
      (xs ys : List Bytes) (l : Bytes) (ls : List Bytes)
      → All IsLowerLabel xs
      → All IsLowerLabel ys
      → xs ≡ (l ∷ ls) ++ ys
      → is_strict_subdomain (dotted xs) (dotted ys) ≡ true
  strict_above xs ys l ls hx hy e =
      rw (e, strict_of (l ∷ ls) [] ys (rw e at hx) hy (differ_nil (reverse (l ∷ ls))))
        (ground (arith, length-append ls ys, (equal_canonical_names-dotted ys ys hy hy).1 refl))

  -- `isStrictSubdomain` holds exactly for the names with a label or more in front of the parent.
  pub is_strict_subdomain_iff :
      (xs ys : List Bytes)
      → All IsLowerLabel xs
      → All IsLowerLabel ys
      → (is_strict_subdomain (dotted xs) (dotted ys) ≡ true)
        ↔ ((l : Bytes) × (ls : List Bytes) × (xs ≡ (l ∷ ls) ++ ys))
  is_strict_subdomain_iff xs ys hx hy = (
    λ h.
        let k = suffix_of xs ys in
        strict_from xs ys k.front_x k.front_y k.common hx hy k.split_x k.split_y k.differ h,
    λ h. strict_above xs ys h.0 h.1 hx hy h.2,
  )
