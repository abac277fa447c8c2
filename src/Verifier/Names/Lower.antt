-- ===== src/Verifier/Names/Lower.antt =====
-- Absolute names in lower case, the form that the walk of the chain gives its names: what the
-- functions of Go's package strings make of them.
use dnsdata_go.Common.{
  equal, equal_iff, ◌↔◌, ℕ, ◌<◌, ◌≡◌, ◌≢◌, ◌⊎◌, refl, ap, ◌∙◌, sym, arith, true, List, [], ◌∷◌,
  ◌++◌, map, length, All, All-append, Bytes,
}
use dnsdata_go.Text.{
  Unicode, is_ascii, lower_octet, to_lower, equal_fold, trim_space, trim_dot, split_dots, join_dots,
}
use dnsdata_go.Text.Space.{trim_space_none}
use dnsdata_go.Zone.Canonical.{labels_of_text, equal_canonical_names}
use dnsdata_go.Verifier.Names.{root_name, dotted, canon_labels_trim}

-- An octet above the space that is ASCII, no dot and no capital.
abbrev pub IsLowerOctet : ℕ → Type 0
IsLowerOctet c = (32 < c) × (c < 128) × (c ≢ b'.') × ((c < b'A') ⊎ (b'Z' < c))

abbrev pub IsLowerLabel : Bytes → Type 0
IsLowerLabel l = (0 < length l) × All IsLowerOctet l

-- An octet of such a name.
abbrev IsNameOctet : ℕ → Type 0
IsNameOctet c = (32 < c) × (c < 128) × ((c < b'A') ⊎ (b'Z' < c))

name_octets : (l : Bytes) → All IsLowerOctet l → All IsNameOctet l
name_octets [] h = tt
name_octets (c ∷ cs) (h, hs) = ((h.0, h.1, h.3), name_octets cs hs)

join-name_octets : (ls : List Bytes) → All IsLowerLabel ls → All IsNameOctet (join_dots ls)
unfolding join_dots
join-name_octets [] h = tt
join-name_octets (l ∷ []) (h, hs) = name_octets l h.1
join-name_octets (l ∷ m ∷ ls) (h, hs) =
    All-append IsNameOctet l (b'.' ∷ join_dots (m ∷ ls)) (name_octets l h.1)
      (ground arith, join-name_octets (m ∷ ls) hs)

dotted-name_octets : (ls : List Bytes) → All IsLowerLabel ls → All IsNameOctet (dotted ls)
unfolding dotted
dotted-name_octets ls h =
    All-append IsNameOctet (join_dots ls) root_name (join-name_octets ls h) (ground arith)

ascii_octets : (s : Bytes) → All IsNameOctet s → is_ascii s ≡ true
unfolding is_ascii
ascii_octets [] h = refl
ascii_octets (c ∷ cs) (h, hs) = ground (arith, ascii_octets cs hs)

lower_octets : (s : Bytes) → All IsNameOctet s → map lower_octet s ≡ s
unfolding lower_octet
lower_octets [] h = refl
lower_octets (c ∷ cs) (h, hs) = ground (arith, lower_octets cs hs)

above_space : (s : Bytes) → All IsNameOctet s → All (λ c. 32 < c) s
above_space [] h = tt
above_space (c ∷ cs) (h, hs) = (h.0, above_space cs hs)

pub trim_dot-dotted : (s : Bytes) → trim_dot (s ++ root_name) ≡ s
unfolding trim_dot
trim_dot-dotted [] = refl
trim_dot-dotted (c ∷ []) = refl
trim_dot-dotted (c ∷ d ∷ rest) = ap (λ t. c ∷ t) (trim_dot-dotted (d ∷ rest))

pub trim_dot_of-dotted : (ls : List Bytes) → trim_dot (dotted ls) ≡ join_dots ls
unfolding dotted
trim_dot_of-dotted ls = trim_dot-dotted (join_dots ls)

split_label :
    (l rest : Bytes) → All IsLowerOctet l → split_dots (l ++ b'.' ∷ rest) ≡ l ∷ split_dots rest
unfolding split_dots
split_label [] rest h = refl
split_label (c ∷ cs) rest (h, hs) = ground (arith, split_label cs rest hs)

split_last : (l : Bytes) → All IsLowerOctet l → split_dots l ≡ l ∷ []
unfolding split_dots
split_last [] h = refl
split_last (c ∷ cs) (h, hs) = ground (arith, split_last cs hs)

pub split-join :
    (l : Bytes) (ls : List Bytes)
    → All IsLowerLabel (l ∷ ls)
    → split_dots (join_dots (l ∷ ls)) ≡ l ∷ ls
unfolding join_dots
split-join l [] (h, hs) = split_last l h.1
split-join l (m ∷ ls) (h, hs) =
    split_label l (join_dots (m ∷ ls)) h.1 ∙ ap (λ k. l ∷ k) (split-join m ls hs)

pub labels_of-join : (ls : List Bytes) → All IsLowerLabel ls → labels_of_text (join_dots ls) ≡ ls
unfolding labels_of_text join_dots
labels_of-join [] h = refl
labels_of-join ([] ∷ ls) (h, hs) = absurd (omega (arith, h.0))
labels_of-join ((c ∷ cs) ∷ []) h = split-join (c ∷ cs) [] h
labels_of-join ((c ∷ cs) ∷ m ∷ ls) h = split-join (c ∷ cs) (m ∷ ls) h

module _ ⦃u : Unicode⦄ where
  pub lower_name : (s : Bytes) → All IsNameOctet s → to_lower s ≡ s
  unfolding to_lower
  lower_name s h = rw (ascii_octets s h, lower_octets s h)

  pub trim_space-dotted :
      (ls : List Bytes) → All IsLowerLabel ls → trim_space (dotted ls) ≡ dotted ls
  trim_space-dotted ls h =
      let octets = dotted-name_octets ls h in
      trim_space_none _ (ascii_octets _ octets) (above_space _ octets)

  pub to_lower-dotted : (ls : List Bytes) → All IsLowerLabel ls → to_lower (dotted ls) ≡ dotted ls
  to_lower-dotted ls h = lower_name _ (dotted-name_octets ls h)

  pub to_lower-join :
      (ls : List Bytes) → All IsLowerLabel ls → to_lower (join_dots ls) ≡ join_dots ls
  to_lower-join ls h = lower_name _ (join-name_octets ls h)

  -- The labels of a name.
  pub canon_labels-dotted :
      (ls : List Bytes) → All IsLowerLabel ls → canon_labels_trim (dotted ls) ≡ ls
  unfolding canon_labels_trim
  canon_labels-dotted ls h =
      rw (trim_space-dotted ls h, trim_dot_of-dotted ls, to_lower-join ls h) (labels_of-join ls h)

  -- Labels in lower case are compared as they are.
  pub equal_fold-lower :
      (x y : Bytes) → IsLowerLabel x → IsLowerLabel y → equal_fold x y ≡ equal x y
  unfolding equal_fold
  equal_fold-lower x y h k =
      let hx = name_octets x h.1 in
      let hy = name_octets y k.1 in
      rw (ascii_octets x hx, ascii_octets y hy, lower_octets x hx, lower_octets y hy) refl

  join_injective :
      (xs ys : List Bytes)
      → All IsLowerLabel xs
      → All IsLowerLabel ys
      → join_dots xs ≡ join_dots ys
      → xs ≡ ys
  join_injective xs ys h k e = sym (labels_of-join xs h) ∙ ap labels_of_text e ∙ labels_of-join ys k

  -- `EqualCanonicalNames` on two names compares their labels.
  pub equal_canonical_names-dotted :
      (xs ys : List Bytes)
      → All IsLowerLabel xs
      → All IsLowerLabel ys
      → (equal_canonical_names (dotted xs) (dotted ys) ≡ true) ↔ (xs ≡ ys)
  unfolding equal_canonical_names equal_fold
  equal_canonical_names-dotted xs ys h k =
      let hx = join-name_octets xs h in
      let hy = join-name_octets ys k in
      let texts = equal_iff (join_dots xs) (join_dots ys) in
      rw
        (
          trim_dot_of-dotted xs,
          trim_dot_of-dotted ys,
          ascii_octets _ hx,
          ascii_octets _ hy,
          lower_octets _ hx,
          lower_octets _ hy,
        )
        (λ e. join_injective xs ys h k (texts.0 e), λ e. texts.1 (ap join_dots e))
