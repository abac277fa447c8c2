-- ===== src/Resolver/Memory/Suffixes.antt =====
-- The names that `parent` runs through: their labels are the last labels of the name.
use dnsdata_go.Common.{
  ℕ, arith, true, ◌≡◌, ◌⊎◌, ◌↔◌, ◌-◌, true, length, length-append, drop-append, inl, inr, refl, sym,
  ap, ◌∙◌, Bool-cases, List-cases, not, List, [], ◌∷◌, ◌++◌, append_assoc, take, drop, take-drop,
  Bytes, equal, equal_iff, All,
}
use mathlib.Core.List.{Memᴰ}
use mathlib.Core.List.Memᴰ
use dnsdata_go.Text.{same_labels, trim_dot, split_dots, join_dots}
use dnsdata_go.Text.Split.{HasNoDot, split_dots-HasNoDot, split-join_dots}
use dnsdata_go.Zone.Canonical.{labels_of_text}
use dnsdata_go.Verifier.Names.{root_name, dotted, suffix_names}
use dnsdata_go.Verifier.Names.Lower.{trim_dot_of-dotted}
use dnsdata_go.Resolver.Memory.{ZoneIndex, labels, is_at_or_below, parents, rrset, dname_in_parents}

-- The labels of the other name are the last of the name's.
abbrev pub EndsWith : Bytes → Bytes → Type 0
EndsWith name other = (front : List Bytes) × (labels name ≡ front ++ labels other)

same_labels_iff : (xs ys : List Bytes) → (same_labels xs ys ≡ true) ↔ (xs ≡ ys)
unfolding same_labels
same_labels_iff [] [] = (λ h. refl, λ h. refl)
same_labels_iff [] (y ∷ ys) = (λ h. cc, λ h. cc)
same_labels_iff (x ∷ xs) [] = (λ h. cc, λ h. cc)
same_labels_iff (x ∷ xs) (y ∷ ys) =
    let rest = same_labels_iff xs ys in
    let first = equal_iff x y in
    (
      λ h. (let e = first.0 (ground (arith, h)) in let f = rest.0 (ground (arith, h)) in cc),
      λ h. (let e = first.1 cc in let f = rest.1 cc in ground (arith, e, f)),
    )

-- A name is at or below the names whose labels are its last.
pub at_or_below-suffix :
    (name ancestor : Bytes) → is_at_or_below name ancestor ≡ true → EndsWith name ancestor
unfolding is_at_or_below
at_or_below-suffix name ancestor h =
    let n = length (labels name) - length (labels ancestor) in
    let same = (same_labels_iff (drop n (labels name)) (labels ancestor)).0 (ground (arith, h)) in
    (
      take n (labels name),
      sym (take-drop n (labels name)) ∙ ap (λ k. take n (labels name) ++ k) same,
    )

pub suffix-at_or_below :
    (name ancestor : Bytes) (front : List Bytes)
    → labels name ≡ front ++ labels ancestor
    → is_at_or_below name ancestor ≡ true
unfolding is_at_or_below
suffix-at_or_below name ancestor front e =
    let count = length-append front (labels ancestor) in
    let n : length (front ++ labels ancestor) - length (labels ancestor) ≡ length front =
      omega (arith, count) in
    let same = (same_labels_iff (labels ancestor) (labels ancestor)).1 refl in
    rw (e, n, drop-append front (labels ancestor), same) (ground (arith, count))

labels-HasNoDot : (name : Bytes) → All HasNoDot (labels name)
unfolding labels labels_of_text
labels-HasNoDot name = elim (List-cases (trim_dot name)) [
  | inl e ↦ rw (e) tt
  | inr (c, cs, e) ↦ rw (e) (split_dots-HasNoDot (c ∷ cs))
]

-- The name of labels has these labels, or none when its text is the root.
labels-dotted :
    (l : Bytes) (ls : List Bytes)
    → All HasNoDot (l ∷ ls)
    → (labels (dotted (l ∷ ls)) ≡ l ∷ ls) ⊎ (labels (dotted (l ∷ ls)) ≡ [])
unfolding labels labels_of_text
labels-dotted l ls h = elim (List-cases (join_dots (l ∷ ls))) [
  | inl e ↦ inr (rw (trim_dot_of-dotted (l ∷ ls), e) refl)
  | inr (c, cs, e) ↦
      let back = split-join_dots l ls h in
      inl (rw (trim_dot_of-dotted (l ∷ ls), e) (ap split_dots (sym e) ∙ back))
]

append_none : (ls : List Bytes) → ls ≡ ls ++ []
append_none [] = refl
append_none (l ∷ ls) = ap (λ k. l ∷ k) (append_none ls)

none-EndsWith : (name other : Bytes) → labels other ≡ [] → EndsWith name other
none-EndsWith name other e =
    (labels name, append_none (labels name) ∙ ap (λ k. labels name ++ k) (sym e))

suffix_names-EndsWith :
    (name other : Bytes) (front ls : List Bytes)
    → labels name ≡ front ++ ls
    → All HasNoDot ls
    → Memᴰ other (suffix_names ls)
    → EndsWith name other
unfolding suffix_names
suffix_names-EndsWith name other front [] e h m = elim m [ ]
suffix_names-EndsWith name other front (l ∷ ls) e h m = elim (Memᴰ.cases_cons m) [
  | inl s ↦ elim (labels-dotted l ls h) [
    | inl k ↦ (front, e ∙ ap (λ t. front ++ t) (sym k ∙ ap labels (sym s)))
    | inr k ↦ none-EndsWith name other (ap labels s ∙ k)
  ]
  | inr i ↦
      suffix_names-EndsWith name other (front ++ l ∷ []) ls
        (e ∙ sym (append_assoc front (l ∷ []) ls)) (h.1) i
]

no_root_labels : labels root_name ≡ []
unfolding labels labels_of_text trim_dot
no_root_labels = refl

pub root-EndsWith : (name : Bytes) → EndsWith name root_name
root-EndsWith name = none-EndsWith name root_name no_root_labels

All-drop_one : (ls : List Bytes) → All HasNoDot ls → All HasNoDot (drop 1 ls)
All-drop_one [] h = tt
All-drop_one (l ∷ ls) h = h.1

pub parents-EndsWith : (name other : Bytes) → Memᴰ other (parents name) → EndsWith name other
unfolding parents
parents-EndsWith name other m = elim (Memᴰ.append_cases (suffix_names (drop 1 (labels name))) m) [
  | inl i ↦
      suffix_names-EndsWith name other (take 1 (labels name)) (drop 1 (labels name))
        (sym (take-drop 1 (labels name))) (All-drop_one (labels name) (labels-HasNoDot name)) i
  | inr i ↦ elim (Memᴰ.cases_cons i) [
    | inl e ↦ none-EndsWith name other (ap labels e ∙ no_root_labels)
    | inr k ↦ elim k [ ]
  ]
]

-- The owner that `dnameAbove` finds is one of the names.
pub dname_in_parents-Mem :
    (idx : ZoneIndex) (t : ℕ) (names : List Bytes)
    → not (equal (dname_in_parents idx t names) []) ≡ true
    → Memᴰ (dname_in_parents idx t names) names
unfolding dname_in_parents
dname_in_parents-Mem idx t [] h = absurd (ground (arith, h, (equal_iff [] []).1 refl))
dname_in_parents-Mem idx t (n ∷ names) h = elim (Bool-cases (not (is_at_or_below n idx.apex))) [
  | inl y ↦ absurd (ground (arith, rw (y) at h, (equal_iff [] []).1 refl))
  | inr k ↦ elim (List-cases (rrset idx n t)) [
    | inr (rr, rrs, e) ↦ rw (k, e) (Memᴰ.head refl)
    | inl e ↦ elim (Bool-cases (equal n idx.apex)) [
      | inl y ↦ absurd (ground (arith, rw (k, e, y) at h, (equal_iff [] []).1 refl))
      | inr d ↦ rw (k, e, d) (Memᴰ.tail (dname_in_parents-Mem idx t names (rw (k, e, d) at h)))
    ]
  ]
]
