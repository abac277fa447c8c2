-- ===== src/Tests/Sorting.antt =====
-- Insertion sort, which keeps what `slices.SortFunc` promises.
use dnsdata_go.Common.{
  ◌≡◌, ◌≢◌, ◌↔◌, ◌⊎◌, inl, inr, sym, subst, List, [], ◌∷◌, Bytes, Ordering, compare, arith,
}
use mathlib.Core.List.{Memᴰ}
use mathlib.Core.List.Memᴰ
use dnsdata_go.Common.Compare.{Ordering-cases, IsTotalOrder, compare-IsTotalOrder, lex-IsTotalOrder}
use dnsdata_go.Zone.Canonical.{compare_bytes}
use dnsdata_go.Dnssec.Zone.Digest.Order.{SameMembers, IsAscending, Sorts, lt_of_lt_le}

unfoldable pub insert : {A : Type 0} → (A → A → Ordering) → A → List A → List A
insert c x [] = x ∷ []
insert c x (y ∷ ys) =
    let rest = insert c x ys in elim (c x y) [ Ordering.gt ↦ y ∷ rest | _ ↦ x ∷ y ∷ ys ]

unfoldable pub insertion_sort : {A : Type 0} → (A → A → Ordering) → List A → List A
unfolding insert
insertion_sort c [] = []
insertion_sort c (x ∷ xs) = insert c x (insertion_sort c xs)

-- What inserting in front of a first element comes to.
insert-cases :
    {A : Type 0} (c : A → A → Ordering) (x y : A) (ys : List A)
    → ((c x y ≡ Ordering.gt) × (insert c x (y ∷ ys) ≡ y ∷ insert c x ys))
      ⊎ ((c x y ≢ Ordering.gt) × (insert c x (y ∷ ys) ≡ x ∷ y ∷ ys))
unfolding insert
insert-cases c x y ys = elim (Ordering-cases (c x y)) [
  | inl e ↦ inr (λ f. absurd (cc), rw (e, insert))
  | inr (inl e) ↦ inr (λ f. absurd (cc), rw (e, insert))
  | inr (inr e) ↦ inl (e, rw (e, insert))
]

Mem-insert :
    {A : Type 0} (c : A → A → Ordering) (x z : A) (ys : List A)
    → Memᴰ z (insert c x ys) ↔ Memᴰ z (x ∷ ys)
unfolding insert
Mem-insert c x z [] = (λ m. m, λ m. m)
Mem-insert c x z (y ∷ ys) =
    let below = Mem-insert c x z ys in
    elim (insert-cases c x y ys) [
      | inr (le, e) ↦ rw e (λ m. m, λ m. m)
      | inl (gt, e) ↦ rw e (
        λ m. elim (Memᴰ.cases_cons m) [
          | inl f ↦ Memᴰ.tail (Memᴰ.head f)
          | inr i ↦ elim (Memᴰ.cases_cons (below.0 i)) [
            | inl f ↦ Memᴰ.head f
            | inr j ↦ Memᴰ.tail (Memᴰ.tail j)
          ]
        ],
        λ m. elim (Memᴰ.cases_cons m) [
          | inl f ↦ Memᴰ.tail (below.1 (Memᴰ.head f))
          | inr i ↦ elim (Memᴰ.cases_cons i) [
            | inl f ↦ Memᴰ.head f
            | inr j ↦ Memᴰ.tail (below.1 (Memᴰ.tail j))
          ]
        ],
      )
    ]

pub sort-SameMembers :
    {A : Type 0} (c : A → A → Ordering) (xs : List A) → SameMembers (insertion_sort c xs) xs
unfolding insertion_sort
sort-SameMembers c [] x = (λ m. m, λ m. m)
sort-SameMembers c (y ∷ ys) x =
    let into = Mem-insert c y x (insertion_sort c ys) in
    let rest = sort-SameMembers c ys x in
    (
      λ m. elim (Memᴰ.cases_cons (into.0 m)) [ inl e ↦ Memᴰ.head e | inr i ↦ Memᴰ.tail (rest.0 i) ],
      λ m. into.1 (elim (Memᴰ.cases_cons m) [ inl e ↦ Memᴰ.head e | inr i ↦ Memᴰ.tail (rest.1 i) ]),
    )

-- No element compares as greater than one behind it.
abbrev pub IsPairwise : {A : Type 0} → (A → A → Ordering) → List A → Type 0
IsPairwise {A} c [] = Unit {0}
IsPairwise {A} c (x ∷ xs) = ((y : A) → Memᴰ y xs → c x y ≢ Ordering.gt) × IsPairwise c xs

module _ {A : Type 0} (c : A → A → Ordering)
    (trans : (a b d : A) → c a b ≢ Ordering.gt → c b d ≢ Ordering.gt → c a d ≢ Ordering.gt)
    (turn : (a b : A) → c a b ≡ Ordering.gt → c b a ≢ Ordering.gt) where
  insert-IsPairwise : (x : A) (ys : List A) → IsPairwise c ys → IsPairwise c (insert c x ys)
  unfolding insert
  insert-IsPairwise x [] a = (λ y m. absurd (Memᴰ.not-nil m), tt)
  insert-IsPairwise x (y ∷ ys) (a, sorted) = elim (insert-cases c x y ys) [
    | inr (le, e) ↦ rw e (
        (
          λ z m. elim (Memᴰ.cases_cons m) [
            | inl f ↦ subst (λ v. c x v ≢ Ordering.gt) (sym f) le
            | inr i ↦ trans x y z le (a z i)
          ],
          (a, sorted),
        ))
    | inl (gt, e) ↦ rw e (
        (
          λ z m. elim (Memᴰ.cases_cons ((Mem-insert c x z ys).0 m)) [
            | inl f ↦ subst (λ v. c y v ≢ Ordering.gt) (sym f) (turn x y gt)
            | inr i ↦ a z i
          ],
          insert-IsPairwise x ys sorted,
        ))
  ]

  pub sort-IsPairwise : (xs : List A) → IsPairwise c (insertion_sort c xs)
  unfolding insertion_sort
  sort-IsPairwise [] = tt
  sort-IsPairwise (x ∷ xs) = insert-IsPairwise x (insertion_sort c xs) (sort-IsPairwise xs)

total : IsTotalOrder compare_bytes
total = lex-IsTotalOrder compare compare-IsTotalOrder

le_trans :
    (a b d : Bytes)
    → compare_bytes a b ≢ Ordering.gt
    → compare_bytes b d ≢ Ordering.gt
    → compare_bytes a d ≢ Ordering.gt
le_trans a b d e f = elim (Ordering-cases (compare_bytes a b)) [
  | inl g ↦ (let h = lt_of_lt_le a b d g f in λ i. absurd (cc))
  | inr (inl g) ↦ subst (λ x. compare_bytes x d ≢ Ordering.gt) (sym (total.same a b g)) f
  | inr (inr g) ↦ absurd (e g)
]

le_of_gt : (a b : Bytes) → compare_bytes a b ≡ Ordering.gt → compare_bytes b a ≢ Ordering.gt
le_of_gt a b e f = let s = total.swap a b in absurd (ground (arith, s, e, f))

module _ (key : Bytes → Bytes) where
  abbrev by_key : Bytes → Bytes → Ordering
  by_key a b = compare_bytes (key a) (key b)

  pairwise-IsAscending : (xs : List Bytes) → IsPairwise by_key xs → IsAscending key xs
  pairwise-IsAscending [] h = tt
  pairwise-IsAscending (x ∷ xs) (h, hs) = (h, pairwise-IsAscending xs hs)

  sort-IsAscending : (xs : List Bytes) → IsAscending key (insertion_sort by_key xs)
  sort-IsAscending xs = pairwise-IsAscending (insertion_sort by_key xs) (
      sort-IsPairwise by_key (λ a b d. le_trans (key a) (key b) (key d))
        (λ a b. le_of_gt (key a) (key b)) xs)

pub insertion_sort-Sorts : Sorts insertion_sort
insertion_sort-Sorts = record { members = sort-SameMembers; ordered = sort-IsAscending }
