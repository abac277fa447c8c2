-- ===== src/Dnssec/Zone/Digest/Order.antt =====
-- dnssec/zone.go: the record data in order and without duplicates, whatever the order it came in.
use dnsdata_go.Common.{
  ◌≡◌, ◌≢◌, ◌↔◌, refl, sym, ◌∙◌, subst, Bool-cases, inl, inr, List, [], ◌∷◌, Bytes, equal,
  equal_iff, Ordering, compare,
}
use mathlib.Core.List.{Memᴰ}
use mathlib.Core.List.Memᴰ
use dnsdata_go.Common.Compare.{Ordering-cases, IsTotalOrder, compare-IsTotalOrder, lex-IsTotalOrder}
use dnsdata_go.Zone.Canonical.{compare_bytes}
use dnsdata_go.Dnssec.Zone.Digest.{compact_bodies}

order : IsTotalOrder compare_bytes
order = lex-IsTotalOrder compare compare-IsTotalOrder

-- Two lists with the same elements.
abbrev pub SameMembers {ℓ} : {A : Type ℓ} → List A → List A → Type ℓ
SameMembers {A = A} xs ys = (x : A) → Memᴰ x xs ↔ Memᴰ x ys

-- Each element's key is not above the keys behind it, or it is below them.
abbrev pub IsAscending : (Bytes → Bytes) → List Bytes → Type 0
IsAscending key [] = Unit
IsAscending key (x ∷ xs) =
    ((y : Bytes) → Memᴰ y xs → compare_bytes (key x) (key y) ≢ Ordering.gt) × IsAscending key xs

abbrev IsStrict : (Bytes → Bytes) → List Bytes → Type 0
IsStrict key [] = Unit
IsStrict key (x ∷ xs) =
    ((y : Bytes) → Memᴰ y xs → compare_bytes (key x) (key y) ≡ Ordering.lt) × IsStrict key xs

-- What `slices.SortFunc` promises of its result, for a comparison by a key.
pub record Sorts (sort : (Bytes → Bytes → Ordering) → List Bytes → List Bytes) : Type 0 where
  pub members : (c : Bytes → Bytes → Ordering) (xs : List Bytes) → SameMembers (sort c xs) xs
  pub ordered :
      (key : Bytes → Bytes) (xs : List Bytes)
      → IsAscending key (sort (λ a b. compare_bytes (key a) (key b)) xs)

Mem-cons {ℓ} :
    {A : Type ℓ} {x y : A} {xs ys : List A}
    → (Memᴰ x xs → Memᴰ x ys)
    → Memᴰ x (y ∷ xs)
    → Memᴰ x (y ∷ ys)
Mem-cons f (Memᴰ.head e) = Memᴰ.head e
Mem-cons f (Memᴰ.tail m) = Memᴰ.tail (f m)

Mem-skip {ℓ} :
    {A : Type ℓ} {x y z : A} {xs : List A} → y ≡ z → Memᴰ x (y ∷ z ∷ xs) → Memᴰ x (z ∷ xs)
Mem-skip e (Memᴰ.head f) = Memᴰ.head (f ∙ e)
Mem-skip e (Memᴰ.tail m) = m

compact-SameMembers : (xs : List Bytes) → SameMembers (compact_bodies xs) xs
unfolding compact_bodies
compact-SameMembers [] x = (λ m. m, λ m. m)
compact-SameMembers (y ∷ []) x = (λ m. m, λ m. m)
compact-SameMembers (y ∷ z ∷ rest) x =
    let kept = compact-SameMembers (z ∷ rest) x in
    elim (Bool-cases (equal y z)) [
      | inl e ↦ rw e (λ m. Memᴰ.tail (kept.0 m), λ m. kept.1 (Mem-skip ((equal_iff y z).0 e) m))
      | inr n ↦ rw n (Mem-cons (kept.0), Mem-cons (kept.1))
    ]

lt_irrefl : (a : Bytes) → compare_bytes a a ≢ Ordering.lt
lt_irrefl a e = let f = order.self a in absurd (cc)

lt_of_le_ne :
    (a b : Bytes) → compare_bytes a b ≢ Ordering.gt → a ≢ b → compare_bytes a b ≡ Ordering.lt
lt_of_le_ne a b le ne = elim (Ordering-cases (compare_bytes a b)) [
  | inl e ↦ e
  | inr (inl e) ↦ absurd (ne (order.same a b e))
  | inr (inr e) ↦ absurd (le e)
]

pub lt_of_lt_le :
    (a b d : Bytes)
    → compare_bytes a b ≡ Ordering.lt
    → compare_bytes b d ≢ Ordering.gt
    → compare_bytes a d ≡ Ordering.lt
lt_of_lt_le a b d low le = elim (Ordering-cases (compare_bytes b d)) [
  | inl e ↦ order.lt_trans a b d low e
  | inr (inl e) ↦ subst (λ x. compare_bytes a x ≡ Ordering.lt) (order.same b d e) low
  | inr (inr e) ↦ absurd (le e)
]

module _ (key : Bytes → Bytes) where
  below_first :
      (x y w : Bytes) (rest : List Bytes)
      → compare_bytes (key x) (key y) ≡ Ordering.lt
      → IsAscending key (y ∷ rest)
      → Memᴰ w (y ∷ rest)
      → compare_bytes (key x) (key w) ≡ Ordering.lt
  below_first x y w rest b a (Memᴰ.head e) =
      subst (λ v. compare_bytes (key x) (key v) ≡ Ordering.lt) (sym e) b
  below_first x y w rest b (a, sorted) (Memᴰ.tail m) = lt_of_lt_le (key x) (key y) (key w) b (a w m)

  compact-IsStrict :
      (xs : List Bytes)
      → IsAscending key xs
      → ((a b : Bytes) → Memᴰ a xs → Memᴰ b xs → key a ≡ key b → a ≡ b)
      → IsStrict key (compact_bodies xs)
  unfolding compact_bodies
  compact-IsStrict [] a inj = tt
  compact-IsStrict (y ∷ []) a inj = (λ x m. absurd (Memᴰ.not-nil m), tt)
  compact-IsStrict (y ∷ z ∷ rest) (a, sorted) inj =
      let kept =
        compact-IsStrict (z ∷ rest) sorted (λ v w m n. inj v w (Memᴰ.tail m) (Memᴰ.tail n)) in
      elim (Bool-cases (equal y z)) [
        | inl e ↦ rw e kept
        | inr n ↦
            let apart : key y ≢ key z = λ e.
              let g = (equal_iff y z).1 (inj y z (Memᴰ.head refl) (Memᴰ.tail (Memᴰ.head refl)) e) in
              absurd (cc) in
            let low : compare_bytes (key y) (key z) ≡ Ordering.lt =
              lt_of_le_ne (key y) (key z) (a z (Memᴰ.head refl)) apart in
            rw n (
              λ w m. below_first y z w rest low sorted ((compact-SameMembers (z ∷ rest) w).0 m),
              kept,
            )
      ]

  first_unique :
      (x y : Bytes) (xs ys : List Bytes)
      → IsStrict key (x ∷ xs)
      → IsStrict key (y ∷ ys)
      → SameMembers (x ∷ xs) (y ∷ ys)
      → x ≡ y
  first_unique x y xs ys (s, ss) (t, ts) m = elim (Memᴰ.cases_cons ((m x).0 (Memᴰ.head refl))) [
    | inl e ↦ e
    | inr i ↦ elim (Memᴰ.cases_cons ((m y).1 (Memᴰ.head refl))) [
      | inl e ↦ sym e
      | inr j ↦ absurd (lt_irrefl (key x) (order.lt_trans _ _ _ (s y j) (t x i)))
    ]
  ]

  Mem-rest :
      (x w : Bytes) (xs ys : List Bytes)
      → IsStrict key (x ∷ xs)
      → (Memᴰ w (x ∷ xs) → Memᴰ w (x ∷ ys))
      → Memᴰ w xs
      → Memᴰ w ys
  Mem-rest x w xs ys (s, ss) f m = elim (Memᴰ.cases_cons (f (Memᴰ.tail m))) [
    | inl e ↦
        absurd
          (lt_irrefl (key x) (subst (λ v. compare_bytes (key x) (key v) ≡ Ordering.lt) e (s w m)))
    | inr i ↦ i
  ]

  strict_unique :
      (xs ys : List Bytes) → IsStrict key xs → IsStrict key ys → SameMembers xs ys → xs ≡ ys
  strict_unique [] [] s t m = refl
  strict_unique [] (y ∷ ys) s t m = absurd (Memᴰ.not-nil ((m y).1 (Memᴰ.head refl)))
  strict_unique (x ∷ xs) [] s t m = absurd (Memᴰ.not-nil ((m x).0 (Memᴰ.head refl)))
  strict_unique (x ∷ xs) (y ∷ ys) s t m =
      let e = first_unique x y xs ys s t m in
      let n = subst (λ v. SameMembers (x ∷ xs) (v ∷ ys)) (sym e) m in
      let u = subst (λ v. IsStrict key (v ∷ ys)) (sym e) t in
      let same : SameMembers xs ys =
        λ w. (Mem-rest x w xs ys s ((n w).0), Mem-rest x w ys xs u ((n w).1)) in
      rw (e, strict_unique xs ys (s.1) (t.1) same)

-- Sorting and compacting lists with the same elements gives the same list.
pub canonical_unique :
    (sort : (Bytes → Bytes → Ordering) → List Bytes → List Bytes)
    → Sorts sort
    → (key : Bytes → Bytes) (xs ys : List Bytes)
    → ((a b : Bytes) → Memᴰ a xs → Memᴰ b xs → key a ≡ key b → a ≡ b)
    → SameMembers xs ys
    → compact_bodies (sort (λ a b. compare_bytes (key a) (key b)) xs)
      ≡ compact_bodies (sort (λ a b. compare_bytes (key a) (key b)) ys)
canonical_unique sort good key xs ys distinct same =
    let c : Bytes → Bytes → Ordering = λ a b. compare_bytes (key a) (key b) in
    let into = λ (x : Bytes). good.members c xs x in
    let onto = λ (x : Bytes). good.members c ys x in
    strict_unique key (compact_bodies (sort c xs)) (compact_bodies (sort c ys))
      (compact-IsStrict key (sort c xs) (good.ordered key xs)
        (λ a b m n. distinct a b ((into a).0 m) ((into b).0 n)))
      (compact-IsStrict key (sort c ys) (good.ordered key ys)
        (λ a b m n. distinct a b ((same a).1 ((onto a).0 m)) ((same b).1 ((onto b).0 n))))
      (λ x.
        let left = compact-SameMembers (sort c xs) x in
        let right = compact-SameMembers (sort c ys) x in
        (
          λ m. right.1 ((onto x).1 ((same x).0 ((into x).0 (left.0 m)))),
          λ m. left.1 ((into x).1 ((same x).1 ((onto x).0 (right.0 m)))),
        ))
