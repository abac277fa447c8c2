-- ===== src/Common/Compare.antt =====
-- Three-way comparison: `cmp.Compare`, `bytes.Compare` and orders built from them.
use Prim.Native.Nat.{compare, Ordering}
use mathlib.Core.Path.{◌≡◌, refl}
use mathlib.Core.Logic.{◌⊎◌, inl, inr}
use mathlib.Core.List.{List, [], ◌∷◌, ◌++◌}
use native.Mathlib.Omega.{arith}

abbrev pub flip : Ordering → Ordering
flip Ordering.lt = Ordering.gt
flip Ordering.eq = Ordering.eq
flip Ordering.gt = Ordering.lt

pub Ordering-cases : (o : Ordering) → (o ≡ Ordering.lt) ⊎ ((o ≡ Ordering.eq) ⊎ (o ≡ Ordering.gt))
Ordering-cases Ordering.lt = inl refl
Ordering-cases Ordering.eq = inr (inl refl)
Ordering-cases Ordering.gt = inr (inr refl)

-- A comparison that orders its values totally.
pub record IsTotalOrder {ℓ} {A : Type ℓ} (c : A → A → Ordering) : Type ℓ where
  pub swap : (a b : A) → c b a ≡ flip (c a b)
  pub same : (a b : A) → c a b ≡ Ordering.eq → a ≡ b
  pub self : (a : A) → c a a ≡ Ordering.eq
  pub lt_trans : (a b d : A) → c a b ≡ Ordering.lt → c b d ≡ Ordering.lt → c a d ≡ Ordering.lt

pub compare-IsTotalOrder : IsTotalOrder compare
compare-IsTotalOrder = record {
  swap = λ a b. ground arith;
  same = λ a b h. ground arith;
  self = λ a. ground arith;
  lt_trans = λ a b d h k. ground arith;
}

-- Element by element, a proper prefix first.
unfoldable pub lex {ℓ} : {A : Type ℓ} → (A → A → Ordering) → List A → List A → Ordering
lex c [] [] = Ordering.eq
lex c [] (y ∷ ys) = Ordering.lt
lex c (x ∷ xs) [] = Ordering.gt
lex c (x ∷ xs) (y ∷ ys) =
    let rest = lex c xs ys in
    elim (c x y) [ Ordering.lt ↦ Ordering.lt | Ordering.gt ↦ Ordering.gt | Ordering.eq ↦ rest ]

module _ {ℓ} {A : Type ℓ} (c : A → A → Ordering) (o : IsTotalOrder c) where
  lex-swap : (xs ys : List A) → lex c ys xs ≡ flip (lex c xs ys)
  unfolding lex
  lex-swap [] [] = refl
  lex-swap [] (y ∷ ys) = refl
  lex-swap (x ∷ xs) [] = refl
  lex-swap (x ∷ xs) (y ∷ ys) = ground (arith, o.swap x y, lex-swap xs ys)

  lex-same : (xs ys : List A) → lex c xs ys ≡ Ordering.eq → xs ≡ ys
  unfolding lex
  lex-same [] [] h = refl
  lex-same [] (y ∷ ys) h = cc
  lex-same (x ∷ xs) [] h = cc
  lex-same (x ∷ xs) (y ∷ ys) h = ground (arith, o.same x y, lex-same xs ys)

  lex_self : (xs : List A) → lex c xs xs ≡ Ordering.eq
  unfolding lex
  lex_self [] = refl
  lex_self (x ∷ xs) = ground (arith, o.self x, lex_self xs)

  lex-lt_trans :
      (xs ys zs : List A)
      → lex c xs ys ≡ Ordering.lt
      → lex c ys zs ≡ Ordering.lt
      → lex c xs zs ≡ Ordering.lt
  unfolding lex
  lex-lt_trans [] [] zs h k = cc
  lex-lt_trans [] (y ∷ ys) [] h k = cc
  lex-lt_trans [] (y ∷ ys) (z ∷ zs) h k = refl
  lex-lt_trans (x ∷ xs) [] zs h k = cc
  lex-lt_trans (x ∷ xs) (y ∷ ys) [] h k = cc
  lex-lt_trans (x ∷ xs) (y ∷ ys) (z ∷ zs) h k =
      ground (arith, o.same x y, o.same y z, o.lt_trans x y z, lex-lt_trans xs ys zs)

  pub lex-IsTotalOrder : IsTotalOrder (lex c)
  lex-IsTotalOrder = record {
    swap = lex-swap;
    same = lex-same;
    self = lex_self;
    lt_trans = lex-lt_trans;
  }

  -- A list sorts before its proper extensions.
  pub lex-prefix : (xs : List A) (y : A) (ys : List A) → lex c xs (xs ++ y ∷ ys) ≡ Ordering.lt
  unfolding lex
  lex-prefix [] y ys = refl
  lex-prefix (x ∷ xs) y ys = ground (arith, o.self x, lex-prefix xs y ys)
