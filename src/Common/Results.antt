-- ===== src/Common/Results.antt =====
-- Go's (value, error) pairs: a value, or the error that the caller finds with `errors.Is`.
use mathlib.Core.Path.{◌≡◌, refl}
use mathlib.Core.Logic.{◌⊎◌, inl, inr}

pub data Result {ℓ κ} (E : Type ℓ) (A : Type κ) : Type (ℓ ⊔ κ) where
  ok : A → Result E A
  err : E → Result E A

pub Result-cases {ℓ κ} :
    {E : Type ℓ} {A : Type κ} (r : Result E A) → ((a : A) × (r ≡ ok a)) ⊎ ((e : E) × (r ≡ err e))
Result-cases (err e) = inr (e, refl)
Result-cases (ok a) = inl (a, refl)

-- `if err != nil { return fmt.Errorf("%w: …", wrap, err) }`, where `%v` forgets the inner error.
abbrev pub wrapped {ℓ κ μ} : {E : Type ℓ} {F : Type μ} {A : Type κ} → F → Result E A → Result F A
wrapped outer (err inner) = err outer
wrapped outer (ok a) = ok a

-- `v, err := f(); if err != nil { return err }`, and what follows.
infixl 5 ◌>>=◌
abbrev pub ◌>>=◌ {ℓ κ μ} :
    {E : Type ℓ} {A : Type κ} {B : Type μ} → Result E A → (A → Result E B) → Result E B
err e >>= continue = err e
ok value >>= continue = continue value
