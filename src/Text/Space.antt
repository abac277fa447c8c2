-- ===== src/Text/Space.antt =====
-- Text without white space.
use dnsdata_go.Common.{ℕ, ◌<◌, ◌≡◌, refl, arith, true, [], ◌∷◌, reverse, All, All-append, Bytes}
use dnsdata_go.Text.{Unicode, is_ascii, is_space, drop_spaces, trim_space}
use mathlib.Core.List.{reverse-cons, reverse-reverse}

drop_spaces_none : (s : Bytes) → All (λ c. 32 < c) s → drop_spaces s ≡ s
unfolding drop_spaces is_space
drop_spaces_none [] h = refl
drop_spaces_none (c ∷ cs) (h, hs) = ground arith

All-reverse : (P : ℕ → Type 0) (s : Bytes) → All P s → All P (reverse s)
All-reverse P [] h = tt
All-reverse P (c ∷ cs) (h, hs) =
    rw (reverse-cons c cs) (All-append P (reverse cs) (c ∷ []) (All-reverse P cs hs) (h, tt))

module _ ⦃u : Unicode⦄ where
  pub trim_space_none : (s : Bytes) → is_ascii s ≡ true → All (λ c. 32 < c) s → trim_space s ≡ s
  unfolding trim_space
  trim_space_none s a h = rw (
    a,
    drop_spaces_none s h,
    drop_spaces_none (reverse s) (All-reverse (λ c. 32 < c) s h),
    reverse-reverse s,
  )
