-- ===== src/Dnssec/Chain/Gaps.antt =====
-- A chain over sorted owners denies each name that is not an owner, and denies it once.
use dnsdata_go.Common.{ℕ, ◌≡◌, ◌≢◌, refl, arith, false, List, [], ◌∷◌, if◌then◌else◌, Ordering}
use dnsdata_go.Common.Compare.{flip}
use dnsdata_go.Dnssec.Nsec.{is_lt}
use dnsdata_go.Dnssec.Chain.{links, count_covering, owned, IsIncreasing}

-- A comparison that is an order up to what it calls equal.
pub record IsOrder {ℓ} {A : Type ℓ} (cmp : A → A → Ordering) : Type ℓ where
  pub swap : (a b : A) → cmp b a ≡ flip (cmp a b)
  pub left : (a b d : A) → cmp a b ≡ Ordering.eq → cmp a d ≡ cmp b d
  pub lt_trans : (a b d : A) → cmp a b ≡ Ordering.lt → cmp b d ≡ Ordering.lt → cmp a d ≡ Ordering.lt

module _ {ℓ} {A : Type ℓ} (cmp : A → A → Ordering) (o : IsOrder cmp) where
  owned_below :
      (q a : A) (os : List A)
      → cmp q a ≡ Ordering.lt
      → IsIncreasing cmp a os
      → owned cmp os q ≡ false
  owned_below q a [] h s = refl
  owned_below q a (p ∷ ps) h (l, s) = ground (arith, o.lt_trans q a p, owned_below q p ps)

  -- How many of the records from an owner on cover the target, by the place of the target.
  abbrev gap : A → List A → A → A → ℕ
  gap a os apex q = elim (cmp q a) [
    | Ordering.lt ↦ if is_lt (cmp q apex) then 1 else 0
    | Ordering.eq ↦ 0
    | Ordering.gt ↦ if owned cmp os q then 0 else 1
  ]

  -- The facts about the target and two neighbours.
  count_links :
      (a : A) (os : List A) (apex q : A)
      → cmp a apex ≢ Ordering.lt
      → IsIncreasing cmp a os
      → count_covering cmp (links (a ∷ os) apex) q ≡ gap a os apex q
  unfolding links
  count_links a [] apex q h s =
      ground
        (arith, o.swap a apex, o.swap q a, o.left q a apex, o.left q apex a, o.lt_trans a q apex)
  count_links a (p ∷ ps) apex q h (l, s) = ground (
    arith,
    o.swap a p,
    o.swap q a,
    o.left q a p,
    o.left q a apex,
    o.lt_trans q a p,
    o.lt_trans a q apex,
    owned_below q p ps,
    count_links p ps apex q (λ e. h (o.lt_trans a p apex l e)) s,
  )

  -- The chain of sorted owners that starts at the apex: an owner is covered by no record, and any
  -- other target by exactly one.
  pub count_chain :
      (apex : A) (os : List A) (q : A)
      → IsIncreasing cmp apex os
      → count_covering cmp (links (apex ∷ os) apex) q ≡ (if owned cmp (apex ∷ os) q then 0 else 1)
  count_chain apex os q s =
      ground (arith, o.swap apex apex, count_links apex os apex q, owned_below q apex os)
