-- ===== src/Dnssec/Chain.antt =====
-- The chain that `BuildNSEC` (dnssec/signer/nsec.go) makes of the authoritative owners, in the order
-- of a comparison of names or hashes, and what its records cover.
pub mod Gaps
pub mod Denial
pub mod View
pub mod Keys
pub mod Sorted
pub mod Named
pub mod Records
pub mod Built
pub mod Zones
use dnsdata_go.Common.{ℕ, ◌+◌, ◌≡◌, Bool, true, false, ◌||◌, List, [], ◌∷◌, if◌then◌else◌, Ordering}
use dnsdata_go.Dnssec.Nsec.{is_eq, in_range}

-- The loop over `owners`: each owner with the next one, the last with the apex.
unfoldable pub links {ℓ} : {A : Type ℓ} → List A → A → List (A × A)
links [] apex = []
links (o ∷ []) apex = (o, apex) ∷ []
links (o ∷ p ∷ ps) apex = (o, p) ∷ links (p ∷ ps) apex

module _ {ℓ} {A : Type ℓ} (cmp : A → A → Ordering) where
  -- The record of an owner and its next owner covers the target.
  abbrev pub covers : A × A → A → Bool
  covers (o, n) q = in_range (cmp q o) (cmp q n) (cmp n o)

  -- How many records of a chain cover the target.
  abbrev pub count_covering : List (A × A) → A → ℕ
  count_covering [] q = 0
  count_covering (l ∷ ls) q = (if covers l q then 1 else 0) + count_covering ls q

  -- The target is one of the owners.
  abbrev pub owned : List A → A → Bool
  owned [] q = false
  owned (o ∷ os) q = is_eq (cmp q o) || owned os q

  -- Each owner is below the next.
  abbrev pub IsIncreasing : A → List A → Type 0
  IsIncreasing o [] = Unit {0}
  IsIncreasing o (p ∷ ps) = (cmp o p ≡ Ordering.lt) × IsIncreasing p ps
