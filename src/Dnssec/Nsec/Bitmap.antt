-- ===== src/Dnssec/Nsec/Bitmap.antt =====
-- The tests on a type bitmap against membership in the list of types.
use dnsdata_go.Common.{
  ℕ, ◌≤◌, ◌<◌, ◌≡◌, refl, ◌∙◌, arith, Bool, false, not, ◌&&◌, ◌||◌, List, [], ◌∷◌, ◌==◌,
}
use dnsdata_go.Types.{type_ns, type_cname, type_soa, type_ds}
use dnsdata_go.Dnssec.Nsec.{covers_type, proves_no_data, no_ds_loop, proves_no_ds}

-- The type is in the list.
abbrev pub lists : List ℕ → ℕ → Bool
lists [] t = false
lists (x ∷ xs) t = x == t || lists xs t

-- In ascending order, as `ParseNSEC` sorts them.
abbrev pub IsAscending : List ℕ → Type 0
IsAscending [] = Unit {0}
IsAscending (x ∷ []) = Unit {0}
IsAscending (x ∷ y ∷ xs) = (x ≤ y) × IsAscending (y ∷ xs)

lists_above : (x t : ℕ) (xs : List ℕ) → IsAscending (x ∷ xs) → t < x → lists xs t ≡ false
lists_above x t [] h k = refl
lists_above x t (y ∷ ys) (le, h) k = ground (arith, lists_above y t ys h)

covers_type-lists : (xs : List ℕ) (t : ℕ) → IsAscending xs → covers_type xs t ≡ lists xs t
unfolding covers_type
covers_type-lists [] t h = refl
covers_type-lists (x ∷ []) t h = ground arith
covers_type-lists (x ∷ y ∷ ys) t (le, h) =
    ground (arith, covers_type-lists (y ∷ ys) t h, lists_above x t (y ∷ ys) (le, h))

no_ds_loop_lem :
    (ts : List ℕ) (ns ds soa : Bool)
    → no_ds_loop ts ns ds soa
      ≡ ((ns || lists ts type_ns) && not (ds || lists ts type_ds) && not (soa || lists ts type_soa))
unfolding no_ds_loop
no_ds_loop_lem [] ns ds soa = ground arith
no_ds_loop_lem (t ∷ ts) ns ds soa = no_ds_loop_lem ts _ _ _ ∙ ground arith

-- On a sorted bitmap, the early exit of `CoversType` loses nothing; a NODATA proof is the absence
-- of the type and of CNAME; a no-DS proof is NS present, and DS and SOA absent.
pub bitmap_tests :
    (ts : List ℕ) (t : ℕ)
    → IsAscending ts
    → (covers_type ts t ≡ lists ts t)
      × (proves_no_data ts t ≡ (not (lists ts t) && not (lists ts type_cname)))
      × (proves_no_ds ts ≡ (lists ts type_ns && not (lists ts type_ds) && not (lists ts type_soa)))
unfolding proves_no_data proves_no_ds
bitmap_tests ts t h = (
  covers_type-lists ts t h,
  rw (covers_type-lists ts t h, covers_type-lists ts type_cname h) (ground arith),
  no_ds_loop_lem ts false false false,
)
