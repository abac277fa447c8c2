-- ===== src/Dnssec/Nsec.antt =====
-- dnssec/nsec.go and the part of dnssec/nsec3.go that reads a record: what an NSEC or NSEC3 record
-- covers and what its type bitmap denies. A nil record does not arise.
pub mod Bitmap
use dnsdata_go.Common.{
  ℕ, ◌%◌, ◌≡◌, Bool, true, false, not, ◌&&◌, ◌||◌, List, [], ◌∷◌, ltb, ◌==◌, if◌then◌else◌, Bytes,
  Ordering,
}
use dnsdata_go.Text.{Unicode}
use dnsdata_go.Types.{type_ns, type_cname, type_soa, type_ds}
use dnsdata_go.Zone.Canonical.{compare_bytes, compare_canonical_names, equal_canonical_names}

pub record Nsec : Type 0 where
  pub next_domain : Bytes
  pub type_bitmap : Bytes
  pub covered_types : List ℕ

pub record Nsec3 : Type 0 where
  pub hash_algorithm : ℕ
  pub flags : ℕ
  pub iterations : ℕ
  pub salt : Bytes
  pub next_hashed_owner : Bytes
  pub type_bitmap : Bytes
  pub covered_types : List ℕ

-- `c == 0`, `c > 0` and `c < 0` for the result of a comparison.
abbrev pub is_eq : Ordering → Bool
is_eq Ordering.eq = true
is_eq _ = false

abbrev pub is_gt : Ordering → Bool
is_gt Ordering.gt = true
is_gt _ = false

abbrev pub is_lt : Ordering → Bool
is_lt Ordering.lt = true
is_lt _ = false

-- The tests that `CoversName` and `CoversHash` make, from the comparison of the target with the
-- owner and with the next owner, and that of the next owner with the owner.
abbrev pub in_range : Ordering → Ordering → Ordering → Bool
in_range cmp_owner cmp_next ends =
    if is_eq cmp_owner || is_eq cmp_next
    then false
    else if not (is_gt ends)
    then is_gt cmp_owner || is_lt cmp_next
    else is_gt cmp_owner && is_lt cmp_next

-- The loop of `CoversType` over the sorted types.
unfoldable pub covers_type : List ℕ → ℕ → Bool
covers_type [] t = false
covers_type (x ∷ xs) t = if x == t then true else if ltb t x then false else covers_type xs t

-- `ProvesNoData`
unfoldable pub proves_no_data : List ℕ → ℕ → Bool
proves_no_data covered qtype =
    if qtype == type_cname
    then not (covers_type covered type_cname)
    else not (covers_type covered qtype) && not (covers_type covered type_cname)

-- The loop of `ProvesNoDS`; the flags are `hasNS`, `hasDS` and `hasSOA`.
unfoldable pub no_ds_loop : List ℕ → Bool → Bool → Bool → Bool
no_ds_loop [] has_ns has_ds has_soa = has_ns && not has_ds && not has_soa
no_ds_loop (t ∷ ts) has_ns has_ds has_soa =
    no_ds_loop ts (if t == type_ns then true else has_ns) (if t == type_ds then true else has_ds)
      (if t == type_soa then true else has_soa)

unfoldable pub proves_no_ds : List ℕ → Bool
proves_no_ds covered = no_ds_loop covered false false false

-- `HasOptOut`: bit 0 of the flags.
unfoldable pub has_opt_out : Nsec3 → Bool
has_opt_out n = not (n.flags % 2 == 0)

-- `NSEC3.CoversHash`
unfoldable pub covers_hash : Nsec3 → Bytes → Bytes → Bool
covers_hash n owner_hash target =
    in_range (compare_bytes target owner_hash) (compare_bytes target n.next_hashed_owner)
      (compare_bytes n.next_hashed_owner owner_hash)

module _ ⦃u : Unicode⦄ where
  -- `NSEC.MatchesName`
  unfoldable pub matches_name : Bytes → Bytes → Bool
  matches_name owner qname = equal_canonical_names owner qname

  -- `NSEC.CoversName`
  unfoldable pub covers_name : Nsec → Bytes → Bytes → Bool
  covers_name n owner qname =
      in_range (compare_canonical_names qname owner) (compare_canonical_names qname n.next_domain)
        (compare_canonical_names n.next_domain owner)
