-- ===== src/Dnssec/Chain/View.antt =====
-- dnssec/signer/nsec.go: what signing reads of a zone, and the chain that `BuildNSEC` makes of it. The
-- records are those that `RecordsCanonical` lists; a record of the chain is its owner, its next owner
-- and the types of its bitmap before `typeNames` sorts them, and its TTL is left out.
use dnsdata_go.Common.{
  ℕ, ◌-◌, Bool, false, not, ◌&&◌, ◌||◌, List, [], ◌∷◌, ◌++◌, leb, ◌==◌, if◌then◌else◌, length, drop,
  Bytes, equal, Result, ok, err, ◌>>=◌,
}
use dnsdata_go.Text.{Unicode, to_lower, same_labels}
use dnsdata_go.Types.{type_ns, type_ds, type_rrsig, type_nsec, type_nsec3, type_nsec3param}
use dnsdata_go.Zone.Canonical.{canonical_labels}
use dnsdata_go.Dnssec.Zone.{ZoneRecord}
use dnsdata_go.Dnssec.Chain.{links}

-- `ErrSigner`
pub data SignerError : Type 0 where
  err_signer : SignerError

-- `isGeneratedType`
unfoldable pub is_generated_type : ℕ → Bool
is_generated_type t =
    t == type_rrsig || (t == type_nsec || (t == type_nsec3 || t == type_nsec3param))

-- `zoneView`
pub record ZoneParts : Type 0 where
  pub apex : Bytes
  pub owners : List Bytes
  pub types : List (Bytes × List ℕ)
  pub cuts : List Bytes

-- `v.types[key]`; the types of a key that is not there are none.
unfoldable pub types_at : List (Bytes × List ℕ) → Bytes → List ℕ
types_at [] key = []
types_at ((k, ts) ∷ rest) key = let later = types_at rest key in if equal k key then ts else later

-- `_, seen := v.types[key]`
unfoldable pub has_key : List (Bytes × List ℕ) → Bytes → Bool
has_key [] key = false
has_key ((k, ts) ∷ rest) key = equal k key || has_key rest key

-- `slices.Contains` on types and on names.
unfoldable pub has_type : List ℕ → ℕ → Bool
has_type [] t = false
has_type (x ∷ xs) t = x == t || has_type xs t

unfoldable pub has_name : List Bytes → Bytes → Bool
has_name [] name = false
has_name (x ∷ xs) name = equal x name || has_name xs name

-- `if !slices.Contains(v.types[key], rr.Type) { … }`
unfoldable pub add_type : List (Bytes × List ℕ) → Bytes → ℕ → List (Bytes × List ℕ)
unfolding has_type
add_type [] key t = (key, t ∷ []) ∷ []
add_type ((k, ts) ∷ rest) key t =
    let later = add_type rest key t in
    if equal k key then (k, if has_type ts t then ts else ts ++ t ∷ []) ∷ rest else (k, ts) ∷ later

module _ ⦃u : Unicode⦄ where
  -- `isAtOrBelow`; `labelsOf` is the function `canonicalLabels` of zone/canonical.go.
  unfoldable pub is_at_or_below : Bytes → Bytes → Bool
  is_at_or_below name ancestor =
      let n = canonical_labels name in
      let a = canonical_labels ancestor in
      leb (length a) (length n) && same_labels (drop (length n - length a) n) a

  -- `sameName`
  unfoldable pub same_name : Bytes → Bytes → Bool
  same_name a b = same_labels (canonical_labels a) (canonical_labels b)

  -- The end of the loop of `newZoneView`, from the owner and the type of a record.
  unfoldable pub with_record : ZoneParts → Bytes → ℕ → ZoneParts
  unfolding has_key add_type same_name has_name
  with_record v name t = record v {
    owners = if has_key v.types (to_lower name) then v.owners else v.owners ++ name ∷ [];
    types = add_type v.types (to_lower name) t;
    cuts =
        if t == type_ns && (not (same_name name v.apex) && not (has_name v.cuts name))
        then v.cuts ++ name ∷ []
        else v.cuts;
  }

  -- The loop of `newZoneView`.
  unfoldable pub view_records : List ZoneRecord → ZoneParts → Result SignerError ZoneParts
  unfolding is_generated_type is_at_or_below with_record
  view_records [] v = ok v
  view_records (rr ∷ rrs) v =
      let skipped = view_records rrs v in
      let taken = view_records rrs (with_record v rr.label rr.rr_type) in
      if is_generated_type rr.rr_type
      then skipped
      else if not (is_at_or_below rr.label v.apex)
      then err err_signer
      else taken

  -- `newZoneView`
  unfoldable pub new_zone_view : Bytes → List ZoneRecord → Result SignerError ZoneParts
  unfolding view_records
  new_zone_view apex records =
      view_records records (record { apex = apex; owners = []; types = []; cuts = [] })

  -- The loop of `isCut`.
  unfoldable pub has_cut : List Bytes → Bytes → Bool
  unfolding same_name
  has_cut [] name = false
  has_cut (c ∷ cuts) name = same_name c name || has_cut cuts name

  -- The loop of `isOccluded`.
  unfoldable pub is_below_cut : List Bytes → Bytes → Bool
  unfolding same_name is_at_or_below
  is_below_cut [] name = false
  is_below_cut (c ∷ cuts) name =
      (not (same_name c name) && is_at_or_below name c) || is_below_cut cuts name

  -- The loop of `chainTypes`.
  unfoldable pub kept_types : Bool → List ℕ → List ℕ
  kept_types is_cut [] = []
  kept_types is_cut (t ∷ ts) =
      let rest = kept_types is_cut ts in
      if is_cut && (not (t == type_ns) && not (t == type_ds)) then rest else t ∷ rest

  -- `chainTypes`
  unfoldable pub chain_types : ZoneParts → Bytes → List ℕ
  unfolding kept_types types_at has_cut
  chain_types v owner = kept_types (has_cut v.cuts owner) (types_at v.types (to_lower owner))

  -- The loop of `BuildNSEC` over the owners that are not occluded.
  unfoldable pub authoritative_owners : List Bytes → List Bytes → List Bytes
  unfolding is_below_cut
  authoritative_owners cuts [] = []
  authoritative_owners cuts (o ∷ owners) =
      let rest = authoritative_owners cuts owners in if is_below_cut cuts o then rest else o ∷ rest

  -- The records of the chain, with the types that `bitmapText` lists.
  unfoldable pub chain_records : ZoneParts → List (Bytes × Bytes) → List ((Bytes × Bytes) × List ℕ)
  unfolding chain_types
  chain_records v [] = []
  chain_records v ((owner, next) ∷ ls) =
      ((owner, next), chain_types v owner ++ type_rrsig ∷ type_nsec ∷ []) ∷ chain_records v ls

  -- `BuildNSEC`
  unfoldable pub build_nsec :
      Bytes → List ZoneRecord → Result SignerError (List ((Bytes × Bytes) × List ℕ))
  unfolding new_zone_view authoritative_owners chain_records
  build_nsec apex records = new_zone_view apex records >>= λ v.
      ok (chain_records v (links (authoritative_owners v.cuts v.owners) apex))
