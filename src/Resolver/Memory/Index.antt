-- ===== src/Resolver/Memory/Index.antt =====
-- `newZoneIndex` of resolver/memory/index.go, and the hashes of resolver/memory/nsec3.go.
use dnsdata_go.Common.{
  ℕ, not, ◌&&◌, List, [], ◌∷◌, ◌++◌, Option, none, some, ◌==◌, if◌then◌else◌, Bytes, equal, Result,
  ok, err, ◌>>=◌,
}
use dnsdata_go.Text.{Unicode}
use dnsdata_go.Types.{type_rrsig, type_nsec, type_nsec3, type_ns}
use dnsdata_go.Dnssec.Base32.{owner_hash_from_name}
use dnsdata_go.Dnssec.Nsec.{covers_hash}
use dnsdata_go.Dnssec.Hash.{compute_nsec3_hash}
use dnsdata_go.Dnssec.Zone.{ZoneRecord, Handler, rrsig_handler, nsec_handler, nsec3_handler}
use dnsdata_go.Resolver.Memory.{Nsec3Entry, ZoneIndex, is_at_or_below, parents, is_among, normalize}

-- `ErrConfig`
pub data ConfigError : Type 0 where
  err_config : ConfigError

-- `idx.byName[owner] = append(…)`
unfoldable pub append_record :
    List (Bytes × List ZoneRecord) → Bytes → ZoneRecord → List (Bytes × List ZoneRecord)
append_record [] owner rr = (owner, rr ∷ []) ∷ []
append_record ((n, rrs) ∷ rest) owner rr =
    let later = append_record rest owner rr in
    if equal n owner then (n, rrs ++ rr ∷ []) ∷ rest else (n, rrs) ∷ later

-- The loop of `add` over a name and its parents.
unfoldable pub mark_exists : Bytes → List Bytes → List Bytes → List Bytes
mark_exists apex [] names = names
mark_exists apex (n ∷ up) names =
    let rest = mark_exists apex up (n ∷ names) in
    if is_among n names then names else if equal n apex then n ∷ names else rest

-- The part of `add` before its switch.
unfoldable pub with_owner : ZoneIndex → Bytes → ZoneRecord → ZoneIndex
unfolding append_record mark_exists
with_owner idx owner rr = record idx {
  by_name = append_record idx.by_name owner rr;
  existing_names = mark_exists idx.apex (owner ∷ parents owner) idx.existing_names;
}

-- The index before the first record.
abbrev pub empty_zone : Bytes → ZoneIndex
empty_zone apex = record {
  apex = apex;
  by_name = [];
  existing_names = [];
  cuts = [];
  nsecs = [];
  nsec3s = [];
}

module _ ⦃u : Unicode⦄ where
  -- The case of `add` for an RRSIG, whose value parses as its handler, or does not.
  unfoldable pub add_rrsig : ZoneIndex → Handler → Result ConfigError ZoneIndex
  add_rrsig idx (rrsig_handler s) = ok idx
  add_rrsig idx _ = err err_config

  -- The case for an NSEC record.
  unfoldable pub add_nsec : ZoneIndex → Bytes → Handler → Result ConfigError ZoneIndex
  add_nsec idx owner (nsec_handler n) =
      ok (record idx { nsecs = idx.nsecs ++ record { owner = owner; nsec = n } ∷ [] })
  add_nsec idx owner _ = err err_config

  -- The case for an NSEC3 record: `add` of resolver/memory/nsec3.go.
  unfoldable pub add_nsec3 : ZoneIndex → Bytes → Handler → Result ConfigError ZoneIndex
  add_nsec3 idx owner (nsec3_handler n) = elim (owner_hash_from_name owner) [
    | err e ↦ err err_config
    | ok h ↦
        ok
          (record idx { nsec3s = idx.nsec3s ++ record { owner = owner; hash = h; nsec3 = n } ∷ [] })
  ]
  add_nsec3 idx owner _ = err err_config

  -- The switch of `add`.
  unfoldable pub add_typed : ZoneIndex → Bytes → ℕ → Handler → Result ConfigError ZoneIndex
  unfolding add_rrsig add_nsec add_nsec3
  add_typed idx owner rr_type handler =
      if rr_type == type_rrsig
      then add_rrsig idx handler
      else if rr_type == type_nsec
      then add_nsec idx owner handler
      else if rr_type == type_nsec3
      then add_nsec3 idx owner handler
      else if rr_type == type_ns && (not (equal owner idx.apex) && not (is_among owner idx.cuts))
      then ok (record idx { cuts = idx.cuts ++ owner ∷ [] })
      else ok idx

  -- `add`
  unfoldable pub add_to_index : ZoneIndex → ZoneRecord → Result ConfigError ZoneIndex
  unfolding with_owner add_typed
  add_to_index idx rr =
      let owner = normalize rr.label in
      if not (is_at_or_below owner idx.apex)
      then err err_config
      else add_typed (with_owner idx owner rr) owner rr.rr_type rr.handler

  -- The loop of `newZoneIndex`.
  unfoldable pub index_records : List ZoneRecord → ZoneIndex → Result ConfigError ZoneIndex
  unfolding add_to_index
  index_records [] idx = ok idx
  index_records (rr ∷ rrs) idx = add_to_index idx rr >>= index_records rrs

  -- `newZoneIndex`
  unfoldable pub new_zone_index : Bytes → List ZoneRecord → Result ConfigError ZoneIndex
  unfolding index_records
  new_zone_index apex records = index_records records (empty_zone apex)

-- The loop of `matching`.
unfoldable pub owner_with_hash : List Nsec3Entry → Bytes → Bytes
owner_with_hash [] h = []
owner_with_hash (e ∷ entries) h =
    let rest = owner_with_hash entries h in if equal e.hash h then e.owner else rest

-- The loop of `covering`.
unfoldable pub owner_covering : List Nsec3Entry → Bytes → Bytes
owner_covering [] h = []
owner_covering (e ∷ entries) h =
    let rest = owner_covering entries h in if covers_hash e.nsec3 e.hash h then e.owner else rest

module _ (sha1 : Bytes → Bytes) ⦃u : Unicode⦄ where
  -- `hash`, with the parameters of the first record.
  unfoldable pub chain_hash : List Nsec3Entry → Bytes → Option Bytes
  chain_hash [] name = none
  chain_hash (e ∷ entries) name =
      elim (compute_nsec3_hash sha1 name e.nsec3.hash_algorithm e.nsec3.iterations e.nsec3.salt) [
        | ok h ↦ some h
        | err x ↦ none
      ]

  -- `matching`
  unfoldable pub matching : List Nsec3Entry → Bytes → Bytes
  unfolding chain_hash owner_with_hash
  matching entries name = elim (chain_hash entries name) [
    | none ↦ []
    | some h ↦ owner_with_hash entries h
  ]

  -- `covering`
  unfoldable pub covering : List Nsec3Entry → Bytes → Bytes
  unfolding chain_hash owner_covering
  covering entries name = elim (chain_hash entries name) [
    | none ↦ []
    | some h ↦ owner_covering entries h
  ]
