-- ===== src/Resolver/Memory/Authority.antt =====
-- resolver/memory/memory.go: the zones of an authority, and its answer to a query.
use dnsdata_go.Common.{
  ℕ, Bool, true, false, not, ◌&&◌, List, [], ◌∷◌, Option, none, some, ltb, ◌==◌, if◌then◌else◌,
  length, Bytes, equal, Result, ok, err, ◌>>=◌,
}
use dnsdata_go.Text.{Unicode}
use dnsdata_go.Types.{type_ds}
use dnsdata_go.Dnssec.Zone.{ZoneRecord}
use dnsdata_go.Verifier.Names.{root_name}
use dnsdata_go.Resolver.Memory.{ZoneIndex, labels, is_at_or_below, is_among, normalize}
use dnsdata_go.Resolver.Memory.Index.{ConfigError, err_config, new_zone_index}
use dnsdata_go.Resolver.Memory.Replies.{MemoryResponse, answer}

-- `faultKey` with its response code.
pub record Fault : Type 0 where
  pub name : Bytes
  pub qtype : ℕ
  pub rcode : ℕ

pub record Authority : Type 0 where
  pub zones : List ZoneIndex
  pub faults : List Fault

-- `a.faults[…]`
unfoldable pub fault_for : List Fault → Bytes → ℕ → Option ℕ
fault_for [] name qtype = none
fault_for (f ∷ faults) name qtype =
    let rest = fault_for faults name qtype in
    if equal f.name name && f.qtype == qtype then some f.rcode else rest

-- The tests of the loop of `zoneFor` that skip a zone.
unfoldable pub is_eligible : Bytes → ℕ → ZoneIndex → Bool
unfolding is_at_or_below
is_eligible name qtype idx =
    is_at_or_below name idx.apex
    && not (qtype == type_ds && (equal name idx.apex && not (equal name root_name)))

-- The zone is deeper than the best so far.
unfoldable pub is_deeper : Option ZoneIndex → ZoneIndex → Bool
unfolding labels
is_deeper none idx = true
is_deeper (some best) idx = ltb (length (labels best.apex)) (length (labels idx.apex))

-- The loop of `zoneFor`.
unfoldable pub deepest_in : Bytes → ℕ → List ZoneIndex → Option ZoneIndex → Option ZoneIndex
unfolding is_eligible is_deeper
deepest_in name qtype [] best = best
deepest_in name qtype (idx ∷ zones) best =
    let next = if is_eligible name qtype idx && is_deeper best idx then some idx else best in
    deepest_in name qtype zones next

-- `zoneFor`
unfoldable pub zone_for : List ZoneIndex → Bytes → ℕ → Option ZoneIndex
unfolding deepest_in
zone_for zones name qtype = deepest_in name qtype zones none

-- `strings.HasSuffix(apex, ".")`
unfoldable pub ends_with_dot : Bytes → Bool
ends_with_dot [] = false
ends_with_dot (c ∷ []) = c == b'.'
ends_with_dot (c ∷ d ∷ rest) = ends_with_dot (d ∷ rest)

-- A zone in front of the zones built behind it.
abbrev pub with_zone :
    ZoneIndex → Result ConfigError (List ZoneIndex) → Result ConfigError (List ZoneIndex)
with_zone idx (err e) = err e
with_zone idx (ok zones) = ok (idx ∷ zones)

module _ ⦃u : Unicode⦄ where
  -- The loop of `New`, with the apexes seen.
  unfoldable pub build_zones :
      List (Bytes × List ZoneRecord) → List Bytes → Result ConfigError (List ZoneIndex)
  unfolding ends_with_dot
  build_zones [] seen = ok []
  build_zones ((apex, records) ∷ specs) seen =
      let rest = build_zones specs (normalize apex ∷ seen) in
      if not (ends_with_dot apex)
      then err err_config
      else if is_among (normalize apex) seen
      then err err_config
      else new_zone_index (normalize apex) records >>= λ idx. with_zone idx rest

  -- `WithFault` for one option after the other: the last one of a key is found first.
  unfoldable pub with_faults : List Fault → List Fault → List Fault
  with_faults [] faults = faults
  with_faults (f ∷ more) faults = with_faults more (record f { name = normalize f.name } ∷ faults)

  -- `New`, from the zones and the faults that its options give; no zone is nil.
  unfoldable pub new_authority :
      List (Bytes × List ZoneRecord) → List Fault → Result ConfigError Authority
  unfolding build_zones with_faults
  new_authority [] faults = err err_config
  new_authority (spec ∷ specs) faults = build_zones (spec ∷ specs) [] >>= λ zones.
      ok (record { zones = zones; faults = with_faults faults [] })

module _ (sha1 : Bytes → Bytes) ⦃u : Unicode⦄ where
  -- `Query` behind `zoneFor`; the code 5 is REFUSED.
  unfoldable pub zone_answer : Option ZoneIndex → Bytes → ℕ → MemoryResponse
  zone_answer none name qtype = record { rcode = 5; records = [] }
  zone_answer (some idx) name qtype = answer sha1 idx name qtype

  -- `Query`, when the context is not done.
  unfoldable pub authority_query : Authority → Bytes → ℕ → MemoryResponse
  unfolding fault_for zone_for zone_answer
  authority_query a query_name qtype =
      let name = normalize query_name in
      elim (fault_for a.faults name qtype) [
        | some rcode ↦ record { rcode = rcode; records = [] }
        | none ↦ zone_answer (zone_for a.zones name qtype) name qtype
      ]
