-- ===== src/Verifier/Chain/Loading.antt =====
-- `loadRecords` of verifier/chain.go: the records of a response, or of the cache, go into the zone and
-- into the evidence.
use dnsdata_go.Common.{
  ℕ, suc, Bool, true, false, not, ◌&&◌, ◌||◌, List, [], ◌∷◌, ◌++◌, Option, none, some, ◌==◌,
  if◌then◌else◌, Bytes, ok, err,
}
use dnsdata_go.Text.{Unicode}
use dnsdata_go.Types.{type_dnskey, type_ds, type_rrsig}
use dnsdata_go.Types.RrType.{rr_type_name}
use dnsdata_go.Zone.Canonical.{equal_canonical_names}
use dnsdata_go.Dnssec.Zone.{ZoneRecord, Zone}
use dnsdata_go.Verifier.Chain.{
  err_resolver, err_chain_timeout, Reply, query_failed, answered, Setting, cache_get, cache_put,
  append_at, Session, Run, Chained, called,
}

-- `z.AddRR(rr)`
unfoldable pub with_record : Zone → ZoneRecord → Zone
with_record z rr = record z { records = z.records ++ rr ∷ [] }

-- The switch of `applyRecords` on the evidence.
unfoldable pub note_evidence : Session → ZoneRecord → ℕ → Session
note_evidence e rr qtype =
    if rr.rr_type == type_dnskey
    then record e { dnskeys = append_at e.dnskeys rr.label rr.value }
    else if rr.rr_type == type_ds
    then record e { dses = append_at e.dses rr.label rr.value }
    else if rr.rr_type == type_rrsig
    then record e { rrsigs = append_at e.rrsigs (rr.label ++ b'/' ∷ rr_type_name qtype) rr.value }
    else e

-- `v.cache.Put` where there is a cache.
unfoldable pub remember : Session → Bytes → ℕ → List ZoneRecord → Session
remember e name qtype records = elim e.cache [
  | none ↦ e
  | some entries ↦ record e { cache = some (cache_put entries name qtype records) }
]

-- What the cache holds for a query, where there is a cache.
unfoldable pub remembered : Session → Bytes → ℕ → Option (List ZoneRecord)
remembered e name qtype = elim e.cache [ none ↦ none | some entries ↦ cache_get entries name qtype ]

module _ ⦃u : Unicode⦄ where
  -- The record is of the type and its owner is the name.
  unfoldable pub is_owned : ZoneRecord → Bytes → ℕ → Bool
  is_owned rr name qtype = rr.rr_type == qtype && equal_canonical_names rr.label name

  -- The test that drops a DNSKEY outside the answer to the query for it.
  unfoldable pub is_dropped : ZoneRecord → Bytes → ℕ → Bool
  is_dropped rr name qtype =
      rr.rr_type == type_dnskey
      && (not (qtype == type_dnskey) || not (equal_canonical_names rr.label name))

  -- `applyRecords`: the count, the zone and the evidence.
  unfoldable pub apply_records : List ZoneRecord → Bytes → ℕ → Zone → Session → (ℕ × Zone) × Session
  unfolding with_record note_evidence is_owned is_dropped
  apply_records [] name qtype z e = ((0, z), e)
  apply_records (rr ∷ rrs) name qtype z e =
      let rest = apply_records rrs name qtype in
      let ((n, z'), e') = rest (with_record z rr) (note_evidence e rr qtype) in
      if is_dropped rr name qtype
      then rest z e
      else ((if is_owned rr name qtype then suc n else n, z'), e')

  -- `return v.applyRecords(…), nil`
  unfoldable pub apply_to : List ZoneRecord → Bytes → ℕ → Zone → Run → Chained (ℕ × Zone)
  unfolding apply_records
  apply_to records name qtype z r =
      let (found, e) = apply_records records name qtype z r.evidence in
      (ok found, record r { evidence = e })

  -- The part of `loadRecords` behind the query.
  unfoldable pub replied : Reply → Bytes → ℕ → Zone → Run → Chained (ℕ × Zone)
  unfolding apply_to remember
  replied (query_failed true) name qtype z r = (err err_chain_timeout, r)
  replied (query_failed false) name qtype z r = (err err_resolver, r)
  replied (answered rcode records) name qtype z r =
      if not (rcode == 0) && not (rcode == 3)
      then (err err_resolver, r)
      else apply_to records name qtype z
          (record r { evidence = remember r.evidence name qtype records })

module _ (s : Setting) ⦃u : Unicode⦄ where
  -- `loadRecords`, from what the cache holds.
  unfoldable pub load_from : Option (List ZoneRecord) → Zone → Bytes → ℕ → Run → Chained (ℕ × Zone)
  unfolding replied apply_to
  load_from (some records) z name qtype r = apply_to records name qtype z r
  load_from none z name qtype r =
      replied (s.query r.evidence.calls name qtype) name qtype z (called r)

  -- `loadRecords`
  unfoldable pub load_records : Zone → Bytes → ℕ → Run → Chained (ℕ × Zone)
  unfolding load_from remembered
  load_records z name qtype r = load_from (remembered r.evidence name qtype) z name qtype r
