-- ===== src/Verifier/Chain/Descent.antt =====
-- `descendInto` and `validateRoot` of verifier/chain.go: how the keys of a zone are authenticated. Each
-- function but the last of a handler is its part behind a call that may fail.
use dnsdata_go.Common.{
  ℕ, Bool, true, false, not, List, [], ◌∷◌, ◌++◌, Option, none, some, ◌==◌, if◌then◌else◌, Bytes,
  Result, ok, err,
}
use dnsdata_go.Text.{Unicode}
use dnsdata_go.Types.{type_dname, type_dnskey, type_ds, type_nsec, type_nsec3}
use dnsdata_go.Zone.Canonical.{equal_canonical_names}
use dnsdata_go.Dnssec.Base32.{owner_hash_from_name}
use dnsdata_go.Dnssec.Crypto.{DnsKey, Schemes}
use dnsdata_go.Dnssec.Zone.{
  mode_none, mode_ksk, Handler, nsec_handler, nsec3_handler, ZoneRecord, Zone, find_rr_set,
}
use dnsdata_go.Dnssec.Zone.Check.{succeeded, verify_rr_set}
use dnsdata_go.Verifier.Denial.{NsecCandidate, Nsec3Candidate, ZoneView, Reason}
use dnsdata_go.Verifier.Denial.Hashed.{prove_no_ds}
use dnsdata_go.Verifier.Names.{ancestors_of}
use dnsdata_go.Verifier.Steps.{SigCheck, ZoneStep, add_step}
use dnsdata_go.Verifier.Chain.{Setting, Run, Chained, and_then, RrSetCheck, check_set}
use dnsdata_go.Verifier.Chain.Loading.{load_records}
use dnsdata_go.Verifier.Chain.Keys.{
  KeyMatchError, key_match_code, match_ksk_with_ds, signing_ksk, trust_keys,
}

pub data DescendStatus : Type 0 where
  descend_descended descend_insecure descend_no_cut descend_bogus : DescendStatus

-- `descent`, with the parent zone, which the answer to the DS query was added to.
pub record Descent : Type 0 where
  pub status : DescendStatus
  pub parent : Zone
  pub zone : Option Zone
  pub ksk : Option DnsKey
  pub sigs : List SigCheck

-- `newZone`
unfoldable pub new_zone : Option ℕ → Option (List ZoneRecord) → Zone
new_zone now parent = record { records = []; trusted = []; parent = parent; now = now }

-- `nsecHandlers`; `AllRecords` leaves the order of the records open.
unfoldable pub nsec_handlers : List ZoneRecord → List NsecCandidate
nsec_handlers [] = []
nsec_handlers (rr ∷ rrs) =
    let rest = nsec_handlers rrs in
    if not (rr.rr_type == type_nsec) then rest else elim rr.handler [
      | nsec_handler n ↦ record { owner = rr.label; nsec = n } ∷ rest
      | _ ↦ rest
    ]

module _ ⦃u : Unicode⦄ where
  -- The body of the loop of `nsec3Handlers` behind the test of the type.
  unfoldable pub nsec3_candidate : ZoneRecord → Handler → Option Nsec3Candidate
  nsec3_candidate rr (nsec3_handler n) = elim (owner_hash_from_name rr.label) [
    | err e ↦ none
    | ok hash ↦ some (record { owner = rr.label; owner_hash = hash; h = n })
  ]
  nsec3_candidate rr _ = none

  -- `nsec3Handlers`
  unfoldable pub nsec3_handlers : List ZoneRecord → List Nsec3Candidate
  unfolding nsec3_candidate
  nsec3_handlers [] = []
  nsec3_handlers (rr ∷ rrs) =
      let rest = nsec3_handlers rrs in
      if not (rr.rr_type == type_nsec3)
      then rest
      else elim (nsec3_candidate rr rr.handler) [ none ↦ rest | some c ↦ c ∷ rest ]

  -- What the negative proofs read of a zone.
  unfoldable pub zone_view : Schemes → Zone → ZoneView
  unfolding nsec_handlers nsec3_handlers
  zone_view h z = record {
    nsecs = nsec_handlers z.records;
    nsec3s = nsec3_handlers z.records;
    verifies = λ owner rr_type. succeeded (verify_rr_set h z owner rr_type mode_none []);
  }

  -- The loop of `belowDNAME`.
  unfoldable pub has_dname_at : List ZoneRecord → Bytes → List Bytes → Bool
  has_dname_at records name [] = false
  has_dname_at records name (a ∷ ancestors) =
      let rest = has_dname_at records name ancestors in
      if equal_canonical_names a name
      then rest
      else elim (find_rr_set records a type_dname) [ [] ↦ rest | rr ∷ rrs ↦ true ]

  -- `belowDNAME`
  unfoldable pub below_dname : Zone → Bytes → Bool
  unfolding has_dname_at
  below_dname z name = has_dname_at z.records name (ancestors_of name)

-- `addStep`
unfoldable pub add_step_to : Run → ZoneStep → Run
add_step_to r step = record r {
  evidence = record r.evidence { chain = add_step r.evidence.chain step };
}

-- A descent that went no further than the parent.
unfoldable pub stopped : DescendStatus → Zone → Option Zone → List SigCheck → Descent
stopped status parent z sigs = record {
  status = status;
  parent = parent;
  zone = z;
  ksk = none;
  sigs = sigs;
}

module _ (s : Setting) ⦃u : Unicode⦄ where
  -- The end of `noDSDescent`, from what `proveNoDS` returns.
  unfoldable pub no_ds_proven : Zone → Option Reason → Run → Chained Descent
  unfolding stopped
  no_ds_proven parent none r = (ok (stopped descend_no_cut parent none []), r)
  no_ds_proven parent (some reason) r =
      (ok (stopped descend_insecure parent none []), record r { insecure_reason = some reason })

  -- `noDSDescent`
  unfoldable pub no_ds_descent : Zone → Bytes → Run → Chained Descent
  unfolding no_ds_proven below_dname zone_view stopped
  no_ds_descent parent child r =
      if below_dname parent child
      then (ok (stopped descend_no_cut parent none []), r)
      else no_ds_proven parent (prove_no_ds s.sha1 (zone_view s.schemes parent) child) r

  -- The end of `descendInto`, behind the check of the DNSKEY record set.
  unfoldable pub dnskeys_checked :
      Zone → Zone → List DnsKey → List SigCheck → RrSetCheck → Run → Chained Descent
  unfolding stopped
  dnskeys_checked parent z ksks sigs c r =
      if not c.verified
      then (
        ok (stopped descend_bogus parent (some z) (sigs ++ c.sigs)),
        record r { reason_code = c.code },
      )
      else (
        ok (record {
          status = descend_descended;
          parent = parent;
          zone = some z;
          ksk = signing_ksk ksks c.sigs;
          sigs = sigs ++ c.sigs;
        }),
        r,
      )

  -- Behind `matchKSKWithDS`.
  unfoldable pub keys_matched :
      Zone
      → Bytes
      → List SigCheck
      → Zone
      → Result KeyMatchError (List DnsKey)
      → Run
      → Chained Descent
  unfolding stopped dnskeys_checked trust_keys
  keys_matched parent child sigs z (err e) r = (
    ok (stopped descend_bogus parent (some z) sigs),
    record r { reason_code = some (key_match_code e) },
  )
  keys_matched parent child sigs z (ok ksks) r =
      and_then (check_set s (trust_keys z ksks) child type_dnskey mode_ksk r)
        (dnskeys_checked parent (trust_keys z ksks) ksks sigs)

  -- Behind the answer to the DNSKEY query.
  unfoldable pub dnskeys_loaded : Zone → Bytes → List SigCheck → ℕ × Zone → Run → Chained Descent
  unfolding keys_matched
  dnskeys_loaded parent child sigs (count, z) r =
      keys_matched parent child sigs z (match_ksk_with_ds s.schemes z parent child) r

  -- Behind the check of the DS record set.
  unfoldable pub ds_checked : Zone → Bytes → RrSetCheck → Run → Chained Descent
  unfolding stopped dnskeys_loaded new_zone
  ds_checked parent child c r =
      if not c.verified
      then (ok (stopped descend_bogus parent none c.sigs), record r { reason_code = c.code })
      else and_then (load_records s (new_zone s.now (some parent.records)) child type_dnskey r)
          (dnskeys_loaded parent child c.sigs)

  -- Behind the answer to the DS query.
  unfoldable pub ds_loaded : Bytes → ℕ × Zone → Run → Chained Descent
  unfolding no_ds_descent ds_checked
  ds_loaded child (count, parent) r =
      if count == 0
      then no_ds_descent parent child r
      else and_then (check_set s parent child type_ds mode_none r) (ds_checked parent child)

  -- `descendInto`
  unfoldable pub descend_into : Zone → Bytes → Run → Chained Descent
  unfolding ds_loaded
  descend_into parent child r = and_then (load_records s parent child type_ds r) (ds_loaded child)
