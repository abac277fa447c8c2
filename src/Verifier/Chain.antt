-- ===== src/Verifier/Chain.antt =====
-- `loadRecords` and `checkRRSet` of verifier/chain.go and reason.go, and the cache of verifier/cache.go:
-- what the walk of the chain of trust reads, and what it writes into the result. The resolver, the
-- context and the clock are arguments, and the events are left out.
pub mod Loading
pub mod Keys
pub mod Summary
pub mod Descent
pub mod Root
pub mod Leaf
pub mod Alias
pub mod Hop
pub mod Trust
use dnsdata_go.Common.{
  ℕ, suc, Bool, true, false, not, ◌&&◌, ◌||◌, List, [], ◌∷◌, ◌++◌, map, Option, none, some, ◌==◌,
  if◌then◌else◌, Bytes, equal, Result, ok, err,
}
use dnsdata_go.Text.{Unicode}
use dnsdata_go.Zone.Canonical.{equal_canonical_names}
use dnsdata_go.Dnssec.Crypto.{Schemes}
use dnsdata_go.Dnssec.Zone.{KeyVerifyMode, ZoneRecord, Zone, Checked}
use dnsdata_go.Dnssec.Zone.Check.Agreement.{SigResult, check_rr_set, rr_set_verified}
use dnsdata_go.Verifier.Codes.{
  ReasonCode, code_unsupported_algorithm, status_text, sig_failure_code,
}
use dnsdata_go.Verifier.Steps.{SigCheck, ZoneStep}
use dnsdata_go.Verifier.Walk.{WalkResult}

-- The sentinels of verifier/errors.go that an error of the walk wraps.
pub data ChainError : Type 0 where
  err_resolver err_chain_timeout err_verifier err_invalid_q_name : ChainError

-- What `Query` of the resolver returns: an error, which is the context's or not, or the response's
-- code and records.
pub data Reply : Type 0 where
  query_failed : Bool → Reply
  answered : ℕ → List ZoneRecord → Reply

-- `AnchorDS`, with its digest in hexadecimal.
pub record AnchorDs : Type 0 where
  pub key_tag : ℕ
  pub algorithm : ℕ
  pub digest_type : ℕ
  pub digest : Bytes

-- What a Verifier holds, and the world around it. Each call of the resolver and of the context has
-- the number of those before it, so that answers may change.
pub record Setting : Type 0 where
  pub schemes : Schemes
  pub sha1 : Bytes → Bytes
  pub query : ℕ → Bytes → ℕ → Reply
  pub is_late : ℕ → Bool
  pub is_late_at_hop : ℕ → Bool
  pub anchors : Option (List AnchorDs)
  pub now : Option ℕ

-- An entry of the map of `MemoryCache`.
pub record CacheEntry : Type 0 where
  pub name : Bytes
  pub qtype : ℕ
  pub records : List ZoneRecord

-- `MemoryCache.Get`
unfoldable pub cache_get : List CacheEntry → Bytes → ℕ → Option (List ZoneRecord)
cache_get [] name qtype = none
cache_get (e ∷ entries) name qtype =
    let rest = cache_get entries name qtype in
    if equal e.name name && e.qtype == qtype then some e.records else rest

-- `MemoryCache.Put`; the entry in front hides one with its key behind it.
unfoldable pub cache_put : List CacheEntry → Bytes → ℕ → List ZoneRecord → List CacheEntry
cache_put entries name qtype records =
    record { name = name; qtype = qtype; records = records } ∷ entries

-- A map from texts to lists of texts, as `Evidence` has three.
abbrev pub TextsByName : Type 0
TextsByName = List (Bytes × List Bytes)

-- `m[key] = append(m[key], value)`
unfoldable pub append_at : TextsByName → Bytes → Bytes → TextsByName
append_at [] key value = (key, value ∷ []) ∷ []
append_at ((k, values) ∷ rest) key value =
    let later = append_at rest key value in
    if equal k key then (k, values ++ value ∷ []) ∷ rest else (k, values) ∷ later

-- `Chain` and `Evidence` of a Result, the verifier's cache, and the number of calls made outside.
pub record Session : Type 0 where
  pub chain : List ZoneStep
  pub dnskeys : TextsByName
  pub dses : TextsByName
  pub rrsigs : TextsByName
  pub cache : Option (List CacheEntry)
  pub calls : ℕ

-- `AnswerRecord`
pub record AnswerRecord : Type 0 where
  pub name : Bytes
  pub ttl : ℕ
  pub class : ℕ
  pub rr_type : ℕ
  pub value : Bytes
  pub rdata : Bytes

-- `AnswerSignature`
pub record AnswerSignature : Type 0 where
  pub key_tag : ℕ
  pub algorithm : ℕ
  pub signer : Bytes
  pub labels : ℕ
  pub inception : ℕ
  pub expiration : ℕ

pub record Answer : Type 0 where
  pub name : Bytes
  pub rr_type : ℕ
  pub records : List AnswerRecord
  pub signatures : List AnswerSignature

-- The Result that the walk writes to.
abbrev pub Run : Type 0
Run = WalkResult Session Answer

-- A value or an error, beside the result as it is then.
abbrev pub Chained : Type 0 → Type 0
Chained A = Result ChainError A × Run

-- `v, err := f(); if err != nil { return nil, err }`, and what follows.
abbrev pub and_then : {A B : Type 0} → Chained A → (A → Run → Chained B) → Chained B
and_then (ok a, r) continue = continue a r
and_then (err e, r) continue = (err e, r)

-- One call of the resolver or of the context more.
abbrev pub called : Run → Run
called r = record r { evidence = record r.evidence { calls = suc r.evidence.calls } }

-- `rrsetCheck`
pub record RrSetCheck : Type 0 where
  pub verified : Bool
  pub code : Option ReasonCode
  pub sigs : List SigCheck

-- `sigChecks`
unfoldable pub sig_checks : Bytes → List SigResult → List SigCheck
unfolding status_text
sig_checks name [] = []
sig_checks name (r ∷ results) =
    record {
      name = name;
      rr_type = r.rrsig.type_covered;
      key_tag = r.rrsig.key_tag;
      algorithm = r.rrsig.algorithm;
      signer = r.rrsig.signer;
      inception = r.rrsig.inception;
      expiration = r.rrsig.expire;
      outcome = status_text r.status;
    }
    ∷ sig_checks name results

-- What `checkRRSet` leaves in the result beside an error.
unfoldable pub note_unsupported : Option ReasonCode → Run → Run
note_unsupported (some code_unsupported_algorithm) r = record r {
  reason_code = some code_unsupported_algorithm;
}
note_unsupported _ r = r

-- The end of `checkRRSet`, from what `RRSetVerified` returns.
unfoldable pub rr_set_checked : Bytes → List SigResult → Checked Bool → Run → Chained RrSetCheck
unfolding sig_checks note_unsupported
rr_set_checked name results (verified, e) r =
    let code = if verified then none else some (sig_failure_code results) in
    elim e [
      | some x ↦ (err err_verifier, note_unsupported code r)
      | none ↦ (ok (record { verified = verified; code = code; sigs = sig_checks name results }), r)
    ]

module _ (s : Setting) ⦃u : Unicode⦄ where
  -- `checkRRSet`
  unfoldable pub check_set : Zone → Bytes → ℕ → KeyVerifyMode → Run → Chained RrSetCheck
  unfolding rr_set_checked
  check_set z name rr_type mode r =
      let results = check_rr_set s.schemes z name rr_type mode [] in
      rr_set_checked name results (rr_set_verified results) r
