-- ===== src/Verifier/Chain/Leaf.antt =====
-- `resolveLeaf` of verifier/chain.go, `tryCNAME` and `tryDNAME` of verifier/alias.go and `buildAnswer` of
-- verifier/answer.go: what the last zone of a hop says of the name.
use dnsdata_go.Common.{
  ℕ, Bool, false, not, List, [], ◌∷◌, map, Option, none, some, if◌then◌else◌, drop, Bytes, ok, err,
}
use dnsdata_go.Text.{Unicode}
use dnsdata_go.Dnssec.Crypto.{Schemes}
use dnsdata_go.Dnssec.Zone.{
  mode_none, RrSig, SigStatus, ZoneRecord, Zone, Checked, find_rr_set, find_rrsigs,
}
use dnsdata_go.Dnssec.Zone.Check.{is_verified, check_rrsig}
use dnsdata_go.Verifier.Verdict.{
  Verdict, secure, secure_no_data, secure_nx_domain, bogus, indeterminate,
}
use dnsdata_go.Verifier.Codes.{ReasonCode, wildcard_proof_missing}
use dnsdata_go.Verifier.Denial.{Reason}
use dnsdata_go.Verifier.Denial.Hashed.{prove_no_data, prove_nx_domain, prove_qname_non_existence}
use dnsdata_go.Verifier.Steps.{SigCheck, add_zone_sigs, detect_wildcard}
use dnsdata_go.Verifier.Walk.{AliasStep, WildcardInfo, HopOutcome}
use dnsdata_go.Verifier.Chain.{
  err_verifier, Setting, Answer, AnswerRecord, AnswerSignature, Run, Chained, RrSetCheck,
}
use dnsdata_go.Verifier.Chain.Descent.{zone_view}

abbrev pub Outcome : Type 0
Outcome = HopOutcome Answer

-- An outcome with a verdict and nothing else.
abbrev pub plain_outcome : Verdict → Outcome
plain_outcome v = record {
  verdict = v;
  bogus_at = [];
  insecure_at = [];
  insecure_reason = none;
  negative_reason = none;
  reason_code = none;
  alias = none;
  wildcard = none;
  answer = none;
}

-- `bogusOutcome`
unfoldable pub bogus_outcome : Bytes → Option ReasonCode → Outcome
bogus_outcome at_name code = record (plain_outcome bogus) { bogus_at = at_name; reason_code = code }

-- The outcome that follows an alias.
unfoldable pub alias_outcome : AliasStep → Outcome
alias_outcome a = record (plain_outcome secure) { alias = some a }

-- `addZoneSigs`
unfoldable pub add_sigs_to : Run → Bytes → List SigCheck → Run
add_sigs_to r zone_name sigs = record r {
  evidence = record r.evidence { chain = add_zone_sigs r.evidence.chain zone_name sigs };
}

-- The AnswerRecord of a record with its body, whose length `b.Clone()[2:]` drops. In a set that has
-- just verified each body has its length.
unfoldable pub answer_record : ZoneRecord → Bytes → AnswerRecord
answer_record rr body = record {
  name = rr.label;
  ttl = rr.ttl;
  class = rr.class;
  rr_type = rr.rr_type;
  value = rr.value;
  rdata = drop 2 body;
}

-- The first loop of `buildAnswer`.
unfoldable pub answer_records : List ZoneRecord → Option (List AnswerRecord)
unfolding answer_record
answer_records [] = some []
answer_records (rr ∷ rrs) =
    let rest = answer_records rrs in
    elim rr.body [
      | err e ↦ none
      | ok body ↦ elim rest [ none ↦ none | some as_list ↦ some (answer_record rr body ∷ as_list) ]
    ]

-- `ok, err := VerifyRRSIG(…); err != nil || !ok`
unfoldable pub is_signed : Checked SigStatus → Bool
unfolding is_verified
is_signed (status, none) = is_verified status
is_signed (status, some e) = false

-- The second loop of `buildAnswer`.
unfoldable pub answer_signatures : (RrSig → Checked SigStatus) → List RrSig → List AnswerSignature
unfolding is_signed
answer_signatures check [] = []
answer_signatures check (sig ∷ sigs) =
    let rest = answer_signatures check sigs in
    if is_signed (check sig)
    then record {
      key_tag = sig.key_tag;
      algorithm = sig.algorithm;
      signer = sig.signer;
      labels = sig.labels;
      inception = sig.inception;
      expiration = sig.expire;
    }
      ∷ rest
    else rest

module _ ⦃u : Unicode⦄ where
  -- `buildAnswer`; its error wraps ErrVerifier.
  unfoldable pub build_answer : Schemes → Zone → Bytes → ℕ → Option Answer
  unfolding answer_records answer_signatures
  build_answer h z qname qtype = elim (answer_records (find_rr_set z.records qname qtype)) [
    | none ↦ none
    | some records ↦ some (record {
      name = qname;
      rr_type = qtype;
      records = records;
      signatures =
          answer_signatures (λ sig. check_rrsig h z qname qtype sig mode_none)
            (find_rrsigs z qname qtype []);
    })
  ]

  -- `detectWildcard` on the signatures over a record set.
  unfoldable pub wildcard_of : Zone → Bytes → ℕ → Option WildcardInfo
  wildcard_of z qname qtype =
      detect_wildcard qname (map (λ sig. sig.labels) (find_rrsigs z qname qtype []))

-- The outcome of a record set made from a wildcard, from the proof that the name does not exist.
unfoldable pub wildcard_outcome : Bytes → Answer → WildcardInfo → Option Reason → Outcome
unfolding bogus_outcome
wildcard_outcome name a wc none = bogus_outcome name (some wildcard_proof_missing)
wildcard_outcome name a wc (some reason) = record (plain_outcome secure) {
  wildcard = some (record wc { proof_reason = some reason });
  answer = some a;
}

-- The end of `resolveLeaf`, from what `proveNoData` and `proveNXDomain` return.
unfoldable pub denied_outcome : Option Reason → Option Reason → Outcome
denied_outcome (some reason) nx = record (plain_outcome secure_no_data) {
  negative_reason = some reason;
}
denied_outcome none (some reason) = record (plain_outcome secure_nx_domain) {
  negative_reason = some reason;
}
denied_outcome none none = plain_outcome indeterminate

module _ (s : Setting) ⦃u : Unicode⦄ where
  -- The outcome of a record set that verified, with or without a wildcard behind it.
  unfoldable pub positive_outcome : Zone → Bytes → Answer → Option WildcardInfo → Outcome
  unfolding wildcard_outcome zone_view
  positive_outcome z name a none = record (plain_outcome secure) { answer = some a }
  positive_outcome z name a (some wc) =
      wildcard_outcome name a wc
        (prove_qname_non_existence s.sha1 (zone_view s.schemes z) wc.next_closer)

  -- `resolveLeaf` behind `buildAnswer`.
  unfoldable pub answer_built : Zone → Bytes → Bytes → ℕ → Option Answer → Run → Chained Outcome
  unfolding positive_outcome wildcard_of
  answer_built z name qname qtype none r = (err err_verifier, r)
  answer_built z name qname qtype (some a) r =
      (ok (positive_outcome z name a (wildcard_of z qname qtype)), r)

  -- `resolveLeaf` behind the check of the record set.
  unfoldable pub leaf_checked : Zone → Bytes → Bytes → ℕ → RrSetCheck → Run → Chained Outcome
  unfolding answer_built build_answer add_sigs_to bogus_outcome
  leaf_checked z name qname qtype c r =
      let after = add_sigs_to r name c.sigs in
      if not c.verified
      then (ok (bogus_outcome name c.code), after)
      else answer_built z name qname qtype (build_answer s.schemes z qname qtype) after

  -- The negative proofs at the end of `resolveLeaf`.
  unfoldable pub negative_outcome : Zone → Bytes → ℕ → Outcome
  unfolding denied_outcome zone_view
  negative_outcome z qname qtype =
      denied_outcome (prove_no_data s.sha1 (zone_view s.schemes z) qname qtype)
        (prove_nx_domain s.sha1 (zone_view s.schemes z) qname)
