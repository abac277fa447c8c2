-- ===== src/Verifier/Denial.antt =====
-- verifier/leaf_negative.go, verifier/negative.go and `proveQnameNonExistence` of
-- verifier/wildcard.go: what the signed NSEC and NSEC3 records of a zone prove.
pub mod Hashed
pub mod Sound
pub mod Unique
pub mod Complete
use dnsdata_go.Common.{
  ℕ, Bool, true, false, not, ◌&&◌, ◌||◌, List, [], ◌∷◌, ◌++◌, Option, none, some, if◌then◌else◌,
  Bytes, equal, Result, ok, err,
}
use dnsdata_go.Text.{Unicode}
use dnsdata_go.Types.{type_nsec, type_nsec3}
use dnsdata_go.Zone.Canonical.{equal_canonical_names}
use dnsdata_go.Dnssec.Nsec.{
  Nsec, Nsec3, covers_name, covers_hash, matches_name, proves_no_data, proves_no_ds, has_opt_out,
}
use dnsdata_go.Dnssec.Hash.{compute_nsec3_hash}
use dnsdata_go.Verifier.Names.{
  is_strict_subdomain, closest_encloser_nsec, wildcard_at, ancestors_of, next_closer_name,
}

pub record NsecCandidate : Type 0 where
  pub owner : Bytes
  pub nsec : Nsec

pub record Nsec3Candidate : Type 0 where
  pub owner : Bytes
  pub owner_hash : Bytes
  pub h : Nsec3

-- What the proofs read of a dnssec.Zone: its records as `nsecHandlers` and `nsec3Handlers` list
-- them, and whether `VerifyRRSet(owner, type, KeyModeNone, "")` returns true and no error.
pub record ZoneView : Type 0 where
  pub nsecs : List NsecCandidate
  pub nsec3s : List Nsec3Candidate
  pub verifies : Bytes → ℕ → Bool

-- The reason that stands beside true, by the names that its text mentions.
pub data Reason : Type 0 where
  nsec_without_type : Bytes → Reason
  nsec_empty_non_terminal nsec_wildcard nsec_denies_wildcard : Bytes → Bytes → Reason
  nsec_no_ds nsec3_without_type nsec3_no_ds nsec3_opt_out : Bytes → Reason
  nsec3_wildcard nsec3_denies_wildcard : Bytes → Bytes → Bytes → Reason
  nsec_covers nsec3_covers : Bytes → Reason

-- `nsec3CEProof`
pub record EncloserProof : Type 0 where
  pub ce : Bytes
  pub ce_owner : Bytes
  pub nc : Bytes
  pub nc_owner : Bytes

-- The second result where the first has no proof.
abbrev pub or_else : Option Reason → Option Reason → Option Reason
or_else (some r) other = some r
or_else none other = other

-- `findNSEC`
unfoldable pub find_nsec :
    ZoneView → (NsecCandidate → Bool) → List NsecCandidate → Option NsecCandidate
find_nsec z pred [] = none
find_nsec z pred (c ∷ cs) =
    let rest = find_nsec z pred cs in
    if not (pred c) then rest else if not (z.verifies c.owner type_nsec) then rest else some c

-- The same loop over NSEC3 records, which the functions below write out.
unfoldable pub find_nsec3 :
    ZoneView → (Nsec3Candidate → Bool) → List Nsec3Candidate → Option Nsec3Candidate
find_nsec3 z pred [] = none
find_nsec3 z pred (c ∷ cs) =
    let rest = find_nsec3 z pred cs in
    if not (pred c) then rest else if not (z.verifies c.owner type_nsec3) then rest else some c

module _ ⦃u : Unicode⦄ where
  unfoldable pub covers_q : Bytes → NsecCandidate → Bool
  covers_q qname c = covers_name c.nsec c.owner qname

  unfoldable pub matches_without : Bytes → ℕ → NsecCandidate → Bool
  matches_without name qtype c =
      matches_name c.owner name && proves_no_data c.nsec.covered_types qtype

  -- What follows in `proveNoDataWithNSEC` once a covering record is found.
  unfoldable pub no_data_covered : ZoneView → Bytes → ℕ → NsecCandidate → Option Reason
  unfolding matches_without
  no_data_covered z qname qtype c =
      let ce = closest_encloser_nsec qname c.owner c.nsec.next_domain in
      let found = find_nsec z (matches_without (wildcard_at ce) qtype) z.nsecs in
      if is_strict_subdomain c.nsec.next_domain qname
      then some (nsec_empty_non_terminal c.owner c.nsec.next_domain)
      else if equal ce []
      then none
      else elim found [ none ↦ none | some m ↦ some (nsec_wildcard c.owner m.owner) ]

  -- `proveNoDataWithNSEC`
  unfoldable pub prove_no_data_with_nsec : ZoneView → Bytes → ℕ → Option Reason
  unfolding covers_q matches_without
  prove_no_data_with_nsec z qname qtype = elim (find_nsec z (matches_without qname qtype) z.nsecs) [
    | some c ↦ some (nsec_without_type c.owner)
    | none ↦ elim (find_nsec z (covers_q qname) z.nsecs) [
      | none ↦ none
      | some c ↦ no_data_covered z qname qtype c
    ]
  ]

  -- What follows in `proveNXDomainWithNSEC` once a covering record is found.
  unfoldable pub nx_domain_covered : ZoneView → Bytes → NsecCandidate → Option Reason
  unfolding covers_q
  nx_domain_covered z qname c =
      let ce = closest_encloser_nsec qname c.owner c.nsec.next_domain in
      let denial = find_nsec z (covers_q (wildcard_at ce)) z.nsecs in
      if is_strict_subdomain c.nsec.next_domain qname
      then none
      else if equal ce [] || equal_canonical_names ce qname
      then none
      else elim denial [ none ↦ none | some d ↦ some (nsec_denies_wildcard c.owner d.owner) ]

  -- `proveNXDomainWithNSEC`
  unfoldable pub prove_nx_domain_with_nsec : ZoneView → Bytes → Option Reason
  unfolding covers_q
  prove_nx_domain_with_nsec z qname = elim (find_nsec z (covers_q qname) z.nsecs) [
    | none ↦ none
    | some c ↦ nx_domain_covered z qname c
  ]
