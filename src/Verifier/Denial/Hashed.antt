-- ===== src/Verifier/Denial/Hashed.antt =====
-- The NSEC3 half of verifier/leaf_negative.go, verifier/negative.go and verifier/wildcard.go.
pub mod Sound
use dnsdata_go.Common.{
  ℕ, Bool, false, ◌&&◌, ◌||◌, List, [], ◌∷◌, Option, none, some, if◌then◌else◌, Bytes, equal, ok,
  err,
}
use dnsdata_go.Text.{Unicode}
use dnsdata_go.Zone.Canonical.{equal_canonical_names}
use dnsdata_go.Dnssec.Nsec.{
  covers_name, covers_hash, matches_name, proves_no_data, proves_no_ds, has_opt_out,
}
use dnsdata_go.Dnssec.Hash.{compute_nsec3_hash}
use dnsdata_go.Verifier.Names.{wildcard_at, ancestors_of, next_closer_name}
use dnsdata_go.Verifier.Denial.{
  NsecCandidate, Nsec3Candidate, ZoneView, Reason, EncloserProof, or_else, find_nsec, find_nsec3,
  nsec3_without_type, nsec3_wildcard, nsec3_denies_wildcard, nsec_no_ds, nsec3_no_ds, nsec3_opt_out,
  nsec_covers, nsec3_covers, prove_no_data_with_nsec, prove_nx_domain_with_nsec,
}

module _ (sha1 : Bytes → Bytes) ⦃u : Unicode⦄ where
  -- The hash of a name under the parameters of a record.
  unfoldable pub hash_under : Nsec3Candidate → Bytes → Option Bytes
  hash_under c name =
      elim (compute_nsec3_hash sha1 name c.h.hash_algorithm c.h.iterations c.h.salt) [
        | ok h ↦ some h
        | err e ↦ none
      ]

  -- `nsec3Matches` up to its check of the signature, which `find_nsec3` makes.
  unfoldable pub hash_matches : Bytes → Nsec3Candidate → Bool
  hash_matches name c = elim (hash_under c name) [ none ↦ false | some t ↦ equal t c.owner_hash ]

  -- The record covers the hash of the name.
  unfoldable pub hash_covered : Bytes → Nsec3Candidate → Bool
  hash_covered name c = elim (hash_under c name) [
    | none ↦ false
    | some t ↦ covers_hash c.h c.owner_hash t
  ]

  -- `findCoveringNSEC3`
  unfoldable pub find_covering_nsec3 : ZoneView → Bytes → Option Nsec3Candidate
  find_covering_nsec3 z target = find_nsec3 z (hash_covered target) z.nsec3s

  -- The nested loops of `closestEncloserProofNSEC3`: the first ancestor that a record matches.
  unfoldable pub find_encloser : ZoneView → List Bytes → Option (Bytes × Bytes)
  find_encloser z [] = none
  find_encloser z (a ∷ ancestors) =
      let rest = find_encloser z ancestors in
      elim (find_nsec3 z (hash_matches a) z.nsec3s) [ some c ↦ some (a, c.owner) | none ↦ rest ]

  -- What follows in `closestEncloserProofNSEC3` once the closest encloser is found.
  unfoldable pub encloser_found : ZoneView → Bytes → Bytes × Bytes → Option EncloserProof
  encloser_found z qname (ce, ce_owner) =
      let nc = next_closer_name qname ce in
      let covering = find_covering_nsec3 z nc in
      if equal ce [] || equal_canonical_names ce qname
      then none
      else if equal nc []
      then none
      else elim covering [
        | none ↦ none
        | some c ↦ some (record { ce = ce; ce_owner = ce_owner; nc = nc; nc_owner = c.owner })
      ]

  -- `closestEncloserProofNSEC3`
  unfoldable pub closest_encloser_proof_nsec3 : ZoneView → Bytes → Option EncloserProof
  closest_encloser_proof_nsec3 z qname = elim (find_encloser z (ancestors_of qname)) [
    | none ↦ none
    | some found ↦ encloser_found z qname found
  ]

  no_data_match : Bytes → ℕ → Nsec3Candidate → Bool
  no_data_match name qtype c = hash_matches name c && proves_no_data c.h.covered_types qtype

  -- `proveNoDataWithNSEC3`
  unfoldable pub prove_no_data_with_nsec3 : ZoneView → Bytes → ℕ → Option Reason
  unfolding no_data_match
  prove_no_data_with_nsec3 z qname qtype =
      elim (find_nsec3 z (no_data_match qname qtype) z.nsec3s) [
        | some c ↦ some (nsec3_without_type c.owner)
        | none ↦ elim (closest_encloser_proof_nsec3 z qname) [
          | none ↦ none
          | some p ↦ elim (find_nsec3 z (no_data_match (wildcard_at p.ce) qtype) z.nsec3s) [
            | none ↦ none
            | some c ↦ some (nsec3_wildcard p.ce_owner p.nc_owner c.owner)
          ]
        ]
      ]

  -- `proveNXDomainWithNSEC3`
  unfoldable pub prove_nx_domain_with_nsec3 : ZoneView → Bytes → Option Reason
  prove_nx_domain_with_nsec3 z qname = elim (closest_encloser_proof_nsec3 z qname) [
    | none ↦ none
    | some p ↦ elim (find_covering_nsec3 z (wildcard_at p.ce)) [
      | none ↦ none
      | some c ↦ some (nsec3_denies_wildcard p.ce_owner p.nc_owner c.owner)
    ]
  ]

  -- `proveNoData`
  unfoldable pub prove_no_data : ZoneView → Bytes → ℕ → Option Reason
  prove_no_data z qname qtype =
      or_else (prove_no_data_with_nsec z qname qtype) (prove_no_data_with_nsec3 z qname qtype)

  -- `proveNXDomain`
  unfoldable pub prove_nx_domain : ZoneView → Bytes → Option Reason
  prove_nx_domain z qname =
      or_else (prove_nx_domain_with_nsec z qname) (prove_nx_domain_with_nsec3 z qname)

  matches_no_ds : Bytes → NsecCandidate → Bool
  matches_no_ds child c = matches_name c.owner child && proves_no_ds c.nsec.covered_types

  -- `proveNoDSWithNSEC`
  unfoldable pub prove_no_ds_with_nsec : ZoneView → Bytes → Option Reason
  unfolding matches_no_ds
  prove_no_ds_with_nsec z child = elim (find_nsec z (matches_no_ds child) z.nsecs) [
    | none ↦ none
    | some c ↦ some (nsec_no_ds c.owner)
  ]

  -- `proveNoDSWithNSEC3`
  unfoldable pub prove_no_ds_with_nsec3 : ZoneView → Bytes → Option Reason
  prove_no_ds_with_nsec3 z child =
      elim (find_nsec3 z (λ c. hash_matches child c && proves_no_ds c.h.covered_types) z.nsec3s) [
        | some c ↦ some (nsec3_no_ds c.owner)
        | none ↦ elim (find_nsec3 z (λ c. has_opt_out c.h && hash_covered child c) z.nsec3s) [
          | none ↦ none
          | some c ↦ some (nsec3_opt_out c.owner)
        ]
      ]

  -- `proveNoDS`
  unfoldable pub prove_no_ds : ZoneView → Bytes → Option Reason
  prove_no_ds z child = or_else (prove_no_ds_with_nsec z child) (prove_no_ds_with_nsec3 z child)

  -- `proveQnameNonExistence` of verifier/wildcard.go.
  unfoldable pub prove_qname_non_existence : ZoneView → Bytes → Option Reason
  prove_qname_non_existence z next_closer =
      elim (find_nsec z (λ c. covers_name c.nsec c.owner next_closer) z.nsecs) [
        | some c ↦ some (nsec_covers c.owner)
        | none ↦ elim (find_covering_nsec3 z next_closer) [
          | none ↦ none
          | some c ↦ some (nsec3_covers c.owner)
        ]
      ]
