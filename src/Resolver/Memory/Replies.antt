-- ===== src/Resolver/Memory/Replies.antt =====
-- resolver/memory/answer.go: the answer of one zone to a query.
use dnsdata_go.Common.{
  ℕ, ◌-◌, Bool, false, not, ◌&&◌, ◌||◌, List, [], ◌∷◌, ◌++◌, map, ◌==◌, if◌then◌else◌, length, take,
  Bytes, equal,
}
use dnsdata_go.Text.{Unicode}
use dnsdata_go.Types.{type_cname, type_dname, type_ds, type_ns, type_nsec, type_nsec3}
use dnsdata_go.Dnssec.Zone.{ZoneRecord}
use dnsdata_go.Verifier.Names.{dotted}
use dnsdata_go.Resolver.Memory.{
  AnswerCopy, copy_as, ZoneIndex, labels, is_at_or_below, parents, wildcard_of_name, is_among,
  records_at, rrset, with_sigs, cut_above, closest_encloser, next_closer, dname_in_parents,
  normalize, covering_nsec,
}
use dnsdata_go.Resolver.Memory.Index.{matching, covering}

-- `Response`, less its AD bit.
pub record MemoryResponse : Type 0 where
  pub rcode : ℕ
  pub records : List AnswerCopy

-- The records as `response` copies them.
abbrev pub copies : List ZoneRecord → List AnswerCopy
copies = map (λ rr. copy_as rr rr.label)

-- The equality of keys in `response`.
unfoldable pub same_key_as : AnswerCopy → AnswerCopy → Bool
same_key_as a b = equal a.label b.label && (equal a.value b.value && a.rr_type == b.rr_type)

-- `seen[k]`
unfoldable pub is_seen_in : AnswerCopy → List AnswerCopy → Bool
unfolding same_key_as
is_seen_in a [] = false
is_seen_in a (b ∷ seen) = same_key_as a b || is_seen_in a seen

-- The loop of `response`, with the keys seen so far.
unfoldable pub unseen : List AnswerCopy → List AnswerCopy → List AnswerCopy
unfolding is_seen_in
unseen seen [] = []
unseen seen (a ∷ as_list) =
    let rest = unseen (if is_seen_in a seen then seen else a ∷ seen) as_list in
    if is_seen_in a seen then rest else a ∷ rest

-- `response`
unfoldable pub response : ℕ → List AnswerCopy → MemoryResponse
unfolding unseen
response rcode records = record { rcode = rcode; records = unseen [] records }

-- `nsec3At`
unfoldable pub nsec3_at : ZoneIndex → Bytes → List ZoneRecord
unfolding with_sigs
nsec3_at idx owner = if equal owner [] then [] else with_sigs idx owner type_nsec3

-- The list, or the other one where it is empty.
abbrev pub or_records : List ZoneRecord → List ZoneRecord → List ZoneRecord
or_records [] other = other
or_records (rr ∷ rrs) other = rr ∷ rrs

-- The CNAME record set that answers a query of another type.
unfoldable pub cname_for : ZoneIndex → Bytes → ℕ → List ZoneRecord
cname_for idx name qtype = if qtype == type_cname then [] else with_sigs idx name type_cname

module _ ⦃u : Unicode⦄ where
  -- The CNAME that `dnameAnswer` makes from the first DNAME record.
  unfoldable pub synthesised_cname : Bytes → Bytes → ZoneRecord → AnswerCopy
  synthesised_cname name owner dname = record {
    label = name;
    ttl = dname.ttl;
    class = dname.class;
    rr_type = type_cname;
    value = dotted (
        take (length (labels name) - length (labels owner)) (labels name)
        ++ labels (normalize dname.value));
  }

  -- `dnameAnswer`; its caller has found a record.
  unfoldable pub dname_answer : ZoneIndex → Bytes → Bytes → List ZoneRecord → MemoryResponse
  unfolding response synthesised_cname
  dname_answer idx name owner [] = response 0 []
  dname_answer idx name owner (dname ∷ rest) =
      response 0 (copies (dname ∷ rest) ++ synthesised_cname name owner dname ∷ [])

module _ (sha1 : Bytes → Bytes) ⦃u : Unicode⦄ where
  -- The loop of `closestEncloserProof`, which ends at the apex.
  unfoldable pub encloser_proof_in : ZoneIndex → Bytes → List Bytes → List ZoneRecord × Bytes
  unfolding nsec3_at
  encloser_proof_in idx name [] = ([], idx.apex)
  encloser_proof_in idx name (ce ∷ names) =
      let rest = encloser_proof_in idx name names in
      let owner = matching sha1 idx.nsec3s ce in
      if not (is_at_or_below ce idx.apex)
      then ([], idx.apex)
      else if not (equal owner [])
      then (nsec3_at idx owner ++ nsec3_at idx (covering sha1 idx.nsec3s (next_closer name ce)), ce)
      else if equal ce idx.apex
      then ([], idx.apex)
      else rest

  -- `closestEncloserProof`
  unfoldable pub closest_encloser_proof : ZoneIndex → Bytes → List ZoneRecord × Bytes
  unfolding encloser_proof_in
  closest_encloser_proof idx name = encloser_proof_in idx name (parents name)

  -- `noDataProof`
  unfoldable pub no_data_proof : ZoneIndex → Bytes → List ZoneRecord
  unfolding nsec3_at closest_encloser_proof
  no_data_proof idx name = elim idx.nsec3s [
    | [] ↦ or_records (with_sigs idx name type_nsec) (covering_nsec idx name idx.nsecs)
    | e ∷ entries ↦
        let owner = matching sha1 idx.nsec3s name in
        if not (equal owner []) then nsec3_at idx owner else (closest_encloser_proof idx name).0
  ]

  -- `nxDomainProof`
  unfoldable pub nx_domain_proof : ZoneIndex → Bytes → Bytes → List ZoneRecord
  unfolding nsec3_at closest_encloser_proof
  nx_domain_proof idx name ce = elim idx.nsec3s [
    | [] ↦ covering_nsec idx name idx.nsecs ++ covering_nsec idx (wildcard_of_name ce) idx.nsecs
    | e ∷ entries ↦
        let (proof, provable) = closest_encloser_proof idx name in
        proof ++ nsec3_at idx (covering sha1 idx.nsec3s (wildcard_of_name provable))
  ]

  -- `nextCloserProof`
  unfoldable pub next_closer_proof : ZoneIndex → Bytes → Bytes → List ZoneRecord
  unfolding nsec3_at
  next_closer_proof idx name ce = elim idx.nsec3s [
    | [] ↦ covering_nsec idx (next_closer name ce) idx.nsecs
    | e ∷ entries ↦ nsec3_at idx (covering sha1 idx.nsec3s (next_closer name ce))
  ]

  -- `encloserProof`
  unfoldable pub encloser_proof : ZoneIndex → Bytes → List ZoneRecord
  unfolding nsec3_at
  encloser_proof idx ce = elim idx.nsec3s [
    | [] ↦ []
    | e ∷ entries ↦ nsec3_at idx (matching sha1 idx.nsec3s ce)
  ]

  -- `referral`
  unfoldable pub referral : ZoneIndex → Bytes → MemoryResponse
  unfolding response no_data_proof
  referral idx cut = response 0 (
      copies
        (rrset idx cut type_ns ++ or_records (with_sigs idx cut type_ds) (no_data_proof idx cut)))

  -- `existing`
  unfoldable pub existing : ZoneIndex → Bytes → ℕ → MemoryResponse
  unfolding response no_data_proof cname_for
  existing idx name qtype = response 0 (
      copies (
        or_records (or_records (with_sigs idx name qtype) (cname_for idx name qtype))
          (no_data_proof idx name)))

  -- `missing` behind the test for the wildcard, from the records to synthesise.
  unfoldable pub expanded : ZoneIndex → Bytes → Bytes → List ZoneRecord → MemoryResponse
  unfolding response no_data_proof next_closer_proof encloser_proof
  expanded idx name ce [] = response 0 (
      copies (
        (encloser_proof idx ce ++ next_closer_proof idx name ce)
        ++ no_data_proof idx (wildcard_of_name ce)))
  expanded idx name ce (rr ∷ rrs) =
      response 0 (map (λ r. copy_as r name) (rr ∷ rrs) ++ copies (next_closer_proof idx name ce))

  -- `missing`, with the response code 3 for NXDOMAIN.
  unfoldable pub missing : ZoneIndex → Bytes → ℕ → MemoryResponse
  unfolding response nx_domain_proof expanded cname_for
  missing idx name qtype =
      let ce = closest_encloser idx name in
      let wildcard = wildcard_of_name ce in
      elim (records_at idx.by_name wildcard) [
        | [] ↦ response 3 (copies (nx_domain_proof idx name ce))
        | rr ∷ rrs ↦
            expanded idx name ce
              (or_records (with_sigs idx wildcard qtype) (cname_for idx wildcard qtype))
      ]

  -- `answer` behind the test for a delegation.
  unfoldable pub authoritative : ZoneIndex → Bytes → ℕ → MemoryResponse
  unfolding response no_data_proof existing dname_answer missing
  authoritative idx name qtype =
      let owner = dname_in_parents idx type_dname (parents name) in
      let there = records_at idx.by_name name in
      elim there [
        | rr ∷ rrs ↦ existing idx name qtype
        | [] ↦
            if is_among name idx.existing_names
            then response 0 (copies (no_data_proof idx name))
            else if not (equal owner [])
            then dname_answer idx name owner (with_sigs idx owner type_dname)
            else missing idx name qtype
      ]

  -- `answer`
  unfoldable pub answer : ZoneIndex → Bytes → ℕ → MemoryResponse
  unfolding referral authoritative
  answer idx name qtype =
      let cut = cut_above idx name in
      if not (equal cut []) && not (qtype == type_ds && equal name cut)
      then referral idx cut
      else authoritative idx name qtype
