-- ===== src/Resolver/Memory/Answered.antt =====
-- Where the records of a response of the in-memory authority come from.
use dnsdata_go.Common.{
  ℕ, ◌≡◌, refl, inl, inr, Bool-cases, List-cases, not, ◌&&◌, List, [], ◌∷◌, ◌++◌, map, ◌==◌,
  if◌then◌else◌, All, All-append, Bytes, equal,
}
use dnsdata_go.Text.{Unicode}
use dnsdata_go.Types.{type_dname, type_ds, type_ns}
use dnsdata_go.Dnssec.Zone.{ZoneRecord}
use dnsdata_go.Resolver.Memory.{
  AnswerCopy, copy_as, ZoneIndex, parents, wildcard_of_name, is_among, records_at, rrset, with_sigs,
  cut_above, closest_encloser, dname_in_parents,
}
use dnsdata_go.Resolver.Memory.Replies.{
  copies, is_seen_in, unseen, response, or_records, no_data_proof, nx_domain_proof,
  next_closer_proof, encloser_proof, synthesised_cname, dname_answer, referral, cname_for, existing,
  expanded, missing, authoritative, answer,
}
use dnsdata_go.Resolver.Memory.Suffixes.{EndsWith, parents-EndsWith, dname_in_parents-Mem}
use dnsdata_go.Resolver.Memory.Origins.{
  with_sigs-first, IsIn, All-if, rrset-IsIn, with_sigs-IsIn, or_records-IsIn, no_data_proof-IsIn,
  nx_domain_proof-IsIn, next_closer_proof-IsIn, encloser_proof-IsIn,
}
use dnsdata_go.Resolver.Memory.Copied.{
  copy_as-IsCopy, StandsUnder, with_sigs-StandsUnder, answered-StandsUnder, StandsUnder-IsIn,
  IsFrom, synthesised_cname-IsRedirected,
}

module _ ⦃u : Unicode⦄ where
  module _ (idx : ZoneIndex) (name : Bytes) where
    unseen-IsFrom :
        (seen records : List AnswerCopy)
        → All (IsFrom idx name) records
        → All (IsFrom idx name) (unseen seen records)
    unfolding unseen
    unseen-IsFrom seen [] h = tt
    unseen-IsFrom seen (a ∷ as_list) (i, h) =
        let next = if is_seen_in a seen then seen else a ∷ seen in
        let rest = unseen-IsFrom next as_list h in
        All-if (IsFrom idx name) (is_seen_in a seen) (unseen next as_list) (a ∷ unseen next as_list)
          rest (i, rest)

    response-IsFrom :
        (rcode : ℕ) (records : List AnswerCopy)
        → All (IsFrom idx name) records
        → All (IsFrom idx name) (response rcode records).records
    unfolding response
    response-IsFrom rcode records h = unseen-IsFrom [] records h

    copies-IsFrom :
        (rrs : List ZoneRecord) → All (IsIn idx) rrs → All (IsFrom idx name) (copies rrs)
    copies-IsFrom [] h = tt
    copies-IsFrom (rr ∷ rrs) ((owner, m), h) =
        ((owner, rr, m, inl (copy_as-IsCopy rr rr.label)), copies-IsFrom rrs h)

    -- The records of the wildcard.
    abbrev wildcard : Bytes
    wildcard = wildcard_of_name (closest_encloser idx name)

    renamed-IsFrom :
        (rrs : List ZoneRecord)
        → All (StandsUnder idx wildcard) rrs
        → All (IsFrom idx name) (map (λ rr. copy_as rr name) rrs)
    renamed-IsFrom [] h = tt
    renamed-IsFrom (rr ∷ rrs) (m, h) =
        ((wildcard, rr, m, inr (inl (copy_as-IsCopy rr name, refl))), renamed-IsFrom rrs h)

    -- A response that only copies.
    copied-IsFrom :
        (rcode : ℕ) (rrs : List ZoneRecord)
        → All (IsIn idx) rrs
        → All (IsFrom idx name) (response rcode (copies rrs)).records
    copied-IsFrom rcode rrs h = response-IsFrom rcode (copies rrs) (copies-IsFrom rrs h)

    dname_answer-IsFrom :
        (owner : Bytes) (rrs : List ZoneRecord)
        → EndsWith name owner
        → with_sigs idx owner type_dname ≡ rrs
        → All (StandsUnder idx owner) rrs
        → All (IsFrom idx name) (dname_answer idx name owner rrs).records
    unfolding dname_answer
    dname_answer-IsFrom owner [] below e h = response-IsFrom 0 [] tt
    dname_answer-IsFrom owner (rr ∷ rrs) below e (m, h) =
        let is_dname = with_sigs-first idx owner type_dname rr rrs e in
        let made = synthesised_cname-IsRedirected name owner rr below in
        response-IsFrom 0 (copies (rr ∷ rrs) ++ synthesised_cname name owner rr ∷ []) (
          All-append (IsFrom idx name) (copies (rr ∷ rrs)) (synthesised_cname name owner rr ∷ [])
            (copies-IsFrom (rr ∷ rrs) (StandsUnder-IsIn idx owner (rr ∷ rrs) (m, h)))
            ((owner, rr, m, inr (inr (is_dname, made))), tt))

    answered-IsIn :
        (owner : Bytes) (qtype : ℕ)
        → All (IsIn idx) (or_records (with_sigs idx owner qtype) (cname_for idx owner qtype))
    answered-IsIn owner qtype =
        StandsUnder-IsIn idx owner
          (or_records (with_sigs idx owner qtype) (cname_for idx owner qtype))
          (answered-StandsUnder idx owner qtype)

    module _ (sha1 : Bytes → Bytes) where
      referral-IsFrom : (cut : Bytes) → All (IsFrom idx name) (referral sha1 idx cut).records
      unfolding referral
      referral-IsFrom cut =
          let ds = or_records (with_sigs idx cut type_ds) (no_data_proof sha1 idx cut) in
          copied-IsFrom 0 (rrset idx cut type_ns ++ ds) (
            All-append (IsIn idx) (rrset idx cut type_ns) ds (rrset-IsIn idx cut type_ns) (
              or_records-IsIn idx (with_sigs idx cut type_ds) (no_data_proof sha1 idx cut)
                (with_sigs-IsIn idx cut type_ds) (no_data_proof-IsIn idx sha1 cut)))

      existing-IsFrom : (qtype : ℕ) → All (IsFrom idx name) (existing sha1 idx name qtype).records
      unfolding existing
      existing-IsFrom qtype =
          let found = or_records (with_sigs idx name qtype) (cname_for idx name qtype) in
          copied-IsFrom 0 (or_records found (no_data_proof sha1 idx name)) (
            or_records-IsIn idx found (no_data_proof sha1 idx name) (answered-IsIn name qtype)
              (no_data_proof-IsIn idx sha1 name))

      expanded-IsFrom :
          (ce : Bytes) (rrs : List ZoneRecord)
          → All (StandsUnder idx wildcard) rrs
          → All (IsFrom idx name) (expanded sha1 idx name ce rrs).records
      unfolding expanded
      expanded-IsFrom ce [] h =
          let enclosers = encloser_proof sha1 idx ce in
          let closer = next_closer_proof sha1 idx name ce in
          let data_proof = no_data_proof sha1 idx (wildcard_of_name ce) in
          copied-IsFrom 0 ((enclosers ++ closer) ++ data_proof) (
            All-append (IsIn idx) (enclosers ++ closer) data_proof
              (All-append (IsIn idx) enclosers closer (encloser_proof-IsIn idx sha1 ce)
                (next_closer_proof-IsIn idx sha1 name ce))
              (no_data_proof-IsIn idx sha1 (wildcard_of_name ce)))
      expanded-IsFrom ce (rr ∷ rrs) h =
          let renamed = map (λ r. copy_as r name) (rr ∷ rrs) in
          let proof = next_closer_proof sha1 idx name ce in
          response-IsFrom 0 (renamed ++ copies proof) (
            All-append (IsFrom idx name) renamed (copies proof) (renamed-IsFrom (rr ∷ rrs) h)
              (copies-IsFrom proof (next_closer_proof-IsIn idx sha1 name ce)))

      missing-IsFrom : (qtype : ℕ) → All (IsFrom idx name) (missing sha1 idx name qtype).records
      unfolding missing
      missing-IsFrom qtype =
          let ce = closest_encloser idx name in
          let found = or_records (with_sigs idx wildcard qtype) (cname_for idx wildcard qtype) in
          elim (List-cases (records_at idx.by_name wildcard)) [
            | inl e ↦
                rw (e, missing)
                  (copied-IsFrom 3 (nx_domain_proof sha1 idx name ce)
                    (nx_domain_proof-IsIn idx sha1 name ce))
            | inr (rr, rrs, e) ↦
                rw (e, missing) (expanded-IsFrom ce found (answered-StandsUnder idx wildcard qtype))
          ]

      authoritative-IsFrom :
          (qtype : ℕ) → All (IsFrom idx name) (authoritative sha1 idx name qtype).records
      unfolding authoritative
      authoritative-IsFrom qtype =
          let owner = dname_in_parents idx type_dname (parents name) in
          elim (List-cases (records_at idx.by_name name)) [
            | inr (rr, rrs, e) ↦ rw (e, authoritative) (existing-IsFrom qtype)
            | inl e ↦ elim (Bool-cases (is_among name idx.existing_names)) [
              | inl y ↦
                  rw (e, y, authoritative)
                    (copied-IsFrom 0 (no_data_proof sha1 idx name)
                      (no_data_proof-IsIn idx sha1 name))
              | inr n ↦ elim (Bool-cases (not (equal owner []))) [
                | inl y ↦
                    rw (e, n, y, authoritative)
                      (dname_answer-IsFrom owner (with_sigs idx owner type_dname)
                        (parents-EndsWith name owner
                          (dname_in_parents-Mem idx type_dname (parents name) y))
                        refl (with_sigs-StandsUnder idx owner type_dname))
                | inr k ↦ rw (e, n, k, authoritative) (missing-IsFrom qtype)
              ]
            ]
          ]

      pub answer-IsFrom : (qtype : ℕ) → All (IsFrom idx name) (answer sha1 idx name qtype).records
      unfolding answer
      answer-IsFrom qtype =
          let cut = cut_above idx name in
          elim (Bool-cases (not (equal cut []) && not (qtype == type_ds && equal name cut))) [
            | inl y ↦ rw (y, answer) (referral-IsFrom cut)
            | inr n ↦ rw (n, answer) (authoritative-IsFrom qtype)
          ]
