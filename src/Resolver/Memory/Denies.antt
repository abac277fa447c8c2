-- ===== src/Resolver/Memory/Denies.antt =====
-- The authority denies a name that is missing by the chain of NSEC records that the signer builds.
use dnsdata_go.Common.{
  ℕ, ◌≡◌, ◌<◌, refl, sym, subst, inl, inr, arith, Bool-cases, true, false, List, [], ◌∷◌, ◌++◌, map,
  Bytes, equal, ok, All,
}
use mathlib.Core.List.{Memᴰ}
use mathlib.Core.List.Memᴰ
use dnsdata_go.Text.{Unicode}
use dnsdata_go.Types.{type_rrsig, type_nsec, type_dname}
use dnsdata_go.Zone.Canonical.{compare_canonical_names}
use dnsdata_go.Dnssec.Nsec.{Nsec, covers_name}
use dnsdata_go.Dnssec.Chain.{links, count_covering, owned, IsIncreasing}
use dnsdata_go.Dnssec.Chain.Gaps.{count_chain}
use dnsdata_go.Dnssec.Chain.Denial.{names-IsOrder}
use dnsdata_go.Dnssec.Zone.{ZoneRecord, nsec_handler}
use dnsdata_go.Resolver.Memory.{
  AnswerCopy, copy_as, NsecEntry, ZoneIndex, normalize, records_at, rrset, with_sigs, is_among,
  wildcard_of_name, closest_encloser, covering_nsec, cut_above, dname_in_parents, parents,
}
use dnsdata_go.Resolver.Memory.Index.{new_zone_index}
use dnsdata_go.Resolver.Memory.Replies.{
  copies, same_key_as, is_seen_in, response, nx_domain_proof, missing, authoritative, answer,
}
use dnsdata_go.Resolver.Memory.Origins.{IsIn, nx_domain_proof-IsIn}
use dnsdata_go.Resolver.Memory.Served.{index-Mem}
use dnsdata_go.Resolver.Memory.Kept.{of_type-Mem, and_sigs-Mem, unseen-Mem, copies-Mem, All-Mem}
use dnsdata_go.Resolver.Memory.Indexed.{NsecStands, IsIndexed, new_zone_index-IsIndexed}

module _ ⦃u : Unicode⦄ where
  abbrev pub entry_link : NsecEntry → Bytes × Bytes
  entry_link e = (e.owner, e.nsec.next_domain)

  -- One of the records is an NSEC record that covers the name.
  abbrev pub Denies : List ZoneRecord → Bytes → Type 0
  Denies rrs q =
      (rr : ZoneRecord) × (n : Nsec) × Memᴰ rr rrs
      × (rr.rr_type ≡ type_nsec)
      × (rr.handler ≡ nsec_handler n)
      × (covers_name n (normalize rr.label) q ≡ true)

  covering_nsec-Denies :
      (idx : ZoneIndex) (q : Bytes) (entries : List NsecEntry)
      → All (NsecStands idx) entries
      → 0 < count_covering compare_canonical_names (map entry_link entries) q
      → Denies (covering_nsec idx q entries) q
  unfolding covering_nsec with_sigs rrset
  covering_nsec-Denies idx q [] h c = absurd (omega arith)
  covering_nsec-Denies idx q (e ∷ entries) ((rr, (m, t, l), s), h) c =
      elim (Bool-cases (covers_name e.nsec e.owner q)) [
        | inl y ↦
            let there = of_type-Mem rr type_nsec (records_at idx.by_name e.owner) m t in
            let back = and_sigs-Mem rr type_nsec _ (rrset idx e.owner type_rrsig) there in
            rw (y) (rr, e.nsec, back, t, s, subst (λ o. covers_name e.nsec o q ≡ true) (sym l) y)
        | inr n ↦ rw (n) (covering_nsec-Denies idx q entries h (drop_first e entries n c))
      ]
    where
      drop_first :
          (e : NsecEntry) (entries : List NsecEntry)
          → covers_name e.nsec e.owner q ≡ false
          → 0 < count_covering compare_canonical_names (map entry_link (e ∷ entries)) q
          → 0 < count_covering compare_canonical_names (map entry_link entries) q
      drop_first e entries n c = unfold covers_name in ground (arith, n, c)

  -- The name is not an owner of the chain, so that a record of it covers the name.
  unowned-Denies :
      (idx : ZoneIndex) (first : Bytes) (owners : List Bytes) (q : Bytes)
      → IsIndexed idx
      → map entry_link idx.nsecs ≡ links (first ∷ owners) first
      → IsIncreasing compare_canonical_names first owners
      → owned compare_canonical_names (first ∷ owners) q ≡ false
      → Denies (covering_nsec idx q idx.nsecs) q
  unowned-Denies idx first owners q v e s o =
      let counts = count_chain compare_canonical_names names-IsOrder first owners q s in
      let one : count_covering compare_canonical_names (map entry_link idx.nsecs) q ≡ 1 =
        rw (e, counts, o) refl in
      covering_nsec-Denies idx q idx.nsecs v.nsec_entries (omega (arith, one))

  -- The answer holds a record with the owner, type and value of an NSEC record of the zone that
  -- covers the name.
  abbrev pub IsDenied : List ZoneRecord → List AnswerCopy → Bytes → Type 0
  IsDenied records answers q =
      (rr : ZoneRecord) × (n : Nsec) × (a : AnswerCopy) × Memᴰ rr records
      × (rr.rr_type ≡ type_nsec)
      × (rr.handler ≡ nsec_handler n)
      × (covers_name n (normalize rr.label) q ≡ true)
      × Memᴰ a answers
      × (same_key_as (copy_as rr rr.label) a ≡ true)

  Denies-front :
      {front : List ZoneRecord} (back : List ZoneRecord) (q : Bytes)
      → Denies front q
      → Denies (front ++ back) q
  Denies-front back q (rr, n, m, t, h, c) = (rr, n, Memᴰ.append_left back m, t, h, c)

  Denies-back :
      (front : List ZoneRecord) {back : List ZoneRecord} (q : Bytes)
      → Denies back q
      → Denies (front ++ back) q
  Denies-back front q (rr, n, m, t, h, c) = (rr, n, Memᴰ.append_right front m, t, h, c)

  response_rcode : (rcode : ℕ) (rs : List AnswerCopy) → (response rcode rs).rcode ≡ rcode
  unfolding response
  response_rcode rcode rs = refl

  module _ (apex : Bytes) (records : List ZoneRecord) (idx : ZoneIndex) where
    denied_lem :
        (proof : List ZoneRecord) (q : Bytes)
        → All (IsIn idx) proof
        → new_zone_index apex records ≡ ok idx
        → Denies proof q
        → IsDenied records (response 3 (copies proof)).records q
    unfolding response is_seen_in
    denied_lem proof q inside e (rr, n, m, t, h, c) =
        elim (unseen-Mem [] (copies proof) (copy_as rr rr.label) (copies-Mem rr proof m)) [
          | inl s ↦ cc
          | inr (b, l, s) ↦ (
            rr,
            n,
            b,
            index-Mem apex records idx rr e (All-Mem (IsIn idx) proof inside rr m),
            t,
            h,
            c,
            l,
            s,
          )
        ]

    answer_missing :
        (sha1 : Bytes → Bytes) (q : Bytes) (qtype : ℕ)
        → cut_above idx q ≡ []
        → records_at idx.by_name q ≡ []
        → is_among q idx.existing_names ≡ false
        → dname_in_parents idx type_dname (parents q) ≡ []
        → records_at idx.by_name (wildcard_of_name (closest_encloser idx q)) ≡ []
        → answer sha1 idx q qtype
          ≡ response 3 (copies (nx_domain_proof sha1 idx q (closest_encloser idx q)))
    unfolding answer authoritative missing equal
    answer_missing sha1 q qtype cut here exist dname wild =
        rw (cut, here, exist, dname, wild, answer, authoritative, missing) refl

    nx_domain_proof_nsec :
        (sha1 : Bytes → Bytes) (q ce : Bytes)
        → idx.nsec3s ≡ []
        → nx_domain_proof sha1 idx q ce
          ≡ covering_nsec idx q idx.nsecs ++ covering_nsec idx (wildcard_of_name ce) idx.nsecs
    unfolding nx_domain_proof
    nx_domain_proof_nsec sha1 q ce e = simp (e, nx_domain_proof) refl

    -- When the NSEC records of a built index, without NSEC3 records, form the chain over increasing
    -- owners, and a name is not an owner, nor is the wildcard at its closest encloser, and the index
    -- has no record at either, no delegation point at or above the name, no DNAME above it and no name
    -- below it, then the answer is NXDOMAIN and holds a copy of an NSEC record of the zone that covers
    -- the name, and one that covers the wildcard.
    pub answer-IsDenied :
        (sha1 : Bytes → Bytes) (q : Bytes) (qtype : ℕ) (first : Bytes) (owners : List Bytes)
        → new_zone_index apex records ≡ ok idx
        → idx.nsec3s ≡ []
        → map entry_link idx.nsecs ≡ links (first ∷ owners) first
        → IsIncreasing compare_canonical_names first owners
        → cut_above idx q ≡ []
        → records_at idx.by_name q ≡ []
        → is_among q idx.existing_names ≡ false
        → dname_in_parents idx type_dname (parents q) ≡ []
        → records_at idx.by_name (wildcard_of_name (closest_encloser idx q)) ≡ []
        → owned compare_canonical_names (first ∷ owners) q ≡ false
        → owned compare_canonical_names (first ∷ owners) (wildcard_of_name (closest_encloser idx q))
          ≡ false
        → ((answer sha1 idx q qtype).rcode ≡ 3)
          × IsDenied records (answer sha1 idx q qtype).records q
          × IsDenied records
              (answer sha1 idx q qtype).records
              (wildcard_of_name (closest_encloser idx q))
    answer-IsDenied sha1 q qtype first owners e n3 chain s cut here exist dname wild o w =
        let ce = closest_encloser idx q in
        let wildcard = wildcard_of_name ce in
        let v = new_zone_index-IsIndexed apex records idx e in
        let proof = nx_domain_proof sha1 idx q ce in
        let parts = nx_domain_proof_nsec sha1 q ce n3 in
        let inside = nx_domain_proof-IsIn idx sha1 q ce in
        let name_denied : Denies proof q =
          subst (λ p. Denies p q) (sym parts)
            (Denies-front (covering_nsec idx wildcard idx.nsecs) q
              (unowned-Denies idx first owners q v chain s o)) in
        let wildcard_denied : Denies proof wildcard =
          subst (λ p. Denies p wildcard) (sym parts)
            (Denies-back (covering_nsec idx q idx.nsecs) wildcard
              (unowned-Denies idx first owners wildcard v chain s w)) in
        rw (answer_missing sha1 q qtype cut here exist dname wild) (
          response_rcode 3 (copies proof),
          denied_lem proof q inside e name_denied,
          denied_lem proof wildcard inside e wildcard_denied,
        )
