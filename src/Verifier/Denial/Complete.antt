-- ===== src/Verifier/Denial/Complete.antt =====
-- `proveNXDomainWithNSEC` over the whole chain of a zone.
use dnsdata_go.Common.{
  ◌<◌, ◌≡◌, ◌↔◌, refl, ap, inl, inr, arith, true, false, List, [], ◌∷◌, map, some, Option-cases,
  Bytes, equal,
}
use dnsdata_go.Text.{Unicode}
use dnsdata_go.Types.{type_nsec}
use dnsdata_go.Zone.Canonical.{compare_canonical_names, equal_canonical_names}
use dnsdata_go.Dnssec.Nsec.{covers_name}
use dnsdata_go.Dnssec.Chain.{links, owned, IsIncreasing}
use dnsdata_go.Dnssec.Chain.Gaps.{count_chain}
use dnsdata_go.Dnssec.Chain.Denial.{names-IsOrder}
use dnsdata_go.Verifier.Names.{is_strict_subdomain, closest_encloser_nsec, wildcard_at}
use dnsdata_go.Verifier.Denial.{
  NsecCandidate, ZoneView, Reason, nsec_denies_wildcard, find_nsec, covers_q, nx_domain_covered,
  prove_nx_domain_with_nsec,
}
use dnsdata_go.Verifier.Denial.Unique.{find_nsec_found, counting, link-In, covering-In, same_link}
use dnsdata_go.Verifier.Denial.Sound.{
  nx_covered_parts, In, find_nsec_sound, covering_counts, link_of,
}

module _ ⦃u : Unicode⦄ where
  -- What makes a record that covers the name deny it.
  abbrev pub NxDenies : List Bytes → Bytes → NsecCandidate → Type 0
  NxDenies owners q c =
      (covers_name c.nsec c.owner q ≡ true)
      × (is_strict_subdomain c.nsec.next_domain q ≡ false)
      × (equal (closest_encloser_nsec q c.owner c.nsec.next_domain) [] ≡ false)
      × (equal_canonical_names (closest_encloser_nsec q c.owner c.nsec.next_domain) q ≡ false)
      × (owned compare_canonical_names owners
            (wildcard_at (closest_encloser_nsec q c.owner c.nsec.next_domain))
          ≡ false)

  covered_found :
      (z : ZoneView) (q : Bytes) (c e : NsecCandidate)
      → is_strict_subdomain c.nsec.next_domain q ≡ false
      → equal (closest_encloser_nsec q c.owner c.nsec.next_domain) [] ≡ false
      → equal_canonical_names (closest_encloser_nsec q c.owner c.nsec.next_domain) q ≡ false
      → find_nsec z
          (covers_q (wildcard_at (closest_encloser_nsec q c.owner c.nsec.next_domain)))
          z.nsecs
        ≡ some e
      → nx_domain_covered z q c ≡ some (nsec_denies_wildcard c.owner e.owner)
  unfolding nx_domain_covered
  covered_found z q c e s n d f = rw (s, n, d, f) refl

  module _ (z : ZoneView) (apex : Bytes) (owners : List Bytes) where
    counts_one :
        (q : Bytes)
        → IsIncreasing compare_canonical_names apex owners
        → map link_of z.nsecs ≡ links (apex ∷ owners) apex
        → owned compare_canonical_names (apex ∷ owners) q ≡ false
        → counting z.nsecs q ≡ 1
    counts_one q s chain o =
        rw (chain, count_chain compare_canonical_names names-IsOrder apex owners q s, o) refl

    counts_unowned :
        (q : Bytes)
        → IsIncreasing compare_canonical_names apex owners
        → map link_of z.nsecs ≡ links (apex ∷ owners) apex
        → 0 < counting z.nsecs q
        → (owned compare_canonical_names (apex ∷ owners) q ≡ false)
    counts_unowned q s chain h =
        let counts = count_chain compare_canonical_names names-IsOrder apex owners q s in
        let more = rw (chain) at h in ground (arith, counts, more)

    -- The name that a record found covers is no owner.
    found_unowned :
        (q : Bytes) (c : NsecCandidate)
        → IsIncreasing compare_canonical_names apex owners
        → map link_of z.nsecs ≡ links (apex ∷ owners) apex
        → In c z.nsecs
        → covers_name c.nsec c.owner q ≡ true
        → owned compare_canonical_names (apex ∷ owners) q ≡ false
    unfolding covers_name
    found_unowned q c s chain m h = counts_unowned q s chain (
        covering_counts compare_canonical_names (link_of c) (map link_of z.nsecs) q
          (link-In c z.nsecs m) h)

    denial_found :
        (q : Bytes)
        → IsIncreasing compare_canonical_names apex owners
        → map link_of z.nsecs ≡ links (apex ∷ owners) apex
        → ((c : NsecCandidate) → In c z.nsecs → z.verifies c.owner type_nsec ≡ true)
        → owned compare_canonical_names (apex ∷ owners) q ≡ false
        → (c : NsecCandidate) × (find_nsec z (covers_q q) z.nsecs ≡ some c)
    unfolding covers_q
    denial_found q s chain v o =
        let one = counts_one q s chain o in
        let (c, m, h) = covering-In z.nsecs q (omega (arith, one)) in
        find_nsec_found z (covers_q q) z.nsecs c v m h

    proved-NxDenies :
        (q : Bytes) (r : Reason)
        → IsIncreasing compare_canonical_names apex owners
        → map link_of z.nsecs ≡ links (apex ∷ owners) apex
        → prove_nx_domain_with_nsec z q ≡ some r
        → (c : NsecCandidate) × In c z.nsecs × NxDenies (apex ∷ owners) q c
    unfolding prove_nx_domain_with_nsec covers_q
    proved-NxDenies q r s chain h = elim (Option-cases (find_nsec z (covers_q q) z.nsecs)) [
      | inl n ↦ cc (rw (n, prove_nx_domain_with_nsec) at h)
      | inr (c, found) ↦
          let here = find_nsec_sound z (covers_q q) z.nsecs c found in
          let parts = nx_covered_parts z q c r (rw (found, prove_nx_domain_with_nsec) at h) in
          let wildcard = wildcard_at (closest_encloser_nsec q c.owner c.nsec.next_domain) in
          let there = find_nsec_sound z (covers_q wildcard) z.nsecs parts.0 parts.2 in
          (
            c,
            here.2,
            (
              here.0,
              parts.1,
              parts.3,
              parts.4,
              found_unowned wildcard parts.0 s chain there.2 there.0,
            ),
          )
    ]

    NxDenies-proved :
        (q : Bytes) (c : NsecCandidate)
        → IsIncreasing compare_canonical_names apex owners
        → map link_of z.nsecs ≡ links (apex ∷ owners) apex
        → ((d : NsecCandidate) → In d z.nsecs → z.verifies d.owner type_nsec ≡ true)
        → In c z.nsecs
        → NxDenies (apex ∷ owners) q c
        → (r : Reason) × (prove_nx_domain_with_nsec z q ≡ some r)
    unfolding prove_nx_domain_with_nsec covers_q
    NxDenies-proved q c s chain v m (h, n, e, d, w) =
        let o = found_unowned q c s chain m h in
        let (f, found) = denial_found q s chain v o in
        let here = find_nsec_sound z (covers_q q) z.nsecs f found in
        let same = same_link z.nsecs q c f (counts_one q s chain o) m h here.2 here.0 in
        let owner : c.owner ≡ f.owner = ap (λ (l : Bytes × Bytes). l.0) same in
        let next : c.nsec.next_domain ≡ f.nsec.next_domain = ap (λ (l : Bytes × Bytes). l.1) same in
        let (g, denied) = denial_found _ s chain v w in
        (
          nsec_denies_wildcard f.owner g.owner,
          rw (found, prove_nx_domain_with_nsec)
              (covered_found z q f g (rw (next) at n) (rw (owner, next) at e)
                (rw (owner, next) at d) (rw (owner, next) at denied)),
        )

    -- Over a zone whose NSEC records are the chain of its names and all verify,
    -- `proveNXDomainWithNSEC` proves that a name does not exist exactly when a record covers it whose
    -- next name is not below it, the closest encloser that the record shows is not empty and not the
    -- name itself, and no name of the zone is the wildcard there.
    pub nx_domain_iff :
        (q : Bytes)
        → IsIncreasing compare_canonical_names apex owners
        → map link_of z.nsecs ≡ links (apex ∷ owners) apex
        → ((c : NsecCandidate) → In c z.nsecs → z.verifies c.owner type_nsec ≡ true)
        → ((r : Reason) × (prove_nx_domain_with_nsec z q ≡ some r))
          ↔ ((c : NsecCandidate) × In c z.nsecs × NxDenies (apex ∷ owners) q c)
    nx_domain_iff q s chain v =
        (λ (r, h). proved-NxDenies q r s chain h, λ (c, m, d). NxDenies-proved q c s chain v m d)
