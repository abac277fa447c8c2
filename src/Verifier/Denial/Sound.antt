-- ===== src/Verifier/Denial/Sound.antt =====
-- What the proofs over NSEC records show when every NSEC record that verifies is one of the chain
-- that the signer makes of the names of the zone.
use dnsdata_go.Common.{
  ℕ, ◌<◌, ◌≡◌, ◌⊎◌, inl, inr, arith, Bool, true, false, List, [], ◌∷◌, some, Bool-cases,
  Option-cases, Bytes, Ordering, equal,
}
use dnsdata_go.Text.{Unicode}
use dnsdata_go.Types.{type_nsec}
use dnsdata_go.Zone.Canonical.{compare_canonical_names, equal_canonical_names}
use dnsdata_go.Dnssec.Nsec.{covers_name, matches_name, proves_no_data}
use dnsdata_go.Dnssec.Chain.{links, covers, count_covering, owned, IsIncreasing}
use dnsdata_go.Dnssec.Chain.Gaps.{count_chain}
use dnsdata_go.Dnssec.Chain.Denial.{names-IsOrder}
use dnsdata_go.Verifier.Names.{is_strict_subdomain, closest_encloser_nsec, wildcard_at}
use dnsdata_go.Verifier.Denial.{
  NsecCandidate, ZoneView, Reason, find_nsec, covers_q, matches_without, no_data_covered,
  nx_domain_covered, prove_no_data_with_nsec, prove_nx_domain_with_nsec,
}

abbrev pub In : {A : Type 0} → A → List A → Type 0
In a [] = ⊥
In a (x ∷ xs) = (a ≡ x) ⊎ In a xs

-- A record found satisfies the test, verifies, and is one of those looked at.
pub find_nsec_sound :
    (z : ZoneView) (pred : NsecCandidate → Bool) (cs : List NsecCandidate) (c : NsecCandidate)
    → find_nsec z pred cs ≡ some c
    → (pred c ≡ true) × (z.verifies c.owner type_nsec ≡ true) × In c cs
unfolding find_nsec
find_nsec_sound z pred [] c h = cc
find_nsec_sound z pred (x ∷ cs) c h =
    let rest : find_nsec z pred cs ≡ some c
        → In c cs × (pred c ≡ true) × (z.verifies c.owner type_nsec ≡ true) =
      λ e. let s = find_nsec_sound z pred cs c e in (s.2, s.0, s.1) in
    elim (Bool-cases (pred x)) [
      | inr p ↦ let s = rest (rw p at h) in (s.1, s.2, inr s.0)
      | inl p ↦ elim (Bool-cases (z.verifies x.owner type_nsec)) [
        | inr v ↦ let s = rest (rw (p, v) at h) in (s.1, s.2, inr s.0)
        | inl v ↦ let e : c ≡ x = cc (rw (p, v) at h) in (rw e p, rw e v, inl e)
      ]
    ]

pub covering_counts :
    {A : Type 0} (cmp : A → A → Ordering) (l : A × A) (ls : List (A × A)) (q : A)
    → In l ls
    → covers cmp l q ≡ true
    → 0 < count_covering cmp ls q
covering_counts cmp l [] q m c = elim m [ ]
covering_counts cmp l (k ∷ ls) q (inl e) c = ground (arith, rw e at c)
covering_counts cmp l (k ∷ ls) q (inr m) c = ground (arith, covering_counts cmp l ls q m c)

module _ ⦃u : Unicode⦄ where
  -- The owner and the next name of a record.
  abbrev pub link_of : NsecCandidate → Bytes × Bytes
  link_of c = (c.owner, c.nsec.next_domain)

  covered_not_owned :
      (apex : Bytes) (owners : List Bytes) (c : NsecCandidate) (q : Bytes)
      → IsIncreasing compare_canonical_names apex owners
      → In (link_of c) (links (apex ∷ owners) apex)
      → covers_name c.nsec c.owner q ≡ true
      → owned compare_canonical_names (apex ∷ owners) q ≡ false
  unfolding covers_name
  covered_not_owned apex owners c q s m h =
      let counts =
        covering_counts compare_canonical_names (link_of c) (links (apex ∷ owners) apex) q m h in
      ground (arith, counts, count_chain compare_canonical_names names-IsOrder apex owners q s)

  -- A record of the zone that verifies, is one of the chain, and covers the name.
  abbrev pub IsCovering : ZoneView → Bytes → List Bytes → Bytes → NsecCandidate → Type 0
  IsCovering z apex owners q c =
      In c z.nsecs
      × (z.verifies c.owner type_nsec ≡ true)
      × In (link_of c) (links (apex ∷ owners) apex)
      × (covers_name c.nsec c.owner q ≡ true)

  found_denies :
      (z : ZoneView) (apex : Bytes) (owners : List Bytes) (q : Bytes) (c : NsecCandidate)
      → IsIncreasing compare_canonical_names apex owners
      → ((d : NsecCandidate)
          → In d z.nsecs
          → z.verifies d.owner type_nsec ≡ true
          → In (link_of d) (links (apex ∷ owners) apex))
      → find_nsec z (covers_q q) z.nsecs ≡ some c
      → (owned compare_canonical_names (apex ∷ owners) q ≡ false) × IsCovering z apex owners q c
  unfolding covers_q
  found_denies z apex owners q c s genuine h =
      let f = find_nsec_sound z (covers_q q) z.nsecs c h in
      let link = genuine c f.2 f.1 in
      (covered_not_owned apex owners c q s link f.0, (f.2, f.1, link, f.0))

  pub nx_covered_parts :
      (z : ZoneView) (q : Bytes) (c : NsecCandidate) (r : Reason)
      → nx_domain_covered z q c ≡ some r
      → (d : NsecCandidate) × (is_strict_subdomain c.nsec.next_domain q ≡ false)
        × (find_nsec z
              (covers_q (wildcard_at (closest_encloser_nsec q c.owner c.nsec.next_domain)))
              z.nsecs
            ≡ some d)
        × (equal (closest_encloser_nsec q c.owner c.nsec.next_domain) [] ≡ false)
        × (equal_canonical_names (closest_encloser_nsec q c.owner c.nsec.next_domain) q ≡ false)
  unfolding nx_domain_covered
  nx_covered_parts z q c r h =
      let wildcard : Bytes = wildcard_at (closest_encloser_nsec q c.owner c.nsec.next_domain) in
      elim (Option-cases (find_nsec z (covers_q wildcard) z.nsecs)) [
        | inl n ↦ absurd (ground (arith, rw n at h))
        | inr (d, found) ↦ (d, ground (arith, h), found, ground (arith, h), ground (arith, h))
      ]

  -- What `proveNXDomainWithNSEC` shows of a zone whose NSEC chain is known.
  pub nx_domain_sound :
      (z : ZoneView) (apex : Bytes) (owners : List Bytes) (qname : Bytes) (r : Reason)
      → IsIncreasing compare_canonical_names apex owners
      → ((c : NsecCandidate)
          → In c z.nsecs
          → z.verifies c.owner type_nsec ≡ true
          → In (link_of c) (links (apex ∷ owners) apex))
      → prove_nx_domain_with_nsec z qname ≡ some r
      → (c : NsecCandidate) × (owned compare_canonical_names (apex ∷ owners) qname ≡ false)
        × (is_strict_subdomain c.nsec.next_domain qname ≡ false)
        × (owned compare_canonical_names
              (apex ∷ owners)
              (wildcard_at (closest_encloser_nsec qname c.owner c.nsec.next_domain))
            ≡ false)
        × IsCovering z apex owners qname c
  unfolding prove_nx_domain_with_nsec
  nx_domain_sound z apex owners qname r s genuine h =
      elim (Option-cases (find_nsec z (covers_q qname) z.nsecs)) [
        | inl none_found ↦ cc (rw (none_found, prove_nx_domain_with_nsec) at h)
        | inr (c, found) ↦
            let parts = nx_covered_parts z qname c r (rw (found, prove_nx_domain_with_nsec) at h) in
            let denies = found_denies z apex owners qname c s genuine found in
            let no_wildcard = found_denies z apex owners _ parts.0 s genuine parts.2 in
            (c, denies.0, parts.1, no_wildcard.0, denies.1)
      ]

  -- A record of the zone that verifies, stands at the name, and lists neither the type nor CNAME.
  abbrev pub HasWithout : ZoneView → Bytes → ℕ → Type 0
  HasWithout z name qtype =
      (c : NsecCandidate) × In c z.nsecs
      × (z.verifies c.owner type_nsec ≡ true)
      × (matches_name c.owner name ≡ true)
      × (proves_no_data c.nsec.covered_types qtype ≡ true)

  found_without :
      (z : ZoneView) (name : Bytes) (qtype : ℕ) (c : NsecCandidate)
      → find_nsec z (matches_without name qtype) z.nsecs ≡ some c
      → HasWithout z name qtype
  unfolding matches_without
  found_without z name qtype c h =
      let f = find_nsec_sound z (matches_without name qtype) z.nsecs c h in
      (c, f.2, f.1, ground (arith, f.0), ground (arith, f.0))

  no_data_covered_parts :
      (z : ZoneView) (q : Bytes) (qtype : ℕ) (c : NsecCandidate) (r : Reason)
      → no_data_covered z q qtype c ≡ some r
      → (is_strict_subdomain c.nsec.next_domain q ≡ true)
        ⊎ HasWithout z (wildcard_at (closest_encloser_nsec q c.owner c.nsec.next_domain)) qtype
  unfolding no_data_covered
  no_data_covered_parts z q qtype c r h =
      let wildcard : Bytes = wildcard_at (closest_encloser_nsec q c.owner c.nsec.next_domain) in
      elim (Option-cases (find_nsec z (matches_without wildcard qtype) z.nsecs)) [
        | inl n ↦ inl (ground (arith, rw n at h))
        | inr (d, found) ↦ inr (found_without z wildcard qtype d found)
      ]

  -- What `proveNoDataWithNSEC` shows of a zone whose NSEC chain is known.
  pub no_data_sound :
      (z : ZoneView) (apex : Bytes) (owners : List Bytes) (qname : Bytes) (qtype : ℕ) (r : Reason)
      → IsIncreasing compare_canonical_names apex owners
      → ((c : NsecCandidate)
          → In c z.nsecs
          → z.verifies c.owner type_nsec ≡ true
          → In (link_of c) (links (apex ∷ owners) apex))
      → prove_no_data_with_nsec z qname qtype ≡ some r
      → HasWithout z qname qtype
        ⊎ ((c : NsecCandidate) × (owned compare_canonical_names (apex ∷ owners) qname ≡ false)
            × IsCovering z apex owners qname c
            × ((is_strict_subdomain c.nsec.next_domain qname ≡ true)
                ⊎ HasWithout z
                    (wildcard_at (closest_encloser_nsec qname c.owner c.nsec.next_domain))
                    qtype))
  unfolding prove_no_data_with_nsec
  no_data_sound z apex owners qname qtype r s genuine h =
      elim (Option-cases (find_nsec z (matches_without qname qtype) z.nsecs)) [
        | inr (c, found) ↦ inl (found_without z qname qtype c found)
        | inl n ↦ elim (Option-cases (find_nsec z (covers_q qname) z.nsecs)) [
          | inl none_found ↦ cc (rw (n, none_found, prove_no_data_with_nsec) at h)
          | inr (c, found) ↦
              let parts =
                no_data_covered_parts z qname qtype c r
                  (rw (n, found, prove_no_data_with_nsec) at h) in
              let denies = found_denies z apex owners qname c s genuine found in
              inr (c, denies.0, denies.1, parts)
        ]
      ]
