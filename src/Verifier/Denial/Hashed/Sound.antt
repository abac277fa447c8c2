-- ===== src/Verifier/Denial/Hashed/Sound.antt =====
-- What the proofs over NSEC3 records show when every NSEC3 record that verifies is one of the chain
-- of the zone's hashes.
use dnsdata_go.Common.{
  subst, sym, ap, ◌∙◌, compare, equal_iff, ◌≡◌, inl, inr, refl, arith, Bool, true, false, ◌||◌,
  List, [], ◌∷◌, some, Bool-cases, Option-cases, Bytes, equal,
}
use dnsdata_go.Common.Compare.{IsTotalOrder, lex-IsTotalOrder, compare-IsTotalOrder}
use dnsdata_go.Text.{Unicode}
use dnsdata_go.Types.{type_nsec3}
use dnsdata_go.Zone.Canonical.{compare_bytes, equal_canonical_names}
use dnsdata_go.Dnssec.Nsec.{covers_hash}
use dnsdata_go.Dnssec.Chain.{links, owned, IsIncreasing}
use dnsdata_go.Dnssec.Chain.Gaps.{count_chain}
use dnsdata_go.Dnssec.Chain.Denial.{bytes-IsOrder}
use dnsdata_go.Verifier.Names.{wildcard_at, next_closer_name, ancestors_of}
use dnsdata_go.Verifier.Denial.{Nsec3Candidate, ZoneView, Reason, EncloserProof, find_nsec3}
use dnsdata_go.Verifier.Denial.Sound.{In, covering_counts}
use dnsdata_go.Verifier.Denial.Hashed.{
  hash_under, hash_matches, hash_covered, find_covering_nsec3, encloser_found, find_encloser,
  closest_encloser_proof_nsec3, prove_nx_domain_with_nsec3,
}

find_nsec3_sound :
    (z : ZoneView) (pred : Nsec3Candidate → Bool) (cs : List Nsec3Candidate) (c : Nsec3Candidate)
    → find_nsec3 z pred cs ≡ some c
    → (pred c ≡ true) × (z.verifies c.owner type_nsec3 ≡ true) × In c cs
unfolding find_nsec3
find_nsec3_sound z pred [] c h = cc
find_nsec3_sound z pred (x ∷ cs) c h =
    let rest : find_nsec3 z pred cs ≡ some c
        → (pred c ≡ true) × (z.verifies c.owner type_nsec3 ≡ true) × In c cs =
      find_nsec3_sound z pred cs c in
    elim (Bool-cases (pred x)) [
      | inr p ↦ let s = rest (rw p at h) in (s.0, s.1, inr s.2)
      | inl p ↦ elim (Bool-cases (z.verifies x.owner type_nsec3)) [
        | inr v ↦ let s = rest (rw (p, v) at h) in (s.0, s.1, inr s.2)
        | inl v ↦ let e : c ≡ x = cc (rw (p, v) at h) in (rw e p, rw e v, inl e)
      ]
    ]

abbrev bytes_order : IsTotalOrder compare_bytes
bytes_order = lex-IsTotalOrder compare compare-IsTotalOrder

module _ (sha1 : Bytes → Bytes) ⦃u : Unicode⦄ where
  -- The owner hash and the next hash of a record.
  abbrev pub hash_link_of : Nsec3Candidate → Bytes × Bytes
  hash_link_of c = (c.owner_hash, c.h.next_hashed_owner)

  -- An NSEC3 record of the zone that verifies covers the hash that the name has under the record's
  -- parameters, and that hash is none of the zone.
  abbrev pub HasNoHash : ZoneView → Bytes → List Bytes → Bytes → Type 0
  HasNoHash z first hashes name =
      (c : Nsec3Candidate) × (t : Bytes) × In c z.nsec3s
      × (z.verifies c.owner type_nsec3 ≡ true)
      × (hash_under sha1 c name ≡ some t)
      × (covers_hash c.h c.owner_hash t ≡ true)
      × (owned compare_bytes (first ∷ hashes) t ≡ false)

  -- The hash that the name has under the parameters of an NSEC3 record of the zone that verifies is
  -- the record's own, and one of the zone.
  abbrev pub HasHash : ZoneView → Bytes → List Bytes → Bytes → Type 0
  HasHash z first hashes name =
      (c : Nsec3Candidate) × In c z.nsec3s
      × (z.verifies c.owner type_nsec3 ≡ true)
      × (hash_under sha1 c name ≡ some c.owner_hash)
      × (owned compare_bytes (first ∷ hashes) c.owner_hash ≡ true)

  hash_not_owned :
      (z : ZoneView) (first : Bytes) (hashes : List Bytes) (c : Nsec3Candidate) (name : Bytes)
      → IsIncreasing compare_bytes first hashes
      → In (hash_link_of c) (links (first ∷ hashes) first)
      → In c z.nsec3s
      → z.verifies c.owner type_nsec3 ≡ true
      → hash_covered sha1 name c ≡ true
      → HasNoHash z first hashes name
  unfolding hash_covered covers_hash
  hash_not_owned z first hashes c name s m i v h = elim (Option-cases (hash_under sha1 c name)) [
    | inl n ↦ cc (rw (n, hash_covered) at h)
    | inr (t, e) ↦
        let covered = rw (e, hash_covered) at h in
        let counts =
          covering_counts compare_bytes (hash_link_of c) (links (first ∷ hashes) first) t m
            covered in
        (
          c,
          t,
          i,
          v,
          e,
          covered,
          ground (arith, counts, count_chain compare_bytes bytes-IsOrder first hashes t s),
        )
  ]

  -- The owner hash of a link of the chain is one of the zone's.
  linked_owned :
      (owners : List Bytes) (apex : Bytes) (l : Bytes × Bytes)
      → In l (links owners apex)
      → owned compare_bytes owners (l.0) ≡ true
  unfolding links owned
  linked_owned [] apex l m = elim m [ ]
  linked_owned (o ∷ []) apex l (inl e) = let k = bytes_order.self o in rw (e, k) refl
  linked_owned (o ∷ []) apex l (inr m) = elim m [ ]
  linked_owned (o ∷ p ∷ ps) apex l (inl e) = let k = bytes_order.self o in rw (e, k) refl
  linked_owned (o ∷ p ∷ ps) apex l (inr m) =
      let k = linked_owned (p ∷ ps) apex l m in ground (arith, k)

  covering_found :
      (z : ZoneView) (first : Bytes) (hashes : List Bytes) (name : Bytes) (c : Nsec3Candidate)
      → IsIncreasing compare_bytes first hashes
      → ((d : Nsec3Candidate)
          → In d z.nsec3s
          → z.verifies d.owner type_nsec3 ≡ true
          → In (hash_link_of d) (links (first ∷ hashes) first))
      → find_covering_nsec3 sha1 z name ≡ some c
      → HasNoHash z first hashes name
  unfolding find_covering_nsec3
  covering_found z first hashes name c s genuine h =
      let f = find_nsec3_sound z (hash_covered sha1 name) z.nsec3s c h in
      hash_not_owned z first hashes c name s (genuine c f.2 f.1) f.2 f.1 f.0

  hash_matches_lem :
      (c : Nsec3Candidate) (name : Bytes)
      → hash_matches sha1 name c ≡ true
      → hash_under sha1 c name ≡ some c.owner_hash
  unfolding hash_matches
  hash_matches_lem c name h = elim (Option-cases (hash_under sha1 c name)) [
    | inl n ↦ cc (rw (n, hash_matches) at h)
    | inr (t, e) ↦
        let same = (equal_iff t c.owner_hash).0 (rw (e, hash_matches) at h) in e ∙ ap some same
  ]

  -- The first ancestor that a record matches.
  find_encloser_sound :
      (z : ZoneView) (first : Bytes) (hashes ancestors : List Bytes) (ce ce_owner : Bytes)
      → ((d : Nsec3Candidate)
          → In d z.nsec3s
          → z.verifies d.owner type_nsec3 ≡ true
          → In (hash_link_of d) (links (first ∷ hashes) first))
      → find_encloser sha1 z ancestors ≡ some (ce, ce_owner)
      → In ce ancestors × HasHash z first hashes ce
  unfolding find_encloser hash_matches
  find_encloser_sound z first hashes [] ce ce_owner genuine h = cc
  find_encloser_sound z first hashes (a ∷ ancestors) ce ce_owner genuine h =
      elim (Option-cases (find_nsec3 z (hash_matches sha1 a) z.nsec3s)) [
        | inl n ↦
            let k = rw (n, find_encloser) at h in
            let rest = find_encloser_sound z first hashes ancestors ce ce_owner genuine k in
            (inr rest.0, rest.1)
        | inr (c, found) ↦
            let k = rw (found, find_encloser) at h in
            let same : a ≡ ce = cc in
            let f = find_nsec3_sound z (hash_matches sha1 a) z.nsec3s c found in
            let own = linked_owned (first ∷ hashes) first (hash_link_of c) (genuine c f.2 f.1) in
            (
              inl (sym same),
              subst (HasHash z first hashes) same (c, f.2, f.1, hash_matches_lem c a (f.0), own),
            )
      ]

  -- The closest encloser of a proof is the one found, and the next closer name below it is covered.
  abbrev HasCover : ZoneView → Bytes → Bytes → EncloserProof → Type 0
  HasCover z qname ce p =
      (p.ce ≡ ce)
      × (equal_canonical_names p.ce qname ≡ false)
      × (c : Nsec3Candidate) × (find_covering_nsec3 sha1 z p.nc ≡ some c)
      × (p.nc ≡ next_closer_name qname p.ce)

  cover_of :
      (z : ZoneView) (qname ce ce_owner : Bytes) (p : EncloserProof)
      → encloser_found sha1 z qname (ce, ce_owner) ≡ some p
      → HasCover z qname ce p
  unfolding encloser_found
  cover_of z qname ce ce_owner p h =
      let nc : Bytes = next_closer_name qname ce in
      elim (Option-cases (find_covering_nsec3 sha1 z nc)) [
        | inl n ↦ absurd (ground (arith, rw n at h))
        | inr (c, found) ↦ elim (Bool-cases (equal ce [] || equal_canonical_names ce qname)) [
          | inl e ↦ cc (rw (e, encloser_found) at h)
          | inr k ↦ elim (Bool-cases (equal nc [])) [
            | inl e ↦ cc (rw (k, e, encloser_found) at h)
            | inr m ↦
                let proof : EncloserProof = record {
                  ce = ce;
                  ce_owner = ce_owner;
                  nc = nc;
                  nc_owner = c.owner;
                } in
                let same : proof ≡ p = cc (rw (k, m, found, encloser_found) at h) in
                subst (HasCover z qname ce) same (refl, ground (arith, k), c, found, refl)
          ]
        ]
      ]

  -- What stands behind a closest encloser proof.
  proof_cover :
      (z : ZoneView) (qname : Bytes) (p : EncloserProof)
      → closest_encloser_proof_nsec3 sha1 z qname ≡ some p
      → (ce : Bytes) × (ce_owner : Bytes) × (find_encloser sha1 z (ancestors_of qname)
          ≡ some (ce, ce_owner))
        × HasCover z qname ce p
  unfolding closest_encloser_proof_nsec3
  proof_cover z qname p h = elim (Option-cases (find_encloser sha1 z (ancestors_of qname))) [
    | inl n ↦ cc (rw (n, closest_encloser_proof_nsec3) at h)
    | inr ((ce, ce_owner), e) ↦
        let cover = cover_of z qname ce ce_owner p (rw (e, closest_encloser_proof_nsec3) at h) in
        (ce, ce_owner, e, cover)
  ]

  -- Let every NSEC3 record that verifies be one of the chain of the sorted hashes. When
  -- `proveNXDomainWithNSEC3` succeeds, an ancestor of the name other than it has a hash that a record
  -- of the zone that verifies has as its own, and such records cover the hashes of the next closer
  -- name below it and of the wildcard at it, which are no hashes of the zone.
  pub nx_domain_hashed_sound :
      (z : ZoneView) (first : Bytes) (hashes : List Bytes) (qname : Bytes) (r : Reason)
      → IsIncreasing compare_bytes first hashes
      → ((d : Nsec3Candidate)
          → In d z.nsec3s
          → z.verifies d.owner type_nsec3 ≡ true
          → In (hash_link_of d) (links (first ∷ hashes) first))
      → prove_nx_domain_with_nsec3 sha1 z qname ≡ some r
      → (ce : Bytes) × In ce (ancestors_of qname)
        × (equal_canonical_names ce qname ≡ false)
        × HasHash z first hashes ce
        × HasNoHash z first hashes (next_closer_name qname ce)
        × HasNoHash z first hashes (wildcard_at ce)
  unfolding prove_nx_domain_with_nsec3
  nx_domain_hashed_sound z first hashes qname r s genuine h =
      elim (Option-cases (closest_encloser_proof_nsec3 sha1 z qname)) [
        | inl n ↦ cc (rw (n, prove_nx_domain_with_nsec3) at h)
        | inr (p, e) ↦ elim (Option-cases (find_covering_nsec3 sha1 z (wildcard_at p.ce))) [
          | inl n ↦ cc (rw (e, n, prove_nx_domain_with_nsec3) at h)
          | inr (d, found) ↦
              let (ce, ce_owner, first_one, cover) = proof_cover z qname p e in
              let (same, other, c, covered, below) = cover in
              let (above, own) =
                find_encloser_sound z first hashes (ancestors_of qname) ce ce_owner genuine
                  first_one in
              let next = covering_found z first hashes p.nc c s genuine covered in
              let star = covering_found z first hashes (wildcard_at p.ce) d s genuine found in
              (
                p.ce,
                subst (λ x. In x (ancestors_of qname)) (sym same) above,
                other,
                subst (HasHash z first hashes) (sym same) own,
                subst (HasNoHash z first hashes) below next,
                star,
              )
        ]
      ]
