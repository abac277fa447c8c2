-- ===== src/Verifier/Denial/Unique.antt =====
-- Records found among those of a whole chain.
use dnsdata_go.Common.{
  ℕ, ◌<◌, ◌≡◌, refl, ap, subst, inl, inr, arith, Bool, true, List, [], ◌∷◌, map, some, Bool-cases,
  Bytes,
}
use dnsdata_go.Text.{Unicode}
use dnsdata_go.Types.{type_nsec}
use dnsdata_go.Zone.Canonical.{compare_canonical_names}
use dnsdata_go.Dnssec.Nsec.{covers_name}
use dnsdata_go.Dnssec.Chain.{count_covering}
use dnsdata_go.Verifier.Denial.{NsecCandidate, ZoneView, find_nsec}
use dnsdata_go.Verifier.Denial.Sound.{In, covering_counts, link_of}

-- Where each record verifies, one that passes the test is found if there is one.
pub find_nsec_found :
    (z : ZoneView) (pred : NsecCandidate → Bool) (cs : List NsecCandidate) (c : NsecCandidate)
    → ((d : NsecCandidate) → In d cs → z.verifies d.owner type_nsec ≡ true)
    → In c cs
    → pred c ≡ true
    → (d : NsecCandidate) × (find_nsec z pred cs ≡ some d)
unfolding find_nsec
find_nsec_found z pred [] c v m p = elim m [ ]
find_nsec_found z pred (x ∷ cs) c v m p = elim (Bool-cases (pred x)) [
  | inl y ↦ (x, rw (y, v x (inl refl)) refl)
  | inr n ↦ elim m [
    | inl e ↦ cc (subst (λ k. pred k ≡ true) e p)
    | inr k ↦ let (d, f) = find_nsec_found z pred cs c (λ d l. v d (inr l)) k p in (d, rw (n) f)
  ]
]

module _ ⦃u : Unicode⦄ where
  abbrev pub counting : List NsecCandidate → Bytes → ℕ
  counting cs q = count_covering compare_canonical_names (map link_of cs) q

  pub link-In :
      (c : NsecCandidate) (cs : List NsecCandidate) → In c cs → In (link_of c) (map link_of cs)
  link-In c [] m = elim m [ ]
  link-In c (x ∷ cs) (inl e) = inl (ap link_of e)
  link-In c (x ∷ cs) (inr m) = inr (link-In c cs m)

  pub covering-In :
      (cs : List NsecCandidate) (q : Bytes)
      → 0 < counting cs q
      → (c : NsecCandidate) × In c cs × (covers_name c.nsec c.owner q ≡ true)
  unfolding covers_name
  covering-In [] q h = absurd (omega arith)
  covering-In (x ∷ cs) q h = elim (Bool-cases (covers_name x.nsec x.owner q)) [
    | inl y ↦ (x, inl refl, y)
    | inr n ↦ let (c, m, k) = covering-In cs q (ground (arith, n, h)) in (c, inr m, k)
  ]

  -- Where one record covers the name, two records that do have the same owner and the same next name.
  pub same_link :
      (cs : List NsecCandidate) (q : Bytes) (c d : NsecCandidate)
      → counting cs q ≡ 1
      → In c cs
      → covers_name c.nsec c.owner q ≡ true
      → In d cs
      → covers_name d.nsec d.owner q ≡ true
      → link_of c ≡ link_of d
  unfolding covers_name
  same_link [] q c d e m h k l = elim m [ ]
  same_link (x ∷ cs) q c d e (inl m) h (inl k) l = cc
  same_link (x ∷ cs) q c d e (inl m) h (inr k) l =
      let more =
        covering_counts compare_canonical_names (link_of d) (map link_of cs) q (link-In d cs k) l in
      let here = subst (λ r. covers_name r.nsec r.owner q ≡ true) m h in
      absurd (ground (arith, more, here, e))
  same_link (x ∷ cs) q c d e (inr m) h (inl k) l =
      let more =
        covering_counts compare_canonical_names (link_of c) (map link_of cs) q (link-In c cs m) h in
      let here = subst (λ r. covers_name r.nsec r.owner q ≡ true) k l in
      absurd (ground (arith, more, here, e))
  same_link (x ∷ cs) q c d e (inr m) h (inr k) l =
      let more =
        covering_counts compare_canonical_names (link_of c) (map link_of cs) q (link-In c cs m) h in
      same_link cs q c d (ground (arith, more, e)) m h k l
