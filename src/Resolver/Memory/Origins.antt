-- ===== src/Resolver/Memory/Origins.antt =====
-- The lists of records that answer.go puts together hold records of the zone.
use dnsdata_go.Common.{
  subst, ==_iff, ◌≡◌, ℕ, refl, inl, inr, Bool-cases, List-cases, Bool, true, false, not, List, [],
  ◌∷◌, ◌++◌, ◌==◌, if◌then◌else◌, All, All-append, Bytes, equal,
}
use mathlib.Core.List.{Memᴰ}
use dnsdata_go.Text.{Unicode}
use dnsdata_go.Types.{type_nsec, type_nsec3, type_rrsig}
use dnsdata_go.Dnssec.Nsec.{covers_name}
use dnsdata_go.Dnssec.Zone.{ZoneRecord}
use dnsdata_go.Resolver.Memory.{
  NsecEntry, ZoneIndex, is_at_or_below, parents, wildcard_of_name, records_at, of_type, rrset,
  covers, sigs_over, and_sigs, with_sigs, next_closer, covering_nsec,
}
use dnsdata_go.Resolver.Memory.Index.{matching, covering}
use dnsdata_go.Resolver.Memory.Replies.{
  nsec3_at, or_records, encloser_proof_in, closest_encloser_proof, no_data_proof, nx_domain_proof,
  next_closer_proof, encloser_proof,
}

-- The record stands in the index.
abbrev pub IsIn : ZoneIndex → ZoneRecord → Type 0
IsIn idx rr = (owner : Bytes) × Memᴰ rr (records_at idx.by_name owner)

of_type-first :
    (t : ℕ) (rrs : List ZoneRecord) (x : ZoneRecord) (xs : List ZoneRecord)
    → of_type rrs t ≡ x ∷ xs
    → x.rr_type ≡ t
unfolding of_type
of_type-first t [] x xs e = cc
of_type-first t (rr ∷ rrs) x xs e = elim (Bool-cases (rr.rr_type == t)) [
  | inl y ↦
      let k = rw (y) at e in
      let same : rr ≡ x = cc in subst (λ z. z.rr_type ≡ t) same ((==_iff rr.rr_type t).0 y)
  | inr n ↦ let k = rw (n) at e in of_type-first t rrs x xs k
]

pub with_sigs-first :
    (idx : ZoneIndex) (owner : Bytes) (t : ℕ) (x : ZoneRecord) (xs : List ZoneRecord)
    → with_sigs idx owner t ≡ x ∷ xs
    → x.rr_type ≡ t
unfolding with_sigs and_sigs rrset
with_sigs-first idx owner t x xs e = elim (List-cases (rrset idx owner t)) [
  | inl y ↦ let k = rw (y) at e in cc
  | inr (rr, rrs, y) ↦
      let k = rw (y) at e in
      let same : rr ≡ x = cc in
      subst (λ z. z.rr_type ≡ t) same (of_type-first t (records_at idx.by_name owner) rr rrs y)
]

pub All-if :
    {A : Type 0} (P : A → Type 0) (b : Bool) (xs ys : List A)
    → All P xs
    → All P ys
    → All P (if b then xs else ys)
All-if P true xs ys h k = h
All-if P false xs ys h k = k

module _ (P : ZoneRecord → Type 0) where
  pub of_type-All : (t : ℕ) (rrs : List ZoneRecord) → All P rrs → All P (of_type rrs t)
  unfolding of_type
  of_type-All t [] h = tt
  of_type-All t (rr ∷ rrs) (i, h) =
      All-if P (rr.rr_type == t) (rr ∷ of_type rrs t) (of_type rrs t) (i, of_type-All t rrs h)
        (of_type-All t rrs h)

  sigs_over-All : (t : ℕ) (rrs : List ZoneRecord) → All P rrs → All P (sigs_over rrs t)
  unfolding sigs_over
  sigs_over-All t [] h = tt
  sigs_over-All t (rr ∷ rrs) (i, h) =
      All-if P (covers rr.handler t) (rr ∷ sigs_over rrs t) (sigs_over rrs t)
        (i, sigs_over-All t rrs h) (sigs_over-All t rrs h)

  and_sigs-All :
      (t : ℕ) (rrs sigs : List ZoneRecord) → All P rrs → All P sigs → All P (and_sigs rrs sigs t)
  unfolding and_sigs
  and_sigs-All t [] sigs h k = tt
  and_sigs-All t (rr ∷ rrs) sigs h k =
      All-append P (rr ∷ rrs) (sigs_over sigs t) h (sigs_over-All t sigs k)

  pub members-All : (rrs : List ZoneRecord) → ((rr : ZoneRecord) → Memᴰ rr rrs → P rr) → All P rrs
  members-All [] h = tt
  members-All (rr ∷ rrs) h = (h rr (Memᴰ.head refl), members-All rrs (λ x m. h x (Memᴰ.tail m)))

  module _ (idx : ZoneIndex) (name : Bytes)
      (h : (rr : ZoneRecord) → Memᴰ rr (records_at idx.by_name name) → P rr) where
    pub rrset-All : (t : ℕ) → All P (rrset idx name t)
    unfolding rrset
    rrset-All t =
        of_type-All t (records_at idx.by_name name) (members-All (records_at idx.by_name name) h)

    pub with_sigs-All : (t : ℕ) → All P (with_sigs idx name t)
    unfolding with_sigs
    with_sigs-All t =
        and_sigs-All t (rrset idx name t) (rrset idx name type_rrsig) (rrset-All t)
          (rrset-All type_rrsig)

pub or_records-All :
    (P : ZoneRecord → Type 0) (rrs other : List ZoneRecord)
    → All P rrs
    → All P other
    → All P (or_records rrs other)
or_records-All P [] other h k = k
or_records-All P (rr ∷ rrs) other h k = h

module _ (idx : ZoneIndex) where
  pub rrset-IsIn : (name : Bytes) (t : ℕ) → All (IsIn idx) (rrset idx name t)
  rrset-IsIn name t = rrset-All (IsIn idx) idx name (λ rr m. (name, m)) t

  pub with_sigs-IsIn : (name : Bytes) (t : ℕ) → All (IsIn idx) (with_sigs idx name t)
  with_sigs-IsIn name t = with_sigs-All (IsIn idx) idx name (λ rr m. (name, m)) t

  pub or_records-IsIn :
      (rrs other : List ZoneRecord)
      → All (IsIn idx) rrs
      → All (IsIn idx) other
      → All (IsIn idx) (or_records rrs other)
  or_records-IsIn rrs other h k = or_records-All (IsIn idx) rrs other h k

  nsec3_at-IsIn : (owner : Bytes) → All (IsIn idx) (nsec3_at idx owner)
  unfolding nsec3_at
  nsec3_at-IsIn owner =
      All-if (IsIn idx) (equal owner []) [] (with_sigs idx owner type_nsec3) tt
        (with_sigs-IsIn owner type_nsec3)

  module _ (sha1 : Bytes → Bytes) ⦃u : Unicode⦄ where
    covering_nsec-IsIn :
        (target : Bytes) (entries : List NsecEntry)
        → All (IsIn idx) (covering_nsec idx target entries)
    unfolding covering_nsec
    covering_nsec-IsIn target [] = tt
    covering_nsec-IsIn target (e ∷ entries) =
        All-if (IsIn idx) (covers_name e.nsec e.owner target) (with_sigs idx e.owner type_nsec)
          (covering_nsec idx target entries) (with_sigs-IsIn e.owner type_nsec)
          (covering_nsec-IsIn target entries)

    two_nsec3-IsIn : (a b : Bytes) → All (IsIn idx) (nsec3_at idx a ++ nsec3_at idx b)
    two_nsec3-IsIn a b =
        All-append (IsIn idx) (nsec3_at idx a) (nsec3_at idx b) (nsec3_at-IsIn a) (nsec3_at-IsIn b)

    encloser_proof_in-IsIn :
        (name : Bytes) (names : List Bytes)
        → All (IsIn idx) (encloser_proof_in sha1 idx name names).0
    unfolding encloser_proof_in
    encloser_proof_in-IsIn name [] = tt
    encloser_proof_in-IsIn name (ce ∷ names) =
        let owner = matching sha1 idx.nsec3s ce in
        let rest = encloser_proof_in-IsIn name names in
        elim (Bool-cases (not (is_at_or_below ce idx.apex))) [
          | inl y ↦ rw (y, encloser_proof_in) tt
          | inr n ↦ elim (Bool-cases (not (equal owner []))) [
            | inl y ↦
                rw (n, y, encloser_proof_in)
                  (two_nsec3-IsIn owner (covering sha1 idx.nsec3s (next_closer name ce)))
            | inr m ↦ elim (Bool-cases (equal ce idx.apex)) [
              | inl y ↦ rw (n, m, y, encloser_proof_in) tt
              | inr k ↦ rw (n, m, k, encloser_proof_in) rest
            ]
          ]
        ]

    closest_encloser_proof-IsIn :
        (name : Bytes) → All (IsIn idx) (closest_encloser_proof sha1 idx name).0
    unfolding closest_encloser_proof
    closest_encloser_proof-IsIn name = encloser_proof_in-IsIn name (parents name)

    pub no_data_proof-IsIn : (name : Bytes) → All (IsIn idx) (no_data_proof sha1 idx name)
    unfolding no_data_proof
    no_data_proof-IsIn name = elim (List-cases idx.nsec3s) [
      | inl e ↦
          simp (e, no_data_proof)
            (or_records-IsIn (with_sigs idx name type_nsec) (covering_nsec idx name idx.nsecs)
              (with_sigs-IsIn name type_nsec) (covering_nsec-IsIn name idx.nsecs))
      | inr (x, xs, e) ↦
          simp (e, no_data_proof)
            (All-if (IsIn idx) (not (equal (matching sha1 (x ∷ xs) name) []))
              (nsec3_at idx (matching sha1 (x ∷ xs) name))
              ((closest_encloser_proof sha1 idx name).0)
              (nsec3_at-IsIn (matching sha1 (x ∷ xs) name)) (closest_encloser_proof-IsIn name))
    ]

    pub nx_domain_proof-IsIn : (name ce : Bytes) → All (IsIn idx) (nx_domain_proof sha1 idx name ce)
    unfolding nx_domain_proof
    nx_domain_proof-IsIn name ce = elim (List-cases idx.nsec3s) [
      | inl e ↦
          simp (e, nx_domain_proof)
            (All-append (IsIn idx) (covering_nsec idx name idx.nsecs)
              (covering_nsec idx (wildcard_of_name ce) idx.nsecs)
              (covering_nsec-IsIn name idx.nsecs)
              (covering_nsec-IsIn (wildcard_of_name ce) idx.nsecs))
      | inr (x, xs, e) ↦
          let proof = closest_encloser_proof sha1 idx name in
          let last = covering sha1 (x ∷ xs) (wildcard_of_name proof.1) in
          simp (e, nx_domain_proof)
            (All-append (IsIn idx) (proof.0) (nsec3_at idx last) (closest_encloser_proof-IsIn name)
              (nsec3_at-IsIn last))
    ]

    pub next_closer_proof-IsIn :
        (name ce : Bytes) → All (IsIn idx) (next_closer_proof sha1 idx name ce)
    unfolding next_closer_proof
    next_closer_proof-IsIn name ce = elim (List-cases idx.nsec3s) [
      | inl e ↦ simp (e, next_closer_proof) (covering_nsec-IsIn (next_closer name ce) idx.nsecs)
      | inr (x, xs, e) ↦
          simp (e, next_closer_proof) (nsec3_at-IsIn (covering sha1 (x ∷ xs) (next_closer name ce)))
    ]

    pub encloser_proof-IsIn : (ce : Bytes) → All (IsIn idx) (encloser_proof sha1 idx ce)
    unfolding encloser_proof
    encloser_proof-IsIn ce = elim (List-cases idx.nsec3s) [
      | inl e ↦ simp (e, encloser_proof) tt
      | inr (x, xs, e) ↦ simp (e, encloser_proof) (nsec3_at-IsIn (matching sha1 (x ∷ xs) ce))
    ]
