-- ===== src/Resolver/Memory/Hashed.antt =====
-- The NSEC3 record that the authority finds for the hash of a name.
use dnsdata_go.Common.{
  ◌≡◌, ◌<◌, ◌⊎◌, refl, sym, ap, subst, ◌∙◌, inl, inr, arith, Bool-cases, Bool, true, false, ◌||◌,
  List, [], ◌∷◌, map, some, Bytes, equal, equal_iff, Ordering, ok, All,
}
use mathlib.Core.List.{Memᴰ}
use dnsdata_go.Common.Compare.{Ordering-cases}
use dnsdata_go.Text.{Unicode, to_lower, trim_space}
use dnsdata_go.Types.{type_nsec3, type_rrsig}
use dnsdata_go.Zone.Canonical.{compare_bytes}
use dnsdata_go.Dnssec.Base32.{owner_hash_from_name}
use dnsdata_go.Dnssec.Nsec.{Nsec3, covers_hash, is_eq}
use dnsdata_go.Dnssec.Chain.{links, count_covering, owned, IsIncreasing}
use dnsdata_go.Dnssec.Chain.Gaps.{count_chain}
use dnsdata_go.Dnssec.Chain.Denial.{bytes-IsOrder, bytes-IsTotalOrder}
use dnsdata_go.Dnssec.Zone.{ZoneRecord, nsec3_handler}
use dnsdata_go.Verifier.Names.{with_dot}
use dnsdata_go.Resolver.Memory.{Nsec3Entry, ZoneIndex, normalize, records_at, rrset, with_sigs}
use dnsdata_go.Resolver.Memory.Index.{
  new_zone_index, chain_hash, owner_with_hash, owner_covering, matching, covering,
}
use dnsdata_go.Resolver.Memory.Replies.{nsec3_at}
use dnsdata_go.Resolver.Memory.Served.{index-Mem}
use dnsdata_go.Resolver.Memory.Indexed.{Nsec3Stands, new_zone_index-IsIndexed}
use dnsdata_go.Resolver.Memory.Kept.{of_type-Mem, and_sigs-Mem}

-- The hash of the entry, and the hash it names as the next.
abbrev pub hash_link_of : Nsec3Entry → Bytes × Bytes
hash_link_of e = (e.hash, e.nsec3.next_hashed_owner)

-- The hash of one of the entries.
abbrev is_hash : List Nsec3Entry → Bytes → Bool
is_hash [] h = false
is_hash (e ∷ entries) h = equal e.hash h || is_hash entries h

eq_bytes : (a b : Bytes) → equal b a ≡ is_eq (compare_bytes a b)
eq_bytes a b = elim (Bool-cases (equal b a)) [
  | inl y ↦
      let e = (equal_iff b a).0 y in
      y
      ∙ sym (
          ap is_eq
            (subst (λ x. compare_bytes a x ≡ Ordering.eq) (sym e) (bytes-IsTotalOrder.self a)))
  | inr n ↦ elim (Ordering-cases (compare_bytes a b)) [
    | inl l ↦ rw (n, l) refl
    | inr (inl q) ↦ let k = (equal_iff b a).1 (sym (bytes-IsTotalOrder.same a b q)) in cc
    | inr (inr g) ↦ rw (n, g) refl
  ]
]

is_hash-owned :
    (entries : List Nsec3Entry) (h : Bytes)
    → is_hash entries h ≡ owned compare_bytes (map (λ (e : Nsec3Entry). e.hash) entries) h
is_hash-owned [] h = refl
is_hash-owned (e ∷ entries) h = rw (eq_bytes h e.hash, is_hash-owned entries h) refl

links-firsts :
    (os : List Bytes) (apex : Bytes) → map (λ (l : Bytes × Bytes). l.0) (links os apex) ≡ os
unfolding links
links-firsts [] apex = refl
links-firsts (o ∷ []) apex = refl
links-firsts (o ∷ p ∷ os) apex = ap (λ xs. o ∷ xs) (links-firsts (p ∷ os) apex)

firsts_of :
    (entries : List Nsec3Entry)
    → map (λ (l : Bytes × Bytes). l.0) (map hash_link_of entries)
      ≡ map (λ (e : Nsec3Entry). e.hash) entries
firsts_of [] = refl
firsts_of (e ∷ entries) = ap (λ xs. e.hash ∷ xs) (firsts_of entries)

hashes_of :
    (entries : List Nsec3Entry) (first : Bytes) (hashes : List Bytes)
    → map hash_link_of entries ≡ links (first ∷ hashes) first
    → map (λ (e : Nsec3Entry). e.hash) entries ≡ first ∷ hashes
hashes_of entries first hashes chain =
    sym (firsts_of entries)
    ∙ (ap (λ ls. map (λ (l : Bytes × Bytes). l.0) ls) chain ∙ links-firsts (first ∷ hashes) first)

with_dot_nonempty : (s : Bytes) → equal (with_dot s) [] ≡ false
unfolding with_dot equal
with_dot_nonempty [] = refl
with_dot_nonempty (c ∷ []) = ground arith
with_dot_nonempty (c ∷ d ∷ rest) = refl

module _ ⦃u : Unicode⦄ where
  matching_lem :
      (sha1 : Bytes → Bytes) (entries : List Nsec3Entry) (name h : Bytes)
      → chain_hash sha1 entries name ≡ some h
      → matching sha1 entries name ≡ owner_with_hash entries h
  unfolding matching
  matching_lem sha1 entries name h e = rw (e, matching) refl

  covering_lem :
      (sha1 : Bytes → Bytes) (entries : List Nsec3Entry) (name h : Bytes)
      → chain_hash sha1 entries name ≡ some h
      → covering sha1 entries name ≡ owner_covering entries h
  unfolding covering
  covering_lem sha1 entries name h e = rw (e, covering) refl

  -- One of the records is an NSEC3 record of the zone with the property, which is about its value and
  -- the hash in its owner's name.
  abbrev pub HasNsec3 : (Nsec3 → Bytes → Type 0) → List ZoneRecord → List ZoneRecord → Type 0
  HasNsec3 P records rrs =
      (rr : ZoneRecord) × (n : Nsec3) × (hash : Bytes) × Memᴰ rr rrs
      × Memᴰ rr records
      × (rr.handler ≡ nsec3_handler n)
      × (owner_hash_from_name (normalize rr.label) ≡ ok hash)
      × P n hash

  module _ (apex : Bytes) (records : List ZoneRecord) (idx : ZoneIndex)
      (built : new_zone_index apex records ≡ ok idx) where
    -- The records at the owner of an entry.
    entry_found :
        (P : Nsec3 → Bytes → Type 0) (e : Nsec3Entry)
        → Nsec3Stands idx e
        → P e.nsec3 e.hash
        → HasNsec3 P records (nsec3_at idx e.owner)
    unfolding nsec3_at with_sigs rrset normalize
    entry_found P e (rr, (m, t, l), h, o) p =
        let there = of_type-Mem rr type_nsec3 (records_at idx.by_name e.owner) m t in
        let back = and_sigs-Mem rr type_nsec3 _ (rrset idx e.owner type_rrsig) there in
        let nonempty : equal e.owner [] ≡ false =
          subst (λ x. equal x [] ≡ false) l (with_dot_nonempty (to_lower (trim_space rr.label))) in
        rw (nonempty) (
          rr,
          e.nsec3,
          e.hash,
          back,
          index-Mem apex records idx rr built (e.owner, m),
          h,
          subst (λ x. owner_hash_from_name x ≡ ok e.hash) (sym l) o,
          p,
        )

    covering_found :
        (h : Bytes) (entries : List Nsec3Entry)
        → All (Nsec3Stands idx) entries
        → 0 < count_covering compare_bytes (map hash_link_of entries) h
        → HasNsec3
            (λ n hash. covers_hash n hash h ≡ true)
            records
            (nsec3_at idx (owner_covering entries h))
    unfolding owner_covering
    covering_found h [] s c = absurd (omega arith)
    covering_found h (e ∷ entries) (here, s) c = elim (Bool-cases (covers_hash e.nsec3 e.hash h)) [
      | inl y ↦ rw (y) (entry_found (λ n hash. covers_hash n hash h ≡ true) e here y)
      | inr n ↦ rw (n) (covering_found h entries s (later n c))
    ]
      where
        later :
            covers_hash e.nsec3 e.hash h ≡ false
            → 0 < count_covering compare_bytes (map hash_link_of (e ∷ entries)) h
            → 0 < count_covering compare_bytes (map hash_link_of entries) h
        later n c = unfold covers_hash in ground (arith, n, c)

    matching_found :
        (h : Bytes) (entries : List Nsec3Entry)
        → All (Nsec3Stands idx) entries
        → is_hash entries h ≡ true
        → HasNsec3 (λ n hash. hash ≡ h) records (nsec3_at idx (owner_with_hash entries h))
    unfolding owner_with_hash
    matching_found h [] s c = cc
    matching_found h (e ∷ entries) (here, s) c = elim (Bool-cases (equal e.hash h)) [
      | inl y ↦ rw (y) (entry_found (λ n hash. hash ≡ h) e here ((equal_iff e.hash h).0 y))
      | inr n ↦ rw (n) (matching_found h entries s (rw (n) at c))
    ]

    -- In an index whose NSEC3 records link sorted hashes in a circle, for a name with a hash there is
    -- at the owner that `matching` returns a record of the zone with this hash, when the chain has it,
    -- and otherwise at the owner that `covering` returns a record whose value covers the hash from the
    -- one in its owner's name.
    pub nsec3_found :
        (sha1 : Bytes → Bytes) (name h first : Bytes) (hashes : List Bytes)
        → chain_hash sha1 idx.nsec3s name ≡ some h
        → map hash_link_of idx.nsec3s ≡ links (first ∷ hashes) first
        → IsIncreasing compare_bytes first hashes
        → ((owned compare_bytes (first ∷ hashes) h ≡ true)
            × HasNsec3 (λ n hash. hash ≡ h) records (nsec3_at idx (matching sha1 idx.nsec3s name)))
          ⊎ ((owned compare_bytes (first ∷ hashes) h ≡ false)
              × HasNsec3
                  (λ n hash. covers_hash n hash h ≡ true)
                  records
                  (nsec3_at idx (covering sha1 idx.nsec3s name)))
    nsec3_found sha1 name h first hashes e chain s =
        let v = new_zone_index-IsIndexed apex records idx built in
        elim (Bool-cases (owned compare_bytes (first ∷ hashes) h)) [
          | inl y ↦
              let there : is_hash idx.nsec3s h ≡ true =
                is_hash-owned idx.nsec3s h ∙ (rw (hashes_of idx.nsec3s first hashes chain) y) in
              inl (
                y,
                rw (matching_lem sha1 idx.nsec3s name h e)
                    (matching_found h idx.nsec3s v.nsec3_entries there),
              )
          | inr n ↦
              let counts = count_chain compare_bytes bytes-IsOrder first hashes h s in
              let one : count_covering compare_bytes (map hash_link_of idx.nsec3s) h ≡ 1 =
                rw (chain, counts, n) refl in
              inr (
                n,
                rw (covering_lem sha1 idx.nsec3s name h e)
                    (covering_found h idx.nsec3s v.nsec3_entries (omega (arith, one))),
              )
        ]
