-- ===== src/Dnssec/Chain/Denial.antt =====
-- The chains of NSEC and NSEC3 records under `CoversName` and `CoversHash`.
use dnsdata_go.Common.{
  ℕ, ◌+◌, ◌≡◌, refl, ap, ◌∙◌, List, [], ◌∷◌, map, if◌then◌else◌, Bytes, compare,
}
use dnsdata_go.Common.Compare.{IsTotalOrder, lex-IsTotalOrder, compare-IsTotalOrder}
use dnsdata_go.Text.{Unicode}
use dnsdata_go.Zone.Canonical.{compare_bytes, compare_canonical_names, canonical_labels}
use dnsdata_go.Zone.Canonical.Order.{compare_canonical_names_order, compare_canonical_names_trans}
use dnsdata_go.Dnssec.Nsec.{Nsec, Nsec3, covers_name, covers_hash}
use dnsdata_go.Dnssec.Chain.{links, count_covering, owned, IsIncreasing}
use dnsdata_go.Dnssec.Chain.Gaps.{IsOrder, count_chain}

pub bytes-IsTotalOrder : IsTotalOrder compare_bytes
bytes-IsTotalOrder = lex-IsTotalOrder compare compare-IsTotalOrder

pub bytes-IsOrder : IsOrder compare_bytes
bytes-IsOrder = record {
  swap = bytes-IsTotalOrder.swap;
  left = λ a b d e. ap (λ (x : Bytes). compare_bytes x d) (bytes-IsTotalOrder.same a b e);
  lt_trans = bytes-IsTotalOrder.lt_trans;
}

-- How many of the records, each with its owner hash, cover the hash.
abbrev pub count_nsec3 : List (Bytes × Nsec3) → Bytes → ℕ
count_nsec3 [] h = 0
count_nsec3 ((owner, n) ∷ rs) h = (if covers_hash n owner h then 1 else 0) + count_nsec3 rs h

abbrev pub hash_link : Bytes × Nsec3 → Bytes × Bytes
hash_link (owner, n) = (owner, n.next_hashed_owner)

count_nsec3-covers :
    (rs : List (Bytes × Nsec3)) (h : Bytes)
    → count_nsec3 rs h ≡ count_covering compare_bytes (map hash_link rs) h
unfolding covers_hash
count_nsec3-covers [] h = refl
count_nsec3-covers ((owner, n) ∷ rs) h =
    ap (λ (k : ℕ). (if covers_hash n owner h then 1 else 0) + k) (count_nsec3-covers rs h)

-- NSEC3 records that link sorted hashes in a circle cover each other hash once, and none of their
-- own.
pub nsec3_chain_denial :
    (rs : List (Bytes × Nsec3)) (first : Bytes) (hashes : List Bytes) (h : Bytes)
    → map hash_link rs ≡ links (first ∷ hashes) first
    → IsIncreasing compare_bytes first hashes
    → count_nsec3 rs h ≡ (if owned compare_bytes (first ∷ hashes) h then 0 else 1)
nsec3_chain_denial rs first hashes h e s =
    count_nsec3-covers rs h
    ∙ ap (λ (ls : List (Bytes × Bytes)). count_covering compare_bytes ls h) e
    ∙ count_chain compare_bytes bytes-IsOrder first hashes h s

module _ ⦃u : Unicode⦄ where
  pub names-IsOrder : IsOrder compare_canonical_names
  names-IsOrder = record {
    swap = λ a b. (compare_canonical_names_order a b).1;
    left = λ a b d e. left_lem a b d ((compare_canonical_names_order a b).0.0 e);
    lt_trans = compare_canonical_names_trans;
  }
    where
      left_lem :
          (a b d : Bytes)
          → canonical_labels a ≡ canonical_labels b
          → compare_canonical_names a d ≡ compare_canonical_names b d
      left_lem a b d e = unfold compare_canonical_names in rw e

  -- How many of the NSEC records, each with its owner, cover the name.
  abbrev pub count_nsec : List (Bytes × Nsec) → Bytes → ℕ
  count_nsec [] q = 0
  count_nsec ((owner, n) ∷ rs) q = (if covers_name n owner q then 1 else 0) + count_nsec rs q

  abbrev pub name_link : Bytes × Nsec → Bytes × Bytes
  name_link (owner, n) = (owner, n.next_domain)

  pub count_nsec-covers :
      (rs : List (Bytes × Nsec)) (q : Bytes)
      → count_nsec rs q ≡ count_covering compare_canonical_names (map name_link rs) q
  unfolding covers_name
  count_nsec-covers [] q = refl
  count_nsec-covers ((owner, n) ∷ rs) q =
      ap (λ (k : ℕ). (if covers_name n owner q then 1 else 0) + k) (count_nsec-covers rs q)

  -- The NSEC records that `BuildNSEC` makes of owners sorted from the apex on cover each name that
  -- is not an owner exactly once, and no owner.
  pub nsec_chain_denial :
      (rs : List (Bytes × Nsec)) (apex : Bytes) (owners : List Bytes) (q : Bytes)
      → map name_link rs ≡ links (apex ∷ owners) apex
      → IsIncreasing compare_canonical_names apex owners
      → count_nsec rs q ≡ (if owned compare_canonical_names (apex ∷ owners) q then 0 else 1)
  nsec_chain_denial rs apex owners q e s =
      count_nsec-covers rs q
      ∙ ap (λ (ls : List (Bytes × Bytes)). count_covering compare_canonical_names ls q) e
      ∙ count_chain compare_canonical_names names-IsOrder apex owners q s
