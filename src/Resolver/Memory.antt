-- ===== src/Resolver/Memory.antt =====
-- resolver/memory/index.go and nsec3.go: a zone as the in-memory authority indexes it. The hash SHA-1 is
-- an argument.
pub mod Index
pub mod Replies
pub mod Authority
pub mod Deepest
pub mod Origins
pub mod Copied
pub mod Answered
pub mod Added
pub mod Suffixes
pub mod Served
pub mod Indexed
pub mod Kept
pub mod Denies
pub mod Hashed
use dnsdata_go.Common.{
  ℕ, ◌+◌, ◌-◌, Bool, true, false, not, ◌&&◌, ◌||◌, List, [], ◌∷◌, ◌++◌, Option, none, some, ltb,
  leb, ◌==◌, if◌then◌else◌, length, drop, Bytes, equal, ok, err,
}
use dnsdata_go.Text.{same_labels, Unicode, to_lower, trim_space, trim_dot}
use dnsdata_go.Types.{type_rrsig, type_nsec}
use dnsdata_go.Zone.Canonical.{labels_of_text}
use dnsdata_go.Dnssec.Nsec.{Nsec, Nsec3, covers_name, covers_hash}
use dnsdata_go.Dnssec.Hash.{compute_nsec3_hash}
use dnsdata_go.Dnssec.Zone.{ZoneRecord, Handler, rrsig_handler}
use dnsdata_go.Verifier.Names.{root_name, dotted, suffix_names, with_dot}

-- The fields of a record that an answer copies.
pub record AnswerCopy : Type 0 where
  pub label : Bytes
  pub ttl : ℕ
  pub class : ℕ
  pub rr_type : ℕ
  pub value : Bytes

-- `copyAs`
unfoldable pub copy_as : ZoneRecord → Bytes → AnswerCopy
copy_as rr owner = record {
  label = owner;
  ttl = rr.ttl;
  class = rr.class;
  rr_type = rr.rr_type;
  value = rr.value;
}

pub record NsecEntry : Type 0 where
  pub owner : Bytes
  pub nsec : Nsec

pub record Nsec3Entry : Type 0 where
  pub owner : Bytes
  pub hash : Bytes
  pub nsec3 : Nsec3

-- `zoneIndex`. The type that an RRSIG covers is in its handler, `exists` is the list of its keys, and
-- the chain of NSEC3 records is nil when it is empty.
pub record ZoneIndex : Type 0 where
  pub apex : Bytes
  pub by_name : List (Bytes × List ZoneRecord)
  pub existing_names : List Bytes
  pub cuts : List Bytes
  pub nsecs : List NsecEntry
  pub nsec3s : List Nsec3Entry

-- `labels`
unfoldable pub labels : Bytes → List Bytes
labels name = labels_of_text (trim_dot name)

-- `isAtOrBelow`
unfoldable pub is_at_or_below : Bytes → Bytes → Bool
unfolding labels same_labels
is_at_or_below name ancestor =
    let n = labels name in
    let a = labels ancestor in
    leb (length a) (length n) && same_labels (drop (length n - length a) n) a

-- The values that `n = parent(n)` runs through, from the parent of a name to the root.
unfoldable pub parents : Bytes → List Bytes
unfolding labels
parents name = suffix_names (drop 1 (labels name)) ++ root_name ∷ []

-- `wildcardOf`
unfoldable pub wildcard_of_name : Bytes → Bytes
wildcard_of_name name = if equal name root_name then b'*' ∷ root_name else b'*' ∷ b'.' ∷ name

-- `exists[n]`, `slices.Contains`
unfoldable pub is_among : Bytes → List Bytes → Bool
is_among name [] = false
is_among name (n ∷ names) = equal n name || is_among name names

-- `byName[name]`
unfoldable pub records_at : List (Bytes × List ZoneRecord) → Bytes → List ZoneRecord
records_at [] name = []
records_at ((n, rrs) ∷ rest) name =
    let later = records_at rest name in if equal n name then rrs else later

-- The loop of `rrset`.
unfoldable pub of_type : List ZoneRecord → ℕ → List ZoneRecord
of_type [] t = []
of_type (rr ∷ rrs) t = let rest = of_type rrs t in if rr.rr_type == t then rr ∷ rest else rest

-- `rrset`
unfoldable pub rrset : ZoneIndex → Bytes → ℕ → List ZoneRecord
unfolding records_at of_type
rrset idx name t = of_type (records_at idx.by_name name) t

-- `idx.covered[rr] == t`
unfoldable pub covers : Handler → ℕ → Bool
covers (rrsig_handler s) t = s.type_covered == t
covers _ t = false

-- The loop of `withSigs`.
unfoldable pub sigs_over : List ZoneRecord → ℕ → List ZoneRecord
unfolding covers
sigs_over [] t = []
sigs_over (rr ∷ rrs) t =
    let rest = sigs_over rrs t in if covers rr.handler t then rr ∷ rest else rest

-- The end of `withSigs`, from the record set and the RRSIGs at the name.
unfoldable pub and_sigs : List ZoneRecord → List ZoneRecord → ℕ → List ZoneRecord
unfolding sigs_over
and_sigs [] sigs t = []
and_sigs (rr ∷ rrs) sigs t = (rr ∷ rrs) ++ sigs_over sigs t

-- `withSigs`
unfoldable pub with_sigs : ZoneIndex → Bytes → ℕ → List ZoneRecord
unfolding and_sigs rrset
with_sigs idx name t = and_sigs (rrset idx name t) (rrset idx name type_rrsig) t

-- The loop of `cutAbove`, with the best so far.
unfoldable pub best_cut : List Bytes → Bytes → Bytes → Bytes
unfolding is_at_or_below labels
best_cut [] name best = best
best_cut (c ∷ cuts) name best =
    let better =
      is_at_or_below name c && (equal best [] || ltb (length (labels c)) (length (labels best))) in
    let next = if better then c else best in best_cut cuts name next

-- `cutAbove`
unfoldable pub cut_above : ZoneIndex → Bytes → Bytes
unfolding best_cut
cut_above idx name = best_cut idx.cuts name []

-- The loop of `closestEncloser`; the last name is the root, at which it stops.
unfoldable pub encloser_in : ZoneIndex → List Bytes → Bytes
encloser_in idx [] = root_name
encloser_in idx (n ∷ names) =
    let rest = encloser_in idx names in
    if is_among n idx.existing_names || (equal n idx.apex || equal n root_name) then n else rest

-- `closestEncloser`
unfoldable pub closest_encloser : ZoneIndex → Bytes → Bytes
unfolding encloser_in parents
closest_encloser idx name = encloser_in idx (name ∷ parents name)

-- `nextCloser`; its callers have a name below `ce`.
unfoldable pub next_closer : Bytes → Bytes → Bytes
unfolding labels
next_closer name ce = let l = labels name in dotted (drop (length l - (length (labels ce) + 1)) l)

-- The loop of `dnameAbove`.
unfoldable pub dname_in_parents : ZoneIndex → ℕ → List Bytes → Bytes
unfolding rrset is_at_or_below
dname_in_parents idx t [] = []
dname_in_parents idx t (n ∷ names) =
    let rest = dname_in_parents idx t names in
    if not (is_at_or_below n idx.apex)
    then []
    else elim (rrset idx n t) [ rr ∷ rrs ↦ n | [] ↦ if equal n idx.apex then [] else rest ]

module _ ⦃u : Unicode⦄ where
  -- `normalize`
  unfoldable pub normalize : Bytes → Bytes
  normalize name = with_dot (to_lower (trim_space name))

  -- `coveringNSEC`
  unfoldable pub covering_nsec : ZoneIndex → Bytes → List NsecEntry → List ZoneRecord
  unfolding with_sigs
  covering_nsec idx target [] = []
  covering_nsec idx target (e ∷ entries) =
      let rest = covering_nsec idx target entries in
      if covers_name e.nsec e.owner target then with_sigs idx e.owner type_nsec else rest
