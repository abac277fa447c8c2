-- ===== src/Resolver/Memory/Copied.antt =====
-- What a record of a response has of a record of the index.
use dnsdata_go.Common.{
  ℕ, ◌≡◌, ◌⊎◌, ◌-◌, arith, length, length-append, take-append, refl, List, [], ◌∷◌, ◌++◌, ◌==◌, All,
  Bytes,
}
use mathlib.Core.List.{Memᴰ}
use dnsdata_go.Text.{Unicode}
use dnsdata_go.Types.{type_cname, type_dname}
use dnsdata_go.Dnssec.Zone.{ZoneRecord}
use dnsdata_go.Resolver.Memory.{
  AnswerCopy, labels, normalize, copy_as, ZoneIndex, wildcard_of_name, records_at, with_sigs,
  closest_encloser,
}
use dnsdata_go.Resolver.Memory.Replies.{or_records, synthesised_cname, cname_for}
use dnsdata_go.Verifier.Names.{dotted}
use dnsdata_go.Resolver.Memory.Suffixes.{EndsWith}
use dnsdata_go.Resolver.Memory.Origins.{with_sigs-All, or_records-All, IsIn, All-if}

-- The fields of the record, under the label.
abbrev pub IsCopy : ZoneRecord → Bytes → AnswerCopy → Type 0
IsCopy rr label a =
    (a.label ≡ label)
    × (a.ttl ≡ rr.ttl)
    × (a.class ≡ rr.class)
    × (a.rr_type ≡ rr.rr_type)
    × (a.value ≡ rr.value)

pub copy_as-IsCopy : (rr : ZoneRecord) (label : Bytes) → IsCopy rr label (copy_as rr label)
unfolding copy_as
copy_as-IsCopy rr label = (refl, refl, refl, refl, refl)

-- The index has the record at the owner.
abbrev pub StandsUnder : ZoneIndex → Bytes → ZoneRecord → Type 0
StandsUnder idx owner rr = Memᴰ rr (records_at idx.by_name owner)

pub with_sigs-StandsUnder :
    (idx : ZoneIndex) (owner : Bytes) (t : ℕ) → All (StandsUnder idx owner) (with_sigs idx owner t)
with_sigs-StandsUnder idx owner t = with_sigs-All (StandsUnder idx owner) idx owner (λ rr m. m) t

cname_for-StandsUnder :
    (idx : ZoneIndex) (owner : Bytes) (qtype : ℕ)
    → All (StandsUnder idx owner) (cname_for idx owner qtype)
unfolding cname_for
cname_for-StandsUnder idx owner qtype =
    All-if (StandsUnder idx owner) (qtype == type_cname) [] (with_sigs idx owner type_cname) tt
      (with_sigs-StandsUnder idx owner type_cname)

pub answered-StandsUnder :
    (idx : ZoneIndex) (owner : Bytes) (qtype : ℕ)
    → All
        (StandsUnder idx owner)
        (or_records (with_sigs idx owner qtype) (cname_for idx owner qtype))
answered-StandsUnder idx owner qtype =
    or_records-All (StandsUnder idx owner) (with_sigs idx owner qtype) (cname_for idx owner qtype)
      (with_sigs-StandsUnder idx owner qtype) (cname_for-StandsUnder idx owner qtype)

pub StandsUnder-IsIn :
    (idx : ZoneIndex) (owner : Bytes) (rrs : List ZoneRecord)
    → All (StandsUnder idx owner) rrs
    → All (IsIn idx) rrs
StandsUnder-IsIn idx owner [] h = tt
StandsUnder-IsIn idx owner (rr ∷ rrs) (m, h) = ((owner, m), StandsUnder-IsIn idx owner rrs h)

module _ ⦃u : Unicode⦄ where
  -- A CNAME for the name, made from a DNAME record: the labels in front of those of the owner, with the
  -- labels of the record's value behind them.
  abbrev pub IsRedirected : Bytes → Bytes → ZoneRecord → AnswerCopy → Type 0
  IsRedirected name owner rr a =
      (a.label ≡ name)
      × (a.ttl ≡ rr.ttl)
      × (a.class ≡ rr.class)
      × (a.rr_type ≡ type_cname)
      × (front : List Bytes) × (labels name ≡ front ++ labels owner)
      × (a.value ≡ dotted (front ++ labels (normalize rr.value)))

  -- The record of a response has the fields of a record that the index has at an owner, under its own
  -- name or, from the wildcard at the closest encloser, under the name asked for, or it is the CNAME
  -- made for that name from a DNAME record of the index.
  abbrev pub IsFrom : ZoneIndex → Bytes → AnswerCopy → Type 0
  IsFrom idx name a =
      (owner : Bytes) × (rr : ZoneRecord) × Memᴰ rr (records_at idx.by_name owner)
      × (IsCopy rr rr.label a
          ⊎ ((IsCopy rr name a × (owner ≡ wildcard_of_name (closest_encloser idx name)))
              ⊎ ((rr.rr_type ≡ type_dname) × IsRedirected name owner rr a)))

  pub synthesised_cname-IsRedirected :
      (name owner : Bytes) (rr : ZoneRecord)
      → EndsWith name owner
      → IsRedirected name owner rr (synthesised_cname name owner rr)
  unfolding synthesised_cname
  synthesised_cname-IsRedirected name owner rr (front, e) =
      let count = length-append front (labels owner) in
      let n : length (front ++ labels owner) - length (labels owner) ≡ length front =
        omega (arith, count) in
      (refl, refl, refl, refl, front, e, rw (e, n, take-append front (labels owner)) refl)
