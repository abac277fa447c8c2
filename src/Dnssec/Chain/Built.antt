-- ===== src/Dnssec/Chain/Built.antt =====
-- What the records of `BuildNSEC` cover.
use dnsdata_go.Common.{
  ℕ, ◌≡◌, refl, ap, ◌∙◌, inl, inr, arith, Bool-cases, true, false, not, ◌&&◌, List, [], ◌∷◌, map,
  if◌then◌else◌, Bytes, Result, ok, All, leb, length, ◌-◌,
}
use dnsdata_go.Text.{Unicode, to_lower}
use dnsdata_go.Zone.Canonical.{compare_canonical_names, canonical_labels}
use dnsdata_go.Dnssec.Zone.{ZoneRecord}
use dnsdata_go.Dnssec.Chain.{links, count_covering, owned}
use dnsdata_go.Dnssec.Chain.Gaps.{count_chain}
use dnsdata_go.Dnssec.Chain.Denial.{names-IsOrder, count_nsec, count_nsec-covers, name_link}
use dnsdata_go.Dnssec.Nsec.{Nsec}
use dnsdata_go.Dnssec.Chain.Named.{named, view_records-owned, authoritative_owners-owned}
use dnsdata_go.Dnssec.Chain.Sorted.{with_record-HasKeys}
use dnsdata_go.Dnssec.Chain.View.{
  SignerError, ZoneParts, is_generated_type, is_at_or_below, same_name, has_key, with_record,
  view_records, new_zone_view, is_below_cut, authoritative_owners, chain_records, build_nsec,
}
use dnsdata_go.Dnssec.Chain.Keys.{authoritative_owners-IsIncreasing, has_key-add_type_self}
use dnsdata_go.Dnssec.Chain.Sorted.{AreSorted, IsView, cuts-below, view_records-IsView}

-- The link of a record.
abbrev pub link_of_record : (Bytes × Bytes) × List ℕ → Bytes × Bytes
link_of_record (link, types) = link

abbrev built :
    List ((Bytes × Bytes) × List ℕ) → Result SignerError (List ((Bytes × Bytes) × List ℕ))
built out = ok out

module _ ⦃u : Unicode⦄ where
  chain_records-links :
      (v : ZoneParts) (ls : List (Bytes × Bytes)) → map link_of_record (chain_records v ls) ≡ ls
  unfolding chain_records
  chain_records-links v [] = refl
  chain_records-links v ((owner, next) ∷ ls) =
      ap (λ xs. (owner, next) ∷ xs) (chain_records-links v ls)

  -- Of two names that are each at or below the other, the labels are the same.
  apex_not_below :
      (c apex : Bytes)
      → same_name c apex ≡ false
      → is_at_or_below c apex ≡ true
      → is_at_or_below apex c ≡ false
  unfolding same_name is_at_or_below
  apex_not_below c apex d below =
      elim (Bool-cases (leb (length (canonical_labels c)) (length (canonical_labels apex)))) [
        | inr n ↦ ground (arith, n)
        | inl y ↦
            let zero_more : length (canonical_labels c) - length (canonical_labels apex) ≡ 0 =
              ground (arith, y, below) in
            let same = rw (zero_more) at below in absurd (ground (arith, same, d))
      ]

  apex-authoritative :
      (apex : Bytes) (cuts : List Bytes)
      → All (λ (c : Bytes). (same_name c apex ≡ false) × (is_at_or_below c apex ≡ true)) cuts
      → is_below_cut cuts apex ≡ false
  unfolding is_below_cut
  apex-authoritative apex [] h = refl
  apex-authoritative apex (c ∷ cuts) ((d, b), h) =
      ground (arith, apex_not_below c apex d b, apex-authoritative apex cuts h)

  abbrev start_of : Bytes → ZoneParts
  start_of apex = record { apex = apex; owners = []; types = []; cuts = [] }

  -- The view of the first record, which stands at the apex.
  first-IsView :
      (rr : ZoneRecord) (rrs : List ZoneRecord)
      → AreSorted (rr ∷ rrs)
      → is_at_or_below rr.label rr.label ≡ true
      → IsView rr.label (with_record (start_of rr.label) rr.label rr.rr_type) rrs
  unfolding with_record has_key
  first-IsView rr rrs s b = record {
    others = [];
    at_apex = refl;
    from_apex = refl;
    in_order = tt;
    last_kept = has_key-add_type_self [] (to_lower rr.label) rr.rr_type;
    last_before = s.0;
    keys_kept = with_record-HasKeys rr.label (start_of rr.label) rr rrs s (λ key h. cc);
    below_apex = cuts-below rr.label rr.label rr.rr_type (start_of rr.label) refl b tt;
  }

  -- What the view of a zone is whose first record stands at the apex.
  new_zone_view_lem :
      (rr : ZoneRecord) (rrs : List ZoneRecord) (v : ZoneParts) (q : Bytes)
      → AreSorted (rr ∷ rrs)
      → is_generated_type rr.rr_type ≡ false
      → new_zone_view rr.label (rr ∷ rrs) ≡ ok v
      → IsView rr.label v [] × (owned compare_canonical_names v.owners q ≡ named (rr ∷ rrs) q)
  unfolding new_zone_view view_records with_record has_key
  new_zone_view_lem rr rrs v q s kept e = elim (Bool-cases (is_at_or_below rr.label rr.label)) [
    | inr n ↦ let x = rw (kept, n) at e in cc
    | inl b ↦
        let first = first-IsView rr rrs s b in
        let after = with_record (start_of rr.label) rr.label rr.rr_type in
        let k = rw (kept, b) at e in
        let owners = view_records-owned rr.label rrs after v q (s.1) first k in
        (view_records-IsView rr.label rrs after v (s.1) first k, ground (arith, owners, kept))
  ]

  -- What `BuildNSEC` makes of the view.
  chain_of-links :
      (apex : Bytes) (v : ZoneParts) (out : List ((Bytes × Bytes) × List ℕ)) (q : Bytes)
      → IsView apex v []
      → chain_records v (links (authoritative_owners v.cuts v.owners) apex) ≡ out
      → count_covering compare_canonical_names (map link_of_record out) q
        ≡ (if owned compare_canonical_names v.owners q && not (is_below_cut v.cuts q) then 0 else 1)
  unfolding authoritative_owners
  chain_of-links apex v out q k made =
      let others = authoritative_owners v.cuts k.others in
      let in_zone = apex-authoritative apex v.cuts k.below_apex in
      let all_owners : authoritative_owners v.cuts v.owners ≡ apex ∷ others =
        rw (k.from_apex, in_zone) refl in
      let named_by = authoritative_owners-owned v.cuts v.owners q in
      let links_made = chain_records-links v (links (apex ∷ others) apex) in
      let chain : map link_of_record out ≡ links (apex ∷ others) apex =
        rw (← made, all_owners) links_made in
      let counts =
        count_chain compare_canonical_names names-IsOrder apex others q
          (authoritative_owners-IsIncreasing v.cuts apex k.others k.in_order) in
      rw (chain, ← named_by, all_owners) counts

  -- When the records of a zone stand in canonical order, of which names compare as equal exactly when
  -- they differ at most in case, and the first one is at the apex and of a type that signing does not
  -- make, then of NSEC records with the owners and next owners that `BuildNSEC` writes none covers a
  -- name that a record of the zone has which is neither of such a type nor below a delegation, and one
  -- covers each other name.
  pub build_nsec_denies :
      (rr : ZoneRecord) (rrs : List ZoneRecord) (v : ZoneParts)
      (out : List ((Bytes × Bytes) × List ℕ)) (nsecs : List (Bytes × Nsec)) (q : Bytes)
      → AreSorted (rr ∷ rrs)
      → is_generated_type rr.rr_type ≡ false
      → new_zone_view rr.label (rr ∷ rrs) ≡ ok v
      → build_nsec rr.label (rr ∷ rrs) ≡ ok out
      → map name_link nsecs ≡ map link_of_record out
      → count_nsec nsecs q ≡ (if named (rr ∷ rrs) q && not (is_below_cut v.cuts q) then 0 else 1)
  unfolding build_nsec
  build_nsec_denies rr rrs v out nsecs q s kept y e read =
      let (k, owners) = new_zone_view_lem rr rrs v q s kept y in
      let made : chain_records v (links (authoritative_owners v.cuts v.owners) rr.label) ≡ out =
        result_of (rw (y) at e) in
      count_nsec-covers nsecs q
      ∙ (ap (λ ls. count_covering compare_canonical_names ls q) read
          ∙ rw (← owners) (chain_of-links rr.label v out q k made))
    where
      result_of : {a b : List ((Bytes × Bytes) × List ℕ)} → built a ≡ ok b → a ≡ b
      result_of e = cc
