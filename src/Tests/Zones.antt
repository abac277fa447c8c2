-- ===== src/Tests/Zones.antt =====
-- The chain of the zone `org.`, which has the name `b.org.`
use dnsdata_go.Common.{
  ℕ, ◌≡◌, ◌↔◌, ◌⊎◌, inl, inr, ap, refl, false, not, ◌&&◌, List, [], ◌∷◌, if◌then◌else◌, Bytes, ok,
  equal, Ordering,
}
use dnsdata_go.Common.Compare.{lex}
use dnsdata_go.Text.{Unicode, is_ascii, to_lower, trim_dot, split_dots, lower_octet, same_labels}
use dnsdata_go.Zone.Canonical.{canonical_labels, labels_of_text, compare_canonical_names}
use dnsdata_go.Dnssec.Zone.{ZoneRecord, other_handler}
use dnsdata_go.Dnssec.Chain.{links}
use dnsdata_go.Dnssec.Chain.Denial.{count_nsec}
use dnsdata_go.Dnssec.Nsec.{Nsec}
use dnsdata_go.Dnssec.Chain.View.{
  ZoneParts, is_generated_type, new_zone_view, is_below_cut, build_nsec,
}
use dnsdata_go.Dnssec.Chain.Records.{records_canonical}
use dnsdata_go.Tests.Sorting.{insertion_sort}
use dnsdata_go.Tests.Stable.{insertion_sort-SortsRecords}
use mathlib.Core.List.{Memᴰ}
use mathlib.Core.List.Memᴰ
use dnsdata_go.Dnssec.Chain.Named.{named}
use dnsdata_go.Dnssec.Chain.Zones.{zone_denies}

instance abbrev ascii_zone : Unicode
ascii_zone = record { lower = λ s. s; upper = λ s. s; same_fold = λ a b. false; trim = λ s. s }

abbrev zone_apex : Bytes
zone_apex = b'o' ∷ b'r' ∷ b'g' ∷ b'.' ∷ []

abbrev zone_name : Bytes
zone_name = b'b' ∷ b'.' ∷ zone_apex

abbrev query_name : Bytes
query_name = b'c' ∷ b'.' ∷ zone_apex

abbrev zone_record : Bytes → ℕ → ZoneRecord
zone_record label rr_type = record {
  label = label;
  class = 1;
  rr_type = rr_type;
  ttl = 60;
  value = [];
  handler = other_handler;
  body = ok [];
}

abbrev zone_parts : ZoneParts
zone_parts = record {
  apex = zone_apex;
  owners = zone_apex ∷ zone_name ∷ [];
  types = (zone_apex, 6 ∷ []) ∷ (zone_name, 1 ∷ []) ∷ [];
  cuts = [];
}

abbrev built_records : List ((Bytes × Bytes) × List ℕ)
built_records =
    ((zone_apex, zone_name), 6 ∷ 46 ∷ 47 ∷ []) ∷ ((zone_name, zone_apex), 1 ∷ 46 ∷ 47 ∷ []) ∷ []

viewed :
    new_zone_view zone_apex (zone_record zone_apex 6 ∷ zone_record zone_name 1 ∷ []) ≡ ok zone_parts
unfolding new_zone_view canonical_labels labels_of_text to_lower is_ascii trim_dot split_dots
    lower_octet same_labels equal
viewed = refl

records_built :
    build_nsec zone_apex (zone_record zone_apex 6 ∷ zone_record zone_name 1 ∷ []) ≡ ok built_records
unfolding build_nsec links canonical_labels labels_of_text to_lower is_ascii trim_dot split_dots
    lower_octet same_labels equal
records_built = refl

-- The records as they were added, one of them twice.
abbrev added_records : List ZoneRecord
added_records = zone_record zone_name 1 ∷ zone_record zone_apex 6 ∷ zone_record zone_name 1 ∷ []

listed :
    records_canonical insertion_sort added_records
    ≡ ok (zone_record zone_apex 6 ∷ zone_record zone_name 1 ∷ [])
unfolding records_canonical insertion_sort dnsdata_go.Tests.Sorting.insert compare_canonical_names
    canonical_labels labels_of_text to_lower is_ascii trim_dot split_dots lower_octet lex
listed = refl

apex_type : is_generated_type 6 ≡ false
unfolding is_generated_type
apex_type = refl

abbrev read_nsecs : List (Bytes × Nsec)
read_nsecs =
    (zone_apex, record { next_domain = zone_name; type_bitmap = []; covered_types = [] })
    ∷ (zone_name, record { next_domain = zone_apex; type_bitmap = []; covered_types = [] })
    ∷ []

two_labels : (a : ZoneRecord) → Memᴰ a added_records → (a.label ≡ zone_name) ⊎ (a.label ≡ zone_apex)
two_labels a m = elim (Memᴰ.cases_cons m) [
  | inl e ↦ inl (ap (λ r. r.label) e)
  | inr i ↦ elim (Memᴰ.cases_cons i) [
    | inl e ↦ inr (ap (λ r. r.label) e)
    | inr j ↦ elim (Memᴰ.cases_cons j) [
      | inl e ↦ inl (ap (λ r. r.label) e)
      | inr k ↦ absurd (Memᴰ.not-nil k)
    ]
  ]
]

same_case :
    (a b : Bytes)
    → (a ≡ zone_name) ⊎ (a ≡ zone_apex)
    → (b ≡ zone_name) ⊎ (b ≡ zone_apex)
    → (compare_canonical_names a b ≡ Ordering.eq) ↔ (to_lower a ≡ to_lower b)
unfolding compare_canonical_names canonical_labels labels_of_text to_lower is_ascii trim_dot
    split_dots lower_octet lex
same_case a b (inl e) (inl f) = rw (e, f) (λ g. refl, λ g. refl)
same_case a b (inr e) (inr f) = rw (e, f) (λ g. refl, λ g. refl)
same_case a b (inl e) (inr f) = rw (e, f) (λ g. cc, λ g. cc)
same_case a b (inr e) (inl f) = rw (e, f) (λ g. cc, λ g. cc)

zone_denies_example : count_nsec read_nsecs query_name ≡ (
    if named added_records query_name && not (is_below_cut zone_parts.cuts query_name)
    then 0
    else 1)
zone_denies_example =
    zone_denies insertion_sort insertion_sort-SortsRecords added_records (zone_record zone_apex 6)
      (zone_record zone_name 1 ∷ []) zone_parts built_records read_nsecs query_name
      (λ a b i j. same_case a.label b.label (two_labels a i) (two_labels b j)) listed apex_type
      viewed records_built refl
