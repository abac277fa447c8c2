-- ===== src/Tests/Verdicts.antt =====
-- Verdicts, names and denial proofs at concrete inputs.
use dnsdata_go.Common.{
  ap, Bool-cases, length-append, ◌≡◌, ◌↔◌, map, ◌⊎◌, inl, inr, refl, arith, true, false, [], ◌∷◌,
  some, length, Bytes, Ordering, equal,
}
use dnsdata_go.Common.Compare.{lex}
use dnsdata_go.Text.{
  drop_spaces, is_space, Unicode, is_ascii, to_lower, trim_dot, split_dots, lower_octet, trim_space,
  join_dots, equal_fold,
}
use dnsdata_go.Zone.Canonical.{
  canonical_labels, labels_of_text, compare_canonical_names, equal_canonical_names,
}
use dnsdata_go.Dnssec.Nsec.{matches_name, proves_no_data, covers_type, covers_name}
use dnsdata_go.Dnssec.Chain.{links, owned}
use dnsdata_go.Verifier.Names.{
  longest_common_ancestor, canon_labels_trim, label_count_trim, matched_labels, better_ancestor,
  dotted, is_strict_subdomain, closest_encloser_nsec, wildcard_at,
}
use dnsdata_go.Verifier.Names.Lower.{IsLowerLabel}
use dnsdata_go.Verifier.Names.Ancestors.{Suffix, is_strict_subdomain_iff}
use dnsdata_go.Verifier.Names.Derived.{closest_encloser_nsec_lem}
use dnsdata_go.Verifier.Denial.Complete.{NxDenies, nx_domain_iff}
use dnsdata_go.Verifier.Denial.Sound.{
  In, link_of, IsCovering, HasWithout, nx_domain_sound, no_data_sound,
}
use dnsdata_go.Verifier.Denial.{
  find_nsec, covers_q, matches_without, nx_domain_covered, prove_nx_domain_with_nsec,
  prove_no_data_with_nsec, nsec_denies_wildcard, nsec_without_type, ZoneView, NsecCandidate, Reason,
}

instance abbrev plain : Unicode
plain = record { lower = λ s. s; upper = λ s. s; same_fold = λ a b. false; trim = λ s. s }

abbrev a_label : Bytes
a_label = b'a' ∷ []

abbrev b_label : Bytes
b_label = b'b' ∷ []

abbrev org : Bytes
org = b'o' ∷ b'r' ∷ b'g' ∷ []

a_lower : IsLowerLabel a_label
a_lower = ground arith

b_lower : IsLowerLabel b_label
b_lower = ground arith

org_lower : IsLowerLabel org
org_lower = ground arith

-- "a." and "org." share no label.
abbrev only_root : Suffix (a_label ∷ []) (org ∷ [])
only_root = record {
  front_x = a_label ∷ [];
  front_y = org ∷ [];
  common = [];
  split_x = refl;
  split_y = refl;
  differ = λ e. omega (arith, ap length e);
}

closest_encloser_nsec_lem_example :
    closest_encloser_nsec (dotted (a_label ∷ [])) (dotted (org ∷ [])) (dotted (org ∷ [])) ≡ []
closest_encloser_nsec_lem_example =
    closest_encloser_nsec_lem (a_label ∷ []) (org ∷ []) (org ∷ []) only_root only_root (a_lower, tt)
      (org_lower, tt) (org_lower, tt)

a_not_below : is_strict_subdomain (dotted (a_label ∷ [])) (dotted (org ∷ [])) ≡ false
a_not_below = elim (Bool-cases (is_strict_subdomain (dotted (a_label ∷ [])) (dotted (org ∷ [])))) [
  | inl below ↦
      let parts =
        (is_strict_subdomain_iff (a_label ∷ []) (org ∷ []) (a_lower, tt) (org_lower, tt)).0 below in
      absurd (omega (arith, ap length parts.2, length-append parts.1 (org ∷ [])))
  | inr not_below ↦ not_below
]

-- The zone "org." with the name "b.org.", and queries for "c.org." and for type 16 at "b.org.".
abbrev apex : Bytes
apex = b'o' ∷ b'r' ∷ b'g' ∷ b'.' ∷ []

abbrev b_org : Bytes
b_org = b'b' ∷ b'.' ∷ apex

abbrev c_org : Bytes
c_org = b'c' ∷ b'.' ∷ apex

abbrev record_at : Bytes → Bytes → NsecCandidate
record_at name next = record {
  owner = name;
  nsec = record { next_domain = next; type_bitmap = []; covered_types = 1 ∷ 46 ∷ 47 ∷ [] };
}

abbrev zone_view : ZoneView
zone_view = record {
  nsecs = record_at apex b_org ∷ record_at b_org apex ∷ [];
  nsec3s = [];
  verifies = λ name type. true;
}

increasing : compare_canonical_names apex b_org ≡ Ordering.lt
unfolding compare_canonical_names canonical_labels labels_of_text to_lower is_ascii trim_dot
    split_dots lex
increasing = refl

genuine :
    (c : NsecCandidate)
    → In c zone_view.nsecs
    → zone_view.verifies c.owner 47 ≡ true
    → In (link_of c) (links (apex ∷ b_org ∷ []) apex)
unfolding links
genuine c (inl e) v = inl (ap link_of e)
genuine c (inr (inl e)) v = inr (inl (ap link_of e))
genuine c (inr (inr m)) v = elim m [ ]

whole_chain : map link_of zone_view.nsecs ≡ links (apex ∷ b_org ∷ []) apex
unfolding links
whole_chain = refl

nx_domain_run : prove_nx_domain_with_nsec zone_view c_org ≡ some (nsec_denies_wildcard b_org apex)
unfolding prove_nx_domain_with_nsec find_nsec covers_q covers_name nx_domain_covered
    compare_canonical_names canonical_labels labels_of_text to_lower is_ascii trim_dot split_dots
    lex is_strict_subdomain canon_labels_trim trim_space drop_spaces is_space closest_encloser_nsec
    better_ancestor label_count_trim longest_common_ancestor matched_labels equal_fold equal
    equal_canonical_names dotted join_dots wildcard_at lower_octet
nx_domain_run = refl

nx_domain_sound_example :
    (c : NsecCandidate) × (owned compare_canonical_names (apex ∷ b_org ∷ []) c_org ≡ false)
    × (is_strict_subdomain c.nsec.next_domain c_org ≡ false)
    × (owned compare_canonical_names
          (apex ∷ b_org ∷ [])
          (wildcard_at (closest_encloser_nsec c_org c.owner c.nsec.next_domain))
        ≡ false)
    × IsCovering zone_view apex (b_org ∷ []) c_org c
nx_domain_sound_example =
    nx_domain_sound zone_view apex (b_org ∷ []) c_org (nsec_denies_wildcard b_org apex)
      (increasing, tt) genuine nx_domain_run

no_data_run : prove_no_data_with_nsec zone_view b_org 16 ≡ some (nsec_without_type b_org)
unfolding prove_no_data_with_nsec find_nsec matches_without matches_name equal_canonical_names
    equal_fold equal is_ascii trim_dot proves_no_data covers_type lower_octet
no_data_run = refl

no_data_sound_example :
    HasWithout zone_view b_org 16
    ⊎ ((c : NsecCandidate) × (owned compare_canonical_names (apex ∷ b_org ∷ []) b_org ≡ false)
        × IsCovering zone_view apex (b_org ∷ []) b_org c
        × ((is_strict_subdomain c.nsec.next_domain b_org ≡ true)
            ⊎ HasWithout zone_view
                (wildcard_at (closest_encloser_nsec b_org c.owner c.nsec.next_domain))
                16))
no_data_sound_example =
    no_data_sound zone_view apex (b_org ∷ []) b_org 16 (nsec_without_type b_org) (increasing, tt)
      genuine no_data_run

nx_domain_iff_example :
    ((r : Reason) × (prove_nx_domain_with_nsec zone_view c_org ≡ some r))
    ↔ ((c : NsecCandidate) × In c zone_view.nsecs × NxDenies (apex ∷ b_org ∷ []) c_org c)
nx_domain_iff_example =
    nx_domain_iff zone_view apex (b_org ∷ []) c_org (increasing, tt) whole_chain (λ c m. refl)
