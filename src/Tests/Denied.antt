-- ===== src/Tests/Denied.antt =====
-- An authority for `org.`, which has the name `b.org.`, and a query for `c.org.`
use dnsdata_go.Common.{◌≡◌, refl, false, List, [], ◌∷◌, map, Bytes, ok, equal, Ordering}
use dnsdata_go.Common.Compare.{lex}
use dnsdata_go.Text.{join_dots, Unicode, is_ascii, to_lower, trim_space, trim_dot, split_dots}
use dnsdata_go.Zone.Canonical.{canonical_labels, labels_of_text, compare_canonical_names}
use dnsdata_go.Dnssec.Chain.{links, owned}
use dnsdata_go.Dnssec.Zone.{ZoneRecord, nsec_handler}
use dnsdata_go.Verifier.Names.{with_dot, suffix_names, dotted}
use dnsdata_go.Resolver.Memory.{
  ZoneIndex, normalize, is_at_or_below, is_among, parents, cut_above, dname_in_parents, records_at,
  wildcard_of_name, closest_encloser,
}
use dnsdata_go.Resolver.Memory.Index.{empty_zone, new_zone_index}
use dnsdata_go.Resolver.Memory.Replies.{answer}
use dnsdata_go.Resolver.Memory.Indexed.{IsIndexed, new_zone_index-IsIndexed}
use dnsdata_go.Resolver.Memory.Denies.{entry_link, IsDenied, answer-IsDenied}

instance abbrev plain_text : Unicode
plain_text = record { lower = λ s. s; upper = λ s. s; same_fold = λ a b. false; trim = λ s. s }

abbrev apex : Bytes
apex = b'o' ∷ b'r' ∷ b'g' ∷ b'.' ∷ []

abbrev b_name : Bytes
b_name = b'b' ∷ b'.' ∷ apex

abbrev c_name : Bytes
c_name = b'c' ∷ b'.' ∷ apex

abbrev nsec_of : Bytes → Bytes → ZoneRecord
nsec_of owner next = record {
  label = owner;
  class = 1;
  rr_type = 47;
  ttl = 60;
  value = next;
  handler = nsec_handler (record { next_domain = next; type_bitmap = []; covered_types = [] });
  body = ok [];
}

abbrev org_records : List ZoneRecord
org_records = nsec_of apex b_name ∷ nsec_of b_name apex ∷ []

abbrev org_index : ZoneIndex
org_index = record (empty_zone apex) {
  by_name = (apex, nsec_of apex b_name ∷ []) ∷ (b_name, nsec_of b_name apex ∷ []) ∷ [];
  existing_names = b_name ∷ apex ∷ [];
  nsecs =
      record {
        owner = apex;
        nsec = record { next_domain = b_name; type_bitmap = []; covered_types = [] };
      }
      ∷ record {
        owner = b_name;
        nsec = record { next_domain = apex; type_bitmap = []; covered_types = [] };
      }
      ∷ [];
}

org_zone : new_zone_index apex org_records ≡ ok org_index
unfolding new_zone_index is_at_or_below labels_of_text trim_dot normalize with_dot to_lower is_ascii
    trim_space split_dots is_among equal parents suffix_names dotted join_dots
org_zone = refl

new_zone_index-IsIndexed_example : IsIndexed org_index
new_zone_index-IsIndexed_example = new_zone_index-IsIndexed apex org_records org_index org_zone

in_order : compare_canonical_names apex b_name ≡ Ordering.lt
unfolding compare_canonical_names canonical_labels labels_of_text to_lower is_ascii trim_dot
    split_dots lex
in_order = refl

chain_of_org : map entry_link org_index.nsecs ≡ links (apex ∷ b_name ∷ []) apex
unfolding links
chain_of_org = refl

-- Of the queries for `c.org.`
no_cut : cut_above org_index c_name ≡ []
unfolding cut_above
no_cut = refl

no_records : records_at org_index.by_name c_name ≡ []
unfolding records_at equal
no_records = refl

not_there : is_among c_name org_index.existing_names ≡ false
unfolding is_among equal
not_there = refl

no_dname : dname_in_parents org_index 39 (parents c_name) ≡ []
unfolding dname_in_parents parents suffix_names labels_of_text trim_dot split_dots is_at_or_below
    equal dotted join_dots
no_dname = refl

no_wildcard :
    records_at org_index.by_name (wildcard_of_name (closest_encloser org_index c_name)) ≡ []
unfolding records_at equal wildcard_of_name closest_encloser parents suffix_names labels_of_text
    trim_dot split_dots is_among dotted join_dots
no_wildcard = refl

no_owner : owned compare_canonical_names (apex ∷ b_name ∷ []) c_name ≡ false
unfolding compare_canonical_names canonical_labels labels_of_text to_lower is_ascii trim_dot
    split_dots lex
no_owner = refl

wildcard_no_owner :
    owned compare_canonical_names
      (apex ∷ b_name ∷ [])
      (wildcard_of_name (closest_encloser org_index c_name))
    ≡ false
unfolding compare_canonical_names canonical_labels labels_of_text to_lower is_ascii trim_dot
    split_dots lex equal wildcard_of_name closest_encloser parents suffix_names is_among dotted
    join_dots
wildcard_no_owner = refl

answer-IsDenied_example :
    ((answer (λ s. s) org_index c_name 1).rcode ≡ 3)
    × IsDenied org_records (answer (λ s. s) org_index c_name 1).records c_name
    × IsDenied org_records
        (answer (λ s. s) org_index c_name 1).records
        (wildcard_of_name (closest_encloser org_index c_name))
answer-IsDenied_example =
    answer-IsDenied apex org_records org_index (λ s. s) c_name 1 apex (b_name ∷ []) org_zone refl
      chain_of_org (in_order, tt) no_cut no_records not_there no_dname no_wildcard no_owner
      wildcard_no_owner
