-- ===== src/Tests/Authorities.antt =====
-- An authority for the root and for the zone `a.`, and a zone with a wildcard.
use dnsdata_go.Common.{◌≡◌, ◌≤◌, inl, refl, List, [], ◌∷◌, some, equal}
use dnsdata_go.Common.{ok, All}
use dnsdata_go.Common.{false}
use mathlib.Core.List.{Memᴰ}
use dnsdata_go.Text.{to_lower, is_ascii, trim_space}
use dnsdata_go.Verifier.Names.{with_dot, suffix_names}
use dnsdata_go.Resolver.Memory.{
  normalize, is_among, parents, cut_above, dname_in_parents, wildcard_of_name, closest_encloser,
  covering_nsec,
}
use dnsdata_go.Text.{Unicode, trim_dot, split_dots}
use dnsdata_go.Zone.Canonical.{labels_of_text}
use dnsdata_go.Dnssec.Zone.{ZoneRecord, other_handler}
use dnsdata_go.Resolver.Memory.{copy_as, ZoneIndex, labels, is_at_or_below}
use dnsdata_go.Resolver.Memory.Index.{empty_zone, new_zone_index}
use dnsdata_go.Resolver.Memory.Authority.{is_eligible, is_deeper, deepest_in, zone_for}
use dnsdata_go.Resolver.Memory.Replies.{answer}
use dnsdata_go.Resolver.Memory.Served.{IsServed, answer-IsServed}
use dnsdata_go.Resolver.Memory.Deepest.{depth, MayAnswer, zone_for_deepest}

abbrev root_index : ZoneIndex
root_index = empty_zone (b'.' ∷ [])

abbrev child_index : ZoneIndex
child_index = empty_zone (b'a' ∷ b'.' ∷ [])

abbrev two_zones : List ZoneIndex
two_zones = root_index ∷ child_index ∷ []

-- The address of `b.a.`
zone_for_child : zone_for two_zones (b'b' ∷ b'.' ∷ b'a' ∷ b'.' ∷ []) 1 ≡ some child_index
unfolding zone_for deepest_in is_eligible is_deeper is_at_or_below labels labels_of_text trim_dot
    split_dots equal
zone_for_child = refl

-- The DS records of `a.` stand in the root.
zone_for_ds : zone_for two_zones (b'a' ∷ b'.' ∷ []) 43 ≡ some root_index
unfolding zone_for deepest_in is_eligible is_deeper is_at_or_below labels labels_of_text trim_dot
    split_dots equal
zone_for_ds = refl

root_may : MayAnswer (b'b' ∷ b'.' ∷ b'a' ∷ b'.' ∷ []) 1 root_index
unfolding labels labels_of_text trim_dot split_dots
root_may = (((b'b' ∷ []) ∷ (b'a' ∷ []) ∷ [], refl), inl (λ e. cc))

zone_for_deepest_example :
    (b : ZoneIndex) × (zone_for two_zones (b'b' ∷ b'.' ∷ b'a' ∷ b'.' ∷ []) 1 ≡ some b)
    × Memᴰ b two_zones
    × MayAnswer (b'b' ∷ b'.' ∷ b'a' ∷ b'.' ∷ []) 1 b
    × (depth root_index ≤ depth b)
zone_for_deepest_example =
    zone_for_deepest (b'b' ∷ b'.' ∷ b'a' ∷ b'.' ∷ []) 1 two_zones root_index (Memᴰ.head refl)
      root_may

instance abbrev ascii_names : Unicode
ascii_names = record { lower = λ s. s; upper = λ s. s; same_fold = λ a b. false; trim = λ s. s }

-- A wildcard at the root.
abbrev wildcard_record : ZoneRecord
wildcard_record = record {
  label = b'*' ∷ b'.' ∷ [];
  class = 1;
  rr_type = 1;
  ttl = 60;
  value = b'7' ∷ [];
  handler = other_handler;
  body = ok [];
}

abbrev wildcard_index : ZoneIndex
wildcard_index = record (empty_zone (b'.' ∷ [])) {
  by_name = (b'*' ∷ b'.' ∷ [], wildcard_record ∷ []) ∷ [];
  existing_names = (b'.' ∷ []) ∷ (b'*' ∷ b'.' ∷ []) ∷ [];
}

wildcard_zone : new_zone_index (b'.' ∷ []) (wildcard_record ∷ []) ≡ ok wildcard_index
unfolding new_zone_index is_at_or_below labels_of_text trim_dot normalize with_dot to_lower is_ascii
    trim_space split_dots is_among equal parents suffix_names
wildcard_zone = refl

-- The wildcard answers for `a.`
wildcard_answer :
    (answer (λ s. s) wildcard_index (b'a' ∷ b'.' ∷ []) 1).records
    ≡ copy_as wildcard_record (b'a' ∷ b'.' ∷ []) ∷ []
unfolding answer equal cut_above is_among dname_in_parents parents suffix_names labels_of_text
    trim_dot split_dots wildcard_of_name closest_encloser covering_nsec copy_as
wildcard_answer = refl

answer-IsServed_example :
    All
      (IsServed (wildcard_record ∷ []) (b'a' ∷ b'.' ∷ []))
      (answer (λ s. s) wildcard_index (b'a' ∷ b'.' ∷ []) 1).records
answer-IsServed_example =
    answer-IsServed (λ s. s) (b'.' ∷ []) (wildcard_record ∷ []) wildcard_index (b'a' ∷ b'.' ∷ []) 1
      wildcard_zone
