-- ===== src/Tests/Chained.antt =====
-- An authority for `org.` with one NSEC3 record. The hash of a name is the length of its wire form.
use dnsdata_go.Common.{◌≡◌, ◌⊎◌, refl, true, false, [], ◌∷◌, map, some, length, Bytes, ok, equal}
use dnsdata_go.Text.{
  Unicode, to_upper, is_ascii, to_lower, trim_space, trim_dot, split_dots, lower_octet, join_dots,
}
use dnsdata_go.Zone.Canonical.{labels_of_text, compare_bytes}
use dnsdata_go.Dnssec.Base32.{owner_hash_from_name}
use dnsdata_go.Dnssec.Hash.{rehash, compute_nsec3_hash}
use dnsdata_go.Dnssec.Nsec.{Nsec3, covers_hash}
use dnsdata_go.Dnssec.Chain.{links, owned}
use dnsdata_go.Dnssec.Zone.{ZoneRecord, nsec3_handler}
use dnsdata_go.Verifier.Names.{with_dot, suffix_names, dotted}
use dnsdata_go.Wire.Name.{encode_name, encode_from, put_label, after_dot, domain_name_to_wire}
use dnsdata_go.Resolver.Memory.{ZoneIndex, normalize, is_at_or_below, is_among, parents}
use dnsdata_go.Resolver.Memory.Index.{empty_zone, new_zone_index, chain_hash, matching, covering}
use dnsdata_go.Resolver.Memory.Replies.{nsec3_at}
use dnsdata_go.Resolver.Memory.Hashed.{HasNsec3, hash_link_of, nsec3_found}

instance abbrev ascii_labels : Unicode
ascii_labels = record { lower = λ s. s; upper = λ s. s; same_fold = λ a b. false; trim = λ s. s }

abbrev wire_length : Bytes → Bytes
wire_length s = length s ∷ []

abbrev org_name : Bytes
org_name = b'o' ∷ b'r' ∷ b'g' ∷ b'.' ∷ []

-- The octet 5 in base32hex.
abbrev hashed_owner : Bytes
hashed_owner = b'0' ∷ b'k' ∷ b'.' ∷ org_name

abbrev only_nsec3 : Nsec3
only_nsec3 = record {
  hash_algorithm = 1;
  flags = 0;
  iterations = 0;
  salt = [];
  next_hashed_owner = 5 ∷ [];
  type_bitmap = [];
  covered_types = [];
}

abbrev nsec3_record : ZoneRecord
nsec3_record = record {
  label = hashed_owner;
  class = 1;
  rr_type = 50;
  ttl = 60;
  value = [];
  handler = nsec3_handler only_nsec3;
  body = ok [];
}

abbrev hashed_index : ZoneIndex
hashed_index = record (empty_zone org_name) {
  by_name = (hashed_owner, nsec3_record ∷ []) ∷ [];
  existing_names = org_name ∷ hashed_owner ∷ [];
  nsec3s = record { owner = hashed_owner; hash = 5 ∷ []; nsec3 = only_nsec3 } ∷ [];
}

hashed_zone : new_zone_index org_name (nsec3_record ∷ []) ≡ ok hashed_index
unfolding new_zone_index is_at_or_below labels_of_text trim_dot normalize with_dot to_lower is_ascii
    trim_space split_dots is_among equal parents suffix_names dotted join_dots owner_hash_from_name
    to_upper
hashed_zone = refl

-- The wire form of `b.org.` has seven octets.
name_hash : chain_hash wire_length hashed_index.nsec3s (b'b' ∷ b'.' ∷ org_name) ≡ some (7 ∷ [])
unfolding chain_hash compute_nsec3_hash domain_name_to_wire to_lower is_ascii lower_octet
    encode_name encode_from put_label after_dot rehash
name_hash = refl

one_link : map hash_link_of hashed_index.nsec3s ≡ links ((5 ∷ []) ∷ []) (5 ∷ [])
unfolding links
one_link = refl

nsec3_found_example :
    ((owned compare_bytes ((5 ∷ []) ∷ []) (7 ∷ []) ≡ true)
      × HasNsec3
          (λ n hash. hash ≡ 7 ∷ [])
          (nsec3_record ∷ [])
          (nsec3_at hashed_index
            (matching wire_length hashed_index.nsec3s (b'b' ∷ b'.' ∷ org_name))))
    ⊎ ((owned compare_bytes ((5 ∷ []) ∷ []) (7 ∷ []) ≡ false)
        × HasNsec3
            (λ n hash. covers_hash n hash (7 ∷ []) ≡ true)
            (nsec3_record ∷ [])
            (nsec3_at hashed_index
              (covering wire_length hashed_index.nsec3s (b'b' ∷ b'.' ∷ org_name))))
nsec3_found_example =
    nsec3_found org_name (nsec3_record ∷ []) hashed_index hashed_zone wire_length
      (b'b' ∷ b'.' ∷ org_name) (7 ∷ []) (5 ∷ []) [] name_hash one_link tt
