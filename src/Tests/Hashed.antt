-- ===== src/Tests/Hashed.antt =====
-- A proof over two NSEC3 records, with the length of the hashed octets in place of SHA-1.
use dnsdata_go.Common.{
  ℕ, ◌≡◌, refl, ap, inl, inr, true, false, [], ◌∷◌, some, Bytes, Ordering, length, equal,
}
use dnsdata_go.Common.Compare.{lex}
use dnsdata_go.Text.{
  Unicode, is_ascii, to_lower, lower_octet, trim_space, drop_spaces, is_space, trim_dot, split_dots,
  join_dots, equal_fold, extend_first,
}
use dnsdata_go.Zone.Canonical.{compare_bytes, equal_canonical_names}
use dnsdata_go.Wire.Name.{
  domain_name_to_wire, encode_name, encode_from, put_label, after_dot, ascii_to_lower,
}
use dnsdata_go.Dnssec.Nsec.{covers_hash}
use dnsdata_go.Dnssec.Hash.{compute_nsec3_hash, rehash}
use dnsdata_go.Dnssec.Chain.{links}
use dnsdata_go.Verifier.Names.{
  wildcard_at, next_closer_name, next_closer_in, ancestors_of, suffix_names, dotted,
}
use dnsdata_go.Verifier.Denial.{Nsec3Candidate, ZoneView, find_nsec3, nsec3_denies_wildcard}
use dnsdata_go.Verifier.Denial.Sound.{In}
use dnsdata_go.Verifier.Denial.Hashed.{
  closest_encloser_proof_nsec3, prove_nx_domain_with_nsec3, hash_under, hash_matches, hash_covered,
  find_covering_nsec3, find_encloser, encloser_found,
}
use dnsdata_go.Verifier.Denial.Hashed.Sound.{
  HasHash, HasNoHash, hash_link_of, nx_domain_hashed_sound,
}

instance abbrev ascii_text : Unicode
ascii_text = record { lower = λ s. s; upper = λ s. s; same_fold = λ a b. false; trim = λ s. s }

abbrev count_octets : Bytes → Bytes
count_octets w = length w ∷ []

abbrev hashed : ℕ → ℕ → Nsec3Candidate
hashed h next = record {
  owner = h ∷ [];
  owner_hash = h ∷ [];
  h = record {
    hash_algorithm = 1;
    flags = 0;
    iterations = 0;
    salt = [];
    next_hashed_owner = next ∷ [];
    type_bitmap = [];
    covered_types = [];
  };
}

-- "org." has hash 5, another name 9.
abbrev two_hashes : ZoneView
two_hashes = record {
  nsecs = [];
  nsec3s = hashed 5 9 ∷ hashed 9 5 ∷ [];
  verifies = λ name type. true;
}

abbrev c_dot_org : Bytes
c_dot_org = b'c' ∷ b'.' ∷ b'o' ∷ b'r' ∷ b'g' ∷ b'.' ∷ []

hashed_run :
    prove_nx_domain_with_nsec3 count_octets two_hashes c_dot_org
    ≡ some (nsec3_denies_wildcard (5 ∷ []) (5 ∷ []) (5 ∷ []))
unfolding prove_nx_domain_with_nsec3 closest_encloser_proof_nsec3 hash_under hash_matches
    hash_covered find_covering_nsec3 find_encloser encloser_found find_nsec3 covers_hash
    compute_nsec3_hash rehash domain_name_to_wire encode_name encode_from put_label after_dot
    ascii_to_lower next_closer_name next_closer_in ancestors_of suffix_names dotted wildcard_at
    is_ascii to_lower lower_octet trim_space drop_spaces is_space trim_dot split_dots join_dots
    equal_fold extend_first equal equal_canonical_names lex
hashed_run = refl

hashes_increase : compare_bytes (5 ∷ []) (9 ∷ []) ≡ Ordering.lt
unfolding lex
hashes_increase = refl

hashed_genuine :
    (c : Nsec3Candidate)
    → In c two_hashes.nsec3s
    → two_hashes.verifies c.owner 50 ≡ true
    → In (hash_link_of count_octets c) (links ((5 ∷ []) ∷ (9 ∷ []) ∷ []) (5 ∷ []))
unfolding links
hashed_genuine c (inl e) v = inl (ap (hash_link_of count_octets) e)
hashed_genuine c (inr (inl e)) v = inr (inl (ap (hash_link_of count_octets) e))
hashed_genuine c (inr (inr m)) v = elim m [ ]

nx_domain_hashed_sound_example :
    (ce : Bytes) × In ce (ancestors_of c_dot_org)
    × (equal_canonical_names ce c_dot_org ≡ false)
    × HasHash count_octets two_hashes (5 ∷ []) ((9 ∷ []) ∷ []) ce
    × HasNoHash count_octets two_hashes (5 ∷ []) ((9 ∷ []) ∷ []) (next_closer_name c_dot_org ce)
    × HasNoHash count_octets two_hashes (5 ∷ []) ((9 ∷ []) ∷ []) (wildcard_at ce)
nx_domain_hashed_sound_example =
    nx_domain_hashed_sound count_octets two_hashes (5 ∷ []) ((9 ∷ []) ∷ []) c_dot_org
      (nsec3_denies_wildcard (5 ∷ []) (5 ∷ []) (5 ∷ [])) (hashes_increase, tt) hashed_genuine
      hashed_run
