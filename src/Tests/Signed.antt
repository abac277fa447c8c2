-- ===== src/Tests/Signed.antt =====
-- Signature checks at a concrete zone, with schemes that stand for the standard library's.
use dnsdata_go.Common.{
  ◌≡◌, ◌↔◌, ◌∙◌, refl, sym, ap, subst, inl, inr, true, false, [], ◌∷◌, ◌++◌, some, none, Result, ok,
  List, Bytes, ℕ, take, equal,
}
use mathlib.Core.List.{Memᴰ}
use mathlib.Core.List.Memᴰ
use dnsdata_go.Text.{Unicode}
use dnsdata_go.Types.{type_a, type_dnskey}
use dnsdata_go.Dnssec.Crypto.{DnssecError, DnsKey, Schemes, calc_key_tag, key_label}
use dnsdata_go.Dnssec.Zone.{
  mode_ksk, mode_zsk, RrSig, Handler, dnskey_handler, rrsig_handler, other_handler, ZoneRecord,
  Zone, add_trusted_key, find_rr_set, find_rrsigs, find_dns_keys,
}
use dnsdata_go.Zone.Store.{rr_set_in, all_records}
use dnsdata_go.Zone.Store.Filled.{fill}
use dnsdata_go.Dnssec.Zone.Stored.{label_of, type_of, find_rr_set_stored}
use dnsdata_go.Dnssec.Zone.Digest.{create_digest_target}
use dnsdata_go.Dnssec.Zone.Digest.Order.{SameMembers}
use dnsdata_go.Dnssec.Zone.Digest.Unordered.{IsFramed, create_digest_target_unordered}
use dnsdata_go.Dnssec.Zone.Check.{verify_rr_set, is_verified, check_rrsig, keys_for_mode}
use dnsdata_go.Dnssec.Zone.Check.Agreement.{
  check_rr_set, rr_set_verified, check_rr_set-verify_rr_set,
}
use dnsdata_go.Dnssec.Zone.Check.Verified.{IsCurrent, SignedBy, check_rrsig_iff}
use dnsdata_go.Dnssec.Zone.Check.Anchors.{SetSignedByKsk, verify_rr_set_ksk, verify_rr_set_zsk}
use dnsdata_go.Tests.Sorting.{insertion_sort, insertion_sort-Sorts}

instance abbrev no_fold : Unicode
no_fold = record { lower = λ s. s; upper = λ s. s; same_fold = λ a b. false; trim = λ s. s }

-- A signature is the first two octets of what it covers.
abbrev toy : Schemes
toy = record {
  hash = λ name octets. octets;
  rsa_verify = λ n e name digest signature. false;
  ecdsa_verify = λ curve x y digest r s. false;
  ed25519_verify = λ key input signature. equal signature (take 2 input);
  sort_func = insertion_sort;
}

abbrev apex : Bytes
apex = b'e' ∷ b'.' ∷ []

abbrev eight : Bytes
eight = 1 ∷ 2 ∷ 3 ∷ 4 ∷ 5 ∷ 6 ∷ 7 ∷ 8 ∷ []

abbrev key : DnsKey
key = record {
  owner = some apex;
  flags = 257;
  protocol = 3;
  algorithm = 15;
  key_data = eight ++ eight ++ eight ++ eight;
}

abbrev signature_over : ℕ → RrSig
signature_over rr_type = record {
  type_covered = rr_type;
  algorithm = 15;
  labels = 1;
  original_ttl = 60;
  expire = 9;
  inception = 5;
  key_tag = calc_key_tag key;
  signer = apex;
  signature = 0 ∷ rr_type ∷ [];
}

abbrev record_at : ℕ → Handler → Bytes → ZoneRecord
record_at rr_type handler body = record {
  label = apex;
  class = 1;
  rr_type = rr_type;
  ttl = 60;
  value = [];
  handler = handler;
  body = ok body;
}

abbrev first_address : ZoneRecord
first_address = record_at 1 other_handler (0 ∷ 4 ∷ 10 ∷ 0 ∷ 0 ∷ 1 ∷ [])

abbrev second_address : ZoneRecord
second_address = record_at 1 other_handler (0 ∷ 4 ∷ 10 ∷ 0 ∷ 0 ∷ 2 ∷ [])

abbrev others : List ZoneRecord
others =
    record_at 48 (dnskey_handler key) (0 ∷ 1 ∷ 7 ∷ [])
    ∷ record_at 46 (rrsig_handler (signature_over 1)) (0 ∷ 0 ∷ [])
    ∷ record_at 46 (rrsig_handler (signature_over 48)) (0 ∷ 0 ∷ [])
    ∷ []

abbrev zone_of : List ZoneRecord → Zone
zone_of addresses = record {
  records = addresses ++ others;
  trusted = key ∷ [];
  parent = none;
  now = some 7;
}

abbrev signed_zone : Zone
signed_zone = zone_of (first_address ∷ second_address ∷ [])

abbrev shuffled : Zone
shuffled = zone_of (second_address ∷ first_address ∷ second_address ∷ [])

IsFramed-body :
    (a : Bytes)
    → IsFramed a
    → (r : Result DnssecError Bytes) → r ≡ ok a
    → (b : Bytes) → r ≡ ok b
    → IsFramed b
IsFramed-body a f r e b g = let h : a ≡ b = cc in subst IsFramed h f

runs :
    (verify_rr_set toy signed_zone apex type_dnskey mode_ksk [] ≡ (true, none))
    × (verify_rr_set toy signed_zone apex type_a mode_zsk [] ≡ (true, none))
    × (verify_rr_set toy shuffled apex type_a mode_zsk [] ≡ (true, none))
unfolding find_rrsigs find_rr_set equal find_dns_keys calc_key_tag create_digest_target
    verify_rr_set is_verified keys_for_mode insertion_sort dnsdata_go.Tests.Sorting.insert
    dnsdata_go.Dnssec.Zone.validity_status dnsdata_go.Dnssec.Zone.is_trusted_key
    dnsdata_go.Dnssec.Zone.same_key dnsdata_go.Zone.Canonical.equal_canonical_names
    dnsdata_go.Text.equal_fold dnsdata_go.Text.is_ascii dnsdata_go.Text.trim_dot
    dnsdata_go.Wire.Name.domain_name_to_wire dnsdata_go.Wire.Name.encode_name
    dnsdata_go.Wire.Name.encode_from dnsdata_go.Zone.Canonical.label_count
    dnsdata_go.Common.Compare.lex dnsdata_go.Dnssec.Crypto.add_pairs
    dnsdata_go.Dnssec.Crypto.public_key dnsdata_go.Dnssec.Crypto.verify
    dnsdata_go.Dnssec.Crypto.verify_under dnsdata_go.Dnssec.Zone.Check.check_target
    dnsdata_go.Dnssec.Zone.Check.check_with dnsdata_go.Dnssec.Zone.Check.filter_from
    dnsdata_go.Dnssec.Zone.Check.filter_keys dnsdata_go.Dnssec.Zone.Check.ksk_keys
    dnsdata_go.Dnssec.Zone.Check.succeeded dnsdata_go.Dnssec.Zone.Check.verify_keys
    dnsdata_go.Dnssec.Zone.Check.verify_ksk dnsdata_go.Dnssec.Zone.Check.verify_set_with
    dnsdata_go.Dnssec.Zone.Check.verify_sigs dnsdata_go.Dnssec.Zone.Check.verify_status
    dnsdata_go.Dnssec.Zone.Check.verify_with_any dnsdata_go.Dnssec.Zone.Check.verify_zsk
    dnsdata_go.Dnssec.Zone.Check.when_valid dnsdata_go.Dnssec.Zone.Digest.append_records
    dnsdata_go.Dnssec.Zone.Digest.assemble dnsdata_go.Dnssec.Zone.Digest.canonical_bodies
    dnsdata_go.Dnssec.Zone.Digest.collect_bodies dnsdata_go.Dnssec.Zone.Digest.compact_bodies
    dnsdata_go.Dnssec.Zone.Digest.digest_owner dnsdata_go.Dnssec.Zone.Digest.digest_target_of
    dnsdata_go.Dnssec.Zone.Digest.encode_record dnsdata_go.Dnssec.Zone.Digest.rdata_digest_target
    dnsdata_go.Dnssec.Zone.Digest.wire_header_for_owner dnsdata_go.Dnssec.Zone.covering_sigs
    dnsdata_go.Dnssec.Zone.keys_with dnsdata_go.Text.extend_first dnsdata_go.Text.lower_octet
    dnsdata_go.Text.split_dots dnsdata_go.Text.to_lower dnsdata_go.Wire.Name.after_dot
    dnsdata_go.Wire.Name.ascii_to_lower dnsdata_go.Wire.Name.put_label
    dnsdata_go.Zone.Canonical.canonical_labels dnsdata_go.Zone.Canonical.labels_of_text
runs = (refl, refl, refl)

check_rr_set-verify_rr_set_example :
    rr_set_verified (check_rr_set toy signed_zone apex type_a mode_zsk [])
    ≡ verify_rr_set toy signed_zone apex type_a mode_zsk []
check_rr_set-verify_rr_set_example =
    check_rr_set-verify_rr_set toy signed_zone apex type_a mode_zsk []

verify_rr_set_ksk_example : SetSignedByKsk toy signed_zone apex type_dnskey []
verify_rr_set_ksk_example =
    verify_rr_set_ksk toy signed_zone apex type_dnskey [] (ap (λ r. r.0) (runs.0))

verify_rr_set_zsk_example :
    (s : RrSig) × (k : DnsKey) × (first : DnsKey) × Memᴰ s (find_rrsigs signed_zone apex type_a [])
    × IsCurrent signed_zone s
    × SignedBy toy
        (find_dns_keys signed_zone s.signer s.key_tag s.algorithm)
        s
        (create_digest_target toy signed_zone s apex type_a)
        k
    × Memᴰ first (find_dns_keys signed_zone s.signer s.key_tag s.algorithm)
    × SetSignedByKsk toy signed_zone (key_label first) type_dnskey []
verify_rr_set_zsk_example =
    verify_rr_set_zsk toy signed_zone apex type_a [] (ap (λ r. r.0) (runs.1))

check_rrsig_iff_example :
    (is_verified ((check_rrsig toy signed_zone apex type_a (signature_over 1) mode_zsk).0) ≡ true)
    ↔ (IsCurrent signed_zone (signature_over 1)
        × ((k : DnsKey) × SignedBy toy
              ((keys_for_mode toy signed_zone mode_zsk (
                find_dns_keys signed_zone
                  (signature_over 1).signer
                  (signature_over 1).key_tag
                  (signature_over 1).algorithm)).0)
              (signature_over 1)
              (create_digest_target toy signed_zone (signature_over 1) apex type_a)
              k))
check_rrsig_iff_example = check_rrsig_iff toy signed_zone apex type_a (signature_over 1) mode_zsk

same_addresses :
    SameMembers
      (find_rr_set signed_zone.records apex type_a)
      (find_rr_set shuffled.records apex type_a)
unfolding find_rr_set equal
same_addresses r = (
  λ m. elim (Memᴰ.cases_cons m) [
    | inl e ↦ Memᴰ.tail (Memᴰ.head e)
    | inr i ↦ Memᴰ.head (Memᴰ.eq_of_singleton i)
  ],
  λ m. elim (Memᴰ.cases_cons m) [ inl e ↦ Memᴰ.tail (Memᴰ.head e) | inr i ↦ i ],
)

uniform_addresses :
    (r : ZoneRecord)
    → Memᴰ r (find_rr_set signed_zone.records apex type_a)
    → (r.class ≡ 1) × ((b : Bytes) → r.body ≡ ok b → IsFramed b)
unfolding find_rr_set equal
uniform_addresses r m = elim (Memᴰ.cases_cons m) [
  | inl e ↦ (ap (λ x. x.class) e, IsFramed-body _ refl r.body (ap (λ x. x.body) e))
  | inr i ↦
      let e = Memᴰ.eq_of_singleton i in
      (ap (λ x. x.class) e, IsFramed-body _ refl r.body (ap (λ x. x.body) e))
]

create_digest_target_unordered_example :
    create_digest_target toy signed_zone (signature_over 1) apex type_a
    ≡ create_digest_target toy shuffled (signature_over 1) apex type_a
create_digest_target_unordered_example =
    create_digest_target_unordered toy insertion_sort-Sorts (signature_over 1) signed_zone shuffled
      apex type_a 1 same_addresses uniform_addresses

find_rr_set_stored_example :
    ((name : Bytes) (typ : ℕ)
      → rr_set_in (fill label_of type_of [] signed_zone.records) name typ
        ≡ find_rr_set signed_zone.records name typ)
    × ((r : ZoneRecord)
        → Memᴰ r (all_records (fill label_of type_of [] signed_zone.records))
          ↔ Memᴰ r signed_zone.records)
find_rr_set_stored_example = find_rr_set_stored signed_zone.records
