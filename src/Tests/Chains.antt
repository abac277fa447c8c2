-- ===== src/Tests/Chains.antt =====
-- A Validate from a root zone with one key, which signs an address.
use dnsdata_go.Common.{
  ℕ, ◌≡◌, ◌⊎◌, refl, ap, true, false, List, [], ◌∷◌, ◌++◌, Option, some, none, Result, ok, err,
  Bytes, equal, ◌==◌, if◌then◌else◌, take,
}
use dnsdata_go.Text.{Unicode}
use dnsdata_go.Types.{type_a, type_dnskey}
use dnsdata_go.Dnssec.Crypto.{DnsKey, Schemes, calc_key_tag}
use mathlib.Core.List.{Memᴰ}
use dnsdata_go.Zone.Canonical.{equal_canonical_names}
use dnsdata_go.Dnssec.Zone.{
  mode_none, mode_ksk, RrSig, Handler, dnskey_handler, rrsig_handler, ds_handler, other_handler,
  ZoneRecord, Zone, find_rrsigs, find_dns_keys,
}
use dnsdata_go.Dnssec.Zone.Digest.{create_digest_target}
use dnsdata_go.Dnssec.Zone.Check.{verify_rr_set}
use dnsdata_go.Dnssec.Zone.Check.Verified.{SignedBy}
use dnsdata_go.Dnssec.Zone.Check.Anchors.{verify_rr_set_ksk}
use dnsdata_go.Verifier.Verdict.{Verdict, secure, indeterminate}
use dnsdata_go.Verifier.Names.{root_name, normalize_q_name}
use dnsdata_go.Verifier.Walk.{walk_start}
use dnsdata_go.Verifier.Walk.Verdicts.{GaveUp}
use dnsdata_go.Verifier.Walk.Visited.{WalksOnce}
use dnsdata_go.Verifier.Chain.{ChainError, Reply, answered, AnchorDs, Setting, Run, Chained}
use dnsdata_go.Verifier.Chain.Keys.{anchor_set}
use dnsdata_go.Verifier.Chain.Leaf.{Outcome, plain_outcome}
use dnsdata_go.Verifier.Chain.Hop.{validate_one_hop, chain_hops, empty_session, validate_name}
use dnsdata_go.Verifier.Chain.Trust.{
  add_records, anchors_of, MatchEach, IsDnskeyAnswer, verify_rr_set-SignedInside, Trusted,
  root_trusted, more_trusted,
}
use dnsdata_go.Verifier.Chain.Trust.Answered.{Backed}
use dnsdata_go.Verifier.Chain.Trust.Walked.{
  IsBackedBy, validate_one_hop-Backed, validate_name_backed, validate_name_once,
}
use dnsdata_go.Verifier.Chain.Trust.Signers.{AuthenticatedKeys, Trusted-signer}
use dnsdata_go.Tests.Sorting.{insertion_sort}

instance abbrev plain_ascii : Unicode
plain_ascii = record { lower = λ s. s; upper = λ s. s; same_fold = λ a b. false; trim = λ s. s }

-- A signature is the first two octets of what it covers, and each digest is the octet 7.
abbrev toy_schemes : Schemes
toy_schemes = record {
  hash = λ name octets. 7 ∷ [];
  rsa_verify = λ n e name digest signature. false;
  ecdsa_verify = λ curve x y digest r s. false;
  ed25519_verify = λ key input signature. equal signature (take 2 input);
  sort_func = insertion_sort;
}

abbrev a_name : Bytes
a_name = b'a' ∷ b'.' ∷ []

abbrev eight_octets : ℕ → Bytes
eight_octets c = c ∷ c ∷ c ∷ c ∷ c ∷ c ∷ c ∷ c ∷ []

abbrev key_of : Bytes → ℕ → DnsKey
key_of owner c = record {
  owner = some owner;
  flags = 257;
  protocol = 3;
  algorithm = 15;
  key_data = eight_octets c ++ eight_octets c ++ eight_octets c ++ eight_octets c;
}

abbrev root_key : DnsKey
root_key = key_of root_name 1

abbrev signed_by : DnsKey → Bytes → ℕ → ℕ → RrSig
signed_by k signer labels rr_type = record {
  type_covered = rr_type;
  algorithm = 15;
  labels = labels;
  original_ttl = 60;
  expire = 9;
  inception = 5;
  key_tag = calc_key_tag k;
  signer = signer;
  signature = 0 ∷ rr_type ∷ [];
}

abbrev record_of : Bytes → ℕ → Handler → Bytes → ZoneRecord
record_of label rr_type handler body = record {
  label = label;
  class = 1;
  rr_type = rr_type;
  ttl = 60;
  value = [];
  handler = handler;
  body = ok body;
}

abbrev signature_at : Bytes → RrSig → ZoneRecord
signature_at label sig = record_of label 46 (rrsig_handler sig) (0 ∷ 0 ∷ [])

abbrev root_keys : List ZoneRecord
root_keys =
    record_of root_name 48 (dnskey_handler root_key) (0 ∷ 1 ∷ 7 ∷ [])
    ∷ signature_at root_name (signed_by root_key root_name 0 48)
    ∷ []

abbrev child_key : DnsKey
child_key = key_of a_name 3

abbrev delegation : List ZoneRecord
delegation =
    record_of a_name 43
      (ds_handler (record {
        key_tag = calc_key_tag child_key;
        algorithm = 15;
        digest_type = 2;
        digest = 7 ∷ [];
      }))
      (0 ∷ 1 ∷ 7 ∷ [])
    ∷ signature_at a_name (signed_by root_key root_name 1 43)
    ∷ []

abbrev child_keys : List ZoneRecord
child_keys =
    record_of a_name 48 (dnskey_handler child_key) (0 ∷ 1 ∷ 7 ∷ [])
    ∷ signature_at a_name (signed_by child_key a_name 1 48)
    ∷ []

abbrev addresses : RrSig → List ZoneRecord
addresses sig =
    record_of a_name 1 other_handler (0 ∷ 4 ∷ 10 ∷ 0 ∷ 0 ∷ 1 ∷ []) ∷ signature_at a_name sig ∷ []

-- A key that no DS record and no anchor matches.
abbrev stray_key : Bytes → DnsKey
stray_key owner = key_of owner 2

abbrev stray_keys : Bytes → List ZoneRecord
stray_keys owner =
    record_of owner 48 (dnskey_handler (stray_key owner)) (0 ∷ 1 ∷ 7 ∷ [])
    ∷ signature_at owner (signed_by (stray_key owner) owner 1 48)
    ∷ []

abbrev capital_name : Bytes
capital_name = b'A' ∷ b'.' ∷ []

-- The answers for "a.": to the DS query, the DNSKEY query and the query for an address.
abbrev reply_to : List ZoneRecord → List ZoneRecord → List ZoneRecord → Bytes → ℕ → Reply
reply_to ds keys leaf name qtype =
    if qtype == 48
    then answered 0 (if equal name root_name then root_keys else keys)
    else if qtype == 43
    then answered 0 ds
    else answered 0 leaf

abbrev setting_of : List ZoneRecord → List ZoneRecord → List ZoneRecord → Setting
setting_of ds keys leaf = record {
  schemes = toy_schemes;
  sha1 = λ octets. octets;
  query = λ calls name qtype. reply_to ds keys leaf name qtype;
  is_late = λ calls. false;
  is_late_at_hop = λ hop. false;
  anchors = some (
      record {
        key_tag = calc_key_tag root_key;
        algorithm = 15;
        digest_type = 2;
        digest = b'0' ∷ b'7' ∷ [];
      }
      ∷ []);
  now = some 7;
}

-- A delegation, its keys and an address that they sign.
abbrev delegated : Setting
delegated = setting_of delegation child_keys (addresses (signed_by child_key a_name 1 1))

-- No delegation, and a key that signs itself.
abbrev self_signed : Setting
self_signed = setting_of [] (stray_keys a_name) []

-- A key beside those of the zone whose owner has a capital letter, and which signs the address.
abbrev capital_owner : Setting
capital_owner =
    setting_of delegation (child_keys ++ stray_keys capital_name)
      (addresses (signed_by (stray_key capital_name) capital_name 1 1))

-- The result that a walk for "a." starts from.
abbrev start : Run
start = (walk_start (chain_hops delegated type_a) a_name (empty_session delegated none)).result

abbrev outcome_of : Chained Outcome → Outcome
outcome_of (ok o, r) = o
outcome_of (err e, r) = plain_outcome indeterminate

abbrev one_hop : Chained Outcome
one_hop = validate_one_hop delegated type_a a_name start

abbrev result_of : Option Run → Run
result_of none = start
result_of (some r) = r

abbrev last_result : Run
last_result = result_of ((validate_name delegated a_name type_a none).0)

-- The root zone behind the answer to the query for its keys, and with an address that its key signs.
abbrev root_zone : Zone
root_zone = record { records = root_keys; trusted = root_key ∷ []; parent = none; now = some 7 }

abbrev root_with_address : Zone
root_with_address = add_records root_zone (addresses (signed_by root_key root_name 1 1))

abbrev verdict_of : Option Run → Option Verdict
verdict_of none = none
verdict_of (some r) = some r.verdict

-- The address in the delegated zone is secure; and so are a key at a name without a delegation, and an
-- address, that only a key which nothing vouches for has signed.
walk_runs :
    (verdict_of ((validate_name delegated a_name type_a none).0) ≡ some secure)
    × (verdict_of ((validate_name self_signed a_name type_dnskey none).0) ≡ some secure)
    × (verdict_of ((validate_name capital_owner a_name type_a none).0) ≡ some secure)
    × (one_hop ≡ (ok (outcome_of one_hop), one_hop.1))
    × (validate_name delegated a_name type_a none ≡ (some last_result, none))
    × MatchEach toy_schemes (anchor_set (anchors_of delegated.anchors)) (root_key ∷ [])
    × IsDnskeyAnswer root_name root_keys
    × ((verify_rr_set toy_schemes root_zone root_name type_dnskey mode_ksk []).0 ≡ true)
    × ((verify_rr_set toy_schemes root_with_address a_name type_a mode_none []).0 ≡ true)
unfolding dnsdata_go.Verifier.Chain.Hop.resolve_leaf dnsdata_go.Verifier.Chain.Hop.validate_name
    dnsdata_go.Verifier.Chain.Leaf.leaf_checked dnsdata_go.Verifier.Chain.Root.validate_root
    dnsdata_go.Verifier.Chain.Keys.match_ksk_with_ds
    dnsdata_go.Verifier.Chain.Keys.match_ksk_with_anchors
    dnsdata_go.Verifier.Chain.Loading.load_records dnsdata_go.Verifier.Chain.Descent.descend_into
    dnsdata_go.Verifier.Chain.check_set dnsdata_go.Verifier.Steps.detect_wildcard
    dnsdata_go.Verifier.Names.dotted dnsdata_go.Verifier.Names.suffix_names
    dnsdata_go.Verifier.Names.with_dot dnsdata_go.Verifier.Names.descendants
    dnsdata_go.Verifier.Names.normalize_q_name dnsdata_go.Verifier.Names.descendant_zones
    dnsdata_go.Verifier.Names.ancestors_of dnsdata_go.Verifier.Walk.is_seen
    dnsdata_go.Verifier.Walk.apply_outcome dnsdata_go.Verifier.Walk.follow
    dnsdata_go.Verifier.Walk.after_hop dnsdata_go.Verifier.Walk.walk_round
    dnsdata_go.Verifier.Walk.walk_loop dnsdata_go.Verifier.Walk.walk_start
    dnsdata_go.Verifier.Walk.validate dnsdata_go.Verifier.Denial.find_nsec
    dnsdata_go.Verifier.Denial.find_nsec3 dnsdata_go.Verifier.Denial.Hashed.prove_no_ds_with_nsec
    dnsdata_go.Verifier.Denial.Hashed.prove_no_ds_with_nsec3
    dnsdata_go.Verifier.Denial.Hashed.prove_no_ds dnsdata_go.Dnssec.Zone.find_rrsigs
    dnsdata_go.Dnssec.Zone.find_dns_keys dnsdata_go.Dnssec.Zone.validity_status
    dnsdata_go.Dnssec.Zone.same_key dnsdata_go.Dnssec.Zone.is_trusted_key
    dnsdata_go.Dnssec.Zone.add_trusted_key dnsdata_go.Dnssec.Zone.Check.check_rrsig
    dnsdata_go.Dnssec.Zone.Check.verify_rr_set dnsdata_go.Dnssec.Zone.Digest.create_digest_target
    dnsdata_go.Dnssec.Zone.Check.Agreement.rr_set_verified
    dnsdata_go.Dnssec.Zone.Check.Agreement.check_rr_set dnsdata_go.Dnssec.Crypto.public_key
    dnsdata_go.Dnssec.Crypto.verify_under dnsdata_go.Dnssec.Crypto.verify
    dnsdata_go.Dnssec.Crypto.calc_key_tag dnsdata_go.Dnssec.Crypto.ds_digest_data
    dnsdata_go.Dnssec.Crypto.ds_hash dnsdata_go.Dnssec.Crypto.verify_digest dnsdata_go.Text.is_ascii
    dnsdata_go.Text.trim_dot dnsdata_go.Text.split_dots dnsdata_go.Text.join_dots
    dnsdata_go.Text.to_lower dnsdata_go.Text.equal_fold dnsdata_go.Text.trim_space
    dnsdata_go.Zone.Canonical.labels_of_text dnsdata_go.Zone.Canonical.canonical_labels
    dnsdata_go.Zone.Canonical.equal_canonical_names dnsdata_go.Zone.Canonical.label_count
    dnsdata_go.Wire.Name.put_label dnsdata_go.Wire.Name.after_dot dnsdata_go.Wire.Name.encode_from
    dnsdata_go.Wire.Name.encode_name dnsdata_go.Wire.Name.domain_name_to_wire
    dnsdata_go.Common.equal dnsdata_go.Tests.Sorting.insertion_sort
walk_runs = (refl, refl, refl, refl, refl, (refl, tt), (refl, (refl, tt)), refl, refl)

validate_one_hop-Backed_example :
    Backed delegated a_name type_a
      (outcome_of one_hop)
      (outcome_of one_hop).verdict
      (outcome_of one_hop).alias
validate_one_hop-Backed_example =
    validate_one_hop-Backed delegated a_name type_a start (one_hop.1) (outcome_of one_hop) refl
      (walk_runs.3)

validate_name_backed_example :
    GaveUp (chain_hops delegated type_a) last_result
    ⊎ ((name : Bytes) × (o : Outcome) × IsBackedBy delegated
          (normalize_q_name a_name)
          type_a
          last_result
          name
          o)
validate_name_backed_example =
    validate_name_backed delegated a_name type_a none last_result refl (walk_runs.4)

validate_name_once_example :
    (res : Run) × (error : Option ChainError) × (validate_name delegated a_name type_a none
      ≡ (some res, error))
    × WalksOnce (normalize_q_name a_name) 11 res.aliases
validate_name_once_example = validate_name_once delegated b'a' (b'.' ∷ []) type_a none

root_zone-Trusted : Trusted delegated root_name root_zone
root_zone-Trusted =
    root_trusted root_zone refl (walk_runs.5) (walk_runs.6)
      (verify_rr_set_ksk toy_schemes root_zone root_name type_dnskey [] (walk_runs.7))

Trusted-signer_example :
    ((sig : RrSig) × (k : DnsKey) × Memᴰ sig (find_rrsigs root_with_address a_name type_a [])
      × SignedBy toy_schemes
          (find_dns_keys root_with_address sig.signer sig.key_tag sig.algorithm)
          sig
          (create_digest_target toy_schemes root_with_address sig a_name type_a)
          k
      × (equal_canonical_names sig.signer root_name ≡ true))
    × AuthenticatedKeys delegated root_name root_with_address
Trusted-signer_example =
    Trusted-signer delegated root_name root_with_address a_name type_a
      (more_trusted root_name root_zone (addresses (signed_by root_key root_name 1 1))
        root_zone-Trusted (refl, (refl, tt)))
      (verify_rr_set-SignedInside toy_schemes root_with_address a_name type_a (walk_runs.8))
