-- ===== src/Verifier/Chain/Keys.antt =====
-- The keys of verifier/chain.go: which DNSKEYs the DS records of the parent or the trust anchors match.
use dnsdata_go.Common.{
  ℕ, ◌+◌, ◌-◌, ◌*◌, Bool, true, false, not, ◌&&◌, ◌||◌, List, [], ◌∷◌, Option, none, some, leb,
  ◌==◌, if◌then◌else◌, Bytes, equal, Result, ok, err,
}
use dnsdata_go.Text.{Unicode}
use dnsdata_go.Types.{type_dnskey, type_ds}
use dnsdata_go.Dnssec.Crypto.{DnsKey, Ds, Schemes, calc_key_tag, ds_digest_data, verify_digest}
use dnsdata_go.Dnssec.Zone.{
  sig_verified, Handler, dnskey_handler, ZoneRecord, Zone, find_rr_set, add_trusted_key,
}
use dnsdata_go.Dnssec.Zone.Check.{as_ds}
use dnsdata_go.Verifier.Codes.{ReasonCode, no_ds, no_dnskey, ds_mismatch, status_text}
use dnsdata_go.Verifier.Names.{root_name}
use dnsdata_go.Verifier.Steps.{SigCheck}
use dnsdata_go.Verifier.Chain.{AnchorDs}

-- The errors of `matchKSKWithDS` and `matchKSKWithAnchors`.
pub data KeyMatchError : Type 0 where
  err_no_dnskey err_no_ds err_no_match err_no_anchors err_anchor_mismatch : KeyMatchError

-- `keyMatchCode`
unfoldable pub key_match_code : KeyMatchError → ReasonCode
key_match_code err_no_dnskey = no_dnskey
key_match_code err_no_ds = no_ds
key_match_code _ = ds_mismatch

-- `z.Handler(rr).(*DNSKey)`
unfoldable pub as_dnskey : Handler → Option DnsKey
as_dnskey (dnskey_handler k) = some k
as_dnskey _ = none

-- The loop of `keysMatchingDS` over the DS records, from the octets that they digest.
unfoldable pub has_matching_ds : Schemes → DnsKey → Bytes → List Ds → Bool
has_matching_ds h k input [] = false
has_matching_ds h k input (d ∷ dses) =
    let rest = has_matching_ds h k input dses in
    if not (d.key_tag == calc_key_tag k) || not (d.algorithm == k.algorithm)
    then rest
    else elim (verify_digest h d input) [ ok true ↦ true | ok false ↦ rest | err e ↦ rest ]

-- The body of the loop of `keysMatchingDS`: whether it takes the key.
unfoldable pub is_matched : Schemes → List Ds → DnsKey → Bool
unfolding has_matching_ds
is_matched h dses k = elim (ds_digest_data k) [
  | err e ↦ false
  | ok input ↦ has_matching_ds h k input dses
]

-- The loop of `keysMatchingDS`.
unfoldable pub matching_keys : Schemes → List Ds → List ZoneRecord → List DnsKey
unfolding as_dnskey is_matched
matching_keys h dses [] = []
matching_keys h dses (rr ∷ rrs) =
    let rest = matching_keys h dses rrs in
    elim (as_dnskey rr.handler) [
      | none ↦ rest
      | some k ↦ if is_matched h dses k then k ∷ rest else rest
    ]

-- `keysMatchingDS`
unfoldable pub keys_matching_ds : Schemes → Zone → Bytes → List Ds → List DnsKey
unfolding matching_keys
keys_matching_ds h z name dses = matching_keys h dses (find_rr_set z.records name type_dnskey)

-- The DS records of the loop of `matchKSKWithDS`.
unfoldable pub ds_set : List ZoneRecord → List Ds
unfolding as_ds
ds_set [] = []
ds_set (rr ∷ rrs) =
    let rest = ds_set rrs in elim (as_ds rr.handler) [ none ↦ rest | some d ↦ d ∷ rest ]

-- The list, or the error where it is empty.
unfoldable pub or_error : KeyMatchError → List DnsKey → Result KeyMatchError (List DnsKey)
or_error e [] = err e
or_error e (k ∷ ks) = ok (k ∷ ks)

-- `matchKSKWithDS`, from the record sets that it finds.
unfoldable pub match_sets :
    Schemes → List ZoneRecord → List ZoneRecord → Result KeyMatchError (List DnsKey)
unfolding ds_set matching_keys or_error
match_sets h [] dses = err err_no_dnskey
match_sets h (k ∷ keys) [] = err err_no_ds
match_sets h (k ∷ keys) (d ∷ dses) =
    or_error err_no_match (matching_keys h (ds_set (d ∷ dses)) (k ∷ keys))

-- `matchKSKWithDS`
unfoldable pub match_ksk_with_ds :
    Schemes → Zone → Zone → Bytes → Result KeyMatchError (List DnsKey)
unfolding match_sets
match_ksk_with_ds h child parent name =
    match_sets h (find_rr_set child.records name type_dnskey)
      (find_rr_set parent.records name type_ds)

-- The value of a digit of `hex.DecodeString`.
unfoldable pub hex_digit : ℕ → Option ℕ
hex_digit c =
    if leb b'0' c && leb c b'9'
    then some (c - b'0')
    else if leb b'a' c && leb c b'f'
    then some (c - b'a' + 10)
    else if leb b'A' c && leb c b'F'
    then some (c - b'A' + 10)
    else none

-- Two digits in front of what is decoded.
unfoldable pub hex_octet : Option ℕ → Option ℕ → Option Bytes → Option Bytes
hex_octet (some a) (some b) (some rest) = some ((a * 16 + b) ∷ rest)
hex_octet _ _ _ = none

-- `hex.DecodeString`
unfoldable pub hex_decode : Bytes → Option Bytes
unfolding hex_digit hex_octet
hex_decode [] = some []
hex_decode (c ∷ []) = none
hex_decode (c ∷ d ∷ rest) = hex_octet (hex_digit c) (hex_digit d) (hex_decode rest)

-- The loop of `matchKSKWithAnchors`.
unfoldable pub anchor_set : List AnchorDs → List Ds
unfolding hex_decode
anchor_set [] = []
anchor_set (a ∷ anchors) =
    let rest = anchor_set anchors in
    elim (hex_decode a.digest) [
      | none ↦ rest
      | some digest ↦
          record {
            key_tag = a.key_tag;
            algorithm = a.algorithm;
            digest_type = a.digest_type;
            digest = digest;
          }
          ∷ rest
    ]

-- `matchKSKWithAnchors`
unfoldable pub match_ksk_with_anchors :
    Schemes → Zone → Option (List AnchorDs) → Result KeyMatchError (List DnsKey)
unfolding anchor_set keys_matching_ds or_error
match_ksk_with_anchors h z none = err err_no_anchors
match_ksk_with_anchors h z (some []) = err err_no_anchors
match_ksk_with_anchors h z (some (a ∷ anchors)) =
    or_error err_anchor_mismatch (keys_matching_ds h z root_name (anchor_set (a ∷ anchors)))

-- The first of the keys that a check names.
unfoldable pub key_named : List DnsKey → SigCheck → Option DnsKey
key_named [] c = none
key_named (k ∷ ks) c =
    let rest = key_named ks c in
    if calc_key_tag k == c.key_tag && k.algorithm == c.algorithm then some k else rest

-- The loop of `signingKSK` over the checks.
unfoldable pub key_of_checks : List DnsKey → List SigCheck → Option DnsKey
unfolding key_named
key_of_checks ksks [] = none
key_of_checks ksks (c ∷ checks) =
    let rest = key_of_checks ksks checks in
    if not (equal c.outcome (status_text sig_verified))
    then rest
    else elim (key_named ksks c) [ some k ↦ some k | none ↦ rest ]

-- `signingKSK`; the code calls it with one key at least.
unfoldable pub signing_ksk : List DnsKey → List SigCheck → Option DnsKey
unfolding key_of_checks
signing_ksk [] checks = none
signing_ksk (k ∷ ks) checks = elim (key_of_checks (k ∷ ks) checks) [
  | some found ↦ some found
  | none ↦ some k
]

module _ ⦃u : Unicode⦄ where
  -- `trustKeys`
  unfoldable pub trust_keys : Zone → List DnsKey → Zone
  trust_keys z [] = z
  trust_keys z (k ∷ ks) = trust_keys (add_trusted_key z k) ks
