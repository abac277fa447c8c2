-- ===== src/Dnssec/Zone.antt =====
-- dnssec/zone.go and dnssec/sigcheck.go: which signatures over the record sets of a zone verify.
pub mod Digest
pub mod Check
pub mod Stored
use dnsdata_go.Common.{
  ℕ, ◌+◌, ◌%◌, ◌^◌, Bool, true, false, not, ◌&&◌, ◌||◌, List, [], ◌∷◌, ◌++◌, Option, none, some,
  ltb, leb, ◌==◌, if◌then◌else◌, length, drop, Bytes, equal, Result, ok, err, ◌>>=◌, Ordering,
  append_assoc,
}
use dnsdata_go.Text.{Unicode}
use dnsdata_go.Types.{type_rrsig, type_dnskey, type_ds}
use dnsdata_go.Wire.Builder.{append_uint8, append_uint16, append_uint32, append_bytes}
use dnsdata_go.Wire.Name.{domain_name_to_wire}
use dnsdata_go.Zone.Canonical.{compare_bytes, equal_canonical_names, label_count, last_n_labels}
use dnsdata_go.Dnssec.Nsec.{Nsec, Nsec3}
use dnsdata_go.Dnssec.Crypto.{
  DnssecError, dnssec_error, unsupported_algorithm, name_error, joined, DnsKey, Ds, Schemes, verify,
  calc_key_tag, key_label, ds_digest_data, verify_digest,
}

-- `KeyVerifyMode`; other numbers accept no key.
pub data KeyVerifyMode : Type 0 where
  mode_none mode_zsk mode_ksk mode_csk mode_other : KeyVerifyMode

-- `SigStatus`
pub data SigStatus : Type 0 where
  sig_verified sig_expired sig_not_yet_valid sig_unsupported_algorithm : SigStatus
  sig_no_matching_key sig_invalid : SigStatus

-- `RRSig`; the times are seconds since 1970.
pub record RrSig : Type 0 where
  pub type_covered : ℕ
  pub algorithm : ℕ
  pub labels : ℕ
  pub original_ttl : ℕ
  pub expire : ℕ
  pub inception : ℕ
  pub key_tag : ℕ
  pub signer : Bytes
  pub signature : Bytes

-- The handlers that the code asks a record for.
pub data Handler : Type 0 where
  dnskey_handler : DnsKey → Handler
  rrsig_handler : RrSig → Handler
  ds_handler : Ds → Handler
  nsec_handler : Nsec → Handler
  nsec3_handler : Nsec3 → Handler
  other_handler : Handler

-- A record as the zone's registry resolves it: its handler, and what `WireBodyWith` writes for it.
pub record ZoneRecord : Type 0 where
  pub label : Bytes
  pub class : ℕ
  pub rr_type : ℕ
  pub ttl : ℕ
  pub value : Bytes
  pub handler : Handler
  pub body : Result DnssecError Bytes

-- A zone, with the records of its parent and the time of its clock, where it has them.
pub record Zone : Type 0 where
  pub records : List ZoneRecord
  pub trusted : List DnsKey
  pub parent : Option (List ZoneRecord)
  pub now : Option ℕ

-- Go's pair of a Boolean or a status with an error that may stand beside it.
abbrev pub Checked : Type 0 → Type 0
Checked A = A × Option DnssecError

-- `if firstErr == nil { firstErr = err }`
abbrev pub first_error : Option DnssecError → Option DnssecError → Option DnssecError
first_error none e = e
first_error (some d) e = some d

-- `errors.Join`
abbrev pub join_errors : Option DnssecError → Option DnssecError → Option DnssecError
join_errors none e = e
join_errors (some d) none = some d
join_errors (some d) (some e) = some (joined d e)

-- `zone.Zone.FindRRSet`
unfoldable pub find_rr_set : List ZoneRecord → Bytes → ℕ → List ZoneRecord
find_rr_set [] name rr_type = []
find_rr_set (r ∷ rs) name rr_type =
    let rest = find_rr_set rs name rr_type in
    if equal r.label name && r.rr_type == rr_type then r ∷ rest else rest

-- The loop of `FindRRSIGs` over the candidates; an empty signer filters nothing.
unfoldable pub covering_sigs : List ZoneRecord → ℕ → Bytes → List RrSig
covering_sigs [] type_covered signer = []
covering_sigs (r ∷ rs) type_covered signer =
    let rest = covering_sigs rs type_covered signer in
    elim r.handler [
      | rrsig_handler s ↦
          if s.type_covered == type_covered && (equal signer [] || equal s.signer signer)
          then s ∷ rest
          else rest
      | _ ↦ rest
    ]

-- `FindRRSIGs`
unfoldable pub find_rrsigs : Zone → Bytes → ℕ → Bytes → List RrSig
unfolding covering_sigs
find_rrsigs z name type_covered signer =
    covering_sigs (find_rr_set z.records name type_rrsig) type_covered signer

-- The loop of `FindDNSKeys`.
unfoldable pub keys_with : List ZoneRecord → ℕ → ℕ → List DnsKey
keys_with [] key_tag algorithm = []
keys_with (r ∷ rs) key_tag algorithm =
    let rest = keys_with rs key_tag algorithm in
    elim r.handler [
      | dnskey_handler k ↦
          if calc_key_tag k == key_tag && k.algorithm == algorithm then k ∷ rest else rest
      | _ ↦ rest
    ]

-- `FindDNSKeys`
unfoldable pub find_dns_keys : Zone → Bytes → ℕ → ℕ → List DnsKey
unfolding keys_with
find_dns_keys z signer key_tag algorithm =
    keys_with (find_rr_set z.records signer type_dnskey) key_tag algorithm

-- `validityStatus`
unfoldable pub validity_status : Zone → RrSig → SigStatus
validity_status z s = elim z.now [
  | none ↦ sig_verified
  | some t ↦
      if ltb t s.inception
      then sig_not_yet_valid
      else if ltb s.expire t
      then sig_expired
      else sig_verified
]

module _ ⦃u : Unicode⦄ where
  -- `sameKey`
  unfoldable pub same_key : DnsKey → DnsKey → Bool
  same_key a b =
      equal_canonical_names (key_label a) (key_label b)
      && (a.flags == b.flags
          && (a.protocol == b.protocol
              && (a.algorithm == b.algorithm && equal a.key_data b.key_data)))

  -- `IsTrustedKey`, on the keys added.
  unfoldable pub is_trusted_key : List DnsKey → DnsKey → Bool
  is_trusted_key [] key = false
  is_trusted_key (t ∷ trusted) key = same_key t key || is_trusted_key trusted key

  -- `AddTrustedKey`
  unfoldable pub add_trusted_key : Zone → DnsKey → Zone
  add_trusted_key z key = record z { trusted = z.trusted ++ key ∷ [] }
