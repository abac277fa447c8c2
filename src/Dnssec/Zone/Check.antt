-- ===== src/Dnssec/Zone/Check.antt =====
-- dnssec/sigcheck.go and dnssec/zone.go: the check of a signature, of all signatures over a record
-- set, and of a delegation.
pub mod Agreement
pub mod Anchors
pub mod Trusted
pub mod Verified
use dnsdata_go.Common.{
  ℕ, Bool, true, false, not, ◌&&◌, ◌||◌, List, [], ◌∷◌, Option, none, some, ◌==◌, if◌then◌else◌,
  Bytes, Result, ok, err, ◌>>=◌,
}
use dnsdata_go.Text.{Unicode}
use dnsdata_go.Types.{type_dnskey, type_ds}
use dnsdata_go.Dnssec.Crypto.{
  DnssecError, unsupported_algorithm, joined, DnsKey, Ds, Schemes, verify, key_label,
  ds_digest_data, verify_digest,
}
use dnsdata_go.Dnssec.Zone.{
  KeyVerifyMode, mode_none, mode_zsk, mode_ksk, mode_csk, mode_other, SigStatus, sig_verified,
  sig_unsupported_algorithm, sig_no_matching_key, sig_invalid, RrSig, Handler, ds_handler,
  ZoneRecord, Zone, Checked, first_error, join_errors, find_rr_set, find_rrsigs, find_dns_keys,
  validity_status, is_trusted_key,
}
use dnsdata_go.Dnssec.Zone.Digest.{create_digest_target}

-- `return false, err`
abbrev pub as_pair : Result DnssecError Bool → Checked Bool
as_pair (err e) = (false, some e)
as_pair (ok b) = (b, none)

-- `errors.Is(err, ErrUnsupportedAlgorithm)`
unfoldable pub is_unsupported : DnssecError → Bool
is_unsupported unsupported_algorithm = true
is_unsupported (joined d e) = is_unsupported d || is_unsupported e
is_unsupported _ = false

unfoldable pub is_verified : SigStatus → Bool
is_verified sig_verified = true
is_verified _ = false

-- `verifyStatus`
unfoldable pub verify_status : Checked Bool → SigStatus
unfolding is_unsupported
verify_status (b, some e) = if is_unsupported e then sig_unsupported_algorithm else sig_invalid
verify_status (true, none) = sig_verified
verify_status (false, none) = sig_invalid

-- `ok && err == nil`
unfoldable pub succeeded : Checked Bool → Bool
succeeded (b, none) = b
succeeded (b, some e) = false

-- The loop of `verifyWithAny`, with the status and the error of the first key, when it was tried.
-- Without a key they are Go's zero values.
unfoldable pub verify_keys :
    Schemes → Bytes → Bytes → List DnsKey → Option (Checked SigStatus) → Checked SigStatus
unfolding succeeded verify_status
verify_keys h input signature [] none = (sig_verified, none)
verify_keys h input signature [] (some first) = first
verify_keys h input signature (k ∷ ks) first =
    let r = as_pair (verify h k input signature) in
    let own : Checked SigStatus = (verify_status r, r.1) in
    let rest = verify_keys h input signature ks in
    if succeeded r
    then (sig_verified, none)
    else rest (elim first [ none ↦ some own | some f ↦ some f ])

-- `verifyWithAny`
unfoldable pub verify_with_any : Schemes → List DnsKey → Bytes → Bytes → Checked SigStatus
unfolding verify_keys
verify_with_any h keys input signature = verify_keys h input signature keys none

-- `verifyDelegationSignerWithDS`
unfoldable pub verify_delegation_signer_with_ds : Schemes → DnsKey → Ds → Result DnssecError Bool
verify_delegation_signer_with_ds h k d =
    if not (k.algorithm == d.algorithm) then ok false else ds_digest_data k >>= verify_digest h d

-- `z.Handler(rr).(*DS)`
unfoldable pub as_ds : Handler → Option Ds
as_ds (ds_handler d) = some d
as_ds _ = none

-- The loop of `verifyDelegationSigner` over the DS records.
unfoldable pub matches_ds : Schemes → DnsKey → List ZoneRecord → Result DnssecError Bool
unfolding as_ds verify_delegation_signer_with_ds
matches_ds h k [] = ok false
matches_ds h k (r ∷ rs) =
    let rest = matches_ds h k rs in
    elim (as_ds r.handler) [
      | none ↦ rest
      | some d ↦
          if not (d.digest_type == 1 || d.digest_type == 2 || d.digest_type == 4)
          then rest
          else elim (verify_delegation_signer_with_ds h k d) [
            | err e ↦ err e
            | ok true ↦ ok true
            | ok false ↦ rest
          ]
    ]

-- `verifyDelegationSigner`
unfoldable pub verify_delegation_signer : Schemes → Zone → DnsKey → Checked Bool
unfolding matches_ds
verify_delegation_signer h z k = elim z.parent [
  | none ↦ (false, none)
  | some records ↦ as_pair (matches_ds h k (find_rr_set records (key_label k) type_ds))
]

-- `filterKeys`, with the first error so far.
unfoldable pub filter_from :
    (DnsKey → Checked Bool) → List DnsKey → Option DnssecError → Checked (List DnsKey)
filter_from accept [] first = ([], first)
filter_from accept (k ∷ ks) first =
    let r = accept k in
    let rest = filter_from accept ks (first_error first r.1) in
    if r.0 then (k ∷ rest.0, rest.1) else rest

unfoldable pub filter_keys : (DnsKey → Checked Bool) → List DnsKey → Checked (List DnsKey)
unfolding filter_from
filter_keys accept keys = filter_from accept keys none

-- The part of `CheckRRSIG` behind the choice of the keys, with its error and the digest target.
unfoldable pub check_target :
    Schemes
    → RrSig
    → List DnsKey
    → Option DnssecError
    → Result DnssecError (Option Bytes)
    → Checked SigStatus
unfolding verify_with_any
check_target h s [] e target = (sig_no_matching_key, e)
check_target h s (k ∷ ks) e (err d) = (sig_invalid, some d)
check_target h s (k ∷ ks) e (ok none) = (sig_invalid, none)
check_target h s (k ∷ ks) e (ok (some target)) = verify_with_any h (k ∷ ks) target s.signature

-- `if s := z.validityStatus(rrsig); s != SigVerified { return s, nil }`
unfoldable pub when_valid : SigStatus → Checked SigStatus → Checked SigStatus
when_valid sig_verified r = r
when_valid status r = (status, none)

-- The loop of `VerifyRRSet`, with the first error so far.
unfoldable pub verify_sigs :
    (RrSig → Checked SigStatus) → List RrSig → Option DnssecError → Checked Bool
unfolding is_verified
verify_sigs check [] first = (false, first)
verify_sigs check (s ∷ sigs) first =
    let r = check s in
    let rest = verify_sigs check sigs in
    let later = if is_verified r.0 then (true, none) else rest first in
    elim (r.1) [ none ↦ later | some e ↦ elim first [ none ↦ rest (some e) | some d ↦ later ] ]

module _ ⦃u : Unicode⦄ where
  -- `verifyKSK`
  unfoldable pub verify_ksk : Schemes → Zone → DnsKey → Checked Bool
  unfolding verify_delegation_signer
  verify_ksk h z k =
      if is_trusted_key z.trusted k then (true, none) else verify_delegation_signer h z k

  -- `CheckRRSIG`, with the choice of the keys that its mode accepts.
  unfoldable pub check_with :
      Schemes → Zone → (List DnsKey → Checked (List DnsKey)) → Bytes → ℕ → RrSig → Checked SigStatus
  unfolding check_target when_valid
  check_with h z choose name type_covered s =
      let (keys, e) = choose (find_dns_keys z s.signer s.key_tag s.algorithm) in
      when_valid (validity_status z s)
        (check_target h s keys e (create_digest_target h z s name type_covered))

  -- `VerifyRRSet`, with the choice of the keys that its mode accepts.
  unfoldable pub verify_set_with :
      Schemes → Zone → (List DnsKey → Checked (List DnsKey)) → Bytes → ℕ → Bytes → Checked Bool
  unfolding check_with verify_sigs
  verify_set_with h z choose name type_covered signer =
      verify_sigs (check_with h z choose name type_covered) (find_rrsigs z name type_covered signer)
        none

  -- The choice of `KeyModeKSK` in `keysForMode`.
  unfoldable pub ksk_keys : Schemes → Zone → List DnsKey → Checked (List DnsKey)
  unfolding filter_keys verify_ksk
  ksk_keys h z keys = filter_keys (verify_ksk h z) keys

  -- `verifyZSK`
  unfoldable pub verify_zsk : Schemes → Zone → DnsKey → Checked Bool
  unfolding verify_set_with ksk_keys
  verify_zsk h z k = verify_set_with h z (ksk_keys h z) (key_label k) type_dnskey []

  -- `keysForMode`
  unfoldable pub keys_for_mode :
      Schemes → Zone → KeyVerifyMode → List DnsKey → Checked (List DnsKey)
  unfolding ksk_keys verify_zsk
  keys_for_mode h z mode [] = ([], none)
  keys_for_mode h z mode_none (k ∷ ks) = (k ∷ ks, none)
  keys_for_mode h z mode_ksk (k ∷ ks) = ksk_keys h z (k ∷ ks)
  keys_for_mode h z mode_zsk (k ∷ ks) =
      let r = verify_zsk h z k in if r.0 then (k ∷ ks, none) else ([], r.1)
  keys_for_mode h z mode_csk (k ∷ ks) =
      let r = verify_zsk h z k in
      let ksks = ksk_keys h z (k ∷ ks) in
      if r.0 then (k ∷ ks, none) else (ksks.0, join_errors (r.1) (ksks.1))
  keys_for_mode h z mode_other (k ∷ ks) = ([], none)

  -- `CheckRRSIG`
  unfoldable pub check_rrsig :
      Schemes → Zone → Bytes → ℕ → RrSig → KeyVerifyMode → Checked SigStatus
  unfolding check_with keys_for_mode
  check_rrsig h z name type_covered s mode =
      check_with h z (keys_for_mode h z mode) name type_covered s

  -- `VerifyRRSet`
  unfoldable pub verify_rr_set : Schemes → Zone → Bytes → ℕ → KeyVerifyMode → Bytes → Checked Bool
  unfolding verify_set_with keys_for_mode
  verify_rr_set h z name type_covered mode signer =
      verify_set_with h z (keys_for_mode h z mode) name type_covered signer
