-- ===== src/Dnssec/Zone/Check/Agreement.antt =====
-- dnssec/sigcheck.go: `CheckRRSet`, which checks every signature, and how its results agree with
-- `VerifyRRSet`, which stops at the first that verifies.
use dnsdata_go.Common.{
  ℕ, ◌≡◌, refl, sym, arith, Bool, Bool-cases, Option-cases, inl, inr, true, false, List, [], ◌∷◌,
  Option, none, some, Result, ok, err, if◌then◌else◌, Bytes,
}
use dnsdata_go.Text.{Unicode}
use dnsdata_go.Dnssec.Crypto.{DnssecError, DnsKey, Schemes, verify}
use dnsdata_go.Dnssec.Zone.{
  KeyVerifyMode, SigStatus, sig_verified, RrSig, Zone, Checked, first_error, find_rrsigs,
  find_dns_keys,
}
use dnsdata_go.Dnssec.Zone.Digest.{create_digest_target}
use dnsdata_go.Dnssec.Zone.Check.{
  as_pair, is_verified, succeeded, verify_status, verify_keys, verify_with_any, check_target,
  check_with, verify_sigs, verify_set_with, keys_for_mode, check_rrsig, verify_rr_set,
  is_unsupported,
}

-- `SigResult`
pub record SigResult : Type 0 where
  pub rrsig : RrSig
  pub status : SigStatus
  pub error : Option DnssecError

-- The loop of `CheckRRSet`.
unfoldable pub results_of : (RrSig → Checked SigStatus) → List RrSig → List SigResult
results_of check [] = []
results_of check (s ∷ sigs) =
    let r = check s in record { rrsig = s; status = r.0; error = r.1 } ∷ results_of check sigs

-- The loop of `RRSetVerified`, with the first error so far.
unfoldable pub verified_from : List SigResult → Option DnssecError → Checked Bool
verified_from [] first = (false, first)
verified_from (r ∷ rs) first =
    if is_verified r.status then (true, none) else verified_from rs (first_error first r.error)

-- `RRSetVerified`
unfoldable pub rr_set_verified : List SigResult → Checked Bool
unfolding verified_from
rr_set_verified results = verified_from results none

-- A status that says the signature verified comes without an error.
abbrev pub IsQuiet : Checked SigStatus → Type 0
IsQuiet r = is_verified (r.0) ≡ true → r.1 ≡ none

verify_status-IsQuiet : (r : Checked Bool) → IsQuiet (verify_status r, r.1)
unfolding is_verified verify_status
verify_status-IsQuiet (true, none) h = refl
verify_status-IsQuiet (false, none) h = refl
verify_status-IsQuiet (b, some e) h = elim (Bool-cases (is_unsupported e)) [
  | inl u ↦ ground (arith, u)
  | inr u ↦ ground (arith, u)
]

abbrev StartsQuiet : Option (Checked SigStatus) → Type 0
StartsQuiet none = Unit
StartsQuiet (some first) = IsQuiet first

IsQuiet-if :
    (b : Bool) (r other : Checked SigStatus)
    → IsQuiet r
    → IsQuiet other
    → IsQuiet (if b then r else other)
IsQuiet-if true r other quiet loud = quiet
IsQuiet-if false r other quiet loud = loud

verify_keys-IsQuiet :
    (h : Schemes) (input signature : Bytes) (keys : List DnsKey)
    (first : Option (Checked SigStatus))
    → StartsQuiet first
    → IsQuiet (verify_keys h input signature keys first)
unfolding verify_keys
verify_keys-IsQuiet h input signature [] none quiet = λ v. refl
verify_keys-IsQuiet h input signature [] (some first) quiet = quiet
verify_keys-IsQuiet h input signature (k ∷ ks) none quiet =
    let r = as_pair (verify h k input signature) in
    IsQuiet-if (succeeded r) (sig_verified, none) _ (λ v. refl)
      (verify_keys-IsQuiet h input signature ks (some (verify_status r, r.1))
        (verify_status-IsQuiet r))
verify_keys-IsQuiet h input signature (k ∷ ks) (some first) quiet =
    IsQuiet-if (succeeded (as_pair (verify h k input signature))) (sig_verified, none) _ (λ v. refl)
      (verify_keys-IsQuiet h input signature ks (some first) quiet)

verify_with_any-IsQuiet :
    (h : Schemes) (keys : List DnsKey) (input signature : Bytes)
    → IsQuiet (verify_with_any h keys input signature)
unfolding verify_with_any
verify_with_any-IsQuiet h keys input signature = verify_keys-IsQuiet h input signature keys none tt

-- Both loops give the same answer when no signature verifies with an error.
pub verify_sigs-verified_from :
    (check : RrSig → Checked SigStatus)
    → ((s : RrSig) → IsQuiet (check s))
    → (sigs : List RrSig) (first : Option DnssecError)
    → verify_sigs check sigs first ≡ verified_from (results_of check sigs) first
unfolding verify_sigs verified_from results_of
verify_sigs-verified_from check quiet [] first = refl
verify_sigs-verified_from check quiet (s ∷ sigs) none =
    let same = verify_sigs-verified_from check quiet sigs in
    elim (Option-cases ((check s).1)) [
      | inl e ↦ ground (arith, e, same none)
      | inr (d, e) ↦ ground (arith, e, quiet s, same (some d))
    ]
verify_sigs-verified_from check quiet (s ∷ sigs) (some f) =
    ground (arith, quiet s, verify_sigs-verified_from check quiet sigs (some f))

check_target-IsQuiet :
    (h : Schemes) (s : RrSig) (keys : List DnsKey) (e : Option DnssecError)
    (target : Result DnssecError (Option Bytes))
    → IsQuiet (check_target h s keys e target)
unfolding check_target is_verified
check_target-IsQuiet h s [] e target = λ v. cc
check_target-IsQuiet h s (k ∷ ks) e (err d) = λ v. cc
check_target-IsQuiet h s (k ∷ ks) e (ok none) = λ v. refl
check_target-IsQuiet h s (k ∷ ks) e (ok (some target)) =
    verify_with_any-IsQuiet h (k ∷ ks) target s.signature

module _ ⦃u : Unicode⦄ where
  -- `CheckRRSet`
  unfoldable pub check_rr_set : Schemes → Zone → Bytes → ℕ → KeyVerifyMode → Bytes → List SigResult
  unfolding results_of
  check_rr_set h z name type_covered mode signer =
      results_of (λ s. check_rrsig h z name type_covered s mode)
        (find_rrsigs z name type_covered signer)

  pub check_with-IsQuiet :
      (h : Schemes) (z : Zone) (choose : List DnsKey → Checked (List DnsKey)) (name : Bytes)
      (type_covered : ℕ) (s : RrSig)
      → IsQuiet (check_with h z choose name type_covered s)
  unfolding check_with is_verified
  check_with-IsQuiet h z choose name type_covered s =
      let (keys, e) = choose (find_dns_keys z s.signer s.key_tag s.algorithm) in
      ground (arith, check_target-IsQuiet h s keys e (create_digest_target h z s name type_covered))

  -- The results of all the checks of a record set fold into the answer of the check that stops at
  -- the first signature that verifies, errors included.
  pub check_rr_set-verify_rr_set :
      (h : Schemes) (z : Zone) (name : Bytes) (type_covered : ℕ) (mode : KeyVerifyMode)
      (signer : Bytes)
      → rr_set_verified (check_rr_set h z name type_covered mode signer)
        ≡ verify_rr_set h z name type_covered mode signer
  unfolding rr_set_verified check_rr_set verify_rr_set verify_set_with check_rrsig
  check_rr_set-verify_rr_set h z name type_covered mode signer = sym (
      verify_sigs-verified_from _
        (check_with-IsQuiet h z (keys_for_mode h z mode) name type_covered)
        (find_rrsigs z name type_covered signer) none)
