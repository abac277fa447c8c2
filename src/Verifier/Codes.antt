-- ===== src/Verifier/Codes.antt =====
-- verifier/reason.go: the codes that say why a validation failed, and the names of the statuses of
-- dnssec/sigcheck.go.
use dnsdata_go.Common.{
  Bool, true, false, ◌||◌, List, [], ◌∷◌, Option, none, some, if◌then◌else◌, Bytes,
}
use dnsdata_go.Dnssec.Zone.{
  SigStatus, sig_verified, sig_expired, sig_not_yet_valid, sig_unsupported_algorithm,
  sig_no_matching_key, sig_invalid,
}
use dnsdata_go.Dnssec.Zone.Check.Agreement.{SigResult}

-- The codes, less their texts. An empty code is none.
pub data ReasonCode : Type 0 where
  no_ds no_dnskey trust_anchor_mismatch ds_mismatch no_rrsig no_matching_key : ReasonCode
  code_sig_invalid code_sig_expired code_sig_not_yet_valid code_unsupported_algorithm : ReasonCode
  alias_loop alias_limit alias_target_invalid wildcard_proof_missing : ReasonCode

-- The sentinels of verifier/errors.go that a code maps to.
pub data Sentinel : Type 0 where
  err_no_ds err_no_dnskey err_trust_anchor_mismatch err_ds_mismatch err_sig_invalid : Sentinel
  err_sig_expired err_unsupported_algo : Sentinel

-- `codeSentinels`
unfoldable pub code_sentinel : ReasonCode → Option Sentinel
code_sentinel no_ds = some err_no_ds
code_sentinel no_dnskey = some err_no_dnskey
code_sentinel trust_anchor_mismatch = some err_trust_anchor_mismatch
code_sentinel ds_mismatch = some err_ds_mismatch
code_sentinel no_rrsig = some err_sig_invalid
code_sentinel no_matching_key = some err_sig_invalid
code_sentinel code_sig_invalid = some err_sig_invalid
code_sentinel code_sig_expired = some err_sig_expired
code_sentinel code_sig_not_yet_valid = some err_sig_expired
code_sentinel code_unsupported_algorithm = some err_unsupported_algo
code_sentinel _ = none

-- `SigStatus.String`
unfoldable pub status_text : SigStatus → Bytes
status_text sig_verified = b'v' ∷ b'e' ∷ b'r' ∷ b'i' ∷ b'f' ∷ b'i' ∷ b'e' ∷ b'd' ∷ []
status_text sig_expired = b'e' ∷ b'x' ∷ b'p' ∷ b'i' ∷ b'r' ∷ b'e' ∷ b'd' ∷ []
status_text sig_not_yet_valid =
    b'n' ∷ b'o' ∷ b't' ∷ b'-' ∷ b'y' ∷ b'e' ∷ b't' ∷ b'-' ∷ b'v' ∷ b'a' ∷ b'l' ∷ b'i' ∷ b'd' ∷ []
status_text sig_unsupported_algorithm =
    b'u' ∷ b'n' ∷ b's' ∷ b'u' ∷ b'p' ∷ b'p' ∷ b'o' ∷ b'r' ∷ b't' ∷ b'e' ∷ b'd' ∷ b'-' ∷ b'a' ∷ b'l'
    ∷ b'g' ∷ b'o' ∷ b'r' ∷ b'i' ∷ b't' ∷ b'h' ∷ b'm' ∷ []
status_text sig_no_matching_key =
    b'n' ∷ b'o' ∷ b'-' ∷ b'm' ∷ b'a' ∷ b't' ∷ b'c' ∷ b'h' ∷ b'i' ∷ b'n' ∷ b'g' ∷ b'-' ∷ b'k' ∷ b'e'
    ∷ b'y' ∷ []
status_text sig_invalid = b'i' ∷ b'n' ∷ b'v' ∷ b'a' ∷ b'l' ∷ b'i' ∷ b'd' ∷ []

-- `r.Status == o.status`
unfoldable pub same_status : SigStatus → SigStatus → Bool
same_status sig_verified sig_verified = true
same_status sig_expired sig_expired = true
same_status sig_not_yet_valid sig_not_yet_valid = true
same_status sig_unsupported_algorithm sig_unsupported_algorithm = true
same_status sig_no_matching_key sig_no_matching_key = true
same_status sig_invalid sig_invalid = true
same_status _ _ = false

-- The inner loop of `sigFailureCode`.
unfoldable pub has_status : List SigResult → SigStatus → Bool
unfolding same_status
has_status [] status = false
has_status (r ∷ results) status = same_status r.status status || has_status results status

-- `sigFailureOrder`
abbrev pub sig_failure_order : List (SigStatus × ReasonCode)
sig_failure_order =
    (sig_expired, code_sig_expired)
    ∷ (sig_not_yet_valid, code_sig_not_yet_valid)
    ∷ (sig_invalid, code_sig_invalid)
    ∷ (sig_no_matching_key, no_matching_key)
    ∷ (sig_unsupported_algorithm, code_unsupported_algorithm)
    ∷ []

-- The outer loop of `sigFailureCode`.
unfoldable pub first_failure : List SigResult → List (SigStatus × ReasonCode) → ReasonCode
unfolding has_status
first_failure results [] = code_sig_invalid
first_failure results ((status, code) ∷ order) =
    let rest = first_failure results order in if has_status results status then code else rest

-- `sigFailureCode`
unfoldable pub sig_failure_code : List SigResult → ReasonCode
unfolding first_failure
sig_failure_code [] = no_rrsig
sig_failure_code (r ∷ results) = first_failure (r ∷ results) sig_failure_order
