-- ===== src/Dnssec/Hash.antt =====
-- `ComputeNSEC3Hash` of dnssec/nsec3.go. SHA-1 is the standard library's and an argument.
use dnsdata_go.Common.{ℕ, suc, zero, not, ◌++◌, ◌==◌, if◌then◌else◌, Bytes, Result, ok, err, ◌>>=◌}
use dnsdata_go.Text.{Unicode, to_lower}
use dnsdata_go.Wire.Name.{NameError, domain_name_to_wire}

pub data HashError : Type 0 where
  unsupported_algorithm : HashError
  bad_name : NameError → HashError

-- An error of the encoder is passed on.
abbrev pub of_name : Result NameError Bytes → Result HashError Bytes
of_name (ok w) = ok w
of_name (err e) = err (bad_name e)

module _ (sha1 : Bytes → Bytes) ⦃u : Unicode⦄ where
  -- The loop over the iterations.
  unfoldable pub rehash : ℕ → Bytes → Bytes → Bytes
  rehash zero salt digest = digest
  rehash (suc n) salt digest = rehash n salt (sha1 (digest ++ salt))

  -- `ComputeNSEC3Hash`
  unfoldable pub compute_nsec3_hash : Bytes → ℕ → ℕ → Bytes → Result HashError Bytes
  compute_nsec3_hash name algorithm iterations salt =
      if not (algorithm == 1)
      then err unsupported_algorithm
      else (of_name (domain_name_to_wire (to_lower name)) >>= λ name_wire.
          ok (rehash iterations salt (sha1 (name_wire ++ salt))))
