-- ===== src/Dnssec/Crypto/Supported.antt =====
-- dnssec/crypto.go and types/algorithm.go: the algorithms that keys are decoded for.
use dnsdata_go.Common.{ℕ, ◌+◌, ◌*◌, ◌≡◌, ◌↔◌, ◌≢◌, arith, false, [], ◌∷◌, Bytes, err}
use dnsdata_go.Types.Algorithm.{algorithm_supported}
use dnsdata_go.Types.Mnemonics.{is_one_of}
use dnsdata_go.Dnssec.Crypto.{
  unsupported_algorithm, DnsKey, rsa_public_key, load_rsa_public_key, load_ecdsa_public_key,
  public_key,
}

rsa_not_unsupported : (n : ℕ) (rest : Bytes) → rsa_public_key n rest ≢ err unsupported_algorithm
unfolding rsa_public_key
rsa_not_unsupported n rest = ground arith

load_rsa_not_unsupported :
    (key_data : Bytes) → load_rsa_public_key key_data ≢ err unsupported_algorithm
unfolding load_rsa_public_key
load_rsa_not_unsupported [] = ground arith
load_rsa_not_unsupported (b ∷ []) = ground arith
load_rsa_not_unsupported (b ∷ c ∷ []) = ground arith
load_rsa_not_unsupported (b ∷ c ∷ d ∷ rest) =
    ground (arith, rsa_not_unsupported b (c ∷ d ∷ rest), rsa_not_unsupported (c * 256 + d) rest)

load_ecdsa_not_unsupported :
    (key_data : Bytes) (algorithm : ℕ)
    → load_ecdsa_public_key key_data algorithm ≢ err unsupported_algorithm
unfolding load_ecdsa_public_key
load_ecdsa_not_unsupported key_data algorithm = ground arith

-- PublicKey refuses a key as of an unsupported algorithm exactly when AlgorithmSupported says no to
-- its algorithm, whatever its data.
pub algorithm_supported_iff :
    (k : DnsKey)
    → (algorithm_supported k.algorithm ≡ false) ↔ (public_key k ≡ err unsupported_algorithm)
unfolding algorithm_supported is_one_of public_key
algorithm_supported_iff k =
    let rsa = load_rsa_not_unsupported k.key_data in
    let ecdsa = load_ecdsa_not_unsupported k.key_data k.algorithm in ground arith
