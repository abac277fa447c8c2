-- ===== src/Dnssec/Crypto.antt =====
-- dnssec/crypto.go, dnssec/dnskey.go and dnssec/ds.go: keys, digests and the choice of a signature
-- scheme. The hash functions and the schemes are the standard library's, and a parameter.
pub mod Supported
use dnsdata_go.Common.{
  ℕ, ◌-◌, ◌+◌, ◌*◌, ◌/◌, ◌%◌, ◌^◌, Bool, not, ◌||◌, List, [], ◌∷◌, Option, none, some, ltb, ◌==◌,
  if◌then◌else◌, length, take, drop, Bytes, octet, equal, Result, ok, err, ◌>>=◌, Ordering,
}
use dnsdata_go.Wire.Builder.{append_uint8, append_uint16, append_bytes}
use dnsdata_go.Wire.Name.{NameError, domain_name_to_wire}

-- The sentinels of dnssec/errors.go, an error of the name encoder, and `errors.Join`.
pub data DnssecError : Type 0 where
  dnssec_error unsupported_algorithm invalid_key invalid_signature : DnssecError
  name_error : NameError → DnssecError
  joined : DnssecError → DnssecError → DnssecError

pub data HashName : Type 0 where
  sha1 sha256 sha384 sha512 : HashName

-- `DNSKey`; the owner is the label of its record, or none without a record. The key tag is
-- `calc_key_tag`, which each constructor stores.
pub record DnsKey : Type 0 where
  pub owner : Option Bytes
  pub flags : ℕ
  pub protocol : ℕ
  pub algorithm : ℕ
  pub key_data : Bytes

pub record Ds : Type 0 where
  pub key_tag : ℕ
  pub algorithm : ℕ
  pub digest_type : ℕ
  pub digest : Bytes

pub data PublicKey : Type 0 where
  rsa_key : ℕ → ℕ → PublicKey
  ecdsa_key : ℕ → ℕ → ℕ → PublicKey
  ed25519_key : Bytes → PublicKey

-- The standard library's functions: the digest of octets, whether a signature over a digest, or
-- over the data itself for Ed25519, verifies under a key, and `slices.SortFunc`.
pub record Schemes : Type 0 where
  pub hash : HashName → Bytes → Bytes
  pub rsa_verify : ℕ → ℕ → HashName → Bytes → Bytes → Bool
  pub ecdsa_verify : ℕ → ℕ → ℕ → Bytes → ℕ → ℕ → Bool
  pub ed25519_verify : Bytes → Bytes → Bytes → Bool
  pub sort_func : (Bytes → Bytes → Ordering) → List Bytes → List Bytes

-- The algorithm numbers of types/algorithm.go that have a scheme.
abbrev pub algo_rsamd5 : ℕ
algo_rsamd5 = 1

abbrev pub algo_ed25519 : ℕ
algo_ed25519 = 15

abbrev pub is_ecdsa : ℕ → Bool
is_ecdsa a = a == 13 || a == 14

abbrev pub is_rsa : ℕ → Bool
is_rsa a = a == 5 || a == 7 || a == 8 || a == 10

-- `big.Int.SetBytes`: the octets as one number, the highest first.
unfoldable pub big_int : Bytes → ℕ
big_int [] = 0
big_int (b ∷ bs) = b * 256 ^ length bs + big_int bs

-- The octets of a coordinate in `ecdsaCurveFor`.
unfoldable pub coord_len : ℕ → ℕ
coord_len algorithm = if algorithm == 13 then 32 else 48

unfoldable pub ecdsa_hash : ℕ → HashName
ecdsa_hash algorithm = if algorithm == 13 then sha256 else sha384

unfoldable pub rsa_hash : ℕ → HashName
rsa_hash algorithm =
    if algorithm == 5 || algorithm == 7 then sha1 else if algorithm == 8 then sha256 else sha512

-- The rest of `loadRSAPublicKey`, from the length of the exponent and what stands behind it.
unfoldable pub rsa_public_key : ℕ → Bytes → Result DnssecError PublicKey
unfolding big_int
rsa_public_key exp_len rest =
    let exponent = big_int (take exp_len rest) in
    if exp_len == 0
    then err invalid_key
    else if ltb (length rest) exp_len
    then err invalid_key
    else if not (ltb exponent (2 ^ 63))
    then err invalid_key
    else if ltb exponent 3
    then err invalid_key
    else ok (rsa_key (big_int (drop exp_len rest)) exponent)

-- `loadRSAPublicKey`
unfoldable pub load_rsa_public_key : Bytes → Result DnssecError PublicKey
load_rsa_public_key (b ∷ c ∷ d ∷ rest) =
    if b == 0 then rsa_public_key (c * 256 + d) rest else rsa_public_key b (c ∷ d ∷ rest)
load_rsa_public_key _ = err invalid_key

-- `loadECDSAPublicKey`
unfoldable pub load_ecdsa_public_key : Bytes → ℕ → Result DnssecError PublicKey
unfolding big_int coord_len
load_ecdsa_public_key key_data algorithm =
    let n = coord_len algorithm in
    if not (length key_data == n * 2)
    then err invalid_key
    else ok (ecdsa_key algorithm (big_int (take n key_data)) (big_int (drop n key_data)))

-- `PublicKey`
unfoldable pub public_key : DnsKey → Result DnssecError PublicKey
public_key k =
    if k.algorithm == algo_ed25519
    then if not (length k.key_data == 32) then err invalid_key else ok (ed25519_key k.key_data)
    else if is_ecdsa k.algorithm
    then load_ecdsa_public_key k.key_data k.algorithm
    else if is_rsa k.algorithm
    then load_rsa_public_key k.key_data
    else err unsupported_algorithm

-- The part of `Verify` behind `PublicKey`, which has chosen the constructor by the algorithm;
-- `ecdsaRawToInts` is the check of the signature's length.
unfoldable pub verify_under : Schemes → ℕ → Bytes → Bytes → PublicKey → Result DnssecError Bool
unfolding big_int coord_len ecdsa_hash rsa_hash
verify_under s algorithm input signature (ed25519_key key) =
    ok (s.ed25519_verify key input signature)
verify_under s algorithm input signature (ecdsa_key curve x y) =
    let n = coord_len algorithm in
    let digest = s.hash (ecdsa_hash algorithm) input in
    if not (length signature == n * 2)
    then err invalid_signature
    else ok
        (s.ecdsa_verify curve x y digest (big_int (take n signature)) (big_int (drop n signature)))
verify_under s algorithm input signature (rsa_key n e) =
    let h = rsa_hash algorithm in ok (s.rsa_verify n e h (s.hash h input) signature)

-- `DNSKey.Verify`
unfoldable pub verify : Schemes → DnsKey → Bytes → Bytes → Result DnssecError Bool
verify s k input signature = public_key k >>= verify_under s k.algorithm input signature

-- The loop of `calcKeyTag` over pairs of octets and the odd octet behind it. The additions are of
-- 32 bits.
unfoldable pub add_pairs : ℕ → Bytes → ℕ
add_pairs sum [] = sum
add_pairs sum (a ∷ []) = (sum + a * 256) % 2 ^ 32
add_pairs sum (a ∷ b ∷ rest) = add_pairs ((sum + a * 256 + b) % 2 ^ 32) rest

-- `calcKeyTag`
unfoldable pub calc_key_tag : DnsKey → ℕ
unfolding add_pairs
calc_key_tag k =
    let n = length k.key_data in
    let sum = add_pairs (k.flags + (k.protocol * 256 + k.algorithm)) k.key_data in
    if k.algorithm == algo_rsamd5
    then if ltb n 2
      then 0
      else octet (drop (n - 2) k.key_data) 0 * 256 + octet (drop (n - 2) k.key_data) 1
    else (sum + sum / 2 ^ 16) % 2 ^ 16

-- `Label`
abbrev pub key_label : DnsKey → Bytes
key_label k = elim k.owner [ none ↦ [] | some l ↦ l ]

-- `DSDigestData`
unfoldable pub ds_digest_data : DnsKey → Result DnssecError Bytes
ds_digest_data k = elim k.owner [
  | none ↦ err dnssec_error
  | some l ↦ elim (domain_name_to_wire l) [
    | err e ↦ err (name_error e)
    | ok owner_wire ↦ ok (
        append_bytes
          (append_uint8 (append_uint8 (append_uint16 owner_wire k.flags) k.protocol) k.algorithm)
          k.key_data)
  ]
]

-- `dsHash` and `VerifyDigest`
unfoldable pub ds_hash : ℕ → Option HashName
ds_hash digest_type =
    if digest_type == 1
    then some sha1
    else if digest_type == 2
    then some sha256
    else if digest_type == 4
    then some sha384
    else none

unfoldable pub verify_digest : Schemes → Ds → Bytes → Result DnssecError Bool
verify_digest s d input = elim (ds_hash d.digest_type) [
  | none ↦ err unsupported_algorithm
  | some h ↦ ok (equal (s.hash h input) d.digest)
]
