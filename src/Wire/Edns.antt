-- ===== src/Wire/Edns.antt =====
-- wire/edns.go: the OPT pseudo-record (RFC 6891).
pub mod RoundTrip
use dnsdata_go.Common.{
  ℕ, zero, suc, ◌+◌, ◌*◌, ◌/◌, ◌%◌, ◌^◌, Bool, true, false, not, List, [], ◌∷◌, ◌++◌, Option, none,
  some, ltb, ◌==◌, if◌then◌else◌, length, take, drop, Bytes, Result, ok, err, ◌>>=◌,
}
use dnsdata_go.Wire.Builder.{
  be16, be32, append_uint8, append_uint16, append_uint32, append_bytes, uint16_at, uint32_at,
}

pub record EdnsOption : Type 0 where
  pub code : ℕ
  pub payload : Bytes

pub record Edns : Type 0 where
  pub udp_payload_size : ℕ
  pub extended_rcode : ℕ
  pub version : ℕ
  pub do_flag : Bool
  pub z : ℕ
  pub options : List EdnsOption

-- `OPTTypeCode` and `DefaultUDPPayloadSize`
abbrev pub opt_type_code : ℕ
opt_type_code = 41

abbrev pub default_udp_payload_size : ℕ
default_udp_payload_size = 4096

-- `ErrOPT`
pub data OptError : Type 0 where
  invalid_opt : OptError

-- The loop that sums `rdlen`.
unfoldable pub options_length : List EdnsOption → ℕ
options_length [] = 0
options_length (o ∷ os) = 4 + length o.payload + options_length os

-- The loop that writes the options.
unfoldable pub append_options : Bytes → List EdnsOption → Bytes
append_options b [] = b
append_options b (o ∷ os) =
    append_options
      (append_bytes (append_uint16 (append_uint16 b o.code) (length o.payload)) o.payload) os

-- The TTL field: the parts that `|` joins have no bit in common, so they are added.
abbrev pub opt_ttl : ℕ → ℕ → Bool → ℕ → ℕ
opt_ttl rcode version do_flag z =
    rcode * 2 ^ 24 + version * 2 ^ 16 + z + (if do_flag then 2 ^ 15 else 0)

-- What `Encode` writes from the values that it has picked.
unfoldable pub append_opt : Bytes → ℕ → ℕ → ℕ → Bool → ℕ → List EdnsOption → Bytes
append_opt b udp rcode version do_flag z opts =
    let head = append_uint16 (append_uint16 (append_uint8 b 0) opt_type_code) udp in
    let with_ttl = append_uint32 head (opt_ttl rcode version do_flag z) in
    append_options (append_uint16 with_ttl (options_length opts)) opts

-- `Encode`; `& 0x7fff` is the remainder by 2^15.
unfoldable pub encode_edns : Option Edns → Bytes → Bytes
encode_edns none b = append_opt b default_udp_payload_size 0 0 false 0 []
encode_edns (some e) b =
    append_opt b (if e.udp_payload_size == 0 then default_udp_payload_size else e.udp_payload_size)
      e.extended_rcode e.version e.do_flag (e.z % 2 ^ 15) e.options

-- The loop of `DecodeOPT` over `data[pos:end]`, and the check for trailing octets behind it. Each
-- round takes four octets at least, so the length of the slice is enough for the number of rounds.
unfoldable pub decode_options : ℕ → Bytes → Result OptError (List EdnsOption)
decode_options n [] = ok []
decode_options n (a ∷ []) = err invalid_opt
decode_options n (a ∷ b ∷ []) = err invalid_opt
decode_options n (a ∷ b ∷ c ∷ []) = err invalid_opt
decode_options zero (a ∷ b ∷ c ∷ d ∷ rest) = err invalid_opt
decode_options (suc n) (a ∷ b ∷ c ∷ d ∷ rest) =
    let opt_len = c * 2 ^ 8 + d in
    let more = decode_options n (drop opt_len rest) in
    if ltb (length rest) opt_len
    then err invalid_opt
    else (more >>= λ os. ok (record { code = a * 2 ^ 8 + b; payload = take opt_len rest } ∷ os))

-- `DecodeOPT`
unfoldable pub decode_opt : Bytes → Result OptError Edns
decode_opt input =
    let udp = uint16_at input 2 in
    let ttl = uint32_at input 4 in
    let rdlen = uint16_at input 8 in
    if ltb (length input) 10
    then err invalid_opt
    else if not (uint16_at input 0 == opt_type_code)
    then err invalid_opt
    else if ltb (length input) (10 + rdlen)
    then err invalid_opt
    else (decode_options rdlen (take rdlen (drop 10 input)) >>= λ opts. ok (record {
      udp_payload_size = udp;
      extended_rcode = ttl / 2 ^ 24 % 256;
      version = ttl / 2 ^ 16 % 256;
      do_flag = not (ttl / 2 ^ 15 % 2 == 0);
      z = ttl % 2 ^ 15;
      options = opts;
    }))

-- The loop of `FindOption`; none is its false.
unfoldable pub find_option : ℕ → List EdnsOption → Option EdnsOption
find_option code [] = none
find_option code (o ∷ os) =
    let rest = find_option code os in if o.code == code then some o else rest
