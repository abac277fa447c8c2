-- ===== src/Wire/Edns/RoundTrip.antt =====
-- What `Encode` writes, `DecodeOPT` reads.
use dnsdata_go.Common.{
  ℕ, zero, suc, ◌+◌, ◌*◌, ◌/◌, ◌%◌, ◌^◌, ◌<◌, ◌≤◌, ◌≡◌, refl, ap, ◌∙◌, sym, arith, Bool, true,
  false, not, List, [], ◌∷◌, ◌++◌, some, ◌==◌, if◌then◌else◌, length, length-append, take, drop,
  take-append, drop-append, All, Bytes, IsU16, ok, append_assoc, append-nil,
}
use dnsdata_go.Wire.Builder.{be16, be32}
use dnsdata_go.Wire.Edns.{
  EdnsOption, Edns, opt_type_code, opt_ttl, options_length, append_options, append_opt, encode_edns,
  decode_options, decode_opt,
}

-- The code and the length of an option fit their fields.
abbrev pub FitsOption : EdnsOption → Type 0
FitsOption o = IsU16 o.code × IsU16 (length o.payload)

abbrev option_octets : EdnsOption → Bytes
option_octets o = be16 o.code ++ be16 (length o.payload) ++ o.payload

option_list : List EdnsOption → Bytes
option_list [] = []
option_list (o ∷ os) = option_octets o ++ option_list os

length-option_list : (os : List EdnsOption) → length (option_list os) ≡ options_length os
unfolding option_list options_length
length-option_list [] = refl
length-option_list (o ∷ os) =
    omega (arith, length-append o.payload (option_list os), length-option_list os)

append_options_lem : (b : Bytes) (os : List EdnsOption) → append_options b os ≡ b ++ option_list os
unfolding append_options option_list
append_options_lem b [] = rw append-nil refl
append_options_lem b (o ∷ os) =
    append_options_lem (((b ++ be16 o.code) ++ be16 (length o.payload)) ++ o.payload) os
    ∙ append_assoc ((b ++ be16 o.code) ++ be16 (length o.payload)) o.payload (option_list os)
    ∙ append_assoc (b ++ be16 o.code) (be16 (length o.payload)) (o.payload ++ option_list os)
    ∙ append_assoc b (be16 o.code) (be16 (length o.payload) ++ o.payload ++ option_list os)

join_octets : (v : ℕ) → IsU16 v → v / 2 ^ 8 % 256 * 2 ^ 8 + v % 256 ≡ v
join_octets v h = omega arith

join_word :
    (v : ℕ)
    → v < 2 ^ 32
    → v / 2 ^ 24 % 256 * 2 ^ 24 + v / 2 ^ 16 % 256 * 2 ^ 16 + v / 2 ^ 8 % 256 * 2 ^ 8 + v % 256 ≡ v
join_word v h = omega arith

decode-option_list :
    (os : List EdnsOption) (n : ℕ)
    → All FitsOption os
    → length (option_list os) ≤ n
    → decode_options n (option_list os) ≡ ok os
unfolding decode_options option_list
decode-option_list [] n h le = refl
decode-option_list (o ∷ os) zero h le = absurd (omega arith)
decode-option_list (o ∷ os) (suc n) (h, hs) le =
    let rest : Bytes = option_list os in
    let lens = length-append o.payload rest in
    rw
      (
        join_octets o.code h.0,
        join_octets (length o.payload) h.1,
        drop-append o.payload rest,
        take-append o.payload rest,
        decode-option_list os n hs (omega (arith, lens, le)),
      )
      (ground (arith, lens))

-- The fields fit the record, and the payload size is not 0, which stands for the default.
abbrev pub FitsOpt : Edns → Type 0
FitsOpt e =
    (0 < e.udp_payload_size)
    × (e.udp_payload_size < 65536)
    × (e.extended_rcode < 256)
    × (e.version < 256)
    × (e.z < 2 ^ 15)
    × All FitsOption e.options
    × (options_length e.options < 65536)

opt_body : ℕ → ℕ → ℕ → Bytes → Bytes
opt_body udp ttl rdlen opts = be16 opt_type_code ++ be16 udp ++ be32 ttl ++ be16 rdlen ++ opts

append_opt_lem :
    (udp rcode version : ℕ) (do_flag : Bool) (z : ℕ) (os : List EdnsOption)
    → append_opt [] udp rcode version do_flag z os
      ≡ 0 ∷ opt_body udp (opt_ttl rcode version do_flag z) (options_length os) (option_list os)
unfolding append_opt opt_body
append_opt_lem udp rcode version do_flag z os = append_options_lem _ os

decode-opt_body :
    (udp ttl : ℕ) (os : List EdnsOption) (rest : Bytes)
    → udp < 65536
    → ttl < 2 ^ 32
    → All FitsOption os
    → options_length os < 65536
    → decode_opt (opt_body udp ttl (options_length os) (option_list os) ++ rest)
      ≡ ok (record {
        udp_payload_size = udp;
        extended_rcode = ttl / 2 ^ 24 % 256;
        version = ttl / 2 ^ 16 % 256;
        do_flag = not (ttl / 2 ^ 15 % 2 == 0);
        z = ttl % 2 ^ 15;
        options = os;
      })
unfolding decode_opt opt_body
decode-opt_body udp ttl os rest hu ht ho hr =
    let opts : Bytes = option_list os in
    let n : ℕ = options_length os in
    let len : length opts ≡ n = length-option_list os in
    let taken : take n (opts ++ rest) ≡ opts =
      ap (λ k. take k (opts ++ rest)) (sym len) ∙ take-append opts rest in
    rw
      (
        join_octets udp hu,
        join_octets n hr,
        join_word ttl ht,
        taken,
        decode-option_list os n ho (omega (arith, len)),
        decode_opt,
      )
      (ground (arith, length-append opts rest, len))

-- The fields of the TTL, which has 32 bits.
opt_ttl_parts :
    (rcode version : ℕ) (do_flag : Bool) (z : ℕ)
    → rcode < 256
    → version < 256
    → z < 2 ^ 15
    → (opt_ttl rcode version do_flag z < 2 ^ 32)
      × (opt_ttl rcode version do_flag z / 2 ^ 24 % 256 ≡ rcode)
      × (opt_ttl rcode version do_flag z / 2 ^ 16 % 256 ≡ version)
      × (not (opt_ttl rcode version do_flag z / 2 ^ 15 % 2 == 0) ≡ do_flag)
      × (opt_ttl rcode version do_flag z % 2 ^ 15 ≡ z)
opt_ttl_parts rcode version true z hr hv hz =
    (omega arith, omega arith, omega arith, ground arith, omega arith)
opt_ttl_parts rcode version false z hr hv hz =
    (omega arith, omega arith, omega arith, ground arith, omega arith)

picked_size : (n : ℕ) → 0 < n → (if n == 0 then 4096 else n) ≡ n
picked_size n h = ground arith

-- `DecodeOPT`, behind the octet of the root name, reads the record that `Encode` wrote.
pub decode_opt-encode_edns :
    (e : Edns) (rest : Bytes)
    → FitsOpt e
    → decode_opt (drop 1 (encode_edns (some e) []) ++ rest) ≡ ok e
unfolding encode_edns
decode_opt-encode_edns e rest h =
    let z_kept : e.z % 2 ^ 15 ≡ e.z = omega (arith, h.4) in
    let parts = opt_ttl_parts e.extended_rcode e.version e.do_flag e.z h.2 h.3 h.4 in
    let ttl : ℕ = opt_ttl e.extended_rcode e.version e.do_flag e.z in
    rw
      (
        picked_size e.udp_payload_size h.0,
        z_kept,
        append_opt_lem e.udp_payload_size e.extended_rcode e.version e.do_flag e.z e.options,
        decode-opt_body e.udp_payload_size ttl e.options rest h.1 parts.0 h.5 h.6,
        parts.1,
        parts.2,
        parts.3,
        parts.4,
      )
      refl
