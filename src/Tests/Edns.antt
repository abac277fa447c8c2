-- ===== src/Tests/Edns.antt =====
-- The OPT record at a concrete value.
use dnsdata_go.Common.{◌≡◌, arith, true, [], ◌∷◌, ◌++◌, some, drop, ok}
use dnsdata_go.Wire.Edns.{Edns, encode_edns, decode_opt, options_length}
use dnsdata_go.Wire.Edns.RoundTrip.{FitsOpt, decode_opt-encode_edns}

-- DO, a payload size of 1232 and an NSID option.
abbrev nsid : Edns
nsid = record {
  udp_payload_size = 1232;
  extended_rcode = 1;
  version = 0;
  do_flag = true;
  z = 5;
  options = record { code = 3; payload = 7 ∷ 8 ∷ [] } ∷ [];
}

nsid_fits : FitsOpt nsid
unfolding options_length
nsid_fits = ground arith

decode_opt-encode_edns_example :
    decode_opt (drop 1 (encode_edns (some nsid) []) ++ 9 ∷ []) ≡ ok nsid
decode_opt-encode_edns_example = decode_opt-encode_edns nsid (9 ∷ []) nsid_fits
