-- ===== src/Verifier/Chain/Summary.antt =====
-- `summarizeZone` of verifier/chain.go.
use dnsdata_go.Common.{◌%◌, not, List, [], ◌∷◌, map, Option, none, some, ◌==◌, Bytes}
use dnsdata_go.Types.{type_dnskey, type_ds}
use dnsdata_go.Dnssec.Crypto.{DnsKey, calc_key_tag}
use dnsdata_go.Dnssec.Zone.{ZoneRecord, Zone, find_rr_set}
use dnsdata_go.Verifier.Steps.{KeySummary, DsSummary, SigCheck, ZoneStep}
use dnsdata_go.Verifier.Chain.Keys.{as_dnskey, ds_set}

-- The KeySummary of a key; `IsSecureEntryPoint` reads the lowest bit of the flags.
unfoldable pub key_summary : DnsKey → KeySummary
key_summary k = record {
  key_tag = calc_key_tag k;
  algorithm = k.algorithm;
  sep = not (k.flags % 2 == 0);
}

-- The loop of `summarizeDNSKEYs`.
unfoldable pub summarize_keys : List ZoneRecord → List KeySummary
unfolding as_dnskey key_summary
summarize_keys [] = []
summarize_keys (rr ∷ rrs) =
    let rest = summarize_keys rrs in
    elim (as_dnskey rr.handler) [ none ↦ rest | some k ↦ key_summary k ∷ rest ]

-- `summarizeDNSKEYs`
unfoldable pub summarize_dnskeys : Bytes → Option Zone → List KeySummary
unfolding summarize_keys
summarize_dnskeys name none = []
summarize_dnskeys name (some z) = summarize_keys (find_rr_set z.records name type_dnskey)

-- `summarizeDS`
unfoldable pub summarize_ds : Bytes → Option Zone → List DsSummary
unfolding ds_set
summarize_ds name none = []
summarize_ds name (some parent) =
    map (λ d. record { key_tag = d.key_tag; algorithm = d.algorithm; digest_type = d.digest_type })
      (ds_set (find_rr_set parent.records name type_ds))

-- `summarizeZone`
unfoldable pub summarize_zone :
    Bytes → Option Zone → Option Zone → Option DnsKey → List SigCheck → ZoneStep
unfolding summarize_dnskeys summarize_ds key_summary
summarize_zone name z parent ksk sigs = record {
  zone = name;
  dnskeys = summarize_dnskeys name z;
  ds_digests = summarize_ds name parent;
  signed_by = elim ksk [ none ↦ none | some k ↦ some (key_summary k) ];
  signatures = sigs;
}
