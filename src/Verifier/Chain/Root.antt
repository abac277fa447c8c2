-- ===== src/Verifier/Chain/Root.antt =====
-- `validateRoot` of verifier/chain.go: the root zone, authenticated by the trust anchors. No zone comes
-- out where the verdict Bogus is set instead.
use dnsdata_go.Common.{ℕ, not, List, [], Option, none, some, if◌then◌else◌, Result, ok, err}
use dnsdata_go.Text.{Unicode}
use dnsdata_go.Types.{type_dnskey}
use dnsdata_go.Dnssec.Crypto.{DnsKey}
use dnsdata_go.Dnssec.Zone.{mode_ksk, Zone}
use dnsdata_go.Verifier.Codes.{trust_anchor_mismatch}
use dnsdata_go.Verifier.Names.{root_name}
use dnsdata_go.Verifier.Walk.{set_bogus}
use dnsdata_go.Verifier.Chain.{Setting, Run, Chained, and_then, RrSetCheck, check_set}
use dnsdata_go.Verifier.Chain.Loading.{load_records}
use dnsdata_go.Verifier.Chain.Keys.{KeyMatchError, match_ksk_with_anchors, signing_ksk, trust_keys}
use dnsdata_go.Verifier.Chain.Summary.{summarize_zone}
use dnsdata_go.Verifier.Chain.Descent.{new_zone, add_step_to}

module _ (s : Setting) ⦃u : Unicode⦄ where
  -- The end of `validateRoot`, behind the check of the DNSKEY record set.
  unfoldable pub root_checked : Zone → List DnsKey → RrSetCheck → Run → Chained (Option Zone)
  unfolding add_step_to summarize_zone signing_ksk set_bogus
  root_checked z ksks c r =
      if not c.verified
      then (
        ok none,
        set_bogus (add_step_to r (summarize_zone root_name (some z) none none c.sigs)) root_name
            c.code,
      )
      else (
        ok (some z),
        add_step_to r (summarize_zone root_name (some z) none (signing_ksk ksks c.sigs) c.sigs),
      )

  -- Behind `matchKSKWithAnchors`.
  unfoldable pub root_matched :
      Zone → Result KeyMatchError (List DnsKey) → Run → Chained (Option Zone)
  unfolding root_checked
  root_matched z (err e) r = (
    ok none,
    set_bogus (add_step_to r (summarize_zone root_name (some z) none none [])) root_name
        (some trust_anchor_mismatch),
  )
  root_matched z (ok ksks) r =
      and_then (check_set s (trust_keys z ksks) root_name type_dnskey mode_ksk r)
        (root_checked (trust_keys z ksks) ksks)

  -- Behind the answer to the DNSKEY query.
  unfoldable pub root_loaded : ℕ × Zone → Run → Chained (Option Zone)
  unfolding root_matched
  root_loaded (count, z) r = root_matched z (match_ksk_with_anchors s.schemes z s.anchors) r

  -- `validateRoot`
  unfoldable pub validate_root : Run → Chained (Option Zone)
  unfolding root_loaded new_zone
  validate_root r =
      and_then (load_records s (new_zone s.now none) root_name type_dnskey r) root_loaded
