-- ===== src/Verifier/Chain/Alias.antt =====
-- `tryCNAME` and `tryDNAME` of verifier/alias.go.
use dnsdata_go.Common.{not, List, [], ◌∷◌, Option, none, some, if◌then◌else◌, Bytes, equal, ok}
use dnsdata_go.Text.{Unicode, trim_space}
use dnsdata_go.Types.{type_cname}
use dnsdata_go.Types.{type_dname}
use dnsdata_go.Zone.Canonical.{equal_canonical_names}
use dnsdata_go.Dnssec.Zone.{mode_none, ZoneRecord, Zone, find_rr_set}
use dnsdata_go.Verifier.Verdict.{indeterminate}
use dnsdata_go.Verifier.Codes.{alias_target_invalid}
use dnsdata_go.Verifier.Names.{normalize_q_name, synthesise_dname_target}
use dnsdata_go.Verifier.Walk.{AliasStep}
use dnsdata_go.Verifier.Chain.{Setting, Run, Chained, and_then, RrSetCheck, check_set}
use dnsdata_go.Verifier.Chain.Leaf.{Outcome, bogus_outcome, alias_outcome, add_sigs_to}

abbrev pub cname_text : Bytes
cname_text = b'c' ∷ b'n' ∷ b'a' ∷ b'm' ∷ b'e' ∷ []

abbrev pub dname_text : Bytes
dname_text = b'd' ∷ b'n' ∷ b'a' ∷ b'm' ∷ b'e' ∷ []

-- The AliasStep, whose verdict is not set yet.
unfoldable pub alias_step : Bytes → Bytes → Bytes → Bytes → AliasStep
alias_step alias_type from target name = record {
  alias_type = alias_type;
  from = from;
  target = target;
  zone = name;
  verdict = indeterminate;
}

-- `tryCNAME` behind the check of the record set.
unfoldable pub cname_checked : Bytes → Bytes → Bytes → RrSetCheck → Run → Chained (Option Outcome)
unfolding bogus_outcome alias_outcome alias_step add_sigs_to
cname_checked name qname target c r =
    let after = add_sigs_to r name c.sigs in
    if not c.verified
    then (ok (some (bogus_outcome name c.code)), after)
    else (ok (some (alias_outcome (alias_step cname_text qname target name))), after)

-- `tryDNAME` behind the check of the record set at an ancestor, with the synthesised name.
unfoldable pub dname_checked : Bytes → Bytes → Bytes → RrSetCheck → Run → Chained (Option Outcome)
unfolding bogus_outcome alias_outcome alias_step add_sigs_to
dname_checked name ancestor synth c r =
    let after = add_sigs_to r name c.sigs in
    if not c.verified
    then (ok (some (bogus_outcome name c.code)), after)
    else if equal synth []
    then (ok (some (bogus_outcome ancestor (some alias_target_invalid))), after)
    else (ok (some (alias_outcome (alias_step dname_text ancestor synth name))), after)

module _ ⦃u : Unicode⦄ where
  -- The target that both functions read from the first record.
  unfoldable pub target_of : ZoneRecord → Bytes
  target_of rr = normalize_q_name (trim_space rr.value)

module _ (s : Setting) ⦃u : Unicode⦄ where
  -- `tryCNAME`, on the record set at the name.
  unfoldable pub cname_at : Zone → Bytes → Bytes → List ZoneRecord → Run → Chained (Option Outcome)
  unfolding cname_checked target_of bogus_outcome
  cname_at z name qname [] r = (ok none, r)
  cname_at z name qname (rr ∷ rrs) r =
      if equal (target_of rr) []
      then (ok (some (bogus_outcome qname (some alias_target_invalid))), r)
      else and_then (check_set s z qname type_cname mode_none r)
          (cname_checked name qname (target_of rr))

  -- `tryCNAME`
  unfoldable pub try_cname : Zone → Bytes → Bytes → Run → Chained (Option Outcome)
  unfolding cname_at
  try_cname z name qname r = cname_at z name qname (find_rr_set z.records qname type_cname) r

  -- The body of the loop of `tryDNAME` for a record set that is not empty.
  unfoldable pub dname_at :
      Zone → Bytes → Bytes → Bytes → ZoneRecord → Run → Chained (Option Outcome)
  unfolding dname_checked target_of bogus_outcome
  dname_at z name qname ancestor rr r =
      let target = target_of rr in
      if equal target []
      then (ok (some (bogus_outcome ancestor (some alias_target_invalid))), r)
      else and_then (check_set s z ancestor type_dname mode_none r)
          (dname_checked name ancestor (synthesise_dname_target qname ancestor target))

  -- The body of the loop of `tryDNAME`, with the loop behind it.
  unfoldable pub dname_in :
      Zone
      → Bytes
      → Bytes
      → Bytes
      → List ZoneRecord
      → (Run → Chained (Option Outcome))
      → Run
      → Chained (Option Outcome)
  unfolding dname_at
  dname_in z name qname ancestor [] rest r = rest r
  dname_in z name qname ancestor (rr ∷ rrs) rest r = dname_at z name qname ancestor rr r

  -- `tryDNAME`, on the ancestors that are left.
  unfoldable pub try_dname : Zone → Bytes → Bytes → List Bytes → Run → Chained (Option Outcome)
  unfolding dname_in
  try_dname z name qname [] r = (ok none, r)
  try_dname z name qname (a ∷ ancestors) r =
      let rest = try_dname z name qname ancestors in
      if equal_canonical_names a qname
      then rest r
      else dname_in z name qname a (find_rr_set z.records a type_dname) rest r
