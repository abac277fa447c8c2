-- ===== src/Verifier/Steps.antt =====
-- verifier/sigcheck.go: the chain of a result, one step for each zone. The events are left out.
-- `detectWildcard` of verifier/wildcard.go.
pub mod Once
pub mod Wildcards
use dnsdata_go.Common.{
  ℕ, suc, ◌+◌, Bool, true, false, ◌&&◌, ◌||◌, List, [], ◌∷◌, ◌++◌, Option, none, some, ltb, leb,
  ◌==◌, if◌then◌else◌, Bytes, equal,
}
use dnsdata_go.Text.{Unicode}
use dnsdata_go.Zone.Canonical.{label_count, last_n_labels}
use dnsdata_go.Verifier.Walk.{WildcardInfo}

pub record KeySummary : Type 0 where
  pub key_tag : ℕ
  pub algorithm : ℕ
  pub sep : Bool

pub record DsSummary : Type 0 where
  pub key_tag : ℕ
  pub algorithm : ℕ
  pub digest_type : ℕ

pub record SigCheck : Type 0 where
  pub name : Bytes
  pub rr_type : ℕ
  pub key_tag : ℕ
  pub algorithm : ℕ
  pub signer : Bytes
  pub inception : ℕ
  pub expiration : ℕ
  pub outcome : Bytes

pub record ZoneStep : Type 0 where
  pub zone : Bytes
  pub dnskeys : List KeySummary
  pub ds_digests : List DsSummary
  pub signed_by : Option KeySummary
  pub signatures : List SigCheck

-- The test in the loop of `containsSig`.
unfoldable pub same_check : SigCheck → SigCheck → Bool
same_check s c =
    equal s.name c.name
    && s.rr_type == c.rr_type
    && s.key_tag == c.key_tag
    && s.algorithm == c.algorithm
    && equal s.signer c.signer
    && equal s.outcome c.outcome
    && s.inception == c.inception
    && s.expiration == c.expiration

-- `containsSig`
unfoldable pub contains_sig : List SigCheck → SigCheck → Bool
contains_sig [] c = false
contains_sig (s ∷ list) c = same_check s c || contains_sig list c

-- `addSigs`, on the signatures of the step.
unfoldable pub add_sigs : List SigCheck → List SigCheck → List SigCheck
add_sigs sigs [] = sigs
add_sigs sigs (c ∷ checks) =
    let next = if contains_sig sigs c then sigs else sigs ++ c ∷ [] in add_sigs next checks

-- `addStep`, on the chain of the result.
unfoldable pub add_step : List ZoneStep → ZoneStep → List ZoneStep
add_step [] step = record step { signatures = add_sigs [] step.signatures } ∷ []
add_step (s ∷ chain) step =
    let rest = add_step chain step in
    if equal s.zone step.zone
    then record s { signatures = add_sigs s.signatures step.signatures } ∷ chain
    else s ∷ rest

-- `addZoneSigs`
unfoldable pub add_zone_sigs : List ZoneStep → Bytes → List SigCheck → List ZoneStep
add_zone_sigs chain zone_name checks = add_step chain (record {
  zone = zone_name;
  dnskeys = [];
  ds_digests = [];
  signed_by = none;
  signatures = checks;
})

module _ ⦃u : Unicode⦄ where
  -- The WildcardInfo that `detectWildcard` returns for a Labels field.
  unfoldable pub wildcard_info : Bytes → ℕ → WildcardInfo
  wildcard_info qname labels =
      let closest = last_n_labels qname labels in
      record {
        source = b'*' ∷ b'.' ∷ closest;
        closest_encloser = closest;
        next_closer = last_n_labels qname (labels + 1);
        proof_reason = none;
      }

  -- `detectWildcard`, on the Labels fields of the RRSIGs that `FindRRSIGs` returns.
  unfoldable pub detect_wildcard : Bytes → List ℕ → Option WildcardInfo
  detect_wildcard qname [] = none
  detect_wildcard qname (labels ∷ sigs) =
      let rest = detect_wildcard qname sigs in
      if leb (label_count qname) labels then rest else some (wildcard_info qname labels)
