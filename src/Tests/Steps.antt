-- ===== src/Tests/Steps.antt =====
-- Steps of a chain and wildcard detection at concrete values.
use dnsdata_go.Common.{◌≡◌, arith, false, [], ◌∷◌, some, none, All}
use dnsdata_go.Text.{Unicode}
use dnsdata_go.Verifier.Names.{dotted, next_closer_name}
use dnsdata_go.Verifier.Names.Lower.{IsLowerLabel}
use dnsdata_go.Verifier.Steps.{SigCheck, ZoneStep, add_step, detect_wildcard}
use dnsdata_go.Verifier.Steps.Once.{add_step_twice}
use dnsdata_go.Verifier.Steps.Wildcards.{detect_wildcard_names}

instance abbrev no_fold : Unicode
no_fold = record { lower = λ s. s; upper = λ s. s; same_fold = λ a b. false; trim = λ s. s }

abbrev checked : SigCheck
checked = record {
  name = b'.' ∷ [];
  rr_type = 48;
  key_tag = 1;
  algorithm = 13;
  signer = b'.' ∷ [];
  inception = 5;
  expiration = 9;
  outcome = [];
}

abbrev root_step : ZoneStep
root_step = record {
  zone = b'.' ∷ [];
  dnskeys = [];
  ds_digests = [];
  signed_by = none;
  signatures = checked ∷ checked ∷ [];
}

add_step_twice_example : add_step (add_step [] root_step) root_step ≡ add_step [] root_step
add_step_twice_example = add_step_twice [] root_step

-- The name "*.org." itself, whose signature has one label (RFC 4034 §3.1.3).
star_org : All IsLowerLabel ((b'*' ∷ []) ∷ (b'o' ∷ b'r' ∷ b'g' ∷ []) ∷ [])
star_org = ground arith

detect_wildcard_names_example :
    detect_wildcard (dotted ((b'*' ∷ []) ∷ (b'o' ∷ b'r' ∷ b'g' ∷ []) ∷ [])) (1 ∷ [])
    ≡ some (record {
      source = b'*' ∷ b'.' ∷ dotted ((b'o' ∷ b'r' ∷ b'g' ∷ []) ∷ []);
      closest_encloser = dotted ((b'o' ∷ b'r' ∷ b'g' ∷ []) ∷ []);
      next_closer =
          next_closer_name
            (dotted ((b'*' ∷ []) ∷ (b'o' ∷ b'r' ∷ b'g' ∷ []) ∷ []))
            (dotted ((b'o' ∷ b'r' ∷ b'g' ∷ []) ∷ []));
      proof_reason = none;
    })
detect_wildcard_names_example =
    detect_wildcard_names [] (b'*' ∷ []) ((b'o' ∷ b'r' ∷ b'g' ∷ []) ∷ []) [] star_org
