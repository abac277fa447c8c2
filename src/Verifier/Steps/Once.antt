-- ===== src/Verifier/Steps/Once.antt =====
-- Walking a zone again adds nothing twice.
use dnsdata_go.Common.{
  ◌≡◌, refl, arith, Bool, true, false, ◌||◌, List, [], ◌∷◌, ◌++◌, if◌then◌else◌, inl, inr,
  Bool-cases, All, Bytes, equal, equal_iff,
}
use dnsdata_go.Verifier.Steps.{SigCheck, ZoneStep, same_check, contains_sig, add_sigs, add_step}

same_check_refl : (c : SigCheck) → same_check c c ≡ true
unfolding same_check
same_check_refl c =
    ground
      (arith, equal_iff c.name c.name, equal_iff c.signer c.signer, equal_iff c.outcome c.outcome)

contains-append_left :
    (sigs more : List SigCheck) (c : SigCheck)
    → contains_sig sigs c ≡ true
    → contains_sig (sigs ++ more) c ≡ true
unfolding contains_sig
contains-append_left [] more c h = cc
contains-append_left (s ∷ sigs) more c h = ground (arith, contains-append_left sigs more c)

contains_last : (sigs : List SigCheck) (c : SigCheck) → contains_sig (sigs ++ c ∷ []) c ≡ true
unfolding contains_sig
contains_last [] c = ground (arith, same_check_refl c)
contains_last (s ∷ sigs) c = ground (arith, contains_last sigs c)

-- The signatures behind the first round of `add_sigs`.
abbrev with_check : List SigCheck → SigCheck → List SigCheck
with_check sigs c = if contains_sig sigs c then sigs else sigs ++ c ∷ []

with_check_keeps :
    (sigs : List SigCheck) (d c : SigCheck)
    → contains_sig sigs c ≡ true
    → contains_sig (with_check sigs d) c ≡ true
with_check_keeps sigs d c h = ground (arith, contains-append_left sigs (d ∷ []) c h)

with_check_has : (sigs : List SigCheck) (c : SigCheck) → contains_sig (with_check sigs c) c ≡ true
with_check_has sigs c = ground (arith, contains_last sigs c)

add_sigs_keeps :
    (checks sigs : List SigCheck) (c : SigCheck)
    → contains_sig sigs c ≡ true
    → contains_sig (add_sigs sigs checks) c ≡ true
unfolding add_sigs
add_sigs_keeps [] sigs c h = h
add_sigs_keeps (d ∷ checks) sigs c h =
    add_sigs_keeps checks (with_check sigs d) c (with_check_keeps sigs d c h)

-- Each check is in the list behind `add_sigs`.
pub add_sigs_has :
    (checks sigs : List SigCheck) → All (λ c. contains_sig (add_sigs sigs checks) c ≡ true) checks
unfolding add_sigs
add_sigs_has [] sigs = tt
add_sigs_has (c ∷ checks) sigs = (
  add_sigs_keeps checks (with_check sigs c) c (with_check_has sigs c),
  add_sigs_has checks (with_check sigs c),
)

add_sigs_known :
    (checks sigs : List SigCheck)
    → All (λ c. contains_sig sigs c ≡ true) checks
    → add_sigs sigs checks ≡ sigs
unfolding add_sigs
add_sigs_known [] sigs h = refl
add_sigs_known (c ∷ checks) sigs (h, hs) = rw h (add_sigs_known checks sigs hs)

add_sigs_twice :
    (sigs checks : List SigCheck) → add_sigs (add_sigs sigs checks) checks ≡ add_sigs sigs checks
add_sigs_twice sigs checks = add_sigs_known checks (add_sigs sigs checks) (add_sigs_has checks sigs)

-- Adding a step a second time changes nothing.
pub add_step_twice :
    (chain : List ZoneStep) (step : ZoneStep)
    → add_step (add_step chain step) step ≡ add_step chain step
unfolding add_step
add_step_twice [] step =
    rw ((equal_iff step.zone step.zone).1 refl, add_sigs_twice [] step.signatures) refl
add_step_twice (s ∷ chain) step = elim (Bool-cases (equal s.zone step.zone)) [
  | inl e ↦ rw (e, e, add_sigs_twice s.signatures step.signatures) refl
  | inr n ↦ rw (n, n, add_step_twice chain step) refl
]

-- The zones of a chain.
abbrev pub zones : List ZoneStep → List Bytes
zones [] = []
zones (s ∷ chain) = s.zone ∷ zones chain

abbrev pub occurs : Bytes → List Bytes → Bool
occurs z [] = false
occurs z (s ∷ list) = equal s z || occurs z list

-- Adding a step keeps the zones in their order, and puts a zone that is not there at the end.
pub add_step-zones :
    (chain : List ZoneStep) (step : ZoneStep)
    → zones (add_step chain step)
      ≡ (if occurs step.zone (zones chain) then zones chain else zones chain ++ step.zone ∷ [])
unfolding add_step
add_step-zones [] step = refl
add_step-zones (s ∷ chain) step = elim (Bool-cases (equal s.zone step.zone)) [
  | inl e ↦ rw e refl
  | inr n ↦ rw (n, add_step-zones chain step) (ground arith)
]
