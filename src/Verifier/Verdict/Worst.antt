-- ===== src/Verifier/Verdict/Worst.antt =====
-- Verdicts merge by a worst-of policy.
use dnsdata_go.Common.{equal, ℕ, ◌≡◌, refl, arith, leb, if◌then◌else◌}
use dnsdata_go.Verifier.Verdict.{
  Verdict, secure, secure_no_data, secure_nx_domain, insecure, bogus, indeterminate, verdict_text,
  verdict_of_text, combine_verdicts,
}

-- The order that the comment on `combineVerdicts` gives, from best to worst, with secure ahead of
-- the secure negatives.
abbrev pub severity : Verdict → ℕ
severity secure = 0
severity secure_no_data = 1
severity secure_nx_domain = 1
severity indeterminate = 2
severity insecure = 3
severity bogus = 4

-- Merging gives one of the two verdicts, the worse one, and the order of merging three verdicts
-- from left to right or from right to left does not matter.
pub combine_verdicts_worst :
    (a b c : Verdict)
    → (severity (combine_verdicts a b)
        ≡ (if leb (severity a) (severity b) then severity b else severity a))
      × (combine_verdicts a (combine_verdicts b c) ≡ combine_verdicts (combine_verdicts a b) c)
      × (combine_verdicts a a ≡ a)
unfolding combine_verdicts
combine_verdicts_worst a b c = ground arith

-- Reading the text of a verdict gives the verdict.
pub verdict_of_text-verdict_text : (v : Verdict) → verdict_of_text (verdict_text v) ≡ v
unfolding verdict_of_text verdict_text equal
verdict_of_text-verdict_text secure = refl
verdict_of_text-verdict_text secure_no_data = refl
verdict_of_text-verdict_text secure_nx_domain = refl
verdict_of_text-verdict_text insecure = refl
verdict_of_text-verdict_text bogus = refl
verdict_of_text-verdict_text indeterminate = refl
