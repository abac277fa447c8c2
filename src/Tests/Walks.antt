-- ===== src/Tests/Walks.antt =====
-- The loop of `Validate` with one redirection: "a." leads to "b.", which has no such data.
use dnsdata_go.Common.{
  sym, ◌∙◌, ℕ, ◌≡◌, refl, ap, Bool, true, false, [], ◌∷◌, Option, none, some, Bytes, ok, equal,
}
use dnsdata_go.Text.{Unicode, is_ascii, to_lower, lower_octet, trim_space, drop_spaces, is_space}
use dnsdata_go.Verifier.Verdict.{Verdict, secure, secure_no_data, combine_verdicts}
use dnsdata_go.Verifier.Names.{normalize_q_name, with_dot}
use dnsdata_go.Verifier.Walk.{
  AliasStep, HopOutcome, WalkResult, Hops, validate, walk_start, walk_loop, walk_round, after_hop,
  follow, is_seen, apply_outcome,
}
use dnsdata_go.Verifier.Walk.Verdicts.{RedirectsSecurely}

instance abbrev plain_text : Unicode
plain_text = record { lower = λ s. s; upper = λ s. s; same_fold = λ a b. false; trim = λ s. s }

abbrev a_name : Bytes
a_name = b'a' ∷ b'.' ∷ []

abbrev b_name : Bytes
b_name = b'b' ∷ b'.' ∷ []

abbrev to_b : AliasStep
to_b = record { alias_type = []; from = a_name; target = b_name; zone = []; verdict = secure }

abbrev outcome : Verdict → Option AliasStep → HopOutcome ℕ
outcome v redirect = record {
  verdict = v;
  bogus_at = [];
  insecure_at = [];
  insecure_reason = none;
  negative_reason = none;
  reason_code = none;
  alias = redirect;
  wildcard = none;
  answer = none;
}

abbrev hop_at : Bool → HopOutcome ℕ
hop_at true = outcome secure (some to_b)
hop_at false = outcome secure_no_data none

abbrev two_hops : Hops ℕ (Unit {0}) ℕ
two_hops = record {
  one_hop = λ name r. (ok (hop_at (equal name a_name)), r);
  ctx_err = λ n. none;
  invalid_q_name = 0;
}

abbrev ended : WalkResult (Unit {0}) ℕ
ended = record {
  verdict = secure_no_data;
  bogus_at = [];
  insecure_at = [];
  insecure_reason = none;
  negative_reason = none;
  reason_code = none;
  evidence = tt;
  aliases = to_b ∷ [];
  wildcard = none;
  answer = none;
}

walk_run : validate two_hops a_name tt ≡ (some ended, none)
unfolding validate walk_start walk_loop walk_round after_hop follow is_seen apply_outcome
    normalize_q_name with_dot to_lower lower_octet is_ascii trim_space drop_spaces is_space equal
    combine_verdicts
walk_run = refl

redirects_are_secure :
    (b : Bool) (o : HopOutcome ℕ) (a : AliasStep)
    → hop_at b ≡ o
    → o.alias ≡ some a
    → o.verdict ≡ secure
redirects_are_secure true o a h e = ap (λ k. k.verdict) (sym h)
redirects_are_secure false o a h e = cc (ap (λ k. k.alias) h ∙ e)

secure_law : RedirectsSecurely two_hops
secure_law name r r' o a h e = redirects_are_secure (equal name a_name) o a (cc (ap (λ p. p.0) h)) e
