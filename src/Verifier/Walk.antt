-- ===== src/Verifier/Walk.antt =====
-- `Validate` of verifier/chain.go: the loop that follows CNAME and DNAME redirections. One hop of the
-- walk, `validateOneHop`, is an argument; the chain and the evidence that it gathers in the result
-- are the type `Evidence`. The events that the loop emits are left out.
pub mod Verdicts
pub mod Visited
use dnsdata_go.Common.{
  ℕ, zero, suc, Bool, true, false, ◌||◌, List, [], ◌∷◌, ◌++◌, Option, none, some, if◌then◌else◌,
  Bytes, equal, Result, ok, err,
}
use dnsdata_go.Text.{Unicode}
use dnsdata_go.Verifier.Verdict.{
  Verdict, secure, bogus, indeterminate, combine_verdicts, same_verdict,
}
use dnsdata_go.Verifier.Names.{normalize_q_name}
use dnsdata_go.Verifier.Denial.{Reason}
use dnsdata_go.Verifier.Codes.{ReasonCode, alias_loop, alias_limit}

-- `MaxAliasHops`
abbrev pub max_alias_hops : ℕ
max_alias_hops = 10

pub record AliasStep : Type 0 where
  pub alias_type : Bytes
  pub from : Bytes
  pub target : Bytes
  pub zone : Bytes
  pub verdict : Verdict

pub record WildcardInfo : Type 0 where
  pub source : Bytes
  pub closest_encloser : Bytes
  pub next_closer : Bytes
  pub proof_reason : Option Reason

-- `hopOutcome`, less its text `BogusReason`; an empty text is a field that is not set, and a
-- reason stands for the text that it makes.
pub record HopOutcome (Answer : Type 0) : Type 0 where
  pub verdict : Verdict
  pub bogus_at : Bytes
  pub insecure_at : Bytes
  pub insecure_reason : Option Reason
  pub negative_reason : Option Reason
  pub reason_code : Option ReasonCode
  pub alias : Option AliasStep
  pub wildcard : Option WildcardInfo
  pub answer : Option Answer

-- `Result`, less its text `BogusReason`.
pub record WalkResult (Evidence Answer : Type 0) : Type 0 where
  pub verdict : Verdict
  pub bogus_at : Bytes
  pub insecure_at : Bytes
  pub insecure_reason : Option Reason
  pub negative_reason : Option Reason
  pub reason_code : Option ReasonCode
  pub evidence : Evidence
  pub aliases : List AliasStep
  pub wildcard : Option WildcardInfo
  pub answer : Option Answer

-- The variables of the loop.
pub record Walk (Evidence Answer : Type 0) : Type 0 where
  pub current : Bytes
  pub seen : List Bytes
  pub combined : Option Verdict
  pub hop : ℕ
  pub result : WalkResult Evidence Answer

-- How a round of the loop ends: it returns, or goes on.
pub data Next (E Evidence Answer : Type 0) : Type 0 where
  stop : WalkResult Evidence Answer → Option E → Next E Evidence Answer
  go : Walk Evidence Answer → Next E Evidence Answer

-- `seen[name]`
unfoldable pub is_seen : Bytes → List Bytes → Bool
is_seen name [] = false
is_seen name (s ∷ seen) = equal name s || is_seen name seen

-- `if new != "" { old = new }`
abbrev pub overwrite : Bytes → Bytes → Bytes
overwrite old [] = old
overwrite old (c ∷ cs) = c ∷ cs

abbrev pub overwrite_option : {A : Type 0} → Option A → Option A → Option A
overwrite_option old none = old
overwrite_option old (some a) = some a

-- The verdict merged with those of the hops before, if there are any.
abbrev pub merged : Option Verdict → Verdict → Verdict
merged none v = v
merged (some c) v = combine_verdicts c v

module _ {Evidence Answer : Type 0} where
  -- `setBogus`
  unfoldable pub set_bogus :
      WalkResult Evidence Answer → Bytes → Option ReasonCode → WalkResult Evidence Answer
  set_bogus r at_name code = record r { verdict = bogus; bogus_at = at_name; reason_code = code }

  -- `applyOutcome`
  unfoldable pub apply_outcome :
      WalkResult Evidence Answer → HopOutcome Answer → Verdict → WalkResult Evidence Answer
  apply_outcome r o combined = record r {
    verdict = combined;
    bogus_at = overwrite r.bogus_at o.bogus_at;
    insecure_at = overwrite r.insecure_at o.insecure_at;
    insecure_reason = overwrite_option r.insecure_reason o.insecure_reason;
    negative_reason = overwrite_option r.negative_reason o.negative_reason;
    reason_code = overwrite_option r.reason_code o.reason_code;
    wildcard = overwrite_option r.wildcard o.wildcard;
    answer = if same_verdict combined secure then o.answer else r.answer;
  }

-- `validateOneHop` and `ctx.Err()`: the outcome of a hop for a name beside the result that it has
-- written to, and the error of the context at the start of a round;
-- `ErrInvalidQName`.
pub record Hops (E Evidence Answer : Type 0) : Type 0 where
  pub one_hop :
      Bytes → WalkResult Evidence Answer → Result E (HopOutcome Answer) × WalkResult Evidence Answer
  pub ctx_err : ℕ → Option E
  pub invalid_q_name : E

module _ {E Evidence Answer : Type 0} (hops : Hops E Evidence Answer) where
  -- The end of a round, by the alias of the outcome.
  unfoldable pub follow :
      Walk Evidence Answer
      → HopOutcome Answer
      → WalkResult Evidence Answer
      → Option AliasStep
      → Next E Evidence Answer
  follow w o r none = stop (apply_outcome r o (merged w.combined o.verdict)) none
  follow w o r (some a) = go (record {
    current = a.target;
    seen = w.current ∷ w.seen;
    combined = some (merged w.combined o.verdict);
    hop = suc w.hop;
    result = record r { aliases = r.aliases ++ (record a { verdict = o.verdict }) ∷ [] };
  })

  -- The round behind the call of `validateOneHop`.
  unfoldable pub after_hop :
      Walk Evidence Answer
      → Result E (HopOutcome Answer) × WalkResult Evidence Answer
      → Next E Evidence Answer
  after_hop w (err e, r) = stop r (some e)
  after_hop w (ok o, r) = follow w o r o.alias

  -- One round.
  unfoldable pub walk_round : Walk Evidence Answer → Next E Evidence Answer
  walk_round w = elim (hops.ctx_err w.hop) [
    | some e ↦ stop w.result (some e)
    | none ↦
        if is_seen w.current w.seen
        then stop (set_bogus w.result w.current (some alias_loop)) none
        else after_hop w (hops.one_hop w.current w.result)
  ]

  -- The loop, with the rounds that are left.
  unfoldable pub walk_loop : ℕ → Walk Evidence Answer → WalkResult Evidence Answer × Option E
  walk_loop zero w = (set_bogus w.result w.current (some alias_limit), none)
  walk_loop (suc n) w = elim (walk_round w) [ stop r e ↦ (r, e) | go next ↦ walk_loop n next ]

  -- The loop's variables before its first round.
  unfoldable pub walk_start : Bytes → Evidence → Walk Evidence Answer
  walk_start name evidence = record {
    current = name;
    seen = [];
    combined = none;
    hop = 0;
    result = record {
      verdict = indeterminate;
      bogus_at = [];
      insecure_at = [];
      insecure_reason = none;
      negative_reason = none;
      reason_code = none;
      evidence = evidence;
      aliases = [];
      wildcard = none;
      answer = none;
    };
  }

module _ {E Evidence Answer : Type 0} (hops : Hops E Evidence Answer) ⦃u : Unicode⦄ where
  -- `Validate`, with the empty evidence; there is no result for the empty name.
  unfoldable pub validate : Bytes → Evidence → Option (WalkResult Evidence Answer) × Option E
  validate [] evidence = (none, some hops.invalid_q_name)
  validate (c ∷ cs) evidence =
      let done =
        walk_loop hops (suc max_alias_hops)
          (walk_start hops (normalize_q_name (c ∷ cs)) evidence) in
      (some done.0, done.1)
