-- ===== src/Verifier/Chain/Hop.antt =====
-- `validateOneHop` of verifier/chain.go: one walk from the root to a name, and `Validate` over it.
use dnsdata_go.Common.{ℕ, ltb, List, [], ◌∷◌, Option, none, some, if◌then◌else◌, Bytes, ok, err}
use dnsdata_go.Text.{Unicode}
use dnsdata_go.Dnssec.Zone.{mode_none, Zone}
use dnsdata_go.Verifier.Verdict.{insecure}
use dnsdata_go.Verifier.Codes.{no_ds}
use dnsdata_go.Verifier.Names.{root_name, ancestors_of, descendant_zones}
use dnsdata_go.Verifier.Walk.{Hops, validate}
use dnsdata_go.Verifier.Chain.{
  ChainError, err_chain_timeout, err_invalid_q_name, CacheEntry, Setting, Session, Answer, Run,
  Chained, and_then, called, check_set,
}
use dnsdata_go.Verifier.Chain.Loading.{load_records}
use dnsdata_go.Verifier.Chain.Summary.{summarize_zone}
use dnsdata_go.Verifier.Chain.Descent.{
  descend_descended, descend_insecure, descend_no_cut, descend_bogus, DescendStatus, Descent,
  add_step_to, descend_into,
}
use dnsdata_go.Verifier.Chain.Root.{validate_root}
use dnsdata_go.Verifier.Chain.Leaf.{
  Outcome, plain_outcome, bogus_outcome, leaf_checked, negative_outcome,
}
use dnsdata_go.Verifier.Chain.Alias.{try_cname, try_dname}

-- The loop behind a descent into a child zone, which is there.
unfoldable pub entered :
    (Zone → Bytes → Run → Chained Outcome)
    → Bytes
    → Bytes
    → Zone
    → Option Zone
    → Run
    → Chained Outcome
entered loop name child parent (some z) r = loop z child r
entered loop name child parent none r = loop parent name r

-- The switch on the status of a descent, with the loop behind it.
unfoldable pub descent_status :
    (Zone → Bytes → Run → Chained Outcome)
    → Bytes
    → Bytes
    → Descent
    → DescendStatus
    → Run
    → Chained Outcome
unfolding bogus_outcome entered
descent_status loop name child d descend_descended r = entered loop name child d.parent d.zone r
descent_status loop name child d descend_insecure r = (
  ok (record (plain_outcome insecure) {
    insecure_at = child;
    insecure_reason = r.insecure_reason;
    reason_code = some no_ds;
  }),
  r,
)
descent_status loop name child d descend_bogus r = (ok (bogus_outcome child r.reason_code), r)
descent_status loop name child d descend_no_cut r = loop d.parent name r

-- The step that a descent adds to the chain.
unfoldable pub descent_step : Bytes → Descent → DescendStatus → Run → Run
unfolding add_step_to
descent_step child d descend_descended r =
    add_step_to r (summarize_zone child d.zone (some d.parent) d.ksk d.sigs)
descent_step child d descend_bogus r =
    add_step_to r (summarize_zone child d.zone (some d.parent) d.ksk d.sigs)
descent_step child d _ r = r

-- The body of the loop of `validateOneHop` behind `descendInto`.
unfoldable pub descended :
    (Zone → Bytes → Run → Chained Outcome) → Bytes → Bytes → Descent → Run → Chained Outcome
unfolding descent_status descent_step
descended loop name child d r =
    descent_status loop name child d d.status (descent_step child d d.status r)

module _ (s : Setting) ⦃u : Unicode⦄ where
  -- `resolveLeaf` behind `tryCNAME`.
  unfoldable pub cname_tried : Zone → Bytes → ℕ → Option Outcome → Run → Chained Outcome
  cname_tried z qname qtype (some o) r = (ok o, r)
  cname_tried z qname qtype none r = (ok (negative_outcome s z qname qtype), r)

  -- `resolveLeaf` behind `tryDNAME`.
  unfoldable pub dname_tried : Zone → Bytes → Bytes → ℕ → Option Outcome → Run → Chained Outcome
  unfolding cname_tried
  dname_tried z name qname qtype (some o) r = (ok o, r)
  dname_tried z name qname qtype none r =
      and_then (try_cname s z name qname r) (cname_tried z qname qtype)

  -- `resolveLeaf` behind the answer to the query.
  unfoldable pub leaf_loaded : Bytes → Bytes → ℕ → ℕ × Zone → Run → Chained Outcome
  unfolding dname_tried
  leaf_loaded name qname qtype (added, z) r =
      if ltb 0 added
      then and_then (check_set s z qname qtype mode_none r) (leaf_checked s z name qname qtype)
      else and_then (try_dname s z name qname (ancestors_of qname) r)
          (dname_tried z name qname qtype)

  -- `resolveLeaf`
  unfoldable pub resolve_leaf : Bytes → ℕ → Zone → Bytes → Run → Chained Outcome
  unfolding leaf_loaded
  resolve_leaf qname qtype z name r =
      and_then (load_records s z qname qtype r) (leaf_loaded name qname qtype)

  -- `if err := ctx.Err(); err != nil { return nil, joinChainErr(err) }`, and what follows.
  unfoldable pub unless_late : (Run → Chained Outcome) → Run → Chained Outcome
  unless_late continue r =
      if s.is_late r.evidence.calls then (err err_chain_timeout, called r) else continue (called r)

  -- The loop of `validateOneHop`, on the names that are left, from a zone and its name.
  unfoldable pub descend_loop : List Bytes → Bytes → ℕ → Zone → Bytes → Run → Chained Outcome
  unfolding unless_late descended
  descend_loop [] qname qtype z name r = unless_late (resolve_leaf qname qtype z name) r
  descend_loop (child ∷ names) qname qtype z name r =
      let loop = descend_loop names qname qtype in
      unless_late (λ r. and_then (descend_into s z child r) (descended loop name child)) r

  -- Behind `validateRoot`.
  unfoldable pub root_validated : Bytes → ℕ → Option Zone → Run → Chained Outcome
  unfolding descend_loop bogus_outcome
  root_validated qname qtype none r = (ok (bogus_outcome r.bogus_at r.reason_code), r)
  root_validated qname qtype (some z) r =
      descend_loop (descendant_zones qname) qname qtype z root_name r

  -- `validateOneHop`
  unfoldable pub validate_one_hop : ℕ → Bytes → Run → Chained Outcome
  unfolding root_validated
  validate_one_hop qtype qname r = and_then (validate_root s r) (root_validated qname qtype)

  -- The hops of `Validate`.
  abbrev pub chain_hops : ℕ → Hops ChainError Session Answer
  chain_hops qtype = record {
    one_hop = validate_one_hop qtype;
    ctx_err = λ n. if s.is_late_at_hop n then some err_chain_timeout else none;
    invalid_q_name = err_invalid_q_name;
  }

  -- What a Validate starts from: the verifier's cache and nothing else.
  unfoldable pub empty_session : Option (List CacheEntry) → Session
  empty_session cache = record {
    chain = [];
    dnskeys = [];
    dses = [];
    rrsigs = [];
    cache = cache;
    calls = 0;
  }

  -- `Validate` of a Verifier.
  unfoldable pub validate_name :
      Bytes → ℕ → Option (List CacheEntry) → Option Run × Option ChainError
  unfolding validate_one_hop empty_session
  validate_name qname qtype cache = validate (chain_hops qtype) qname (empty_session cache)
