-- ===== src/Verifier/Walk/Verdicts.antt =====
-- The verdict of a walk is that of its last hop, because the hops before it are secure.
use dnsdata_go.Common.{
  subst, sym, ◌++◌, List, ℕ, zero, suc, ◌≡◌, ◌⊎◌, inl, inr, refl, ap, ◌∙◌, arith, [], ◌∷◌, Option,
  none, some, Bool-cases, Option-cases, Bytes, Result, ok, err,
}
use dnsdata_go.Text.{Unicode}
use dnsdata_go.Verifier.Verdict.{Verdict, secure, bogus, combine_verdicts}
use dnsdata_go.Verifier.Names.{normalize_q_name}
use dnsdata_go.Verifier.Codes.{alias_loop, alias_limit}
use dnsdata_go.Verifier.Walk.Visited.{KeepsAliases}
use dnsdata_go.Verifier.Walk.{
  AliasStep, HopOutcome, WalkResult, Walk, Next, stop, go, Hops, merged, set_bogus, apply_outcome,
  is_seen, follow, after_hop, walk_round, walk_loop, walk_start, validate, max_alias_hops,
}

merged_secure : (v : Verdict) → combine_verdicts secure v ≡ v
unfolding combine_verdicts
merged_secure v = ground arith

pub result_pair :
    {A E : Type 0} (p : A × Option E) (a : A) → some p.0 ≡ some a → p.1 ≡ none → p ≡ (a, none)
result_pair (x, y) a h k = cc

module _ {E Evidence Answer : Type 0} (hops : Hops E Evidence Answer) where
  -- A hop that redirects is secure, as `tryCNAME` and `tryDNAME` make it.
  abbrev pub RedirectsSecurely : Type 0
  RedirectsSecurely =
      (name : Bytes) (r r' : WalkResult Evidence Answer) (o : HopOutcome Answer) (a : AliasStep)
      → hops.one_hop name r ≡ (ok o, r')
      → o.alias ≡ some a
      → o.verdict ≡ secure

  -- The redirections lead from the start to a name: each is the one that a hop for the name before
  -- it gave, with the hop's verdict, and the next name is its target.
  pub data Leads (start : Bytes) : List AliasStep → Bytes → Type 0 where
    at_start : Leads start [] start
    redirected :
        (aliases : List AliasStep) (name : Bytes) (r r' : WalkResult Evidence Answer)
        (o : HopOutcome Answer) (a : AliasStep)
        → Leads start aliases name
        → hops.one_hop name r ≡ (ok o, r')
        → o.alias ≡ some a
        → Leads start (aliases ++ (record a { verdict = o.verdict }) ∷ []) a.target

  -- The result is that of a hop without a redirection, for the name to which the redirections lead.
  abbrev pub IsOfLastHop : Bytes → WalkResult Evidence Answer → Type 0
  IsOfLastHop start res =
      (name : Bytes) × (r : WalkResult Evidence Answer) × (r' : WalkResult Evidence Answer)
      × (o : HopOutcome Answer) × Leads start res.aliases name
      × (hops.one_hop name r ≡ (ok o, r'))
      × (o.alias ≡ none)
      × (res ≡ apply_outcome r' o o.verdict)

  -- The walk ran into a loop, or over the limit.
  abbrev pub GaveUp : WalkResult Evidence Answer → Type 0
  GaveUp res =
      (res.verdict ≡ bogus)
      × ((res.reason_code ≡ some alias_loop) ⊎ (res.reason_code ≡ some alias_limit))

  abbrev SoFarSecure : Walk Evidence Answer → Type 0
  SoFarSecure w = (w.combined ≡ none) ⊎ (w.combined ≡ some secure)

  merged-SoFarSecure :
      (w : Walk Evidence Answer) (v : Verdict) → SoFarSecure w → merged w.combined v ≡ v
  merged-SoFarSecure w v (inl n) = rw n refl
  merged-SoFarSecure w v (inr s) = rw s (merged_secure v)

module _ {E Evidence Answer : Type 0} (hops : Hops E Evidence Answer) (start : Bytes) where
  abbrev OnWay : Walk Evidence Answer → Type 0
  OnWay w = SoFarSecure hops w × Leads hops start w.result.aliases w.current

  -- What a round comes to.
  abbrev RoundEnds : Next E Evidence Answer → Type 0
  RoundEnds (stop res none) = GaveUp hops res ⊎ IsOfLastHop hops start res
  RoundEnds (stop res (some e)) = Unit
  RoundEnds (go next) = OnWay next

  follow_ends :
      (w : Walk Evidence Answer) (r' : WalkResult Evidence Answer) (o : HopOutcome Answer)
      (redirect : Option AliasStep)
      → RedirectsSecurely hops
      → OnWay w
      → r'.aliases ≡ w.result.aliases
      → hops.one_hop w.current w.result ≡ (ok o, r')
      → o.alias ≡ redirect
      → RoundEnds (follow hops w o r' redirect)
  unfolding follow apply_outcome
  follow_ends w r' o none law s kept h e = inr (
    w.current,
    w.result,
    r',
    o,
    subst (λ as_before. Leads hops start as_before w.current) (sym kept) (s.1),
    h,
    e,
    ap (apply_outcome r' o) (merged-SoFarSecure hops w o.verdict (s.0)),
  )
  follow_ends w r' o (some a) law s kept h e = (
    inr (ap some (merged-SoFarSecure hops w o.verdict (s.0) ∙ law w.current w.result r' o a h e)),
    redirected r'.aliases w.current w.result r' o a
        (subst (λ as_before. Leads hops start as_before w.current) (sym kept) (s.1)) h e,
  )

  after_ends :
      (w : Walk Evidence Answer) (p : Result E (HopOutcome Answer) × WalkResult Evidence Answer)
      → RedirectsSecurely hops
      → OnWay w
      → p.1.aliases ≡ w.result.aliases
      → hops.one_hop w.current w.result ≡ p
      → RoundEnds (after_hop hops w p)
  unfolding after_hop
  after_ends w (ok o, r') law s kept h = follow_ends w r' o o.alias law s kept h refl
  after_ends w (err e, r') law s kept h = tt

  round_ends :
      (w : Walk Evidence Answer)
      → RedirectsSecurely hops
      → KeepsAliases hops
      → OnWay w
      → RoundEnds (walk_round hops w)
  unfolding walk_round set_bogus
  round_ends w law keeps s = elim (Option-cases (hops.ctx_err w.hop)) [
    | inr (e, late) ↦ rw (late, walk_round) tt
    | inl on ↦ elim (Bool-cases (is_seen w.current w.seen)) [
      | inl seen ↦ rw (on, seen, walk_round) (inl (refl, inl refl))
      | inr unseen ↦
          rw (on, unseen, walk_round)
            (after_ends w (hops.one_hop w.current w.result) law s (keeps w.current w.result) refl)
    ]
  ]

  next_ends :
      (n : ℕ) (k : Next E Evidence Answer) (res : WalkResult Evidence Answer)
      → ((w : Walk Evidence Answer)
          → OnWay w
          → walk_loop hops n w ≡ (res, none)
          → GaveUp hops res ⊎ IsOfLastHop hops start res)
      → RoundEnds k
      → (let out : WalkResult Evidence Answer × Option E = elim k [
        | stop r e ↦ (r, e)
        | go next ↦ walk_loop hops n next
      ] in
          out ≡ (res, none))
      → GaveUp hops res ⊎ IsOfLastHop hops start res
  next_ends n (stop r none) res ih ends h =
      subst (λ q. GaveUp hops q ⊎ IsOfLastHop hops start q) (ap (λ p. p.0) h) ends
  next_ends n (stop r (some e)) res ih ends h = cc (ap (λ p. p.1) h)
  next_ends n (go w) res ih ends h = ih w ends h

  loop_ends :
      (n : ℕ) (w : Walk Evidence Answer) (res : WalkResult Evidence Answer)
      → RedirectsSecurely hops
      → KeepsAliases hops
      → OnWay w
      → walk_loop hops n w ≡ (res, none)
      → GaveUp hops res ⊎ IsOfLastHop hops start res
  unfolding walk_loop set_bogus
  loop_ends zero w res law keeps s h =
      subst (λ q. GaveUp hops q ⊎ IsOfLastHop hops start q) (ap (λ p. p.0) h) (inl (refl, inr refl))
  loop_ends (suc n) w res law keeps s h =
      next_ends n (walk_round hops w) res (λ w' s' h'. loop_ends n w' res law keeps s' h')
        (round_ends w law keeps s) h

module _ {E Evidence Answer : Type 0} (hops : Hops E Evidence Answer) ⦃u : Unicode⦄ where
  -- When each hop that redirects is secure, a walk that ends without an error has given up with
  -- Bogus, on a loop or over the limit, or has the result of a hop that does not redirect, for the
  -- name to which the redirections lead from the name asked for.
  pub validate_last_hop :
      (qname : Bytes) (evidence : Evidence) (res : WalkResult Evidence Answer)
      → RedirectsSecurely hops
      → KeepsAliases hops
      → validate hops qname evidence ≡ (some res, none)
      → GaveUp hops res ⊎ IsOfLastHop hops (normalize_q_name qname) res
  unfolding validate walk_start
  validate_last_hop [] evidence res law keeps h = cc (ap (λ p. p.0) h)
  validate_last_hop (c ∷ cs) evidence res law keeps h =
      let start = walk_start hops (normalize_q_name (c ∷ cs)) evidence in
      let done = walk_loop hops (suc max_alias_hops) start in
      loop_ends hops (normalize_q_name (c ∷ cs)) (suc max_alias_hops) start res law keeps
        (inl refl, at_start) (result_pair done res (ap (λ p. p.0) h) (ap (λ p. p.1) h))
