-- ===== src/Verifier/Chain/Trust/Walked.antt =====
-- What the chain of trust says of the results of verifier/chain.go, and that the loop of `Validate` may
-- rely on its hops.
use dnsdata_go.Common.{
  ℕ, ◌≡◌, ◌⊎◌, refl, sym, subst, inl, inr, false, List, ◌∷◌, Option, none, some, ◌==◌, Bytes, ok,
  err,
}
use dnsdata_go.Text.{Unicode}
use dnsdata_go.Types.{type_dnskey}
use dnsdata_go.Verifier.Verdict.{secure}
use dnsdata_go.Verifier.Names.{normalize_q_name}
use dnsdata_go.Verifier.Walk.{AliasStep, apply_outcome}
use dnsdata_go.Verifier.Walk.Verdicts.{
  RedirectsSecurely, Leads, GaveUp, IsOfLastHop, validate_last_hop,
}
use dnsdata_go.Verifier.Walk.Visited.{KeepsAliases, WalksOnce, validate_once}
use dnsdata_go.Verifier.Chain.{ChainError, CacheEntry, Setting, Run, Chained}
use dnsdata_go.Verifier.Chain.Leaf.{Outcome}
use dnsdata_go.Verifier.Chain.Hop.{validate_one_hop, chain_hops, empty_session, validate_name}
use dnsdata_go.Verifier.Chain.Trust.{Ends}
use dnsdata_go.Verifier.Chain.Trust.Answered.{Backed, OutcomeHolds}
use dnsdata_go.Verifier.Chain.Trust.Justified.{validate_one_hop-Ends}

Ends-ok :
    {A : Type 0} (aliases : List AliasStep) (P : A → Run → Type 0) (p : Chained A) (a : A) (r : Run)
    → Ends aliases P p
    → p ≡ (ok a, r)
    → P a r
Ends-ok aliases P p a r ends e = (subst (Ends aliases P) e ends).1

Ends-aliases :
    {A : Type 0} (aliases : List AliasStep) (P : A → Run → Type 0) (p : Chained A)
    → Ends aliases P p
    → p.1.aliases ≡ aliases
Ends-aliases aliases P (ok a, r) ends = ends.0
Ends-aliases aliases P (err e, r) ends = ends

module _ (s : Setting) ⦃u : Unicode⦄ where
  -- For another type than DNSKEY, each verdict of a hop but Bogus and Indeterminate is backed by a
  -- zone on the way to the name that the trust anchors authenticate: an answer, or an alias with its
  -- target, by a signature in it, a negative verdict and Insecure by a proof in it. An answer made
  -- from a wildcard comes with a proof that the name does not exist.
  pub validate_one_hop-Backed :
      (qname : Bytes) (qtype : ℕ) (r r' : Run) (o : Outcome)
      → (qtype == type_dnskey) ≡ false
      → validate_one_hop s qtype qname r ≡ (ok o, r')
      → Backed s qname qtype o o.verdict o.alias
  validate_one_hop-Backed qname qtype r r' o other e =
      (Ends-ok r.aliases (OutcomeHolds s qname qtype) (validate_one_hop s qtype qname r) o r'
          (validate_one_hop-Ends s qname qtype r) e).1
        other

  redirects_securely : (qtype : ℕ) → RedirectsSecurely (chain_hops s qtype)
  redirects_securely qtype name r r' o a e i =
      (Ends-ok r.aliases (OutcomeHolds s name qtype) (validate_one_hop s qtype name r) o r'
          (validate_one_hop-Ends s name qtype r) e).0
        a i

  keeps_aliases : (qtype : ℕ) → KeepsAliases (chain_hops s qtype)
  keeps_aliases qtype name r =
      Ends-aliases r.aliases (OutcomeHolds s name qtype) (validate_one_hop s qtype name r)
        (validate_one_hop-Ends s name qtype r)

  -- The verdict and the answer of a result are the hop's, and the verdict is backed.
  abbrev pub IsAsOutcome : Bytes → ℕ → Outcome → Run → Type 0
  IsAsOutcome name qtype o res =
      (res.verdict ≡ o.verdict)
      × Backed s name qtype o res.verdict none
      × (res.verdict ≡ secure → res.answer ≡ o.answer)

  -- The outcome of a hop for the name to which the redirections of the result lead from the start:
  -- the result has its verdict, and its answer where it is secure.
  abbrev pub IsBackedBy : Bytes → ℕ → Run → Bytes → Outcome → Type 0
  IsBackedBy start qtype res name o =
      Leads (chain_hops s qtype) start res.aliases name
      × (r : Run) × (r' : Run) × (validate_one_hop s qtype name r ≡ (ok o, r'))
      × (o.alias ≡ none)
      × IsAsOutcome name qtype o res

  last_hop_backed :
      (start : Bytes) (qtype : ℕ) (res : Run)
      → (qtype == type_dnskey) ≡ false
      → IsOfLastHop (chain_hops s qtype) start res
      → (name : Bytes) × (o : Outcome) × IsBackedBy start qtype res name o
  unfolding apply_outcome
  last_hop_backed start qtype res other (name, r, r', o, led, e, n, same) =
      let backed = validate_one_hop-Backed name qtype r r' o other e in
      let plain = subst (Backed s name qtype o o.verdict) n backed in
      let ends = subst (IsAsOutcome name qtype o) (sym same) (refl, plain, λ v. rw v refl) in
      (name, o, (led, r, r', e, n, ends))

  -- When Validate for another type than DNSKEY returns without an error, it has given up with Bogus,
  -- on a loop of redirections or over the limit, or its verdict and its answer are those of a hop
  -- that does not redirect and is backed by the chain of trust, for the name to which the redirections
  -- of the result lead from the query name. Each redirection is the one that a hop for the name before
  -- it gave, and the next name is its target.
  pub validate_name_backed :
      (qname : Bytes) (qtype : ℕ) (cache : Option (List CacheEntry)) (res : Run)
      → (qtype == type_dnskey) ≡ false
      → validate_name s qname qtype cache ≡ (some res, none)
      → GaveUp (chain_hops s qtype) res
        ⊎ ((name : Bytes) × (o : Outcome) × IsBackedBy (normalize_q_name qname) qtype res name o)
  unfolding validate_name
  validate_name_backed qname qtype cache res other e =
      elim (validate_last_hop (chain_hops s qtype) qname (empty_session s cache) res
        (redirects_securely qtype) (keeps_aliases qtype) e) [
          | inl g ↦ inl g
          | inr l ↦ inr (last_hop_backed (normalize_q_name qname) qtype res other l)
        ]

  -- Validate of a name that is not empty returns a result, beside an error or none, follows at most
  -- eleven redirections, and asks for no name twice.
  pub validate_name_once :
      (c : ℕ) (cs : Bytes) (qtype : ℕ) (cache : Option (List CacheEntry))
      → (res : Run) × (error : Option ChainError) × (validate_name s (c ∷ cs) qtype cache
          ≡ (some res, error))
        × WalksOnce (normalize_q_name (c ∷ cs)) 11 res.aliases
  unfolding validate_name
  validate_name_once c cs qtype cache =
      validate_once (chain_hops s qtype) c cs (empty_session s cache) (keeps_aliases qtype)
