-- ===== src/Verifier/Chain/Trust/Justified.antt =====
-- Each verdict of `validateOneHop` of verifier/chain.go is backed by the chain of trust, and so is that of
-- `Validate`.
use dnsdata_go.Common.{ℕ, ◌≡◌, refl, subst, List, [], ◌∷◌, Option, none, some, ltb, Bytes}
use mathlib.Core.List.{Memᴰ}
use dnsdata_go.Text.{Unicode}
use dnsdata_go.Dnssec.Zone.{mode_none, Zone}
use dnsdata_go.Verifier.Names.{root_name, ancestors_of, descendant_zones}
use dnsdata_go.Verifier.Chain.{Setting, Run, Chained, check_set}
use dnsdata_go.Verifier.Chain.Loading.{load_records}
use dnsdata_go.Verifier.Chain.Descent.{
  DescendStatus, descend_descended, descend_insecure, descend_no_cut, descend_bogus, Descent,
  add_step_to, descend_into,
}
use dnsdata_go.Verifier.Chain.Root.{validate_root}
use dnsdata_go.Verifier.Chain.Leaf.{Outcome, bogus_outcome, leaf_checked}
use dnsdata_go.Verifier.Chain.Alias.{try_cname, try_dname}
use dnsdata_go.Verifier.Chain.Hop.{
  cname_tried, dname_tried, leaf_loaded, resolve_leaf, unless_late, entered, descent_status,
  descent_step, descended, descend_loop, root_validated, validate_one_hop,
}
use dnsdata_go.Verifier.Chain.Trust.{
  Ends, Ends-if, and_then-Ends, verify_rr_set-SignedInside, Trusted,
}
use dnsdata_go.Verifier.Chain.Trust.Loaded.{Loads, load_records-Ends, Checks, check_set-Ends}
use dnsdata_go.Verifier.Chain.Trust.Descended.{
  IsAuthenticated, Descends, DescentHolds, more_loaded, descend_into-Ends,
}
use dnsdata_go.Verifier.Chain.Trust.Rooted.{RootHolds, validate_root-Ends}
use dnsdata_go.Verifier.Chain.Trust.Answered.{
  OutcomeHolds, TriedHolds, IsLeafZone, leaf_checked-Ends, negative_outcome-Holds,
}
use dnsdata_go.Verifier.Chain.Trust.Aliased.{try_cname-Ends, try_dname-Ends}

module _ (s : Setting) ⦃u : Unicode⦄ (qname : Bytes) (qtype : ℕ) where
  -- The name of a zone on the way to the queried name.
  abbrev IsOnWay : Bytes → Type 0
  IsOnWay p = Memᴰ p (root_name ∷ descendant_zones qname)

  module _ (p : Bytes) (z : Zone) (leaf : IsLeafZone s qname qtype p z) where
    cname_tried-Ends :
        (o : Option Outcome) (r : Run)
        → TriedHolds s qname qtype o r
        → Ends r.aliases (OutcomeHolds s qname qtype) (cname_tried s z qname qtype o r)
    unfolding cname_tried
    cname_tried-Ends none r h = (refl, negative_outcome-Holds s qname qtype p z leaf r)
    cname_tried-Ends (some o) r h = (refl, h)

    dname_tried-Ends :
        (o : Option Outcome) (r : Run)
        → TriedHolds s qname qtype o r
        → Ends r.aliases (OutcomeHolds s qname qtype) (dname_tried s z p qname qtype o r)
    unfolding dname_tried
    dname_tried-Ends (some o) r h = (refl, h)
    dname_tried-Ends none r h =
        and_then-Ends r.aliases (TriedHolds s qname qtype) (OutcomeHolds s qname qtype)
          (try_cname s z p qname r) (cname_tried s z qname qtype)
          (try_cname-Ends s qname qtype p z leaf r) cname_tried-Ends

    leaf_loaded-Ends :
        (added : ℕ) (r : Run)
        → Ends r.aliases (OutcomeHolds s qname qtype) (leaf_loaded s p qname qtype (added, z) r)
    unfolding leaf_loaded
    leaf_loaded-Ends added r =
        Ends-if r.aliases (OutcomeHolds s qname qtype) (ltb 0 added) _ _
          (λ y.
            and_then-Ends r.aliases (Checks s z qname qtype mode_none) (OutcomeHolds s qname qtype)
              (check_set s z qname qtype mode_none r) (leaf_checked s z p qname qtype)
              (check_set-Ends s z qname qtype mode_none r)
              (λ c r' checked.
                leaf_checked-Ends s qname qtype p z leaf c r'
                  (λ v. verify_rr_set-SignedInside s.schemes z qname qtype (checked v))))
          (λ n.
            and_then-Ends r.aliases (TriedHolds s qname qtype) (OutcomeHolds s qname qtype)
              (try_dname s z p qname (ancestors_of qname) r) (dname_tried s z p qname qtype)
              (try_dname-Ends s qname qtype p z leaf (ancestors_of qname) r) dname_tried-Ends)

  -- A loop that is right from each authenticated zone on the way.
  abbrev LoopHolds : (Zone → Bytes → Run → Chained Outcome) → Type 0
  LoopHolds loop =
      (p : Bytes) (z : Zone) (r : Run)
      → IsOnWay p
      → Trusted s p z
      → Ends r.aliases (OutcomeHolds s qname qtype) (loop z p r)

  resolve_leaf-LoopHolds : LoopHolds (resolve_leaf s qname qtype)
  unfolding resolve_leaf
  resolve_leaf-LoopHolds p z r m t =
      and_then-Ends r.aliases (Loads z qname qtype) (OutcomeHolds s qname qtype)
        (load_records s z qname qtype r) (leaf_loaded s p qname qtype)
        (load_records-Ends s z qname qtype r)
        (λ found r' loaded.
          leaf_loaded-Ends p found.1
            (m, λ other. more_loaded s p z found.1 qname qtype other t loaded) found.0 r')

  unless_late-Ends :
      (continue : Run → Chained Outcome) (r : Run)
      → ((r : Run) → Ends r.aliases (OutcomeHolds s qname qtype) (continue r))
      → Ends r.aliases (OutcomeHolds s qname qtype) (unless_late s continue r)
  unfolding unless_late
  unless_late-Ends continue r h =
      Ends-if r.aliases (OutcomeHolds s qname qtype) (s.is_late r.evidence.calls) _ _ (λ y. refl)
        (λ n. h _)

  module _ (loop : Zone → Bytes → Run → Chained Outcome) (holds : LoopHolds loop) (p child : Bytes)
      (m : IsOnWay p) (c : Memᴰ child (descendant_zones qname)) where
    entered-Ends :
        (parent : Zone) (z : Option Zone) (r : Run)
        → IsAuthenticated s child z
        → Ends r.aliases (OutcomeHolds s qname qtype) (entered loop p child parent z r)
    unfolding entered
    entered-Ends parent none r (a, e, t) = cc
    entered-Ends parent (some z) r (a, e, t) =
        let same : a ≡ z = cc in holds child z r (Memᴰ.tail c) (subst (Trusted s child) same t)

    descent_status-Ends :
        (d : Descent) (status : DescendStatus) (r : Run)
        → Descends s p child d status r
        → Ends r.aliases
            (OutcomeHolds s qname qtype)
            (descent_status loop p child d status (descent_step child d status r))
    unfolding descent_status descent_step add_step_to bogus_outcome
    descent_status-Ends d descend_descended r (t, a) = entered-Ends d.parent d.zone _ a
    descent_status-Ends d descend_insecure r (t, reason, e, f) =
        (refl, (λ b i. cc, λ other. (p, d.parent, m, t, (reason, f, c, e))))
    descent_status-Ends d descend_no_cut r t = holds p d.parent r m t
    descent_status-Ends d descend_bogus r t = (refl, (λ b i. cc, λ other. tt))

  descend_loop-LoopHolds :
      (names : List Bytes)
      → ((c : Bytes) → Memᴰ c names → Memᴰ c (descendant_zones qname))
      → LoopHolds (descend_loop s names qname qtype)
  unfolding descend_loop descended
  descend_loop-LoopHolds [] on_way p z r m t =
      unless_late-Ends (resolve_leaf s qname qtype z p) r (λ r'. resolve_leaf-LoopHolds p z r' m t)
  descend_loop-LoopHolds (child ∷ names) on_way p z r m t =
      let loop = descend_loop s names qname qtype in
      let later = descend_loop-LoopHolds names (λ c i. on_way c (Memᴰ.tail i)) in
      unless_late-Ends _ r (λ r'.
        and_then-Ends r'.aliases (DescentHolds s p child) (OutcomeHolds s qname qtype)
          (descend_into s z child r') (descended loop p child) (descend_into-Ends s p child z r' t)
          (λ d r'' h.
            descent_status-Ends loop later p child m (on_way child (Memᴰ.head refl)) d d.status r''
              h))

  root_validated-Ends :
      (z : Option Zone) (r : Run)
      → RootHolds s z r
      → Ends r.aliases (OutcomeHolds s qname qtype) (root_validated s qname qtype z r)
  unfolding root_validated bogus_outcome
  root_validated-Ends none r h = (refl, (λ b i. cc, λ other. tt))
  root_validated-Ends (some z) r t =
      descend_loop-LoopHolds (descendant_zones qname) (λ c i. i) root_name z r (Memᴰ.head refl) t

  pub validate_one_hop-Ends :
      (r : Run) → Ends r.aliases (OutcomeHolds s qname qtype) (validate_one_hop s qtype qname r)
  unfolding validate_one_hop
  validate_one_hop-Ends r =
      and_then-Ends r.aliases (RootHolds s) (OutcomeHolds s qname qtype) (validate_root s r)
        (root_validated s qname qtype) (validate_root-Ends s r) root_validated-Ends
