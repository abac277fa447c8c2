-- ===== src/Verifier/Chain/Trust/Answered.antt =====
-- What stands behind the verdicts of `resolveLeaf` of verifier/chain.go.
use dnsdata_go.Common.{ℕ, ◌≡◌, ◌⊎◌, refl, true, false, not, ◌∷◌, Option, none, some, ◌==◌, Bytes}
use mathlib.Core.List.{Memᴰ}
use dnsdata_go.Text.{Unicode}
use dnsdata_go.Types.{type_cname, type_dname, type_dnskey}
use dnsdata_go.Dnssec.Zone.{ZoneRecord, Zone, find_rr_set}
use dnsdata_go.Verifier.Verdict.{
  Verdict, secure, secure_no_data, secure_nx_domain, insecure, bogus, indeterminate,
}
use dnsdata_go.Verifier.Denial.{Reason}
use dnsdata_go.Verifier.Denial.Hashed.{
  prove_no_data, prove_nx_domain, prove_no_ds, prove_qname_non_existence,
}
use dnsdata_go.Verifier.Names.{root_name, descendant_zones, synthesise_dname_target}
use dnsdata_go.Verifier.Walk.{AliasStep, WildcardInfo}
use dnsdata_go.Verifier.Chain.{Setting, Answer, Run, RrSetCheck}
use dnsdata_go.Verifier.Chain.Descent.{zone_view}
use dnsdata_go.Verifier.Chain.Leaf.{
  Outcome, bogus_outcome, add_sigs_to, build_answer, wildcard_of, wildcard_outcome, denied_outcome,
  positive_outcome, answer_built, leaf_checked, negative_outcome,
}
use dnsdata_go.Verifier.Chain.Alias.{target_of}
use dnsdata_go.Verifier.Chain.Trust.{Ends, Ends-if, not-false, SignedInside, Trusted}

-- An outcome with a redirection is secure.
abbrev pub RedirectsSecure : Outcome → Type 0
RedirectsSecure o = (a : AliasStep) → o.alias ≡ some a → o.verdict ≡ secure

module _ (s : Setting) ⦃u : Unicode⦄ where
  -- An authenticated zone at the root or at a name on the way to the queried name, of which something
  -- holds.
  abbrev pub InTrusted : Bytes → (Zone → Type 0) → Type 0
  InTrusted qname P =
      (p : Bytes) × (z : Zone) × Memᴰ p (root_name ∷ descendant_zones qname) × Trusted s p z × P z

  -- A signed CNAME at the name, or a signed DNAME, that leads to the target.
  abbrev pub IsSignedAlias : Bytes → AliasStep → Zone → Type 0
  IsSignedAlias qname a z =
      ((rr : ZoneRecord) × (a.from ≡ qname)
        × SignedInside s.schemes z qname type_cname
        × Memᴰ rr (find_rr_set z.records qname type_cname)
        × (a.target ≡ target_of rr))
      ⊎ ((rr : ZoneRecord) × SignedInside s.schemes z a.from type_dname
          × Memᴰ rr (find_rr_set z.records a.from type_dname)
          × (a.target ≡ synthesise_dname_target qname a.from (target_of rr)))

  -- An answer is not made from a wildcard, or the zone proves that the name does not exist.
  abbrev pub IsNoReplay : Bytes → ℕ → Option WildcardInfo → Zone → Type 0
  IsNoReplay qname qtype none z = wildcard_of z qname qtype ≡ none
  IsNoReplay qname qtype (some wc) z =
      (w : WildcardInfo) × (reason : Reason) × (wildcard_of z qname qtype ≡ some w)
      × (prove_qname_non_existence s.sha1 (zone_view s.schemes z) w.next_closer ≡ some reason)
      × (wc ≡ record w { proof_reason = some reason })

  abbrev pub IsSignedAnswer : Bytes → ℕ → Outcome → Zone → Type 0
  IsSignedAnswer qname qtype o z =
      (a : Answer) × (o.answer ≡ some a)
      × SignedInside s.schemes z qname qtype
      × (build_answer s.schemes z qname qtype ≡ some a)
      × IsNoReplay qname qtype o.wildcard z

  -- What stands behind an outcome, by its verdict and its redirection.
  abbrev pub Backed : Bytes → ℕ → Outcome → Verdict → Option AliasStep → Type 0
  Backed qname qtype o secure (some a) = InTrusted qname (IsSignedAlias qname a)
  Backed qname qtype o secure none = InTrusted qname (IsSignedAnswer qname qtype o)
  Backed qname qtype o secure_no_data a = InTrusted qname (λ z.
      (reason : Reason) × (o.negative_reason ≡ some reason)
      × (prove_no_data s.sha1 (zone_view s.schemes z) qname qtype ≡ some reason))
  Backed qname qtype o secure_nx_domain a = InTrusted qname (λ z.
      (reason : Reason) × (o.negative_reason ≡ some reason)
      × (prove_nx_domain s.sha1 (zone_view s.schemes z) qname ≡ some reason))
  Backed qname qtype o insecure a = InTrusted qname (λ z.
      (reason : Reason) × (o.insecure_reason ≡ some reason)
      × Memᴰ o.insecure_at (descendant_zones qname)
      × (prove_no_ds s.sha1 (zone_view s.schemes z) o.insecure_at ≡ some reason))
  Backed qname qtype o bogus a = Unit
  Backed qname qtype o indeterminate a = Unit

  -- A query for keys is left out of what is said of a verdict.
  abbrev pub OutcomeHolds : Bytes → ℕ → Outcome → Run → Type 0
  OutcomeHolds qname qtype o r =
      RedirectsSecure o × ((qtype == type_dnskey) ≡ false → Backed qname qtype o o.verdict o.alias)

  abbrev pub TriedHolds : Bytes → ℕ → Option Outcome → Run → Type 0
  TriedHolds qname qtype none r = Unit
  TriedHolds qname qtype (some o) r = OutcomeHolds qname qtype o r

  -- The zone that a leaf is resolved in, with what was loaded for the name.
  abbrev pub IsLeafZone : Bytes → ℕ → Bytes → Zone → Type 0
  IsLeafZone qname qtype p z =
      Memᴰ p (root_name ∷ descendant_zones qname) × ((qtype == type_dnskey) ≡ false → Trusted s p z)

  module _ (qname : Bytes) (qtype : ℕ) (p : Bytes) (z : Zone)
      (leaf : IsLeafZone qname qtype p z) where
    wildcard_outcome-Holds :
        (a : Answer) (wc : WildcardInfo) (proof : Option Reason) (r : Run)
        → SignedInside s.schemes z qname qtype
        → build_answer s.schemes z qname qtype ≡ some a
        → wildcard_of z qname qtype ≡ some wc
        → prove_qname_non_existence s.sha1 (zone_view s.schemes z) wc.next_closer ≡ proof
        → OutcomeHolds qname qtype (wildcard_outcome p a wc proof) r
    unfolding wildcard_outcome bogus_outcome
    wildcard_outcome-Holds a wc none r signed built w e = (λ b i. cc, λ other. tt)
    wildcard_outcome-Holds a wc (some reason) r signed built w e = (
      λ b i. cc,
      λ other. (p, z, leaf.0, leaf.1 other, (a, refl, signed, built, (wc, reason, w, e, refl))),
    )

    positive_outcome-Holds :
        (a : Answer) (w : Option WildcardInfo) (r : Run)
        → SignedInside s.schemes z qname qtype
        → build_answer s.schemes z qname qtype ≡ some a
        → wildcard_of z qname qtype ≡ w
        → OutcomeHolds qname qtype (positive_outcome s z p a w) r
    unfolding positive_outcome
    positive_outcome-Holds a none r signed built w =
        (λ b e. cc, λ other. (p, z, leaf.0, leaf.1 other, (a, refl, signed, built, w)))
    positive_outcome-Holds a (some wc) r signed built w =
        wildcard_outcome-Holds a wc
          (prove_qname_non_existence s.sha1 (zone_view s.schemes z) wc.next_closer) r signed built w
          refl

    answer_built-Ends :
        (a : Option Answer) (r : Run)
        → SignedInside s.schemes z qname qtype
        → build_answer s.schemes z qname qtype ≡ a
        → Ends r.aliases (OutcomeHolds qname qtype) (answer_built s z p qname qtype a r)
    unfolding answer_built
    answer_built-Ends none r signed built = refl
    answer_built-Ends (some a) r signed built =
        (refl, positive_outcome-Holds a (wildcard_of z qname qtype) r signed built refl)

    pub leaf_checked-Ends :
        (c : RrSetCheck) (r : Run)
        → (c.verified ≡ true → SignedInside s.schemes z qname qtype)
        → Ends r.aliases (OutcomeHolds qname qtype) (leaf_checked s z p qname qtype c r)
    unfolding leaf_checked add_sigs_to bogus_outcome
    leaf_checked-Ends c r signed =
        Ends-if r.aliases (OutcomeHolds qname qtype) (not c.verified) _ _
          (λ n. (refl, (λ b e. cc, λ other. tt)))
          (λ y.
            answer_built-Ends (build_answer s.schemes z qname qtype) (add_sigs_to r p c.sigs)
              (signed (not-false y)) refl)

    denied_outcome-Holds :
        (no_data nx : Option Reason) (r : Run)
        → prove_no_data s.sha1 (zone_view s.schemes z) qname qtype ≡ no_data
        → prove_nx_domain s.sha1 (zone_view s.schemes z) qname ≡ nx
        → OutcomeHolds qname qtype (denied_outcome no_data nx) r
    unfolding denied_outcome
    denied_outcome-Holds (some reason) nx r e f =
        (λ b i. cc, λ other. (p, z, leaf.0, leaf.1 other, (reason, refl, e)))
    denied_outcome-Holds none (some reason) r e f =
        (λ b i. cc, λ other. (p, z, leaf.0, leaf.1 other, (reason, refl, f)))
    denied_outcome-Holds none none r e f = (λ b i. cc, λ other. tt)

    pub negative_outcome-Holds :
        (r : Run) → OutcomeHolds qname qtype (negative_outcome s z qname qtype) r
    unfolding negative_outcome
    negative_outcome-Holds r =
        denied_outcome-Holds (prove_no_data s.sha1 (zone_view s.schemes z) qname qtype)
          (prove_nx_domain s.sha1 (zone_view s.schemes z) qname) r refl refl
