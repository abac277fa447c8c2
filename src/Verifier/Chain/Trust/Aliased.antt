-- ===== src/Verifier/Chain/Trust/Aliased.antt =====
-- What stands behind the redirections of verifier/alias.go.
use dnsdata_go.Common.{
  ℕ, ◌≡◌, refl, sym, subst, inl, inr, true, not, List, [], ◌∷◌, Option, Bytes, equal,
}
use mathlib.Core.List.{Memᴰ}
use dnsdata_go.Text.{Unicode}
use dnsdata_go.Types.{type_cname, type_dname}
use dnsdata_go.Zone.Canonical.{equal_canonical_names}
use dnsdata_go.Dnssec.Zone.{mode_none, ZoneRecord, Zone, find_rr_set}
use dnsdata_go.Verifier.Names.{synthesise_dname_target}
use dnsdata_go.Verifier.Chain.{Setting, Run, Chained, RrSetCheck, check_set}
use dnsdata_go.Verifier.Chain.Leaf.{Outcome, bogus_outcome, alias_outcome, add_sigs_to}
use dnsdata_go.Verifier.Chain.Alias.{
  alias_step, cname_checked, dname_checked, target_of, cname_at, try_cname, dname_at, dname_in,
  try_dname,
}
use dnsdata_go.Verifier.Chain.Trust.{
  Ends, Ends-if, not-false, and_then-Ends, SignedInside, verify_rr_set-SignedInside,
}
use dnsdata_go.Verifier.Chain.Trust.Loaded.{Checks, check_set-Ends}
use dnsdata_go.Verifier.Chain.Trust.Answered.{TriedHolds, IsLeafZone}

module _ (s : Setting) ⦃u : Unicode⦄ (qname : Bytes) (qtype : ℕ) (p : Bytes) (z : Zone)
    (leaf : IsLeafZone s qname qtype p z) where
  cname_checked-Ends :
      (rr : ZoneRecord) (c : RrSetCheck) (r : Run)
      → Memᴰ rr (find_rr_set z.records qname type_cname)
      → (c.verified ≡ true → SignedInside s.schemes z qname type_cname)
      → Ends r.aliases (TriedHolds s qname qtype) (cname_checked p qname (target_of rr) c r)
  unfolding cname_checked bogus_outcome alias_outcome alias_step add_sigs_to
  cname_checked-Ends rr c r m signed =
      Ends-if r.aliases (TriedHolds s qname qtype) (not c.verified) _ _
        (λ n. (refl, (λ b e. cc, λ other. tt)))
        (λ y. (
          refl,
          (
            λ b e. refl,
            λ other. (p, z, leaf.0, leaf.1 other, inl (rr, refl, signed (not-false y), m, refl)),
          ),
        ))

  cname_at-Ends :
      (rrset : List ZoneRecord) (r : Run)
      → find_rr_set z.records qname type_cname ≡ rrset
      → Ends r.aliases (TriedHolds s qname qtype) (cname_at s z p qname rrset r)
  unfolding cname_at bogus_outcome
  cname_at-Ends [] r e = (refl, tt)
  cname_at-Ends (rr ∷ rrs) r e =
      Ends-if r.aliases (TriedHolds s qname qtype) (equal (target_of rr) []) _ _
        (λ n. (refl, (λ b i. cc, λ other. tt)))
        (λ y.
          and_then-Ends r.aliases (Checks s z qname type_cname mode_none) (TriedHolds s qname qtype)
            (check_set s z qname type_cname mode_none r) (cname_checked p qname (target_of rr))
            (check_set-Ends s z qname type_cname mode_none r)
            (λ c r' checked.
              cname_checked-Ends rr c r' (subst (Memᴰ rr) (sym e) (Memᴰ.head refl))
                (λ v. verify_rr_set-SignedInside s.schemes z qname type_cname (checked v))))

  pub try_cname-Ends :
      (r : Run) → Ends r.aliases (TriedHolds s qname qtype) (try_cname s z p qname r)
  unfolding try_cname
  try_cname-Ends r = cname_at-Ends (find_rr_set z.records qname type_cname) r refl

  dname_checked-Ends :
      (ancestor : Bytes) (rr : ZoneRecord) (c : RrSetCheck) (r : Run)
      → Memᴰ rr (find_rr_set z.records ancestor type_dname)
      → (c.verified ≡ true → SignedInside s.schemes z ancestor type_dname)
      → Ends r.aliases
          (TriedHolds s qname qtype)
          (dname_checked p ancestor (synthesise_dname_target qname ancestor (target_of rr)) c r)
  unfolding dname_checked bogus_outcome alias_outcome alias_step add_sigs_to
  dname_checked-Ends ancestor rr c r m signed =
      Ends-if r.aliases (TriedHolds s qname qtype) (not c.verified) _ _
        (λ n. (refl, (λ b e. cc, λ other. tt)))
        (λ y.
          Ends-if r.aliases (TriedHolds s qname qtype)
            (equal (synthesise_dname_target qname ancestor (target_of rr)) []) _ _
            (λ empty. (refl, (λ b e. cc, λ other. tt)))
            (λ made. (
              refl,
              (
                λ b e. refl,
                λ other. (p, z, leaf.0, leaf.1 other, inr (rr, signed (not-false y), m, refl)),
              ),
            )))

  dname_at-Ends :
      (ancestor : Bytes) (rr : ZoneRecord) (r : Run)
      → Memᴰ rr (find_rr_set z.records ancestor type_dname)
      → Ends r.aliases (TriedHolds s qname qtype) (dname_at s z p qname ancestor rr r)
  unfolding dname_at bogus_outcome
  dname_at-Ends ancestor rr r m =
      Ends-if r.aliases (TriedHolds s qname qtype) (equal (target_of rr) []) _ _
        (λ n. (refl, (λ b i. cc, λ other. tt)))
        (λ y.
          and_then-Ends r.aliases (Checks s z ancestor type_dname mode_none)
            (TriedHolds s qname qtype) (check_set s z ancestor type_dname mode_none r)
            (dname_checked p ancestor (synthesise_dname_target qname ancestor (target_of rr)))
            (check_set-Ends s z ancestor type_dname mode_none r)
            (λ c r' checked.
              dname_checked-Ends ancestor rr c r' m
                (λ v. verify_rr_set-SignedInside s.schemes z ancestor type_dname (checked v))))

  dname_in-Ends :
      (ancestor : Bytes) (rrset : List ZoneRecord) (rest : Run → Chained (Option Outcome)) (r : Run)
      → find_rr_set z.records ancestor type_dname ≡ rrset
      → Ends r.aliases (TriedHolds s qname qtype) (rest r)
      → Ends r.aliases (TriedHolds s qname qtype) (dname_in s z p qname ancestor rrset rest r)
  unfolding dname_in
  dname_in-Ends ancestor [] rest r e later = later
  dname_in-Ends ancestor (rr ∷ rrs) rest r e later =
      dname_at-Ends ancestor rr r (subst (Memᴰ rr) (sym e) (Memᴰ.head refl))

  pub try_dname-Ends :
      (ancestors : List Bytes) (r : Run)
      → Ends r.aliases (TriedHolds s qname qtype) (try_dname s z p qname ancestors r)
  unfolding try_dname
  try_dname-Ends [] r = (refl, tt)
  try_dname-Ends (a ∷ ancestors) r =
      let later = try_dname-Ends ancestors r in
      Ends-if r.aliases (TriedHolds s qname qtype) (equal_canonical_names a qname) _ _ (λ y. later)
        (λ n.
          dname_in-Ends a (find_rr_set z.records a type_dname) (try_dname s z p qname ancestors) r
            refl later)
