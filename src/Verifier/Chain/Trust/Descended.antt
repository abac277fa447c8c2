-- ===== src/Verifier/Chain/Trust/Descended.antt =====
-- What a descent of verifier/chain.go comes to: an authenticated child zone, a proof that there is no DS,
-- no cut, or Bogus.
use dnsdata_go.Common.{
  ℕ, ◌≡◌, ◌∙◌, refl, sym, ap, subst, true, false, not, List, [], Option, none, some, ◌==◌, Bytes,
  Result, ok, err,
}
use dnsdata_go.Text.{Unicode}
use dnsdata_go.Types.{type_dnskey, type_ds}
use dnsdata_go.Dnssec.Crypto.{DnsKey}
use dnsdata_go.Dnssec.Zone.{mode_none, mode_ksk, Zone, find_rr_set}
use dnsdata_go.Dnssec.Zone.Check.{verify_rr_set}
use dnsdata_go.Dnssec.Zone.Check.Anchors.{verify_rr_set_ksk}
use dnsdata_go.Verifier.Denial.{Reason}
use dnsdata_go.Verifier.Denial.Hashed.{prove_no_ds}
use dnsdata_go.Verifier.Steps.{SigCheck}
use dnsdata_go.Verifier.Chain.{Setting, Run, RrSetCheck, check_set}
use dnsdata_go.Verifier.Chain.Loading.{load_records}
use dnsdata_go.Verifier.Chain.Keys.{KeyMatchError, match_ksk_with_ds, ds_set, trust_keys}
use dnsdata_go.Verifier.Chain.Descent.{
  DescendStatus, descend_descended, descend_insecure, descend_no_cut, descend_bogus, Descent,
  new_zone, zone_view, below_dname, stopped, no_ds_proven, no_ds_descent, dnskeys_checked,
  keys_matched, dnskeys_loaded, ds_checked, ds_loaded, descend_into,
}
use dnsdata_go.Verifier.Chain.Trust.{
  Ends, Ends-if, not-false, and_then-Ends, MatchEach, SignedInside, verify_rr_set-SignedInside,
  Trusted, child_trusted, more_trusted,
}
use dnsdata_go.Verifier.Chain.Trust.Loaded.{
  IsLoaded, Loads, IsLoaded-HasNoKeys, load_records-Ends, Checks, check_set-Ends,
}
use dnsdata_go.Verifier.Chain.Trust.Matched.{
  match_ksk_with_ds-MatchEach, with_trusted, trust_keys_lem,
}

module _ (s : Setting) ⦃u : Unicode⦄ where
  -- The child zone that a descent returns is authenticated.
  abbrev pub IsAuthenticated : Bytes → Option Zone → Type 0
  IsAuthenticated child z = (c : Zone) × (z ≡ some c) × Trusted s child c

  -- What a status says of a descent from a zone.
  abbrev pub Descends : Bytes → Bytes → Descent → DescendStatus → Run → Type 0
  Descends p child d descend_descended r = Trusted s p d.parent × IsAuthenticated child d.zone
  Descends p child d descend_insecure r =
      Trusted s p d.parent
      × (reason : Reason) × (prove_no_ds s.sha1 (zone_view s.schemes d.parent) child ≡ some reason)
      × (r.insecure_reason ≡ some reason)
  Descends p child d descend_no_cut r = Trusted s p d.parent
  Descends p child d descend_bogus r = Unit

  abbrev pub DescentHolds : Bytes → Bytes → Descent → Run → Type 0
  DescentHolds p child d r = Descends p child d d.status r

  module _ (p child : Bytes) (parent : Zone) (t : Trusted s p parent) where
    no_ds_proven-Ends :
        (proof : Option Reason) (r : Run)
        → prove_no_ds s.sha1 (zone_view s.schemes parent) child ≡ proof
        → Ends r.aliases (DescentHolds p child) (no_ds_proven s parent proof r)
    unfolding no_ds_proven stopped
    no_ds_proven-Ends none r e = (refl, t)
    no_ds_proven-Ends (some reason) r e = (refl, (t, reason, e, refl))

    no_ds_descent-Ends :
        (r : Run) → Ends r.aliases (DescentHolds p child) (no_ds_descent s parent child r)
    unfolding no_ds_descent stopped
    no_ds_descent-Ends r =
        Ends-if r.aliases (DescentHolds p child) (below_dname parent child) _ _ (λ y. (refl, t))
          (λ n. no_ds_proven-Ends (prove_no_ds s.sha1 (zone_view s.schemes parent) child) r refl)

    module _ (signed : SignedInside s.schemes parent child type_ds) where
      dnskeys_checked-Ends :
          (z : Zone) (ksks : List DnsKey) (sigs : List SigCheck) (c : RrSetCheck) (r : Run)
          → (c.verified ≡ true → Trusted s child z)
          → Ends r.aliases (DescentHolds p child) (dnskeys_checked s parent z ksks sigs c r)
      unfolding dnskeys_checked stopped
      dnskeys_checked-Ends z ksks sigs c r ready =
          Ends-if r.aliases (DescentHolds p child) (not c.verified) _ _ (λ n. (refl, tt))
            (λ y. (refl, (t, (z, refl, ready (not-false y)))))

      child-Trusted :
          (z : Zone) (ksks : List DnsKey)
          → IsLoaded (new_zone s.now (some parent.records)) child type_dnskey z
          → MatchEach s.schemes (ds_set (find_rr_set parent.records child type_ds)) ksks
          → (verify_rr_set s.schemes (trust_keys z ksks) child type_dnskey mode_ksk []).0 ≡ true
          → Trusted s child (trust_keys z ksks)
      unfolding new_zone
      child-Trusted z ksks (rs, e, kept) match v =
          let same = trust_keys_lem z ksks ∙ ap (λ x. with_trusted x ksks) e in
          subst (Trusted s child) (sym same) (
            child_trusted p parent child _ t signed refl match kept (
              verify_rr_set_ksk s.schemes _ child type_dnskey [] (
                subst (λ x. (verify_rr_set s.schemes x child type_dnskey mode_ksk []).0 ≡ true) same
                  v)))

      keys_matched-Ends :
          (sigs : List SigCheck) (z : Zone) (m : Result KeyMatchError (List DnsKey)) (r : Run)
          → match_ksk_with_ds s.schemes z parent child ≡ m
          → IsLoaded (new_zone s.now (some parent.records)) child type_dnskey z
          → Ends r.aliases (DescentHolds p child) (keys_matched s parent child sigs z m r)
      unfolding keys_matched stopped
      keys_matched-Ends sigs z (err e) r m loaded = (refl, tt)
      keys_matched-Ends sigs z (ok ksks) r m loaded =
          and_then-Ends r.aliases (Checks s (trust_keys z ksks) child type_dnskey mode_ksk)
            (DescentHolds p child) (check_set s (trust_keys z ksks) child type_dnskey mode_ksk r)
            (dnskeys_checked s parent (trust_keys z ksks) ksks sigs)
            (check_set-Ends s (trust_keys z ksks) child type_dnskey mode_ksk r)
            (λ c r' checked. dnskeys_checked-Ends (trust_keys z ksks) ksks sigs c r' (λ y.
              child-Trusted z ksks loaded
                (match_ksk_with_ds-MatchEach s.schemes z parent child ksks m) (checked y)))

    ds_checked-Ends :
        (c : RrSetCheck) (r : Run)
        → (c.verified ≡ true → SignedInside s.schemes parent child type_ds)
        → Ends r.aliases (DescentHolds p child) (ds_checked s parent child c r)
    unfolding ds_checked dnskeys_loaded stopped
    ds_checked-Ends c r signed =
        Ends-if r.aliases (DescentHolds p child) (not c.verified) _ _ (λ n. (refl, tt))
          (λ y.
            and_then-Ends r.aliases (Loads (new_zone s.now (some parent.records)) child type_dnskey)
              (DescentHolds p child)
              (load_records s (new_zone s.now (some parent.records)) child type_dnskey r)
              (dnskeys_loaded s parent child c.sigs)
              (load_records-Ends s (new_zone s.now (some parent.records)) child type_dnskey r)
              (λ found r' loaded.
                keys_matched-Ends (signed (not-false y)) c.sigs found.1
                  (match_ksk_with_ds s.schemes found.1 parent child) r' refl loaded))

    ds_loaded-Ends :
        (count : ℕ) (r : Run)
        → Ends r.aliases (DescentHolds p child) (ds_loaded s child (count, parent) r)
    unfolding ds_loaded
    ds_loaded-Ends count r =
        Ends-if r.aliases (DescentHolds p child) (count == 0) _ _ (λ y. no_ds_descent-Ends r)
          (λ n.
            and_then-Ends r.aliases (Checks s parent child type_ds mode_none) (DescentHolds p child)
              (check_set s parent child type_ds mode_none r) (ds_checked s parent child)
              (check_set-Ends s parent child type_ds mode_none r)
              (λ c r' checked.
                ds_checked-Ends c r'
                  (λ y. verify_rr_set-SignedInside s.schemes parent child type_ds (checked y))))

  pub more_loaded :
      (p : Bytes) (z z' : Zone) (name : Bytes) (qtype : ℕ)
      → (qtype == type_dnskey) ≡ false
      → Trusted s p z
      → IsLoaded z name qtype z'
      → Trusted s p z'
  more_loaded p z z' name qtype other t loaded =
      let (rs, e, h) = IsLoaded-HasNoKeys z z' name qtype other loaded in
      subst (Trusted s p) (sym e) (more_trusted p z rs t h)

  pub descend_into-Ends :
      (p child : Bytes) (parent : Zone) (r : Run)
      → Trusted s p parent
      → Ends r.aliases (DescentHolds p child) (descend_into s parent child r)
  unfolding descend_into
  descend_into-Ends p child parent r t =
      and_then-Ends r.aliases (Loads parent child type_ds) (DescentHolds p child)
        (load_records s parent child type_ds r) (ds_loaded s child)
        (load_records-Ends s parent child type_ds r)
        (λ found r' loaded.
          ds_loaded-Ends p child found.1 (more_loaded p parent found.1 child type_ds refl t loaded)
            found.0 r')
