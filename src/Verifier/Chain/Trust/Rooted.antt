-- ===== src/Verifier/Chain/Trust/Rooted.antt =====
-- What `validateRoot` of verifier/chain.go comes to: a root zone that the trust anchors authenticate, or
-- none.
use dnsdata_go.Common.{
  ◌≡◌, ◌∙◌, refl, sym, ap, subst, true, not, List, [], Option, none, some, Result, ok, err,
}
use dnsdata_go.Text.{Unicode}
use dnsdata_go.Types.{type_dnskey}
use dnsdata_go.Dnssec.Crypto.{DnsKey}
use dnsdata_go.Dnssec.Zone.{mode_ksk, Zone}
use dnsdata_go.Dnssec.Zone.Check.{verify_rr_set}
use dnsdata_go.Dnssec.Zone.Check.Anchors.{verify_rr_set_ksk}
use dnsdata_go.Verifier.Names.{root_name}
use dnsdata_go.Verifier.Walk.{set_bogus}
use dnsdata_go.Verifier.Chain.{Setting, Run, RrSetCheck, check_set}
use dnsdata_go.Verifier.Chain.Loading.{load_records}
use dnsdata_go.Verifier.Chain.Keys.{KeyMatchError, anchor_set, match_ksk_with_anchors, trust_keys}
use dnsdata_go.Verifier.Chain.Descent.{new_zone, add_step_to}
use dnsdata_go.Verifier.Chain.Root.{root_checked, root_matched, root_loaded, validate_root}
use dnsdata_go.Verifier.Chain.Trust.{
  Ends, Ends-if, not-false, and_then-Ends, anchors_of, MatchEach, Trusted, root_trusted,
}
use dnsdata_go.Verifier.Chain.Trust.Loaded.{
  IsLoaded, Loads, load_records-Ends, Checks, check_set-Ends,
}
use dnsdata_go.Verifier.Chain.Trust.Matched.{
  match_ksk_with_anchors-MatchEach, with_trusted, trust_keys_lem,
}

module _ (s : Setting) ⦃u : Unicode⦄ where
  -- The root zone, where there is one, is authenticated.
  abbrev pub RootHolds : Option Zone → Run → Type 0
  RootHolds none r = Unit
  RootHolds (some z) r = Trusted s root_name z

  root_checked-Ends :
      (z : Zone) (ksks : List DnsKey) (c : RrSetCheck) (r : Run)
      → (c.verified ≡ true → Trusted s root_name z)
      → Ends r.aliases RootHolds (root_checked s z ksks c r)
  unfolding root_checked add_step_to set_bogus
  root_checked-Ends z ksks c r ready =
      Ends-if r.aliases RootHolds (not c.verified) _ _ (λ n. (refl, tt))
        (λ y. (refl, ready (not-false y)))

  root-Trusted :
      (z : Zone) (ksks : List DnsKey)
      → IsLoaded (new_zone s.now none) root_name type_dnskey z
      → MatchEach s.schemes (anchor_set (anchors_of s.anchors)) ksks
      → (verify_rr_set s.schemes (trust_keys z ksks) root_name type_dnskey mode_ksk []).0 ≡ true
      → Trusted s root_name (trust_keys z ksks)
  unfolding new_zone
  root-Trusted z ksks (rs, e, kept) match v =
      let same = trust_keys_lem z ksks ∙ ap (λ x. with_trusted x ksks) e in
      subst (Trusted s root_name) (sym same) (
        root_trusted _ refl match kept (
          verify_rr_set_ksk s.schemes _ root_name type_dnskey [] (
            subst (λ x. (verify_rr_set s.schemes x root_name type_dnskey mode_ksk []).0 ≡ true) same
              v)))

  root_matched-Ends :
      (z : Zone) (m : Result KeyMatchError (List DnsKey)) (r : Run)
      → match_ksk_with_anchors s.schemes z s.anchors ≡ m
      → IsLoaded (new_zone s.now none) root_name type_dnskey z
      → Ends r.aliases RootHolds (root_matched s z m r)
  unfolding root_matched add_step_to set_bogus
  root_matched-Ends z (err e) r m loaded = (refl, tt)
  root_matched-Ends z (ok ksks) r m loaded =
      and_then-Ends r.aliases (Checks s (trust_keys z ksks) root_name type_dnskey mode_ksk)
        RootHolds (check_set s (trust_keys z ksks) root_name type_dnskey mode_ksk r)
        (root_checked s (trust_keys z ksks) ksks)
        (check_set-Ends s (trust_keys z ksks) root_name type_dnskey mode_ksk r)
        (λ c r' checked. root_checked-Ends (trust_keys z ksks) ksks c r' (λ y.
          root-Trusted z ksks loaded (match_ksk_with_anchors-MatchEach s.schemes z s.anchors ksks m)
            (checked y)))

  pub validate_root-Ends : (r : Run) → Ends r.aliases RootHolds (validate_root s r)
  unfolding validate_root root_loaded
  validate_root-Ends r =
      and_then-Ends r.aliases (Loads (new_zone s.now none) root_name type_dnskey) RootHolds
        (load_records s (new_zone s.now none) root_name type_dnskey r) (root_loaded s)
        (load_records-Ends s (new_zone s.now none) root_name type_dnskey r)
        (λ found r' loaded.
          root_matched-Ends found.1 (match_ksk_with_anchors s.schemes found.1 s.anchors) r' refl
            loaded)
