-- ===== src/Verifier/Chain/Trust/Matched.antt =====
-- The keys that the DS records or the anchors match, and trusting them.
use dnsdata_go.Common.{
  ◌≡◌, ◌∙◌, sym, ap, subst, Bool-cases, Option-cases, inl, inr, List, [], ◌∷◌, ◌++◌, Option, none,
  some, Bytes, ok, append-nil, append_assoc,
}
use dnsdata_go.Text.{Unicode}
use dnsdata_go.Types.{type_dnskey, type_ds}
use dnsdata_go.Dnssec.Crypto.{DnsKey, Ds, Schemes}
use dnsdata_go.Dnssec.Zone.{ZoneRecord, Zone, find_rr_set, add_trusted_key}
use dnsdata_go.Verifier.Names.{root_name}
use dnsdata_go.Verifier.Chain.{AnchorDs}
use dnsdata_go.Verifier.Chain.Keys.{
  KeyMatchError, as_dnskey, is_matched, matching_keys, keys_matching_ds, ds_set, or_error,
  match_sets, match_ksk_with_ds, anchor_set, match_ksk_with_anchors, trust_keys,
}
use dnsdata_go.Verifier.Chain.Trust.{anchors_of, MatchEach}

matching_keys-MatchEach :
    (h : Schemes) (dses : List Ds) (rrs : List ZoneRecord)
    → MatchEach h dses (matching_keys h dses rrs)
unfolding matching_keys
matching_keys-MatchEach h dses [] = tt
matching_keys-MatchEach h dses (rr ∷ rrs) = elim (Option-cases (as_dnskey rr.handler)) [
  | inl e ↦ rw (e, matching_keys) (matching_keys-MatchEach h dses rrs)
  | inr (k, e) ↦ elim (Bool-cases (is_matched h dses k)) [
    | inl y ↦ rw (e, y, matching_keys) (y, matching_keys-MatchEach h dses rrs)
    | inr n ↦ rw (e, n, matching_keys) (matching_keys-MatchEach h dses rrs)
  ]
]

or_error-ok :
    (e : KeyMatchError) (keys ksks : List DnsKey) → or_error e keys ≡ ok ksks → keys ≡ ksks
unfolding or_error
or_error-ok e [] ksks h = cc
or_error-ok e (k ∷ ks) ksks h = cc

match_sets-MatchEach :
    (h : Schemes) (keys dses : List ZoneRecord) (ksks : List DnsKey)
    → match_sets h keys dses ≡ ok ksks
    → MatchEach h (ds_set dses) ksks
unfolding match_sets
match_sets-MatchEach h [] dses ksks m = cc
match_sets-MatchEach h (k ∷ keys) [] ksks m = cc
match_sets-MatchEach h (k ∷ keys) (d ∷ dses) ksks m =
    subst (MatchEach h (ds_set (d ∷ dses))) (or_error-ok _ _ ksks m)
      (matching_keys-MatchEach h (ds_set (d ∷ dses)) (k ∷ keys))

-- The keys that `matchKSKWithDS` returns match DS records of the parent.
pub match_ksk_with_ds-MatchEach :
    (h : Schemes) (child parent : Zone) (name : Bytes) (ksks : List DnsKey)
    → match_ksk_with_ds h child parent name ≡ ok ksks
    → MatchEach h (ds_set (find_rr_set parent.records name type_ds)) ksks
unfolding match_ksk_with_ds
match_ksk_with_ds-MatchEach h child parent name ksks m =
    match_sets-MatchEach h (find_rr_set child.records name type_dnskey)
      (find_rr_set parent.records name type_ds) ksks m

-- The keys that `matchKSKWithAnchors` returns match anchors.
pub match_ksk_with_anchors-MatchEach :
    (h : Schemes) (z : Zone) (anchors : Option (List AnchorDs)) (ksks : List DnsKey)
    → match_ksk_with_anchors h z anchors ≡ ok ksks
    → MatchEach h (anchor_set (anchors_of anchors)) ksks
unfolding match_ksk_with_anchors keys_matching_ds
match_ksk_with_anchors-MatchEach h z none ksks m = cc
match_ksk_with_anchors-MatchEach h z (some []) ksks m = cc
match_ksk_with_anchors-MatchEach h z (some (a ∷ anchors)) ksks m =
    subst (MatchEach h (anchor_set (a ∷ anchors))) (or_error-ok _ _ ksks m) (
      matching_keys-MatchEach h (anchor_set (a ∷ anchors))
        (find_rr_set z.records root_name type_dnskey))

-- A zone with more keys trusted.
abbrev pub with_trusted : Zone → List DnsKey → Zone
with_trusted z ks = record z { trusted = z.trusted ++ ks }

module _ ⦃u : Unicode⦄ where
  -- Trusting keys puts them behind those that are trusted.
  pub trust_keys_lem : (z : Zone) (ks : List DnsKey) → trust_keys z ks ≡ with_trusted z ks
  unfolding trust_keys add_trusted_key
  trust_keys_lem z [] = ap (λ k. record z { trusted = k }) (sym (append-nil z.trusted))
  trust_keys_lem z (k ∷ ks) =
      trust_keys_lem (record z { trusted = z.trusted ++ k ∷ [] }) ks
      ∙ ap (λ x. record z { trusted = x }) (append_assoc z.trusted (k ∷ []) ks)
