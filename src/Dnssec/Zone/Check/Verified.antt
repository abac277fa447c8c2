-- ===== src/Dnssec/Zone/Check/Verified.antt =====
-- dnssec/sigcheck.go: what stands behind a signature that `CheckRRSIG` calls verified.
use dnsdata_go.Common.{
  ℕ, ◌≡◌, ◌≤◌, ◌↔◌, refl, sym, ◌∙◌, subst, arith, Bool, true, false, Bool-cases, Option-cases, inl,
  inr, List, [], ◌∷◌, Option, none, some, Bytes, Result, ok, err,
}
use mathlib.Core.List.{Memᴰ}
use mathlib.Core.List.Memᴰ
use dnsdata_go.Text.{Unicode}
use dnsdata_go.Dnssec.Crypto.{DnssecError, DnsKey, Schemes, verify}
use dnsdata_go.Dnssec.Zone.{
  KeyVerifyMode, SigStatus, sig_verified, RrSig, Zone, Checked, first_error, find_dns_keys,
  validity_status,
}
use dnsdata_go.Dnssec.Zone.Digest.{create_digest_target}
use dnsdata_go.Dnssec.Zone.Check.{
  as_pair, is_verified, is_unsupported, succeeded, verify_status, verify_keys, verify_with_any,
  check_target, when_valid, check_with, verify_sigs, filter_from, keys_for_mode, check_rrsig,
}

verify_status-succeeded : (r : Checked Bool) → is_verified (verify_status r) ≡ succeeded r
unfolding is_verified verify_status succeeded
verify_status-succeeded (true, none) = refl
verify_status-succeeded (false, none) = refl
verify_status-succeeded (b, some e) = elim (Bool-cases (is_unsupported e)) [
  | inl u ↦ ground (arith, u)
  | inr u ↦ ground (arith, u)
]

succeeded-as_pair : (r : Result DnssecError Bool) → (succeeded (as_pair r) ≡ true) ↔ (r ≡ ok true)
unfolding succeeded
succeeded-as_pair (err e) = ground arith
succeeded-as_pair (ok b) = ground arith

module _ (h : Schemes) (input signature : Bytes) where
  -- A key under which the signature over the octets verifies.
  abbrev pub Verifies : DnsKey → Type 0
  Verifies k = verify h k input signature ≡ ok true

  verify_keys_sound :
      (keys : List DnsKey) (first : Checked SigStatus)
      → is_verified (first.0) ≡ false
      → is_verified ((verify_keys h input signature keys (some first)).0) ≡ true
      → (k : DnsKey) × Memᴰ k keys × Verifies k
  unfolding verify_keys
  verify_keys_sound [] first bad v = absurd (cc)
  verify_keys_sound (k ∷ ks) first bad v =
      elim (Bool-cases (succeeded (as_pair (verify h k input signature)))) [
        | inl y ↦ (k, Memᴰ.head refl, (succeeded-as_pair _).0 y)
        | inr n ↦ let (l, m, w) = verify_keys_sound ks first bad (rw n at v) in (l, Memᴰ.tail m, w)
      ]

  verify_keys_complete :
      (k : DnsKey) (keys : List DnsKey) (first : Option (Checked SigStatus))
      → Memᴰ k keys
      → Verifies k
      → is_verified ((verify_keys h input signature keys first).0) ≡ true
  unfolding verify_keys is_verified
  verify_keys_complete k [] first m w = elim m [ ]
  verify_keys_complete k (l ∷ ls) first (Memᴰ.head e) w =
      rw ((succeeded-as_pair _).1 (subst Verifies e w)) refl
  verify_keys_complete k (l ∷ ls) first (Memᴰ.tail m) w =
      elim (Bool-cases (succeeded (as_pair (verify h l input signature)))) [
        | inl y ↦ rw y refl
        | inr n ↦ rw n (verify_keys_complete k ls _ m w)
      ]

  verify_with_any_iff :
      (k : DnsKey) (ks : List DnsKey)
      → (is_verified ((verify_with_any h (k ∷ ks) input signature).0) ≡ true)
        ↔ ((l : DnsKey) × Memᴰ l (k ∷ ks) × Verifies l)
  unfolding verify_with_any verify_keys
  verify_with_any_iff k ks =
      let r = as_pair (verify h k input signature) in
      (
        λ v. elim (Bool-cases (succeeded r)) [
          | inl y ↦ (k, Memᴰ.head refl, (succeeded-as_pair _).0 y)
          | inr n ↦
              let (l, m, w) = verify_keys_sound ks _ (verify_status-succeeded r ∙ n) (rw n at v) in
              (l, Memᴰ.tail m, w)
        ],
        λ p. verify_keys_complete (p.0) (k ∷ ks) none (p.1) (p.2),
      )

-- The clock, where there is one, is inside the window of the signature.
abbrev pub IsCurrent : Zone → RrSig → Type 0
IsCurrent z s = (t : ℕ) → z.now ≡ some t → (s.inception ≤ t) × (t ≤ s.expire)

validity_status_iff : (z : Zone) (s : RrSig) → (validity_status z s ≡ sig_verified) ↔ IsCurrent z s
unfolding validity_status
validity_status_iff z s = elim (Option-cases z.now) [
  | inl e ↦ (λ v t now. absurd (cc), λ c. rw e refl)
  | inr (t, e) ↦ (λ v x now. ground (arith, e, now, v), λ c. ground (arith, e, c t e))
]

-- A key of a list, and a digest target under which it verifies the signature.
abbrev pub SignedBy :
    Schemes → List DnsKey → RrSig → Result DnssecError (Option Bytes) → DnsKey → Type 0
SignedBy h keys s target k =
    Memᴰ k keys × ((octets : Bytes) × (target ≡ ok (some octets)) × Verifies h octets s.signature k)

check_target_iff :
    (h : Schemes) (s : RrSig) (keys : List DnsKey) (e : Option DnssecError)
    (target : Result DnssecError (Option Bytes))
    → (is_verified ((check_target h s keys e target).0) ≡ true)
      ↔ ((k : DnsKey) × SignedBy h keys s target k)
unfolding check_target is_verified
check_target_iff h s [] e target = (λ v. absurd (cc), λ p. elim (p.1.0) [ ])
check_target_iff h s (k ∷ ks) e (err d) = (λ v. absurd (cc), λ p. absurd (let e = p.1.1.1 in cc))
check_target_iff h s (k ∷ ks) e (ok none) = (λ v. absurd (cc), λ p. absurd (let e = p.1.1.1 in cc))
check_target_iff h s (k ∷ ks) e (ok (some octets)) =
    let i = verify_with_any_iff h octets s.signature k ks in
    (
      λ v. let (l, m, w) = i.0 v in (l, (m, (octets, refl, w))),
      λ (l, (m, (o, e, w))).
          i.1 (l, m, let same : o ≡ octets = cc in subst (λ x. Verifies h x s.signature l) same w),
    )

when_valid_iff :
    (status : SigStatus) (r : Checked SigStatus)
    → (is_verified ((when_valid status r).0) ≡ true)
      ↔ ((status ≡ sig_verified) × (is_verified (r.0) ≡ true))
unfolding when_valid is_verified
when_valid_iff status r = ground arith

module _ ⦃u : Unicode⦄ where
  pub check_with_iff :
      (h : Schemes) (z : Zone) (choose : List DnsKey → Checked (List DnsKey)) (name : Bytes)
      (type_covered : ℕ) (s : RrSig)
      → (is_verified ((check_with h z choose name type_covered s).0) ≡ true) ↔ (
          IsCurrent z s
          × ((k : DnsKey) × SignedBy h
                ((choose (find_dns_keys z s.signer s.key_tag s.algorithm)).0)
                s
                (create_digest_target h z s name type_covered)
                k))
  unfolding check_with is_verified
  check_with_iff h z choose name type_covered s =
      let (keys, e) = choose (find_dns_keys z s.signer s.key_tag s.algorithm) in
      let target = create_digest_target h z s name type_covered in
      let i = when_valid_iff (validity_status z s) (check_target h s keys e target) in
      let current = validity_status_iff z s in
      let signed = check_target_iff h s keys e target in
      (
        λ v. let (c, w) = i.0 v in (current.0 c, signed.0 w),
        λ (c, w). i.1 (current.1 c, signed.1 w),
      )

  -- A signature verifies exactly when the clock is inside its window, the octets that it covers can
  -- be built, and it verifies over them under a key of the zone that has its signer, key tag and
  -- algorithm and that the mode accepts.
  pub check_rrsig_iff :
      (h : Schemes) (z : Zone) (name : Bytes) (type_covered : ℕ) (s : RrSig) (mode : KeyVerifyMode)
      → (is_verified ((check_rrsig h z name type_covered s mode).0) ≡ true) ↔ (
          IsCurrent z s
          × ((k : DnsKey) × SignedBy h
                ((keys_for_mode h z mode (find_dns_keys z s.signer s.key_tag s.algorithm)).0)
                s
                (create_digest_target h z s name type_covered)
                k))
  unfolding check_rrsig
  check_rrsig_iff h z name type_covered s mode =
      check_with_iff h z (keys_for_mode h z mode) name type_covered s

verify_sigs_tail :
    (check : RrSig → Checked SigStatus) (s : RrSig) (sigs : List RrSig) (first : Option DnssecError)
    → is_verified ((check s).0) ≡ false
    → (f : Option DnssecError) × (verify_sigs check (s ∷ sigs) first ≡ verify_sigs check sigs f)
unfolding verify_sigs
verify_sigs_tail check s sigs none n = ((check s).1, ground arith)
verify_sigs_tail check s sigs (some f) n = (some f, ground arith)

-- A record set that verifies has a signature that does.
pub verify_sigs_sound :
    (check : RrSig → Checked SigStatus) (sigs : List RrSig) (first : Option DnssecError)
    → (verify_sigs check sigs first).0 ≡ true
    → (s : RrSig) × Memᴰ s sigs × (is_verified ((check s).0) ≡ true)
unfolding verify_sigs
verify_sigs_sound check [] first v = absurd (cc)
verify_sigs_sound check (s ∷ sigs) first v = elim (Bool-cases (is_verified ((check s).0))) [
  | inl y ↦ (s, Memᴰ.head refl, y)
  | inr n ↦
      let (f, e) = verify_sigs_tail check s sigs first n in
      let (t, i, w) = verify_sigs_sound check sigs f (rw e at v) in (t, Memᴰ.tail i, w)
]

pub filter_from_sound :
    (accept : DnsKey → Checked Bool) (k : DnsKey) (keys : List DnsKey) (first : Option DnssecError)
    → Memᴰ k ((filter_from accept keys first).0)
    → Memᴰ k keys × ((accept k).0 ≡ true)
unfolding filter_from
filter_from_sound accept k [] first m = elim m [ ]
filter_from_sound accept k (l ∷ ls) first m =
    let rest = filter_from_sound accept k ls (first_error first ((accept l).1)) in
    elim (Bool-cases ((accept l).0)) [
      | inl y ↦ elim (Memᴰ.cases_cons (rw y at m)) [
        | inl e ↦ (Memᴰ.head e, subst (λ x. (accept x).0 ≡ true) (sym e) y)
        | inr i ↦ let (j, a) = rest i in (Memᴰ.tail j, a)
      ]
      | inr n ↦ let (i, a) = rest (rw n at m) in (Memᴰ.tail i, a)
    ]
