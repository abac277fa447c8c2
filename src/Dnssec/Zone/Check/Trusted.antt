-- ===== src/Dnssec/Zone/Check/Trusted.antt =====
-- dnssec/zone.go: `AddTrustedKey` takes nothing away from what verifies.
use dnsdata_go.Common.{
  ℕ, ◌≡◌, refl, subst, arith, true, Bool-cases, inl, inr, List, [], ◌∷◌, ◌++◌, Option, none, Bytes,
}
use mathlib.Core.List.{Memᴰ}
use mathlib.Core.List.Memᴰ
use dnsdata_go.Text.{Unicode}
use dnsdata_go.Types.{type_dnskey}
use dnsdata_go.Dnssec.Crypto.{DnssecError, DnsKey, Schemes, key_label}
use dnsdata_go.Dnssec.Zone.{
  KeyVerifyMode, mode_none, mode_zsk, mode_ksk, mode_csk, mode_other, RrSig, Zone, Checked,
  find_rrsigs, find_dns_keys, is_trusted_key, add_trusted_key,
}
use dnsdata_go.Dnssec.Zone.Digest.{create_digest_target}
use dnsdata_go.Dnssec.Zone.Check.{
  is_verified, verify_delegation_signer, verify_ksk, check_with, verify_set_with, filter_from,
  filter_keys, ksk_keys, verify_zsk, keys_for_mode, verify_rr_set,
}
use dnsdata_go.Dnssec.Zone.Check.Agreement.{
  results_of, verified_from, verify_sigs-verified_from, check_with-IsQuiet,
}
use dnsdata_go.Dnssec.Zone.Check.Verified.{check_with_iff, verify_sigs_sound, filter_from_sound}

verified_from_complete :
    (check : RrSig → Checked _) (s : RrSig) (sigs : List RrSig) (first : Option DnssecError)
    → Memᴰ s sigs
    → is_verified ((check s).0) ≡ true
    → (verified_from (results_of check sigs) first).0 ≡ true
unfolding verified_from results_of
verified_from_complete check s [] first m v = elim m [ ]
verified_from_complete check s (t ∷ ts) first (Memᴰ.head e) v =
    rw (subst (λ x. is_verified ((check x).0) ≡ true) e v) refl
verified_from_complete check s (t ∷ ts) first (Memᴰ.tail m) v =
    let rest = λ (f : Option DnssecError). verified_from_complete check s ts f m v in
    elim (Bool-cases (is_verified ((check t).0))) [ inl y ↦ rw y refl | inr n ↦ rw n (rest _) ]

filter_from_complete :
    (accept : DnsKey → Checked _) (k : DnsKey) (keys : List DnsKey) (first : Option DnssecError)
    → Memᴰ k keys
    → (accept k).0 ≡ true
    → Memᴰ k ((filter_from accept keys first).0)
unfolding filter_from
filter_from_complete accept k [] first m a = elim m [ ]
filter_from_complete accept k (l ∷ ls) first (Memᴰ.head e) a =
    rw (subst (λ x. (accept x).0 ≡ true) e a) (Memᴰ.head e)
filter_from_complete accept k (l ∷ ls) first (Memᴰ.tail m) a = elim (Bool-cases ((accept l).0)) [
  | inl y ↦ rw y (Memᴰ.tail (filter_from_complete accept k ls _ m a))
  | inr n ↦ rw n (filter_from_complete accept k ls _ m a)
]

module _ ⦃u : Unicode⦄ where
  is_trusted_key-append :
      (trusted more : List DnsKey) (k : DnsKey)
      → is_trusted_key trusted k ≡ true
      → is_trusted_key (trusted ++ more) k ≡ true
  unfolding is_trusted_key
  is_trusted_key-append [] more k t = absurd (cc)
  is_trusted_key-append (l ∷ ls) more k t = ground (arith, is_trusted_key-append ls more k)

  verify_set_with_more :
      (h : Schemes) (z : Zone) (key : DnsKey) (choose choose' : List DnsKey → Checked (List DnsKey))
      → ((k : DnsKey) (keys : List DnsKey) → Memᴰ k ((choose keys).0) → Memᴰ k ((choose' keys).0))
      → (name : Bytes) (type_covered : ℕ) (signer : Bytes)
      → (verify_set_with h z choose name type_covered signer).0 ≡ true
      → (verify_set_with h (add_trusted_key z key) choose' name type_covered signer).0 ≡ true
  unfolding verify_set_with add_trusted_key find_dns_keys create_digest_target find_rrsigs
  verify_set_with_more h z key choose choose' more name type_covered signer v =
      let z' = add_trusted_key z key in
      let check = check_with h z' choose' name type_covered in
      let sigs = find_rrsigs z name type_covered signer in
      let (s, j, y) = verify_sigs_sound (check_with h z choose name type_covered) sigs none v in
      let (c, (k, (m, w))) = (check_with_iff h z choose name type_covered s).0 y in
      let y' = (check_with_iff h z' choose' name type_covered s).1 (c, (k, (more k _ m, w))) in
      rw
        (verify_sigs-verified_from check (check_with-IsQuiet h z' choose' name type_covered) sigs
          none)
        (verified_from_complete check s sigs none j y')

  verify_ksk_more :
      (h : Schemes) (z : Zone) (key k : DnsKey)
      → (verify_ksk h z k).0 ≡ true
      → (verify_ksk h (add_trusted_key z key) k).0 ≡ true
  unfolding verify_ksk add_trusted_key verify_delegation_signer
  verify_ksk_more h z key k v = elim (Bool-cases (is_trusted_key z.trusted k)) [
    | inl y ↦ rw (is_trusted_key-append z.trusted (key ∷ []) k y) refl
    | inr n ↦ elim (Bool-cases (is_trusted_key (z.trusted ++ key ∷ []) k)) [
      | inl y ↦ rw y refl
      | inr m ↦ rw m (rw n at v)
    ]
  ]

  ksk_keys_more :
      (h : Schemes) (z : Zone) (key k : DnsKey) (keys : List DnsKey)
      → Memᴰ k ((ksk_keys h z keys).0)
      → Memᴰ k ((ksk_keys h (add_trusted_key z key) keys).0)
  unfolding ksk_keys filter_keys
  ksk_keys_more h z key k keys m =
      let (i, a) = filter_from_sound (verify_ksk h z) k keys none m in
      filter_from_complete (verify_ksk h (add_trusted_key z key)) k keys none i
        (verify_ksk_more h z key k a)

  verify_zsk_more :
      (h : Schemes) (z : Zone) (key k : DnsKey)
      → (verify_zsk h z k).0 ≡ true
      → (verify_zsk h (add_trusted_key z key) k).0 ≡ true
  unfolding verify_zsk
  verify_zsk_more h z key k v =
      verify_set_with_more h z key (ksk_keys h z) (ksk_keys h (add_trusted_key z key))
        (ksk_keys_more h z key) (key_label k) type_dnskey [] v

  csk_more :
      (h : Schemes) (z : Zone) (key k l : DnsKey) (ls : List DnsKey)
      → Memᴰ k ((ksk_keys h z (l ∷ ls)).0)
      → Memᴰ k ((keys_for_mode h (add_trusted_key z key) mode_csk (l ∷ ls)).0)
  unfolding keys_for_mode ksk_keys filter_keys
  csk_more h z key k l ls m =
      let kept = ksk_keys_more h z key k (l ∷ ls) m in
      elim (Bool-cases ((verify_zsk h (add_trusted_key z key) l).0)) [
        | inl y ↦ rw y ((filter_from_sound (verify_ksk h z) k (l ∷ ls) none m).0)
        | inr n ↦ rw n kept
      ]

  keys_for_mode_more :
      (h : Schemes) (z : Zone) (key : DnsKey) (mode : KeyVerifyMode) (k : DnsKey)
      (keys : List DnsKey)
      → Memᴰ k ((keys_for_mode h z mode keys).0)
      → Memᴰ k ((keys_for_mode h (add_trusted_key z key) mode keys).0)
  unfolding keys_for_mode
  keys_for_mode_more h z key mode k [] m = elim m [ ]
  keys_for_mode_more h z key mode_none k (l ∷ ls) m = m
  keys_for_mode_more h z key mode_ksk k (l ∷ ls) m = ksk_keys_more h z key k (l ∷ ls) m
  keys_for_mode_more h z key mode_zsk k (l ∷ ls) m = elim (Bool-cases ((verify_zsk h z l).0)) [
    | inl y ↦ rw (verify_zsk_more h z key l y) (rw y at m)
    | inr n ↦ absurd (Memᴰ.not-nil (rw n at m))
  ]
  keys_for_mode_more h z key mode_csk k (l ∷ ls) m = elim (Bool-cases ((verify_zsk h z l).0)) [
    | inl y ↦ rw (verify_zsk_more h z key l y) (rw y at m)
    | inr n ↦ csk_more h z key k l ls (rw n at m)
  ]
  keys_for_mode_more h z key mode_other k (l ∷ ls) m = m

  -- A record set that verifies in a mode still does after a key is added to the trusted ones.
  pub verify_rr_set-add_trusted_key :
      (h : Schemes) (z : Zone) (key : DnsKey) (name : Bytes) (type_covered : ℕ)
      (mode : KeyVerifyMode) (signer : Bytes)
      → (verify_rr_set h z name type_covered mode signer).0 ≡ true
      → (verify_rr_set h (add_trusted_key z key) name type_covered mode signer).0 ≡ true
  unfolding verify_rr_set
  verify_rr_set-add_trusted_key h z key name type_covered mode signer v =
      verify_set_with_more h z key (keys_for_mode h z mode)
        (keys_for_mode h (add_trusted_key z key) mode) (keys_for_mode_more h z key mode) name
        type_covered signer v
