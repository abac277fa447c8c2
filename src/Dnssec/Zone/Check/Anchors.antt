-- ===== src/Dnssec/Zone/Check/Anchors.antt =====
-- dnssec/zone.go: which keys `KeyModeKSK` and `KeyModeZSK` accept.
use dnsdata_go.Common.{
  ℕ, ◌≡◌, ◌⊎◌, refl, subst, arith, true, false, Bool-cases, Option-cases, Result-cases, inl, inr,
  List, [], ◌∷◌, none, some, Bytes, ok, equal_iff,
}
use mathlib.Core.List.{Memᴰ}
use mathlib.Core.List.Memᴰ
use dnsdata_go.Text.{Unicode}
use dnsdata_go.Types.{type_dnskey, type_ds}
use dnsdata_go.Dnssec.Crypto.{
  HashName, DnsKey, Ds, Schemes, key_label, ds_digest_data, ds_hash, verify_digest,
}
use dnsdata_go.Dnssec.Zone.{
  mode_zsk, mode_ksk, RrSig, ZoneRecord, Zone, Checked, find_rr_set, find_rrsigs, find_dns_keys,
  is_trusted_key,
}
use dnsdata_go.Dnssec.Zone.Digest.{create_digest_target}
use dnsdata_go.Dnssec.Zone.Check.{
  check_with, verify_set_with, as_ds, matches_ds, verify_delegation_signer_with_ds,
  verify_delegation_signer, verify_ksk, filter_keys, ksk_keys, verify_zsk, keys_for_mode,
  verify_rr_set,
}
use dnsdata_go.Dnssec.Zone.Check.Verified.{
  IsCurrent, SignedBy, check_with_iff, verify_sigs_sound, filter_from_sound,
}

-- The DS record gives the algorithm of the key, and the digest of the key under a known hash.
abbrev pub MatchesDs : Schemes → DnsKey → Ds → Type 0
MatchesDs h k d =
    (k.algorithm ≡ d.algorithm)
    × ((octets : Bytes) × (name : HashName) × (ds_digest_data k ≡ ok octets)
        × (ds_hash d.digest_type ≡ some name)
        × (h.hash name octets ≡ d.digest))

verify_digest_sound :
    (h : Schemes) (d : Ds) (octets : Bytes)
    → verify_digest h d octets ≡ ok true
    → (name : HashName) × (ds_hash d.digest_type ≡ some name) × (h.hash name octets ≡ d.digest)
unfolding verify_digest
verify_digest_sound h d octets v = elim (Option-cases (ds_hash d.digest_type)) [
  | inl e ↦ absurd (ground (arith, e, v))
  | inr (name, e) ↦ (name, e, (equal_iff _ _).0 (ground (arith, e, v)))
]

with_ds_sound :
    (h : Schemes) (k : DnsKey) (d : Ds)
    → verify_delegation_signer_with_ds h k d ≡ ok true
    → MatchesDs h k d
unfolding verify_delegation_signer_with_ds
with_ds_sound h k d v = elim (Result-cases (ds_digest_data k)) [
  | inl (octets, e) ↦
      let (name, f, g) = verify_digest_sound h d octets (ground (arith, e, v)) in
      (ground (arith, v), (octets, name, e, f, g))
  | inr (x, e) ↦ absurd (ground (arith, e, v))
]

matches_ds_step :
    (h : Schemes) (k : DnsKey) (r : ZoneRecord) (rs : List ZoneRecord)
    → matches_ds h k (r ∷ rs) ≡ ok true
    → (matches_ds h k rs ≡ ok true)
      ⊎ ((d : Ds) × (as_ds r.handler ≡ some d) × (verify_delegation_signer_with_ds h k d ≡ ok true))
unfolding matches_ds
matches_ds_step h k r rs v = elim (Option-cases (as_ds r.handler)) [
  | inl e ↦ inl (ground (arith, e, v))
  | inr (d, e) ↦ elim (Result-cases (verify_delegation_signer_with_ds h k d)) [
    | inl (true, f) ↦ inr (d, e, f)
    | inl (false, f) ↦ inl (ground (arith, e, f, v))
    | inr (x, f) ↦ inl (ground (arith, e, f, v))
  ]
]

matches_ds_sound :
    (h : Schemes) (k : DnsKey) (records : List ZoneRecord)
    → matches_ds h k records ≡ ok true
    → (r : ZoneRecord) × (d : Ds) × Memᴰ r records × (as_ds r.handler ≡ some d) × MatchesDs h k d
unfolding matches_ds
matches_ds_sound h k [] v = absurd (cc)
matches_ds_sound h k (r ∷ rs) v = elim (matches_ds_step h k r rs v) [
  | inl w ↦ let (x, d, m, e, f) = matches_ds_sound h k rs w in (x, d, Memᴰ.tail m, e, f)
  | inr (d, e, f) ↦ (r, d, Memᴰ.head refl, e, with_ds_sound h k d f)
]

module _ ⦃u : Unicode⦄ where
  -- A key that is trusted, or that a DS record at its name in the parent matches.
  abbrev pub IsAuthentic : Schemes → Zone → DnsKey → Type 0
  IsAuthentic h z k =
      (is_trusted_key z.trusted k ≡ true)
      ⊎ ((records : List ZoneRecord) × (r : ZoneRecord) × (d : Ds) × (z.parent ≡ some records)
          × Memᴰ r (find_rr_set records (key_label k) type_ds)
          × (as_ds r.handler ≡ some d)
          × MatchesDs h k d)

  verify_ksk_sound :
      (h : Schemes) (z : Zone) (k : DnsKey) → (verify_ksk h z k).0 ≡ true → IsAuthentic h z k
  unfolding verify_ksk verify_delegation_signer
  verify_ksk_sound h z k v = elim (Bool-cases (is_trusted_key z.trusted k)) [
    | inl y ↦ inl y
    | inr n ↦ elim (Option-cases z.parent) [
      | inl e ↦ absurd (ground (arith, n, e, v))
      | inr (records, e) ↦
          let (r, d, m, f, g) =
            matches_ds_sound h k (find_rr_set records (key_label k) type_ds)
              (ground (arith, n, e, v)) in
          inr (records, r, d, e, m, f, g)
    ]
  ]

  ksk_keys_sound :
      (h : Schemes) (z : Zone) (keys : List DnsKey) (k : DnsKey)
      → Memᴰ k ((ksk_keys h z keys).0)
      → Memᴰ k keys × IsAuthentic h z k
  unfolding ksk_keys filter_keys
  ksk_keys_sound h z keys k m =
      let (i, a) = filter_from_sound (verify_ksk h z) k keys none m in (i, verify_ksk_sound h z k a)

  -- An authentic key of the zone, with the signer, the key tag and the algorithm of the signature,
  -- under which it verifies over the record set, and a clock inside its window.
  abbrev pub SignedByKsk : Schemes → Zone → Bytes → ℕ → RrSig → DnsKey → Type 0
  SignedByKsk h z name type_covered s k =
      IsCurrent z s
      × SignedBy h (find_dns_keys z s.signer s.key_tag s.algorithm) s
          (create_digest_target h z s name type_covered) k
      × IsAuthentic h z k

  ksk_choice :
      (h : Schemes) (z : Zone) (keys : List DnsKey)
      → (keys_for_mode h z mode_ksk keys).0 ≡ (ksk_keys h z keys).0
  unfolding keys_for_mode ksk_keys filter_keys
  ksk_choice h z [] = refl
  ksk_choice h z (k ∷ ks) = refl

  zsk_choice :
      (h : Schemes) (z : Zone) (keys : List DnsKey) (k : DnsKey)
      → Memᴰ k ((keys_for_mode h z mode_zsk keys).0)
      → Memᴰ k keys
        × (first : DnsKey) × Memᴰ first keys
        × ((verify_set_with h z (ksk_keys h z) (key_label first) type_dnskey []).0 ≡ true)
  unfolding keys_for_mode verify_zsk
  zsk_choice h z [] k m = elim m [ ]
  zsk_choice h z (l ∷ ls) k m = elim (Bool-cases ((verify_zsk h z l).0)) [
    | inl y ↦ (rw y at m, l, Memᴰ.head refl, y)
    | inr n ↦ absurd (Memᴰ.not-nil (rw n at m))
  ]

  -- A signature over the record set that an authentic key made.
  abbrev pub SetSignedByKsk : Schemes → Zone → Bytes → ℕ → Bytes → Type 0
  SetSignedByKsk h z name type_covered signer =
      (s : RrSig) × (k : DnsKey) × Memᴰ s (find_rrsigs z name type_covered signer)
      × SignedByKsk h z name type_covered s k

  ksk_signed :
      (h : Schemes) (z : Zone) (choose : List DnsKey → Checked (List DnsKey))
      → ((keys : List DnsKey) → (choose keys).0 ≡ (ksk_keys h z keys).0)
      → (name : Bytes) (type_covered : ℕ) (signer : Bytes)
      → (verify_set_with h z choose name type_covered signer).0 ≡ true
      → SetSignedByKsk h z name type_covered signer
  unfolding verify_set_with
  ksk_signed h z choose same name type_covered signer v =
      let (s, j, y) =
        verify_sigs_sound (check_with h z choose name type_covered)
          (find_rrsigs z name type_covered signer) none v in
      let found = find_dns_keys z s.signer s.key_tag s.algorithm in
      let (c, (k, (m, w))) = (check_with_iff h z choose name type_covered s).0 y in
      let (i, a) = ksk_keys_sound h z found k (subst (Memᴰ k) (same found) m) in
      (s, k, j, (c, (i, w), a))

  -- A record set that verifies in `KeyModeKSK` has a signature that an authentic key made.
  pub verify_rr_set_ksk :
      (h : Schemes) (z : Zone) (name : Bytes) (type_covered : ℕ) (signer : Bytes)
      → (verify_rr_set h z name type_covered mode_ksk signer).0 ≡ true
      → SetSignedByKsk h z name type_covered signer
  unfolding verify_rr_set
  verify_rr_set_ksk h z name type_covered signer v =
      ksk_signed h z (keys_for_mode h z mode_ksk) (ksk_choice h z) name type_covered signer v

  -- A record set that verifies in `KeyModeZSK` has a current signature that verifies under a DNSKEY
  -- of the zone with its signer, key tag and algorithm, and the DNSKEY record set at the owner of a
  -- key with them has a signature that an authentic key made.
  pub verify_rr_set_zsk :
      (h : Schemes) (z : Zone) (name : Bytes) (type_covered : ℕ) (signer : Bytes)
      → (verify_rr_set h z name type_covered mode_zsk signer).0 ≡ true
      → (s : RrSig) × (k : DnsKey) × (first : DnsKey) × Memᴰ s
          (find_rrsigs z name type_covered signer)
        × IsCurrent z s
        × SignedBy h
            (find_dns_keys z s.signer s.key_tag s.algorithm)
            s
            (create_digest_target h z s name type_covered)
            k
        × Memᴰ first (find_dns_keys z s.signer s.key_tag s.algorithm)
        × SetSignedByKsk h z (key_label first) type_dnskey []
  unfolding verify_rr_set verify_set_with
  verify_rr_set_zsk h z name type_covered signer v =
      let (s, j, y) =
        verify_sigs_sound (check_with h z (keys_for_mode h z mode_zsk) name type_covered)
          (find_rrsigs z name type_covered signer) none v in
      let found = find_dns_keys z s.signer s.key_tag s.algorithm in
      let (c, (k, (m, w))) =
        (check_with_iff h z (keys_for_mode h z mode_zsk) name type_covered s).0 y in
      let (i, first, f, a) = zsk_choice h z found k m in
      (
        s,
        k,
        first,
        j,
        c,
        (i, w),
        f,
        ksk_signed h z (ksk_keys h z) (λ keys. refl) (key_label first) type_dnskey [] a,
      )
