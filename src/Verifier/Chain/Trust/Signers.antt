-- ===== src/Verifier/Chain/Trust/Signers.antt =====
-- Whose keys sign in an authenticated zone of verifier/chain.go.
use dnsdata_go.Common.{
  ℕ, ◌≡◌, ◌∙◌, refl, ap, append-nil, append_assoc, none, some, ◌⊎◌, sym, subst, arith, Bool-cases,
  inl, inr, true, false, ◌&&◌, List, [], ◌∷◌, ◌++◌, ◌==◌, All, All-append, Bytes, equal, equal_iff,
}
use mathlib.Core.List.{Memᴰ}
use mathlib.Core.List.Memᴰ
use dnsdata_go.Text.{Unicode}
use dnsdata_go.Types.{type_dnskey, type_ds}
use dnsdata_go.Zone.Canonical.{equal_canonical_names}
use dnsdata_go.Dnssec.Crypto.{DnsKey}
use dnsdata_go.Dnssec.Zone.{
  RrSig, ZoneRecord, Zone, find_rr_set, find_rrsigs, find_dns_keys, keys_with,
}
use dnsdata_go.Dnssec.Zone.Digest.{create_digest_target}
use dnsdata_go.Dnssec.Zone.Check.Verified.{SignedBy}
use dnsdata_go.Dnssec.Zone.Check.Anchors.{SetSignedByKsk}
use dnsdata_go.Verifier.Chain.{Setting}
use dnsdata_go.Verifier.Chain.Loading.{is_dropped}
use dnsdata_go.Verifier.Chain.Keys.{ds_set, anchor_set}
use dnsdata_go.Verifier.Names.{root_name}
use dnsdata_go.Verifier.Chain.Trust.{
  HasNoKeys, MatchEach, anchors_of, SignedInside, IsDnskeyAnswer, Trusted, root_trusted,
  child_trusted, more_trusted,
}

-- A key that `FindDNSKeys` finds comes from a DNSKEY record at the name.
keys_with-records :
    (k : DnsKey) (rrs : List ZoneRecord) (key_tag algorithm : ℕ)
    → Memᴰ k (keys_with rrs key_tag algorithm)
    → (rr : ZoneRecord) × Memᴰ rr rrs
unfolding keys_with
keys_with-records k [] key_tag algorithm m = elim m [ ]
keys_with-records k (rr ∷ rrs) key_tag algorithm m = (rr, Memᴰ.head refl)

find_rr_set-member :
    (rr : ZoneRecord) (records : List ZoneRecord) (name : Bytes) (rr_type : ℕ)
    → Memᴰ rr (find_rr_set records name rr_type)
    → Memᴰ rr records × (rr.label ≡ name) × ((rr.rr_type == rr_type) ≡ true)
unfolding find_rr_set
find_rr_set-member rr [] name rr_type m = elim m [ ]
find_rr_set-member rr (r ∷ rs) name rr_type m =
    elim (Bool-cases (equal r.label name && r.rr_type == rr_type)) [
      | inl y ↦ elim (Memᴰ.cases_cons (rw y at m)) [
        | inl e ↦
            subst (λ x. Memᴰ x (r ∷ rs) × (x.label ≡ name) × ((x.rr_type == rr_type) ≡ true))
              (sym e)
              (Memᴰ.head refl, (equal_iff r.label name).0 (ground (arith, y)), ground (arith, y))
        | inr i ↦ let (j, a, b) = find_rr_set-member rr rs name rr_type i in (Memᴰ.tail j, a, b)
      ]
      | inr n ↦
          let (j, a, b) = find_rr_set-member rr rs name rr_type (rw n at m) in (Memᴰ.tail j, a, b)
    ]

All-member :
    (P : ZoneRecord → Type 0) (rr : ZoneRecord) (rrs : List ZoneRecord)
    → All P rrs
    → Memᴰ rr rrs
    → P rr
All-member P rr [] h m = elim m [ ]
All-member P rr (r ∷ rs) (h, hs) (Memᴰ.head e) = subst P (sym e) h
All-member P rr (r ∷ rs) (h, hs) (Memᴰ.tail m) = All-member P rr rs hs m

module _ (s : Setting) ⦃u : Unicode⦄ where
  no_keys-IsDnskeyAnswer :
      (name : Bytes) (rs : List ZoneRecord) → HasNoKeys rs → IsDnskeyAnswer name rs
  unfolding is_dropped
  no_keys-IsDnskeyAnswer name [] h = tt
  no_keys-IsDnskeyAnswer name (rr ∷ rs) (n, h) = (rw n refl, no_keys-IsDnskeyAnswer name rs h)

  -- The keys of an authenticated zone came in the answer to the DNSKEY query for its name.
  Trusted-IsDnskeyAnswer : {p : Bytes} {z : Zone} → Trusted s p z → IsDnskeyAnswer p z.records
  Trusted-IsDnskeyAnswer (root_trusted z parent match kept signed) = kept
  Trusted-IsDnskeyAnswer (child_trusted p above name z t ds parent match kept signed) = kept
  Trusted-IsDnskeyAnswer (more_trusted name z rs t h) =
      All-append (λ rr. is_dropped rr name type_dnskey ≡ false) z.records rs
        (Trusted-IsDnskeyAnswer t) (no_keys-IsDnskeyAnswer name rs h)

  -- The keys that a zone trusts are anchored: at the root they match the trust anchors, and below it
  -- DS records that a key of an authenticated zone signed.
  abbrev pub AnchoredKeys : Bytes → Zone → Type 0
  AnchoredKeys p z =
      ((p ≡ root_name)
        × (z.parent ≡ none)
        × MatchEach s.schemes (anchor_set (anchors_of s.anchors)) z.trusted)
      ⊎ ((above : Bytes) × (parent : Zone) × Trusted s above parent
          × SignedInside s.schemes parent p type_ds
          × (z.parent ≡ some parent.records)
          × MatchEach s.schemes (ds_set (find_rr_set parent.records p type_ds)) z.trusted)

  -- The zone as it was when its DNSKEY record set was authenticated, with the parent and the keys that
  -- it trusts now. It has got only records behind its own since, and none of them is a DNSKEY.
  abbrev pub AuthenticatedKeys : Bytes → Zone → Type 0
  AuthenticatedKeys p z =
      (then_zone : Zone) × (later : List ZoneRecord) × SetSignedByKsk s.schemes then_zone p
        type_dnskey []
      × AnchoredKeys p then_zone
      × IsDnskeyAnswer p then_zone.records
      × (z.parent ≡ then_zone.parent)
      × (z.trusted ≡ then_zone.trusted)
      × (z.records ≡ then_zone.records ++ later)
      × HasNoKeys later

  as_it_was :
      (p : Bytes) (z : Zone)
      → SetSignedByKsk s.schemes z p type_dnskey []
      → AnchoredKeys p z
      → IsDnskeyAnswer p z.records
      → AuthenticatedKeys p z
  as_it_was p z signed anchored kept =
      (z, [], signed, anchored, kept, refl, refl, sym (append-nil z.records), tt)

  Trusted-AuthenticatedKeys : {p : Bytes} {z : Zone} → Trusted s p z → AuthenticatedKeys p z
  Trusted-AuthenticatedKeys (root_trusted z parent match kept signed) =
      as_it_was root_name z signed (inl (refl, parent, match)) kept
  Trusted-AuthenticatedKeys (child_trusted p above name z t ds parent match kept signed) =
      as_it_was name z signed (inr (p, above, t, ds, parent, match)) kept
  Trusted-AuthenticatedKeys (more_trusted name z rs t h) =
      let (then_zone, later, signed, anchored, kept, parent, trusted, same, none_later) =
        Trusted-AuthenticatedKeys t in
      (
        then_zone,
        later ++ rs,
        signed,
        anchored,
        kept,
        parent,
        trusted,
        ap (λ k. k ++ rs) same ∙ append_assoc then_zone.records later rs,
        All-append (λ rr. (rr.rr_type == type_dnskey) ≡ false) later rs none_later h,
      )

  owner_of_zone :
      (p : Bytes) (rr : ZoneRecord)
      → is_dropped rr p type_dnskey ≡ false
      → (rr.rr_type == type_dnskey) ≡ true
      → equal_canonical_names rr.label p ≡ true
  unfolding is_dropped
  owner_of_zone p rr kept key = ground (arith, kept, key)

  -- In an authenticated zone, the signer of a signature that verifies is the zone's name, up to the
  -- case of its letters. The keys that the zone trusts match the trust anchors at the root, and below
  -- it DS records that a key of an authenticated zone signed. It has the DNSKEY records that it held
  -- when a key that it trusts or that a DS record of its parent matches had signed the set of them at
  -- its name: no record that came later is a DNSKEY.
  pub Trusted-signer :
      (p : Bytes) (z : Zone) (name : Bytes) (rr_type : ℕ)
      → Trusted s p z
      → SignedInside s.schemes z name rr_type
      → ((sig : RrSig) × (k : DnsKey) × Memᴰ sig (find_rrsigs z name rr_type [])
          × SignedBy s.schemes
              (find_dns_keys z sig.signer sig.key_tag sig.algorithm)
              sig
              (create_digest_target s.schemes z sig name rr_type)
              k
          × (equal_canonical_names sig.signer p ≡ true))
        × AuthenticatedKeys p z
  unfolding find_dns_keys
  Trusted-signer p z name rr_type t (sig, k, j, current, signed) =
      let (rr, i) =
        keys_with-records k (find_rr_set z.records sig.signer type_dnskey) sig.key_tag sig.algorithm
          signed.0 in
      let (m, at_name, key) = find_rr_set-member rr z.records sig.signer type_dnskey i in
      let kept =
        All-member (λ x. is_dropped x p type_dnskey ≡ false) rr z.records (Trusted-IsDnskeyAnswer t)
          m in
      (
        (
          sig,
          k,
          j,
          signed,
          subst (λ x. equal_canonical_names x p ≡ true) at_name (owner_of_zone p rr kept key),
        ),
        Trusted-AuthenticatedKeys t,
      )
