-- ===== src/Verifier/Chain/Trust.antt =====
-- The chain of trust that verifier/chain.go builds: what it is for a zone to be authenticated from the
-- trust anchors, and what stands behind a signature that verifies in one.
pub mod Loaded
pub mod Matched
pub mod Descended
pub mod Rooted
pub mod Answered
pub mod Aliased
pub mod Justified
pub mod Signers
pub mod Walked
use dnsdata_go.Common.{
  if◌then◌else◌, ℕ, ◌≡◌, ◌∙◌, refl, sym, ap, subst, arith, Bool-cases, inl, inr, Bool, true, false,
  not, List, [], ◌∷◌, ◌++◌, Option, none, some, ◌==◌, All, Bytes, Result, ok, err,
}
use mathlib.Core.List.{Memᴰ}
use mathlib.Core.List.Memᴰ
use dnsdata_go.Text.{Unicode}
use dnsdata_go.Types.{type_dnskey, type_ds}
use dnsdata_go.Dnssec.Crypto.{DnsKey, Ds, Schemes}
use dnsdata_go.Dnssec.Zone.{
  KeyVerifyMode, mode_none, RrSig, ZoneRecord, Zone, find_rr_set, find_rrsigs, find_dns_keys,
}
use dnsdata_go.Dnssec.Zone.Digest.{create_digest_target}
use dnsdata_go.Dnssec.Zone.Check.{check_with, verify_set_with, verify_rr_set, keys_for_mode}
use dnsdata_go.Dnssec.Zone.Check.Verified.{IsCurrent, SignedBy, check_with_iff, verify_sigs_sound}
use dnsdata_go.Dnssec.Zone.Check.Anchors.{SetSignedByKsk}
use dnsdata_go.Verifier.Names.{root_name}
use dnsdata_go.Verifier.Walk.{AliasStep}
use dnsdata_go.Verifier.Chain.{AnchorDs, Setting, Run, Chained, and_then}
use dnsdata_go.Verifier.Chain.Loading.{is_dropped}
use dnsdata_go.Verifier.Chain.Keys.{is_matched, ds_set, anchor_set}

-- A call leaves the redirections as they were, and its value, when it has one, is as said.
abbrev pub Ends : {A : Type 0} → List AliasStep → (A → Run → Type 0) → Chained A → Type 0
Ends aliases P (ok a, r) = (r.aliases ≡ aliases) × P a r
Ends aliases P (err e, r) = r.aliases ≡ aliases

pub and_then-Ends :
    {A B : Type 0} (aliases : List AliasStep) (P : A → Run → Type 0) (Q : B → Run → Type 0)
    (p : Chained A) (continue : A → Run → Chained B)
    → Ends aliases P p
    → ((a : A) (r : Run) → P a r → Ends r.aliases Q (continue a r))
    → Ends aliases Q (and_then p continue)
and_then-Ends aliases P Q (ok a, r) continue (kept, holds) next =
    subst (λ as_before. Ends as_before Q (continue a r)) kept (next a r holds)
and_then-Ends aliases P Q (err e, r) continue kept next = kept

pub Ends-if :
    {A : Type 0} (aliases : List AliasStep) (P : A → Run → Type 0) (b : Bool) (p q : Chained A)
    → (b ≡ true → Ends aliases P p)
    → (b ≡ false → Ends aliases P q)
    → Ends aliases P (if b then p else q)
Ends-if aliases P true p q taken other = taken refl
Ends-if aliases P false p q taken other = other refl

pub not-false : {b : Bool} → not b ≡ false → b ≡ true
not-false {b = true} h = refl
not-false {b = false} h = cc

-- A zone with records behind its own.
abbrev pub add_records : Zone → List ZoneRecord → Zone
add_records z rs = record z { records = z.records ++ rs }

-- No record is a DNSKEY.
abbrev pub HasNoKeys : List ZoneRecord → Type 0
HasNoKeys = All (λ rr. (rr.rr_type == type_dnskey) ≡ false)

abbrev pub anchors_of : Option (List AnchorDs) → List AnchorDs
anchors_of none = []
anchors_of (some anchors) = anchors

-- Each key matches one of the DS records: its key tag, its algorithm and the digest of the key.
abbrev pub MatchEach : Schemes → List Ds → List DnsKey → Type 0
MatchEach h dses = All (λ k. is_matched h dses k ≡ true)

module _ ⦃u : Unicode⦄ where
  -- A signature over the record set that is inside its window and verifies under a key of the zone
  -- with its signer, key tag and algorithm.
  abbrev pub SignedInside : Schemes → Zone → Bytes → ℕ → Type 0
  SignedInside h z name rr_type =
      (sig : RrSig) × (k : DnsKey) × Memᴰ sig (find_rrsigs z name rr_type [])
      × IsCurrent z sig
      × SignedBy h (find_dns_keys z sig.signer sig.key_tag sig.algorithm) sig
          (create_digest_target h z sig name rr_type) k

  keys_for_mode-none :
      (h : Schemes) (z : Zone) (keys : List DnsKey) → (keys_for_mode h z mode_none keys).0 ≡ keys
  unfolding keys_for_mode
  keys_for_mode-none h z [] = refl
  keys_for_mode-none h z (k ∷ ks) = refl

  pub verify_rr_set-SignedInside :
      (h : Schemes) (z : Zone) (name : Bytes) (rr_type : ℕ)
      → (verify_rr_set h z name rr_type mode_none []).0 ≡ true
      → SignedInside h z name rr_type
  unfolding verify_rr_set verify_set_with
  verify_rr_set-SignedInside h z name rr_type v =
      let (sig, j, y) =
        verify_sigs_sound (check_with h z (keys_for_mode h z mode_none) name rr_type)
          (find_rrsigs z name rr_type []) none v in
      let found = find_dns_keys z sig.signer sig.key_tag sig.algorithm in
      let (c, (k, (m, w))) =
        (check_with_iff h z (keys_for_mode h z mode_none) name rr_type sig).0 y in
      (sig, k, j, c, (subst (Memᴰ k) (keys_for_mode-none h z found) m, w))

  -- The records of an answer to the DNSKEY query for a name, as `applyRecords` takes them.
  abbrev pub IsDnskeyAnswer : Bytes → List ZoneRecord → Type 0
  IsDnskeyAnswer name = All (λ rr. is_dropped rr name type_dnskey ≡ false)

module _ (s : Setting) ⦃u : Unicode⦄ where
  -- A zone of a name that is authenticated. Its keys came in the answer to the DNSKEY query for its
  -- name, and a key that it trusts or that a DS record of the parent matches signed its DNSKEY record
  -- set. The keys that it trusts match the anchors at the root, and below it DS records that a key of
  -- an authenticated zone signed. Records that are no DNSKEY may come later.
  pub data Trusted : Bytes → Zone → Type 0 where
    root_trusted :
        (z : Zone)
        → z.parent ≡ none
        → MatchEach s.schemes (anchor_set (anchors_of s.anchors)) z.trusted
        → IsDnskeyAnswer root_name z.records
        → SetSignedByKsk s.schemes z root_name type_dnskey []
        → Trusted root_name z
    child_trusted :
        (p : Bytes) (parent : Zone) (name : Bytes) (z : Zone)
        → Trusted p parent
        → SignedInside s.schemes parent name type_ds
        → z.parent ≡ some parent.records
        → MatchEach s.schemes (ds_set (find_rr_set parent.records name type_ds)) z.trusted
        → IsDnskeyAnswer name z.records
        → SetSignedByKsk s.schemes z name type_dnskey []
        → Trusted name z
    more_trusted :
        (name : Bytes) (z : Zone) (rs : List ZoneRecord)
        → Trusted name z
        → HasNoKeys rs
        → Trusted name (add_records z rs)
