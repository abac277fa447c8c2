-- ===== src/Verifier/Chain/Trust/Loaded.antt =====
-- What `loadRecords` and `checkRRSet` do to a zone and say of it.
use dnsdata_go.Common.{
  if◌then◌else◌, ℕ, ◌≡◌, ◌∙◌, refl, sym, ap, subst, arith, Bool-cases, inl, inr, Bool, true, false,
  not, ◌&&◌, List, [], ◌∷◌, Option, none, some, ◌==◌, All, Bytes, append-nil, append_assoc,
}
use dnsdata_go.Text.{Unicode}
use dnsdata_go.Types.{type_dnskey}
use dnsdata_go.Dnssec.Zone.{KeyVerifyMode, ZoneRecord, Zone, Checked}
use dnsdata_go.Dnssec.Zone.Check.{verify_rr_set}
use dnsdata_go.Dnssec.Zone.Check.Agreement.{
  SigResult, check_rr_set, rr_set_verified, check_rr_set-verify_rr_set,
}
use dnsdata_go.Verifier.Codes.{ReasonCode, sig_failure_code}
use dnsdata_go.Verifier.Chain.{
  Reply, query_failed, answered, Setting, Session, Run, called, RrSetCheck, note_unsupported,
  rr_set_checked, check_set,
}
use dnsdata_go.Verifier.Chain.Loading.{
  with_record, note_evidence, is_dropped, apply_records, apply_to, replied, remember, remembered,
  load_from, load_records,
}
use dnsdata_go.Verifier.Chain.Trust.{Ends, add_records, HasNoKeys}

add_records-none : (z : Zone) → z ≡ add_records z []
add_records-none z = ap (λ k. record z { records = k }) (sym (append-nil z.records))

module _ ⦃u : Unicode⦄ where
  -- The zone with the records of an answer that are taken.
  abbrev pub IsLoaded : Zone → Bytes → ℕ → Zone → Type 0
  IsLoaded z name qtype z' =
      (rs : List ZoneRecord) × (z' ≡ add_records z rs)
      × All (λ rr. is_dropped rr name qtype ≡ false) rs

  IsLoaded-cons :
      (z z' : Zone) (name : Bytes) (qtype : ℕ) (rr : ZoneRecord)
      → is_dropped rr name qtype ≡ false
      → IsLoaded (with_record z rr) name qtype z'
      → IsLoaded z name qtype z'
  unfolding with_record
  IsLoaded-cons z z' name qtype rr kept (rs, e, ks) = (
    rr ∷ rs,
    e ∙ ap (λ k. record z { records = k }) (append_assoc z.records (rr ∷ []) rs),
    (kept, ks),
  )

  apply_records-IsLoaded :
      (rrs : List ZoneRecord) (name : Bytes) (qtype : ℕ) (z : Zone) (e : Session)
      → IsLoaded z name qtype ((apply_records rrs name qtype z e).0.1)
  unfolding apply_records
  apply_records-IsLoaded [] name qtype z e = ([], add_records-none z, tt)
  apply_records-IsLoaded (rr ∷ rrs) name qtype z e = elim (Bool-cases (is_dropped rr name qtype)) [
    | inl y ↦ rw y (apply_records-IsLoaded rrs name qtype z e)
    | inr n ↦ rw n (
        IsLoaded-cons z _ name qtype rr n
          (apply_records-IsLoaded rrs name qtype (with_record z rr) (note_evidence e rr qtype)))
  ]

  -- What a load comes to.
  abbrev pub Loads : Zone → Bytes → ℕ → ℕ × Zone → Run → Type 0
  Loads z name qtype found r = IsLoaded z name qtype found.1

  apply_to-Ends :
      (records : List ZoneRecord) (name : Bytes) (qtype : ℕ) (z : Zone) (r : Run)
      → Ends r.aliases (Loads z name qtype) (apply_to records name qtype z r)
  unfolding apply_to
  apply_to-Ends records name qtype z r =
      (refl, apply_records-IsLoaded records name qtype z r.evidence)

  replied-Ends :
      (reply : Reply) (name : Bytes) (qtype : ℕ) (z : Zone) (r : Run)
      → Ends r.aliases (Loads z name qtype) (replied reply name qtype z r)
  unfolding replied
  replied-Ends (query_failed true) name qtype z r = refl
  replied-Ends (query_failed false) name qtype z r = refl
  replied-Ends (answered rcode records) name qtype z r =
      elim (Bool-cases (not (rcode == 0) && not (rcode == 3))) [
        | inl y ↦ rw y refl
        | inr n ↦ rw n (
            apply_to-Ends records name qtype z
              (record r { evidence = remember r.evidence name qtype records }))
      ]

  no_keys :
      (name : Bytes) (qtype : ℕ) (rs : List ZoneRecord)
      → (qtype == type_dnskey) ≡ false
      → All (λ rr. is_dropped rr name qtype ≡ false) rs
      → HasNoKeys rs
  unfolding is_dropped
  no_keys name qtype [] other h = tt
  no_keys name qtype (rr ∷ rs) other (kept, h) =
      (ground (arith, other, kept), no_keys name qtype rs other h)

  -- A load for another type than DNSKEY brings no keys.
  pub IsLoaded-HasNoKeys :
      (z z' : Zone) (name : Bytes) (qtype : ℕ)
      → (qtype == type_dnskey) ≡ false
      → IsLoaded z name qtype z'
      → (rs : List ZoneRecord) × (z' ≡ add_records z rs) × HasNoKeys rs
  IsLoaded-HasNoKeys z z' name qtype other (rs, e, h) = (rs, e, no_keys name qtype rs other h)

module _ (s : Setting) ⦃u : Unicode⦄ where
  load_from-Ends :
      (found : Option (List ZoneRecord)) (z : Zone) (name : Bytes) (qtype : ℕ) (r : Run)
      → Ends r.aliases (Loads z name qtype) (load_from s found z name qtype r)
  unfolding load_from
  load_from-Ends none z name qtype r =
      replied-Ends (s.query r.evidence.calls name qtype) name qtype z (called r)
  load_from-Ends (some records) z name qtype r = apply_to-Ends records name qtype z r

  pub load_records-Ends :
      (z : Zone) (name : Bytes) (qtype : ℕ) (r : Run)
      → Ends r.aliases (Loads z name qtype) (load_records s z name qtype r)
  unfolding load_records
  load_records-Ends z name qtype r =
      load_from-Ends (remembered r.evidence name qtype) z name qtype r

  -- A check that says so has verified the record set.
  abbrev pub Checks : Zone → Bytes → ℕ → KeyVerifyMode → RrSetCheck → Run → Type 0
  Checks z name rr_type mode c r =
      c.verified ≡ true → (verify_rr_set s.schemes z name rr_type mode []).0 ≡ true

  note_unsupported-aliases :
      (code : Option ReasonCode) (r : Run) → (note_unsupported code r).aliases ≡ r.aliases
  unfolding note_unsupported
  note_unsupported-aliases code r = ground arith

  rr_set_checked-Ends :
      (name : Bytes) (results : List SigResult) (v : Checked Bool) (r : Run)
      → Ends r.aliases (λ c r'. c.verified ≡ true → v.0 ≡ true) (rr_set_checked name results v r)
  unfolding rr_set_checked
  rr_set_checked-Ends name results (b, none) r = (refl, λ h. h)
  rr_set_checked-Ends name results (b, some e) r =
      note_unsupported-aliases (if b then none else some (sig_failure_code results)) r

  pub check_set-Ends :
      (z : Zone) (name : Bytes) (rr_type : ℕ) (mode : KeyVerifyMode) (r : Run)
      → Ends r.aliases (Checks z name rr_type mode) (check_set s z name rr_type mode r)
  unfolding check_set
  check_set-Ends z name rr_type mode r =
      let results = check_rr_set s.schemes z name rr_type mode [] in
      subst
        (λ v.
          Ends {A = RrSetCheck} r.aliases (λ c r'. c.verified ≡ true → v.0 ≡ true)
            (check_set s z name rr_type mode r))
        (check_rr_set-verify_rr_set s.schemes z name rr_type mode [])
        (rr_set_checked-Ends name results (rr_set_verified results) r)
