-- ===== src/Dnssec/Zone/Digest/Unordered.antt =====
-- dnssec/zone.go: the digest target of a record set does not depend on the order of its records, nor
-- on how often one of them occurs.
use dnsdata_go.Common.{
  ℕ, ◌≡◌, ◌⊎◌, ◌↔◌, refl, sym, ◌∙◌, ap, subst, arith, true, ◌&&◌, Bool-cases, Result-cases, inl,
  inr, List, [], ◌∷◌, ◌++◌, ltb, ◌==◌, ==_iff, length, drop, Bytes, equal, equal_iff, Result, ok,
  err, ◌>>=◌,
}
use mathlib.Core.Path.{ap₂}
use mathlib.Core.List.{Memᴰ}
use mathlib.Core.List.Memᴰ
use dnsdata_go.Text.{Unicode}
use dnsdata_go.Wire.Builder.{be16}
use dnsdata_go.Dnssec.Crypto.{DnssecError, dnssec_error, Schemes}
use dnsdata_go.Dnssec.Zone.{RrSig, ZoneRecord, Zone, find_rr_set}
use dnsdata_go.Dnssec.Zone.Digest.{
  wire_header_for_owner, rdata_digest_target, digest_owner, assemble, encode_record, collect_bodies,
  compact_bodies, compare_rdata, canonical_bodies, digest_target_of, create_digest_target,
}
use dnsdata_go.Dnssec.Zone.Digest.Order.{SameMembers, Sorts, canonical_unique}

-- A body stands behind its length in two octets.
abbrev pub IsFramed : Bytes → Type 0
IsFramed b = b ≡ be16 (length (drop 2 b)) ++ drop 2 b

framed_unique : (a b : Bytes) → IsFramed a → IsFramed b → drop 2 a ≡ drop 2 b → a ≡ b
framed_unique a b f g e = f ∙ ap (λ d. be16 (length d) ++ d) e ∙ sym g

encode_record-cases :
    (r : ZoneRecord)
    → ((b : Bytes) × (encode_record r ≡ ok b) × (r.body ≡ ok b))
      ⊎ (encode_record r ≡ err dnssec_error)
unfolding encode_record
encode_record-cases r = elim (Result-cases r.body) [
  | inl (b, e) ↦ elim (Bool-cases (ltb (length b) 2)) [
    | inl y ↦ inr (ground (arith, e, y))
    | inr n ↦ inl (b, ground (arith, e, n), e)
  ]
  | inr (x, e) ↦ inr (ground (arith, e))
]

abbrev Encodes : ZoneRecord → Type 0
Encodes r = (b : Bytes) × (encode_record r ≡ ok b) × (r.body ≡ ok b)

-- What collecting the bodies of some records comes to.
data Collected (rs : List ZoneRecord) : Result DnssecError (List Bytes) → Type 0 where
  collected :
      (bodies : List Bytes)
      → ((b : Bytes) → Memᴰ b bodies ↔ ((r : ZoneRecord) × Memᴰ r rs × (encode_record r ≡ ok b)))
      → ((r : ZoneRecord) → Memᴰ r rs → (b : Bytes) × (encode_record r ≡ ok b) × (r.body ≡ ok b))
      → Collected rs (ok bodies)
  refused :
      (r : ZoneRecord)
      → Memᴰ r rs
      → encode_record r ≡ err dnssec_error
      → Collected rs (err dnssec_error)

member_behind :
    (r : ZoneRecord) (rs : List ZoneRecord) (b : Bytes) (bodies : List Bytes)
    → encode_record r ≡ ok b
    → ((x : Bytes) → Memᴰ x bodies ↔ ((s : ZoneRecord) × Memᴰ s rs × (encode_record s ≡ ok x)))
    → (x : Bytes)
    → Memᴰ x (b ∷ bodies) ↔ ((s : ZoneRecord) × Memᴰ s (r ∷ rs) × (encode_record s ≡ ok x))
member_behind r rs b bodies e members x = (
  λ m. elim (Memᴰ.cases_cons m) [
    | inl f ↦ (r, Memᴰ.head refl, e ∙ ap ok (sym f))
    | inr i ↦ let (s, j, q) = (members x).0 i in (s, Memᴰ.tail j, q)
  ],
  λ (s, m, q). elim (Memᴰ.cases_cons m) [
    | inl f ↦ Memᴰ.head (cc)
    | inr i ↦ Memᴰ.tail ((members x).1 (s, i, q))
  ],
)

encoded_behind :
    (r : ZoneRecord) (rs : List ZoneRecord)
    → Encodes r
    → ((s : ZoneRecord) → Memᴰ s rs → Encodes s)
    → (s : ZoneRecord) → Memᴰ s (r ∷ rs)
    → Encodes s
encoded_behind r rs one others s (Memᴰ.head e) = subst Encodes (sym e) one
encoded_behind r rs one others s (Memᴰ.tail m) = others s m

Collected-cons :
    (r : ZoneRecord) (rs : List ZoneRecord) {rest : Result DnssecError (List Bytes)}
    → Collected rs rest
    → Collected (r ∷ rs) (encode_record r >>= λ b. rest >>= λ bs. ok (b ∷ bs))
Collected-cons r rs (collected bodies members encodes) = elim (encode_record-cases r) [
  | inl (b, e, f) ↦ rw e (
      collected (b ∷ bodies) (member_behind r rs b bodies e members)
        (encoded_behind r rs (b, e, f) encodes))
  | inr e ↦ rw e (refused r (Memᴰ.head refl) e)
]
Collected-cons r rs (refused s m q) = elim (encode_record-cases r) [
  | inl (b, e, f) ↦ rw e (refused s (Memᴰ.tail m) q)
  | inr e ↦ rw e (refused r (Memᴰ.head refl) e)
]

collect_bodies-Collected : (rs : List ZoneRecord) → Collected rs (collect_bodies rs)
unfolding collect_bodies
collect_bodies-Collected [] =
    collected [] (λ b. (λ m. absurd (Memᴰ.not-nil m), λ p. absurd (Memᴰ.not-nil (p.1))))
      (λ r m. absurd (Memᴰ.not-nil m))
collect_bodies-Collected (r ∷ rs) = Collected-cons r rs (collect_bodies-Collected rs)

find_rr_set_members :
    (records : List ZoneRecord) (name : Bytes) (rr_type : ℕ) (r : ZoneRecord)
    → Memᴰ r (find_rr_set records name rr_type)
    → (r.label ≡ name) × (r.rr_type ≡ rr_type)
unfolding find_rr_set
find_rr_set_members [] name rr_type r m = elim m [ ]
find_rr_set_members (s ∷ rs) name rr_type r m =
    let rest = find_rr_set_members rs name rr_type r in
    elim (Bool-cases (equal s.label name && s.rr_type == rr_type)) [
      | inl y ↦ elim (Memᴰ.cases_cons (rw y at m)) [
        | inl e ↦
            let same : equal s.label name ≡ true = ground (arith, y) in
            let typed : (s.rr_type == rr_type) ≡ true = ground (arith, y) in
            (
              ap (λ t. t.label) e ∙ (equal_iff s.label name).0 same,
              ap (λ t. t.rr_type) e ∙ (==_iff s.rr_type rr_type).0 typed,
            )
        | inr i ↦ rest i
      ]
      | inr n ↦ rest (rw n at m)
    ]

module _ (h : Schemes) (good : Sorts h.sort_func) where
  Collected-same :
      (rs rs' : List ZoneRecord)
      → SameMembers rs rs'
      → ((r : ZoneRecord) → Memᴰ r rs → (b : Bytes) → r.body ≡ ok b → IsFramed b)
      → {left right : Result DnssecError (List Bytes)} → Collected rs left
      → Collected rs' right
      → (left >>= λ bodies. ok (compact_bodies (h.sort_func compare_rdata bodies)))
        ≡ (right >>= λ bodies. ok (compact_bodies (h.sort_func compare_rdata bodies)))
  Collected-same rs rs' same framed (refused r m q) (refused r' m' q') = refl
  Collected-same rs rs' same framed (refused r m q) (collected bodies members encodes) =
      let (b, e, f) = encodes r ((same r).0 m) in absurd (cc)
  Collected-same rs rs' same framed (collected bodies members encodes) (refused r m q) =
      let (b, e, f) = encodes r ((same r).1 m) in absurd (cc)
  Collected-same rs rs' same framed (collected bs mem enc) (collected bs' mem' enc') =
      let framed_in : (b : Bytes) → Memᴰ b bs → IsFramed b =
        λ b m. let (r, i, q) = (mem b).0 m in let (x, e, f) = enc r i in framed r i b (cc) in
      ap ok (
        canonical_unique h.sort_func good (drop 2) bs bs'
          (λ a b m n e. framed_unique a b (framed_in a m) (framed_in b n) e)
          (λ x. (
            λ m. let (r, i, q) = (mem x).0 m in (mem' x).1 (r, (same r).0 i, q),
            λ m. let (r, i, q) = (mem' x).0 m in (mem x).1 (r, (same r).1 i, q),
          )))

  canonical_bodies-same :
      (rs rs' : List ZoneRecord)
      → SameMembers rs rs'
      → ((r : ZoneRecord) → Memᴰ r rs → (b : Bytes) → r.body ≡ ok b → IsFramed b)
      → canonical_bodies h rs ≡ canonical_bodies h rs'
  unfolding canonical_bodies
  canonical_bodies-same rs rs' same framed =
      Collected-same rs rs' same framed (collect_bodies-Collected rs) (collect_bodies-Collected rs')

-- The records of a set: of one name, type and class, and with framed bodies.
abbrev IsUniform : Bytes → ℕ → ℕ → List ZoneRecord → Type 0
IsUniform name rr_type class rs =
    (r : ZoneRecord)
    → Memᴰ r rs
    → (r.label ≡ name)
      × (r.rr_type ≡ rr_type)
      × (r.class ≡ class)
      × ((b : Bytes) → r.body ≡ ok b → IsFramed b)

header_same :
    ⦃u : Unicode⦄
    → (s : RrSig) (name : Bytes) {a b : Bytes} {v w x y : ℕ} → a ≡ b
    → v ≡ w
    → x ≡ y
    → wire_header_for_owner (digest_owner s a name) v x
      ≡ wire_header_for_owner (digest_owner s b name) w y
header_same s name e f g = rw (e, f, g) refl

module _ ⦃u : Unicode⦄ (h : Schemes) (good : Sorts h.sort_func) (s : RrSig) where
  digest_target_of-same :
      (name : Bytes) (rr_type class : ℕ) (rs rs' : List ZoneRecord)
      → SameMembers rs rs'
      → IsUniform name rr_type class rs
      → digest_target_of h s name rs ≡ digest_target_of h s name rs'
  unfolding digest_target_of
  digest_target_of-same name rr_type class [] [] same uniform = refl
  digest_target_of-same name rr_type class [] (r ∷ rs) same uniform =
      absurd (Memᴰ.not-nil ((same r).1 (Memᴰ.head refl)))
  digest_target_of-same name rr_type class (r ∷ rs) [] same uniform =
      absurd (Memᴰ.not-nil ((same r).0 (Memᴰ.head refl)))
  digest_target_of-same name rr_type class (r ∷ rs) (r' ∷ rs') same uniform =
      let (l, t, c, f) = uniform r (Memᴰ.head refl) in
      let (l', t', c', f') = uniform r' ((same r').1 (Memᴰ.head refl)) in
      let e = canonical_bodies-same h good (r ∷ rs) (r' ∷ rs') same (λ x m. (uniform x m).3) in
      ap₂ (λ a b. assemble s.original_ttl a b (rdata_digest_target s))
        (header_same s name (l ∙ sym l') (t ∙ sym t') (c ∙ sym c')) e

  -- Two zones whose record sets at a name and of a type have the same members, of one class and
  -- each behind its length in two octets, give the same digest target, or the same error.
  pub create_digest_target_unordered :
      (z z' : Zone) (name : Bytes) (type_covered class : ℕ)
      → SameMembers
          (find_rr_set z.records name type_covered)
          (find_rr_set z'.records name type_covered)
      → ((r : ZoneRecord)
          → Memᴰ r (find_rr_set z.records name type_covered)
          → (r.class ≡ class) × ((b : Bytes) → r.body ≡ ok b → IsFramed b))
      → create_digest_target h z s name type_covered ≡ create_digest_target h z' s name type_covered
  unfolding create_digest_target
  create_digest_target_unordered z z' name type_covered class same uniform =
      digest_target_of-same name type_covered class (find_rr_set z.records name type_covered)
        (find_rr_set z'.records name type_covered) same
        (λ r m.
          let (l, t) = find_rr_set_members z.records name type_covered r m in
          let (c, f) = uniform r m in (l, t, c, f))
