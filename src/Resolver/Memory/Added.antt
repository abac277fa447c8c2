-- ===== src/Resolver/Memory/Added.antt =====
-- What the switch of `add` in resolver/memory/index.go does to an index.
use dnsdata_go.Common.{
  ℕ, ◌≡◌, ◌⊎◌, refl, sym, ap, subst, inl, inr, arith, Bool-cases, Result-cases, false, not, ◌&&◌,
  [], ◌∷◌, ◌++◌, if◌then◌else◌, ◌==◌, ==_iff, Bytes, equal, Result, ok,
}
use dnsdata_go.Text.{Unicode}
use dnsdata_go.Types.{type_rrsig, type_nsec, type_nsec3, type_ns}
use dnsdata_go.Dnssec.Base32.{owner_hash_from_name}
use dnsdata_go.Dnssec.Nsec.{Nsec, Nsec3}
use dnsdata_go.Dnssec.Zone.{Handler, rrsig_handler, nsec_handler, nsec3_handler}
use dnsdata_go.Resolver.Memory.{ZoneIndex, is_among}
use dnsdata_go.Resolver.Memory.Index.{ConfigError, add_rrsig, add_nsec, add_nsec3, add_typed}

module _ ⦃u : Unicode⦄ where
  -- The index that `add` leaves, from the index with the record under its owner.
  abbrev pub AddedAs : ZoneIndex → Bytes → ℕ → Handler → ZoneIndex → Type 0
  AddedAs idx owner t handler out =
      (out ≡ idx)
      ⊎ (((n : Nsec) × (t ≡ type_nsec)
            × (handler ≡ nsec_handler n)
            × (out ≡ record idx { nsecs = idx.nsecs ++ record { owner = owner; nsec = n } ∷ [] }))
          ⊎ (((n : Nsec3) × (h : Bytes) × (t ≡ type_nsec3)
                × (handler ≡ nsec3_handler n)
                × (owner_hash_from_name owner ≡ ok h)
                × (out ≡ record idx {
                  nsec3s = idx.nsec3s ++ record { owner = owner; hash = h; nsec3 = n } ∷ [];
                }))
              ⊎ ((t ≡ type_ns)
                  × (equal owner idx.apex ≡ false)
                  × (out ≡ record idx { cuts = idx.cuts ++ owner ∷ [] }))))

  -- The last cases of the switch.
  plain : ZoneIndex → Bytes → ℕ → Result ConfigError ZoneIndex
  plain idx owner t =
      if t == type_ns && (not (equal owner idx.apex) && not (is_among owner idx.cuts))
      then ok (record idx { cuts = idx.cuts ++ owner ∷ [] })
      else ok idx

  plain-AddedAs :
      (idx : ZoneIndex) (owner : Bytes) (t : ℕ) (handler : Handler) (out : ZoneIndex)
      → plain idx owner t ≡ ok out
      → AddedAs idx owner t handler out
  unfolding plain
  plain-AddedAs idx owner t handler out e =
      elim (Bool-cases
        (t == type_ns && (not (equal owner idx.apex) && not (is_among owner idx.cuts)))) [
          | inl y ↦
              let k = rw (y) at e in inr (inr (inr (ground (arith, y), ground (arith, y), cc)))
          | inr n ↦ let k = rw (n) at e in inl (cc)
        ]

  add_rrsig-AddedAs :
      (idx out : ZoneIndex) (owner : Bytes) (t : ℕ) (handler : Handler)
      → add_rrsig idx handler ≡ ok out
      → AddedAs idx owner t handler out
  unfolding add_rrsig
  add_rrsig-AddedAs idx out owner t (rrsig_handler s) e = inl (cc)
  add_rrsig-AddedAs idx out owner t _ e = cc

  add_nsec-AddedAs :
      (idx out : ZoneIndex) (owner : Bytes) (handler : Handler)
      → add_nsec idx owner handler ≡ ok out
      → AddedAs idx owner type_nsec handler out
  unfolding add_nsec
  add_nsec-AddedAs idx out owner (nsec_handler n) e = inr (inl (n, refl, refl, cc))
  add_nsec-AddedAs idx out owner _ e = cc

  add_nsec3-AddedAs :
      (idx out : ZoneIndex) (owner : Bytes) (handler : Handler)
      → add_nsec3 idx owner handler ≡ ok out
      → AddedAs idx owner type_nsec3 handler out
  unfolding add_nsec3
  add_nsec3-AddedAs idx out owner (nsec3_handler n) e =
      elim (Result-cases (owner_hash_from_name owner)) [
        | inl (h, y) ↦ let k = rw (y, add_nsec3) at e in inr (inr (inl (n, h, refl, refl, y, cc)))
        | inr (x, y) ↦ let k = rw (y, add_nsec3) at e in cc
      ]
  add_nsec3-AddedAs idx out owner _ e = cc

  pub add_typed-AddedAs :
      (idx out : ZoneIndex) (owner : Bytes) (t : ℕ) (handler : Handler)
      → add_typed idx owner t handler ≡ ok out
      → AddedAs idx owner t handler out
  unfolding add_typed plain
  add_typed-AddedAs idx out owner t handler e = elim (Bool-cases (t == type_rrsig)) [
    | inl y ↦ add_rrsig-AddedAs idx out owner t handler (rw (y) at e)
    | inr n ↦ elim (Bool-cases (t == type_nsec)) [
      | inl y ↦
          let k = rw (n, y) at e in
          subst (λ x. AddedAs idx owner x handler out) (sym ((==_iff t type_nsec).0 y))
            (add_nsec-AddedAs idx out owner handler k)
      | inr m ↦ elim (Bool-cases (t == type_nsec3)) [
        | inl y ↦
            let k = rw (n, m, y) at e in
            subst (λ x. AddedAs idx owner x handler out) (sym ((==_iff t type_nsec3).0 y))
              (add_nsec3-AddedAs idx out owner handler k)
        | inr l ↦ plain-AddedAs idx owner t handler out (rw (n, m, l) at e)
      ]
    ]
  ]

  pub add_typed-by_name :
      (idx out : ZoneIndex) (owner : Bytes) (t : ℕ) (handler : Handler)
      → AddedAs idx owner t handler out
      → out.by_name ≡ idx.by_name
  add_typed-by_name idx out owner t handler (inl e) = ap (λ (i : ZoneIndex). i.by_name) e
  add_typed-by_name idx out owner t handler (inr (inl (n, s, h, e))) =
      ap (λ (i : ZoneIndex). i.by_name) e
  add_typed-by_name idx out owner t handler (inr (inr (inl (n, h, s, k, o, e)))) =
      ap (λ (i : ZoneIndex). i.by_name) e
  add_typed-by_name idx out owner t handler (inr (inr (inr (s, d, e)))) =
      ap (λ (i : ZoneIndex). i.by_name) e
