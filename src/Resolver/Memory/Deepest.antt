-- ===== src/Resolver/Memory/Deepest.antt =====
-- Which zone of an authority answers a query.
use dnsdata_go.Common.{
  ℕ, ◌≡◌, ◌≤◌, ◌⊎◌, ◌≢◌, ◌==◌, ==_iff, equal, equal_iff, ◌++◌, refl, sym, ap, subst, arith, inl,
  inr, Bool-cases, true, false, ◌&&◌, List, [], ◌∷◌, Option, none, some, Option-cases, length,
  Bytes,
}
use mathlib.Core.List.{Memᴰ}
use mathlib.Core.List.Memᴰ
use dnsdata_go.Types.{type_ds}
use dnsdata_go.Verifier.Names.{root_name}
use dnsdata_go.Resolver.Memory.Suffixes.{at_or_below-suffix, suffix-at_or_below}
use dnsdata_go.Resolver.Memory.{ZoneIndex, labels}
use dnsdata_go.Resolver.Memory.Authority.{is_eligible, is_deeper, deepest_in, zone_for}

-- The labels of the apex.
abbrev pub depth : ZoneIndex → ℕ
depth idx = length (labels idx.apex)

module _ (name : Bytes) (qtype : ℕ) where
  -- What the loop comes to, from a best zone before it.
  abbrev IsDeepest : List ZoneIndex → Option ZoneIndex → Option ZoneIndex → Type 0
  IsDeepest zones best none =
      (best ≡ none) × ((idx : ZoneIndex) → Memᴰ idx zones → is_eligible name qtype idx ≡ false)
  IsDeepest zones best (some b) =
      ((best ≡ some b) ⊎ (Memᴰ b zones × (is_eligible name qtype b ≡ true)))
      × ((idx : ZoneIndex)
          → Memᴰ idx zones
          → is_eligible name qtype idx ≡ true
          → depth idx ≤ depth b)
      × ((c : ZoneIndex) → best ≡ some c → depth c ≤ depth b)

  is_deeper_lem :
      (best : Option ZoneIndex) (idx c : ZoneIndex)
      → is_deeper best idx ≡ true
      → best ≡ some c
      → depth c ≤ depth idx
  unfolding is_deeper
  is_deeper_lem none idx c d e = cc
  is_deeper_lem (some best) idx c d e =
      let same : best ≡ c = cc in subst (λ x. depth x ≤ depth idx) same (ground (arith, d))

  not_deeper_lem :
      (best : Option ZoneIndex) (idx : ZoneIndex)
      → is_deeper best idx ≡ false
      → (c : ZoneIndex) × (best ≡ some c) × (depth idx ≤ depth c)
  unfolding is_deeper
  not_deeper_lem none idx d = cc
  not_deeper_lem (some best) idx d = (best, refl, ground (arith, d))

  taken :
      (idx : ZoneIndex) (zones : List ZoneIndex) (best out : Option ZoneIndex)
      → is_eligible name qtype idx ≡ true
      → is_deeper best idx ≡ true
      → IsDeepest zones (some idx) out
      → IsDeepest (idx ∷ zones) best out
  taken idx zones best none e d h = cc (h.0)
  taken idx zones best (some b) e d (from, deepest, before) = (
    elim from [
      | inl s ↦
          let same : idx ≡ b = cc in
          inr (Memᴰ.head (sym same), subst (λ x. is_eligible name qtype x ≡ true) same e)
      | inr (m, i) ↦ inr (Memᴰ.tail m, i)
    ],
    λ c m i. elim (Memᴰ.cases_cons m) [
      | inl s ↦ before c (ap some (sym s))
      | inr j ↦ deepest c j i
    ],
    λ c s.
        let front = is_deeper_lem best idx c d s in
        let back = before idx refl in omega (arith, front, back),
  )

  left :
      (idx : ZoneIndex) (zones : List ZoneIndex) (best out : Option ZoneIndex)
      → is_eligible name qtype idx && is_deeper best idx ≡ false
      → IsDeepest zones best out
      → IsDeepest (idx ∷ zones) best out
  unfolding is_deeper
  left idx zones best none n (s, h) = (
    s,
    λ c m. elim (Memᴰ.cases_cons m) [
      | inl e ↦ subst (λ x. is_eligible name qtype x ≡ false) (sym e) (ground (arith, n, s))
      | inr j ↦ h c j
    ],
  )
  left idx zones best (some b) n (from, deepest, before) = (
    elim from [ inl s ↦ inl s | inr (m, i) ↦ inr (Memᴰ.tail m, i) ],
    λ c m i. elim (Memᴰ.cases_cons m) [
      | inl s ↦
          let j = subst (λ x. is_eligible name qtype x ≡ true) s i in
          let (d, k, l) = not_deeper_lem best idx (ground (arith, n, j)) in
          let back = before d k in subst (λ x. depth x ≤ depth b) (sym s) (omega (arith, l, back))
      | inr j ↦ deepest c j i
    ],
    before,
  )

  deepest_in-IsDeepest :
      (zones : List ZoneIndex) (best : Option ZoneIndex)
      → IsDeepest zones best (deepest_in name qtype zones best)
  unfolding deepest_in
  deepest_in-IsDeepest [] none = (refl, λ idx m. elim m [ ])
  deepest_in-IsDeepest [] (some b) = (
    inl refl,
    λ idx m. elim m [ ],
    λ c e. let same : b ≡ c = cc in subst (λ x. depth x ≤ depth b) same (omega arith),
  )
  deepest_in-IsDeepest (idx ∷ zones) best =
      elim (Bool-cases (is_eligible name qtype idx && is_deeper best idx)) [
        | inl y ↦
            rw (y, deepest_in)
              (taken idx zones best (deepest_in name qtype zones (some idx)) (ground (arith, y))
                (ground (arith, y)) (deepest_in-IsDeepest zones (some idx)))
        | inr n ↦
            rw (n, deepest_in)
              (left idx zones best (deepest_in name qtype zones best) n
                (deepest_in-IsDeepest zones best))
      ]

  -- The zone may answer the query: the labels of its apex are the last labels of the name, and it is
  -- not the zone below a delegation that the DS records at its apex are asked for.
  abbrev pub MayAnswer : ZoneIndex → Type 0
  MayAnswer idx =
      ((front : List Bytes) × (labels name ≡ front ++ labels idx.apex))
      × ((qtype ≢ type_ds) ⊎ ((name ≢ idx.apex) ⊎ (name ≡ root_name)))

  is_eligible-MayAnswer : (idx : ZoneIndex) → is_eligible name qtype idx ≡ true → MayAnswer idx
  unfolding is_eligible
  is_eligible-MayAnswer idx h = (
    at_or_below-suffix name idx.apex (ground (arith, h)),
    elim (Bool-cases (qtype == type_ds)) [
      | inr n ↦ inl (λ e. cc ((==_iff qtype type_ds).1 e, n))
      | inl y ↦ elim (Bool-cases (equal name idx.apex)) [
        | inr n ↦ inr (inl (λ e. cc ((equal_iff name idx.apex).1 e, n)))
        | inl z ↦ inr (inr ((equal_iff name root_name).0 (ground (arith, h, y, z))))
      ]
    ],
  )

  MayAnswer-is_eligible : (idx : ZoneIndex) → MayAnswer idx → is_eligible name qtype idx ≡ true
  unfolding is_eligible
  MayAnswer-is_eligible idx ((front, e), other) =
      let below = suffix-at_or_below name idx.apex front e in
      rw (below) (elim other [
        | inl n ↦ ground (arith, ==_iff qtype type_ds, n)
        | inr (inl n) ↦ ground (arith, equal_iff name idx.apex, n)
        | inr (inr r) ↦ (let k = (equal_iff name root_name).1 r in ground (arith, k))
      ])

  -- For a zone that may answer a query, the authority picks a zone of its own that may as well and
  -- has an apex with as many labels or more. A zone may answer when the labels of its apex are the
  -- last labels of the name, and for DS not when the name is its apex, unless that is the root.
  pub zone_for_deepest :
      (zones : List ZoneIndex) (idx : ZoneIndex)
      → Memᴰ idx zones
      → MayAnswer idx
      → (b : ZoneIndex) × (zone_for zones name qtype ≡ some b)
        × Memᴰ b zones
        × MayAnswer b
        × (depth idx ≤ depth b)
  unfolding zone_for
  zone_for_deepest zones idx m may =
      let i = MayAnswer-is_eligible idx may in
      elim (Option-cases (deepest_in name qtype zones none)) [
        | inl n ↦
            let h = subst (IsDeepest zones none) n (deepest_in-IsDeepest zones none) in
            let no_one = h.1 idx m in cc
        | inr (b, e) ↦
            let h = subst (IsDeepest zones none) e (deepest_in-IsDeepest zones none) in
            elim (h.0) [
              | inl s ↦ cc
              | inr (k, j) ↦ (b, e, k, is_eligible-MayAnswer b j, h.1 idx m i)
            ]
      ]
