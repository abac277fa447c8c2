-- ===== src/Wire/TypeBitmap/Octets.antt =====
-- wire/typebitmap.go: the types that the octets of a window give.
use dnsdata_go.Common.{
  ℕ, zero, suc, ◌+◌, ◌-◌, ◌*◌, ◌/◌, ◌%◌, ◌≤◌, ◌<◌, ◌≡◌, ◌↔◌, refl, sym, ap, ◌∙◌, arith, true,
  Bool-cases, inl, inr, List, [], ◌∷◌, ◌++◌, ltb, ◌==◌, ==_iff, length, Bytes,
}
use mathlib.Core.List.{Memᴰ}
use mathlib.Core.List.Memᴰ
use dnsdata_go.Wire.TypeBitmap.{has_bit, decode_octet, decode_octets}
use dnsdata_go.Wire.TypeBitmap.Bits.{bit_of}

-- The types that an octet gives.
decode_octet_lem :
    (left bit first b t : ℕ)
    → Memᴰ t (decode_octet left bit first b)
      ↔ ((j : ℕ) × (bit ≤ j) × (j < bit + left) × (t ≡ first + j) × (has_bit b j ≡ true))
unfolding decode_octet
decode_octet_lem zero bit first b t =
    (λ m. absurd (Memᴰ.not-nil m), λ (j, l, u, e, h). absurd (omega arith))
decode_octet_lem (suc left) bit first b t =
    let rest = decode_octet_lem left (suc bit) first b t in
    elim (Bool-cases (has_bit b bit)) [
      | inl y ↦ rw y (
        λ m. elim (Memᴰ.cases_cons m) [
          | inl e ↦ (bit, omega arith, omega arith, e, y)
          | inr i ↦ let (j, l, u, e, h) = rest.0 i in (j, omega arith, omega arith, e, h)
        ],
        λ (j, l, u, e, h). elim (Bool-cases (bit == j)) [
          | inl f ↦ let g = (==_iff bit j).0 f in Memᴰ.head (omega (arith, e, g))
          | inr f ↦ Memᴰ.tail (rest.1 (j, ground (arith, f, l), ground (arith, u), e, h))
        ],
      )
      | inr n ↦ rw n (
        λ m. let (j, l, u, e, h) = rest.0 m in (j, omega arith, omega arith, e, h),
        λ (j, l, u, e, h). elim (Bool-cases (bit == j)) [
          | inl f ↦ let g = (==_iff bit j).0 f in absurd (cc)
          | inr f ↦ rest.1 (j, ground (arith, f, l), ground (arith, u), e, h)
        ],
      )
    ]

bit_of-first : (b : ℕ) (bs : Bytes) (p : ℕ) → p < 8 → bit_of (b ∷ bs) p ≡ has_bit b p
bit_of-first b bs p low =
    let e : p / 8 ≡ 0 = omega arith in let f : p % 8 ≡ p = omega arith in rw (e, f) refl

bit_of-rest : (b : ℕ) (bs : Bytes) (p : ℕ) → bit_of (b ∷ bs) (8 + p) ≡ bit_of bs p
bit_of-rest b bs p =
    let e : (8 + p) / 8 ≡ suc (p / 8) = omega arith in
    let f : (8 + p) % 8 ≡ p % 8 = omega arith in rw (e, f) refl

-- The types that the octets of a window give.
pub decode_octets_lem :
    (bm : Bytes) (first t : ℕ)
    → Memᴰ t (decode_octets first bm)
      ↔ ((p : ℕ) × (p < 8 * length bm) × (t ≡ first + p) × (bit_of bm p ≡ true))
unfolding decode_octets
decode_octets_lem [] first t = (λ m. absurd (Memᴰ.not-nil m), λ (p, u, e, h). absurd (omega arith))
decode_octets_lem (b ∷ bs) first t =
    let here = decode_octet_lem 8 0 first b t in
    let behind = decode_octets_lem bs (first + 8) t in
    (
      λ m. elim (Memᴰ.append_cases (decode_octet 8 0 first b) m) [
        | inl i ↦
            let (j, l, u, e, h) = here.0 i in
            (j, omega arith, e, bit_of-first b bs j (omega arith) ∙ h)
        | inr i ↦
            let (p, u, e, h) = behind.0 i in
            (8 + p, omega arith, omega (arith, e), bit_of-rest b bs p ∙ h)
      ],
      λ (p, u, e, h). elim (Bool-cases (ltb p 8)) [
        | inl y ↦
            let low : p < 8 = ground arith in
            Memᴰ.append_left _ (here.1 (p, omega arith, low, e, sym (bit_of-first b bs p low) ∙ h))
        | inr n ↦
            let high : 8 + (p - 8) ≡ p = ground arith in
            Memᴰ.append_right (decode_octet 8 0 first b) (
              behind.1 (
                p - 8,
                omega (arith, high),
                omega (arith, high, e),
                sym (bit_of-rest b bs (p - 8)) ∙ ap (bit_of (b ∷ bs)) high ∙ h,
              ))
      ],
    )

-- Each number is below those behind it.
abbrev pub IsRising : List ℕ → Type 0
IsRising [] = Unit
IsRising (t ∷ ts) = ((u : ℕ) → Memᴰ u ts → t < u) × IsRising ts

pub IsRising-append :
    (xs ys : List ℕ)
    → IsRising xs
    → IsRising ys
    → ((x y : ℕ) → Memᴰ x xs → Memᴰ y ys → x < y)
    → IsRising (xs ++ ys)
IsRising-append [] ys a b below = b
IsRising-append (x ∷ xs) ys (first, a) b below = (
  (λ u m. elim (Memᴰ.append_cases xs m) [
    | inl i ↦ first u i
    | inr i ↦ below x u (Memᴰ.head refl) i
  ]),
  IsRising-append xs ys a b (λ v y m n. below v y (Memᴰ.tail m) n),
)

decode_octet-IsRising : (left bit first b : ℕ) → IsRising (decode_octet left bit first b)
unfolding decode_octet
decode_octet-IsRising zero bit first b = tt
decode_octet-IsRising (suc left) bit first b =
    let rest = decode_octet-IsRising left (suc bit) first b in
    elim (Bool-cases (has_bit b bit)) [
      | inl y ↦ rw y (
        (λ u m.
            let (j, l, k, e, h) = (decode_octet_lem left (suc bit) first b u).0 m in
            omega (arith, e, l)),
        rest,
      )
      | inr n ↦ rw n rest
    ]

pub decode_octets-IsRising : (first : ℕ) (bm : Bytes) → IsRising (decode_octets first bm)
unfolding decode_octets
decode_octets-IsRising first [] = tt
decode_octets-IsRising first (b ∷ bs) =
    IsRising-append (decode_octet 8 0 first b) (decode_octets (first + 8) bs)
      (decode_octet-IsRising 8 0 first b) (decode_octets-IsRising (first + 8) bs)
      (λ x y m n.
        let (j, l, k, e, h) = (decode_octet_lem 8 0 first b x).0 m in
        let (p, u, f, g) = (decode_octets_lem bs (first + 8) y).0 n in omega (arith, e, k, f))
