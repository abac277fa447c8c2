-- ===== src/Wire/TypeBitmap/Bits.antt =====
-- wire/typebitmap.go: the bits of a window.
use dnsdata_go.Common.{
  ℕ, zero, suc, ◌+◌, ◌*◌, ◌/◌, ◌%◌, ◌^◌, ◌≤◌, ◌<◌, ◌≡◌, ◌⊎◌, ◌↔◌, refl, ap, ◌∙◌, arith, Bool, true,
  false, not, ◌&&◌, ◌||◌, Bool-cases, inl, inr, List, [], ◌∷◌, ltb, ◌==◌, ==_iff, if◌then◌else◌,
  length, All, Bytes, IsByte, octet, bit_or,
}
use mathlib.Core.List.{Memᴰ}
use mathlib.Core.List.Memᴰ
use dnsdata_go.Common.Bits.{holds_in_table, table_entry}
use dnsdata_go.Wire.TypeBitmap.{has_bit, or_at, zeros, set_bits, max_offset}

abbrev same_bool : Bool → Bool → Bool
same_bool true b = b
same_bool false b = not b

-- Setting a bit of an octet changes that bit, and leaves an octet.
abbrev sets_bit : ℕ → ℕ → ℕ → Bool
sets_bit k j b =
    ltb (bit_or b (128 / 2 ^ k)) 256
    && same_bool (has_bit (bit_or b (128 / 2 ^ k)) j) (j == k || has_bit b j)

abbrev for_bits : ℕ → (ℕ → Bool) → Bool
for_bits n test = holds_in_table test n

sets_bits : ℕ → Bool
sets_bits b = for_bits 8 (λ k. for_bits 8 (λ j. sets_bit k j b))

octets_set : holds_in_table sets_bits 256 ≡ true
unfolding holds_in_table sets_bits has_bit
octets_set = refl

same_bool_lem : (a b : Bool) → same_bool a b ≡ true → b ≡ a
same_bool_lem true b e = e
same_bool_lem false b e = ground (arith, e)

module _ (b k j : ℕ) (byte : IsByte b) (low : k < 8) (small : j < 8) where
  set_entry : sets_bit k j b ≡ true
  unfolding sets_bits
  set_entry =
      let each = table_entry sets_bits b 256 byte octets_set in
      let bits = table_entry (λ k. for_bits 8 (λ j. sets_bit k j b)) k 8 low each in
      table_entry (λ j. sets_bit k j b) j 8 small bits

  set_octet : IsByte (bit_or b (128 / 2 ^ k))
  set_octet = let e = set_entry in ground (arith, e)

  set_has_bit : has_bit (bit_or b (128 / 2 ^ k)) j ≡ (j == k || has_bit b j)
  set_has_bit = let e = set_entry in same_bool_lem _ _ (ground (arith, e))

-- The bit for an offset in the octets of a window.
abbrev pub bit_of : Bytes → ℕ → Bool
bit_of bm offset = has_bit (octet bm (offset / 8)) (offset % 8)

or_at-octets :
    (bm : Bytes) (i k : ℕ) → All IsByte bm → k < 8 → All IsByte (or_at bm i (128 / 2 ^ k))
unfolding or_at
or_at-octets [] i k bytes low = tt
or_at-octets (b ∷ bs) zero k (byte, bytes) low = (set_octet b k 0 byte low (omega arith), bytes)
or_at-octets (b ∷ bs) (suc i) k (byte, bytes) low = (byte, or_at-octets bs i k bytes low)

or_at-length : (bm : Bytes) (i mask : ℕ) → length (or_at bm i mask) ≡ length bm
unfolding or_at
or_at-length [] i mask = refl
or_at-length (b ∷ bs) zero mask = refl
or_at-length (b ∷ bs) (suc i) mask = ap suc (or_at-length bs i mask)

or_at-has_bit :
    (bm : Bytes) (i k m j : ℕ)
    → All IsByte bm
    → i < length bm
    → k < 8
    → j < 8
    → has_bit (octet (or_at bm i (128 / 2 ^ k)) m) j
      ≡ ((m == i && j == k) || has_bit (octet bm m) j)
unfolding or_at
or_at-has_bit [] i k m j bytes inside low small = absurd (omega arith)
or_at-has_bit (b ∷ bs) zero k zero j (byte, bytes) inside low small =
    set_has_bit b k j byte low small
or_at-has_bit (b ∷ bs) zero k (suc m) j (byte, bytes) inside low small = ground arith
or_at-has_bit (b ∷ bs) (suc i) k zero j (byte, bytes) inside low small = ground arith
or_at-has_bit (b ∷ bs) (suc i) k (suc m) j (byte, bytes) inside low small =
    let rest = or_at-has_bit bs i k m j bytes (omega arith) low small in ground arith

same_offset : (o p : ℕ) → (p / 8 == o / 8 && p % 8 == o % 8) ≡ (p == o)
same_offset o p = ground arith

or_bit :
    (bm : Bytes) (o p : ℕ)
    → All IsByte bm
    → o / 8 < length bm
    → (bit_of (or_at bm (o / 8) (128 / 2 ^ (o % 8))) p ≡ true) ↔ ((p ≡ o) ⊎ (bit_of bm p ≡ true))
or_bit bm o p bytes inside =
    let e =
      or_at-has_bit bm (o / 8) (o % 8) (p / 8) (p % 8) bytes inside (omega arith) (omega arith) in
    let f = same_offset o p in let g = ==_iff p o in ground arith

set_bits_lem :
    (os : List ℕ) (bm : Bytes)
    → All IsByte bm
    → All (λ o. o / 8 < length bm) os
    → (p : ℕ)
    → (length (set_bits bm os) ≡ length bm)
      × ((bit_of (set_bits bm os) p ≡ true) ↔ (Memᴰ p os ⊎ (bit_of bm p ≡ true)))
unfolding set_bits
set_bits_lem [] bm bytes inside p =
    (refl, (λ e. inr e, λ c. elim c [ inl m ↦ absurd (Memᴰ.not-nil m) | inr e ↦ e ]))
set_bits_lem (o ∷ os) bm bytes (first, inside) p =
    let next = or_at bm (o / 8) (128 / 2 ^ (o % 8)) in
    let same = or_at-length bm (o / 8) (128 / 2 ^ (o % 8)) in
    let (len, i) =
      set_bits_lem os next (or_at-octets bm (o / 8) (o % 8) bytes (omega arith)) (rw same inside)
        p in
    let b = or_bit bm o p bytes first in
    (
      len ∙ same,
      (
        λ e. elim (i.0 e) [
          | inl m ↦ inl (Memᴰ.tail m)
          | inr f ↦ elim (b.0 f) [ inl g ↦ inl (Memᴰ.head g) | inr g ↦ inr g ]
        ],
        λ c. i.1 (elim c [
          | inl m ↦ elim (Memᴰ.cases_cons m) [ inl g ↦ inr (b.1 (inl g)) | inr n ↦ inl n ]
          | inr g ↦ inr (b.1 (inr g))
        ]),
      ),
    )

zeros-octets : (n : ℕ) → All IsByte (zeros n)
unfolding zeros
zeros-octets zero = tt
zeros-octets (suc n) = (omega arith, zeros-octets n)

length-zeros : (n : ℕ) → length (zeros n) ≡ n
unfolding zeros
length-zeros zero = refl
length-zeros (suc n) = ap suc (length-zeros n)

octet-zeros : (n i : ℕ) → octet (zeros n) i ≡ 0
unfolding zeros
octet-zeros zero i = refl
octet-zeros (suc n) zero = refl
octet-zeros (suc n) (suc i) = octet-zeros n i

bits_clear : holds_in_table (λ j. not (has_bit 0 j)) 8 ≡ true
unfolding holds_in_table has_bit
bits_clear = refl

no_bit : (j : ℕ) → j < 8 → has_bit 0 j ≡ false
no_bit j low = let e = table_entry (λ j. not (has_bit 0 j)) j 8 low bits_clear in ground (arith, e)

max_offset_lem :
    (most : ℕ) (os : List ℕ)
    → most < 256
    → All (λ o. o < 256) os
    → (most ≤ max_offset most os)
      × (max_offset most os < 256)
      × All (λ o. o ≤ max_offset most os) os
unfolding max_offset
max_offset_lem most [] low bytes = (omega arith, low, tt)
max_offset_lem most (o ∷ os) low (byte, bytes) =
    let next = if ltb most o then o else most in
    let small : next < 256 = ground arith in
    let above : (most ≤ next) × (o ≤ next) = ground arith in
    let (a, b, c) = max_offset_lem next os small bytes in
    (omega (arith, a, above), b, (omega (arith, a, above), c))

below_max : (os : List ℕ) (m : ℕ) → All (λ o. o ≤ m) os → All (λ o. o / 8 < m / 8 + 1) os
below_max [] m c = tt
below_max (o ∷ os) m (low, c) = (omega arith, below_max os m c)

-- The octets of a window have the bits of its offsets.
pub window_bits :
    (os : List ℕ)
    → All (λ o. o < 256) os
    → (length (set_bits (zeros (max_offset 0 os / 8 + 1)) os) ≡ max_offset 0 os / 8 + 1)
      × (max_offset 0 os / 8 + 1 ≤ 32)
      × ((p : ℕ) → (bit_of (set_bits (zeros (max_offset 0 os / 8 + 1)) os) p ≡ true) ↔ Memᴰ p os)
window_bits os bytes =
    let n = max_offset 0 os / 8 + 1 in
    let (a, b, c) = max_offset_lem 0 os (omega arith) bytes in
    let inside : All (λ o. o / 8 < length (zeros n)) os =
      rw (length-zeros n) (below_max os (max_offset 0 os) c) in
    let each = set_bits_lem os (zeros n) (zeros-octets n) inside in
    (
      (each 0).0 ∙ length-zeros n,
      omega (arith, b),
      λ p.
          let i = (each p).1 in
          let clear : bit_of (zeros n) p ≡ false =
            rw (octet-zeros n (p / 8)) (no_bit (p % 8) (omega arith)) in
          (λ e. elim (i.0 e) [ inl m ↦ m | inr f ↦ absurd (cc) ], λ m. i.1 (inl m)),
    )

octet_outside : (bm : Bytes) (i : ℕ) → length bm ≤ i → octet bm i ≡ 0
octet_outside [] i h = refl
octet_outside (b ∷ bs) zero h = absurd (omega arith)
octet_outside (b ∷ bs) (suc i) h = octet_outside bs i (omega arith)

-- A bit that is set lies inside the octets.
pub bit_of-inside : (bm : Bytes) (p : ℕ) → bit_of bm p ≡ true → p < 8 * length bm
bit_of-inside bm p e = elim (Bool-cases (ltb p (8 * length bm))) [
  | inl y ↦ ground arith
  | inr n ↦
      let clear : bit_of bm p ≡ false =
        rw (octet_outside bm (p / 8) (ground arith)) (no_bit (p % 8) (omega arith)) in
      absurd (cc)
]
