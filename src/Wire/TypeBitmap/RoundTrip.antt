-- ===== src/Wire/TypeBitmap/RoundTrip.antt =====
-- wire/typebitmap.go: decoding what was encoded.
use dnsdata_go.Common.{
  ℕ, zero, suc, ◌+◌, ◌-◌, ◌*◌, ◌/◌, ◌≤◌, ◌<◌, ◌≡◌, ◌↔◌, refl, sym, ◌∙◌, subst, arith, true, false,
  ◌||◌, Bool-cases, List-cases, inl, inr, List, [], ◌∷◌, ◌++◌, ltb, ◌==◌, ==_iff, length,
  length-append, take, drop, take-append, drop-append, All, Bytes, IsU16, Result, ok, ◌>>=◌,
}
use mathlib.Core.List.{Memᴰ}
use mathlib.Core.List.Memᴰ
use dnsdata_go.Wire.TypeBitmap.{
  BitmapError, offsets_in, max_offset, zeros, set_bits, encode_window, put_window, encode_windows,
  encode_type_bitmap, decode_octets, decode_windows, decode_type_bitmap,
}
use dnsdata_go.Wire.TypeBitmap.Bits.{bit_of, bit_of-inside, window_bits}
use dnsdata_go.Wire.TypeBitmap.Octets.{
  decode_octets_lem, IsRising, IsRising-append, decode_octets-IsRising,
}

offsets_in-bytes : (w : ℕ) (ts : List ℕ) → All (λ o. o < 256) (offsets_in w ts)
unfolding offsets_in
offsets_in-bytes w [] = tt
offsets_in-bytes w (t ∷ ts) = elim (Bool-cases (t / 256 == w)) [
  | inl y ↦ rw y (omega arith, offsets_in-bytes w ts)
  | inr n ↦ rw n (offsets_in-bytes w ts)
]

Mem-offsets_in :
    (w : ℕ) (ts : List ℕ) (p : ℕ) → p < 256 → Memᴰ p (offsets_in w ts) ↔ Memᴰ (w * 256 + p) ts
unfolding offsets_in
Mem-offsets_in w [] p low = (λ m. absurd (Memᴰ.not-nil m), λ m. absurd (Memᴰ.not-nil m))
Mem-offsets_in w (t ∷ ts) p low =
    let rest = Mem-offsets_in w ts p low in
    elim (Bool-cases (t / 256 == w)) [
      | inl y ↦
          let e = (==_iff (t / 256) w).0 y in
          rw y (
            λ m. elim (Memᴰ.cases_cons m) [
              | inl f ↦ Memᴰ.head (omega (arith, e, f))
              | inr i ↦ Memᴰ.tail (rest.0 i)
            ],
            λ m. elim (Memᴰ.cases_cons m) [
              | inl f ↦ Memᴰ.head (omega (arith, e, f))
              | inr i ↦ Memᴰ.tail (rest.1 i)
            ],
          )
      | inr n ↦ rw n (
        λ m. Memᴰ.tail (rest.0 m),
        λ m. elim (Memᴰ.cases_cons m) [
          | inl f ↦ absurd (ground (arith, n, f, low))
          | inr i ↦ rest.1 i
        ],
      )
    ]

decode_one :
    (rounds w n : ℕ) (bm rest : Bytes)
    → length bm ≡ n
    → 0 < n
    → n ≤ 32
    → decode_windows (suc rounds) (w ∷ n ∷ (bm ++ rest))
      ≡ (decode_windows rounds rest >>= λ out. ok (decode_octets (w * 256) bm ++ out))
unfolding decode_windows
decode_one rounds w n bm rest e some_octets fits =
    let all_there = length-append bm rest in
    let room : ltb (length (bm ++ rest)) n ≡ false = ground (arith, all_there, e) in
    let good : (n == 0 || ltb 32 n) ≡ false = ground arith in
    let back : drop n (bm ++ rest) ≡ rest =
      subst (λ x. drop x (bm ++ rest) ≡ rest) e (drop-append bm rest) in
    let front : take n (bm ++ rest) ≡ bm =
      subst (λ x. take x (bm ++ rest) ≡ bm) e (take-append bm rest) in
    rw (good, room, back, front) refl

-- Decoding the windows from one on gives the types of the list from that window on.
abbrev Decodes : ℕ → ℕ → List ℕ → List ℕ → Type 0
Decodes count w ts out =
    (t : ℕ) → Memᴰ t out ↔ ((w * 256 ≤ t) × (t < (w + count) * 256) × Memᴰ t ts)

Decodes-empty :
    (count w : ℕ) (ts out : List ℕ)
    → offsets_in w ts ≡ []
    → Decodes count (suc w) ts out
    → Decodes (suc count) w ts out
Decodes-empty count w ts out e d t = (
  λ m. let (l, u, i) = (d t).0 m in (omega arith, omega arith, i),
  λ (l, u, i). elim (Bool-cases (ltb t (suc w * 256))) [
    | inl y ↦
        let same : w * 256 + (t - w * 256) ≡ t = omega (arith, l) in
        let low : t - w * 256 < 256 = ground (arith, l) in
        let inside = (Mem-offsets_in w ts (t - w * 256) low).1 (rw same i) in
        absurd (Memᴰ.not-nil (rw e at inside))
    | inr n ↦ (d t).1 (ground arith, omega (arith, u), i)
  ],
)

Decodes-full :
    (count w : ℕ) (ts out : List ℕ) (bm : Bytes)
    → length bm ≤ 32
    → ((p : ℕ) → (bit_of bm p ≡ true) ↔ Memᴰ p (offsets_in w ts))
    → Decodes count (suc w) ts out
    → Decodes (suc count) w ts (decode_octets (w * 256) bm ++ out)
Decodes-full count w ts out bm short bits d t = (
  λ m. elim (Memᴰ.append_cases (decode_octets (w * 256) bm) m) [
    | inl i ↦
        let (p, u, e, h) = (decode_octets_lem bm (w * 256) t).0 i in
        let inside = (Mem-offsets_in w ts p (omega (arith, u, short))).0 ((bits p).0 h) in
        (omega (arith, e), omega (arith, e, u, short), rw e inside)
    | inr i ↦ let (l, u, k) = (d t).0 i in (omega (arith, l), omega (arith, u), k)
  ],
  λ (l, u, i). elim (Bool-cases (ltb t (suc w * 256))) [
    | inl y ↦
        let same : w * 256 + (t - w * 256) ≡ t = omega (arith, l) in
        let low : t - w * 256 < 256 = ground (arith, l) in
        let h = (bits (t - w * 256)).1 ((Mem-offsets_in w ts (t - w * 256) low).1 (rw same i)) in
        Memᴰ.append_left out (
          (decode_octets_lem bm (w * 256) t).1
            (t - w * 256, bit_of-inside bm (t - w * 256) h, sym same, h))
    | inr n ↦
        Memᴰ.append_right (decode_octets (w * 256) bm) ((d t).1 (ground arith, omega (arith, u), i))
  ],
)

window-IsRising :
    (count w : ℕ) (ts out : List ℕ) (bm : Bytes)
    → length bm ≤ 32
    → IsRising out
    → Decodes count (suc w) ts out
    → IsRising (decode_octets (w * 256) bm ++ out)
window-IsRising count w ts out bm short rising d =
    IsRising-append (decode_octets (w * 256) bm) out (decode_octets-IsRising (w * 256) bm) rising
      (λ x y m n.
        let (p, u, e, h) = (decode_octets_lem bm (w * 256) x).0 m in
        let (l, v, i) = (d y).0 n in omega (arith, e, u, short, l))

decoded_behind :
    (r : Result BitmapError (List ℕ)) (front out : List ℕ)
    → r ≡ ok out
    → ◌>>=◌ {E = BitmapError} {B = List ℕ} r (λ later. ok (front ++ later)) ≡ ok (front ++ out)
decoded_behind r front out f = rw f refl

decode_full :
    (count w rounds : ℕ) (ts : List ℕ) (o : ℕ) (os : List ℕ) (rest : Bytes)
    → offsets_in w ts ≡ o ∷ os
    → length (put_window w (o ∷ os) rest) ≤ rounds
    → ((r : ℕ)
        → length rest ≤ r
        → (out : List ℕ) × (decode_windows r rest ≡ ok out)
          × (IsRising out × Decodes count (suc w) ts out))
    → (out : List ℕ) × (decode_windows rounds (put_window w (o ∷ os) rest) ≡ ok out)
      × (IsRising out × Decodes (suc count) w ts out)
unfolding put_window encode_window
decode_full count w zero ts o os rest e enough later = absurd (omega arith)
decode_full count w (suc r) ts o os rest e enough later =
    let n = max_offset 0 (o ∷ os) / 8 + 1 in
    let bm = set_bits (zeros n) (o ∷ os) in
    let (len, short, bits) = window_bits (o ∷ os) (rw e at (offsets_in-bytes w ts)) in
    let (out, f, d) = later r (omega (arith, length-append bm rest, enough)) in
    (
      decode_octets (w * 256) bm ++ out,
      decode_one r w n bm rest len (omega arith) short
          ∙ decoded_behind (decode_windows r rest) (decode_octets (w * 256) bm) out f,
      (
        window-IsRising count w ts out bm (omega (arith, len, short)) (d.0) (d.1),
        Decodes-full count w ts out bm (omega (arith, len, short)) (λ p. rw e (bits p)) (d.1),
      ),
    )

-- Whatever the number of rounds that suffices, the windows decode to the types in them.
decode_windows_lem :
    (count w rounds : ℕ) (ts : List ℕ)
    → length (encode_windows count w ts) ≤ rounds
    → (out : List ℕ) × (decode_windows rounds (encode_windows count w ts) ≡ ok out)
      × (IsRising out × Decodes count w ts out)
unfolding encode_windows decode_windows
decode_windows_lem zero w rounds ts enough =
    ([], refl, (tt, λ t. (λ m. absurd (Memᴰ.not-nil m), λ (l, u, i). absurd (omega (arith, l, u)))))
decode_windows_lem (suc count) w rounds ts enough = elim (List-cases (offsets_in w ts)) [
  | inl e ↦
      let (out, f, d) = decode_windows_lem count (suc w) rounds ts (rw e at enough) in
      (out, rw e f, (d.0, Decodes-empty count w ts out e (d.1)))
  | inr (o, os, e) ↦
      let full =
        decode_full count w rounds ts o os (encode_windows count (suc w) ts) e (rw e at enough)
          (λ r more. decode_windows_lem count (suc w) r ts more) in
      (full.0, rw e (full.1), full.2)
]

type_in_range : (ts : List ℕ) → All IsU16 ts → (t : ℕ) → Memᴰ t ts → IsU16 t
type_in_range (x ∷ xs) (small, rest) t (Memᴰ.head e) = omega (arith, e, small)
type_in_range (x ∷ xs) (small, rest) t (Memᴰ.tail m) = type_in_range xs rest t m
type_in_range [] small t m = elim m [ ]

-- For types of 16 bits DecodeTypeBitmap reads what EncodeTypeBitmap wrote, and gives the types that
-- were encoded and no others, each once and in ascending order.
pub decode-encode_type_bitmap :
    (ts : List ℕ)
    → All IsU16 ts
    → (out : List ℕ) × (decode_type_bitmap (encode_type_bitmap ts) ≡ ok out)
      × IsRising out
      × ((t : ℕ) → Memᴰ t out ↔ Memᴰ t ts)
unfolding decode_type_bitmap encode_type_bitmap
decode-encode_type_bitmap ts small =
    let (out, e, (rising, d)) =
      decode_windows_lem 256 0 (length (encode_windows 256 0 ts)) ts (omega arith) in
    (
      out,
      e,
      rising,
      λ t. (
        λ m. let (l, u, i) = (d t).0 m in i,
        λ m. (d t).1 (omega arith, type_in_range ts small t m, m),
      ),
    )
