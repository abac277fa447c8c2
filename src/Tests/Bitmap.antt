-- ===== src/Tests/Bitmap.antt =====
-- A type bitmap at concrete types.
use dnsdata_go.Common.{ℕ, ◌≡◌, ◌↔◌, refl, arith, List, [], ◌∷◌, ok}
use mathlib.Core.List.{Memᴰ}
use dnsdata_go.Wire.TypeBitmap.{
  encode_type_bitmap, decode_type_bitmap, encode_windows, put_window, encode_window, offsets_in,
  max_offset, zeros, or_at, set_bits, decode_windows, decode_octets, decode_octet, has_bit,
}
use dnsdata_go.Wire.TypeBitmap.Octets.{IsRising}
use dnsdata_go.Wire.TypeBitmap.RoundTrip.{decode-encode_type_bitmap}

abbrev types : List ℕ
types = 257 ∷ 2 ∷ 1 ∷ 2 ∷ []

encoded : encode_type_bitmap types ≡ 0 ∷ 1 ∷ 96 ∷ 1 ∷ 1 ∷ 64 ∷ []
unfolding encode_type_bitmap encode_windows put_window encode_window offsets_in max_offset zeros
    or_at set_bits
encoded = refl

decoded : decode_type_bitmap (0 ∷ 1 ∷ 96 ∷ 1 ∷ 1 ∷ 64 ∷ []) ≡ ok (1 ∷ 2 ∷ 257 ∷ [])
unfolding decode_type_bitmap decode_windows decode_octets decode_octet has_bit
decoded = refl

decode-encode_type_bitmap_example :
    (out : List ℕ) × (decode_type_bitmap (encode_type_bitmap types) ≡ ok out)
    × IsRising out
    × ((t : ℕ) → Memᴰ t out ↔ Memᴰ t types)
decode-encode_type_bitmap_example =
    decode-encode_type_bitmap types (omega arith, (omega arith, (omega arith, (omega arith, tt))))
