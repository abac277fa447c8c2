-- ===== src/Wire/TypeBitmap.antt =====
-- wire/typebitmap.go: the type bitmaps of NSEC, NSEC3 and CSYNC records (RFC 4034 §4.1.2).
pub mod Bits
pub mod Octets
pub mod RoundTrip
use dnsdata_go.Common.{
  ℕ, zero, suc, ◌+◌, ◌*◌, ◌/◌, ◌%◌, ◌^◌, Bool, true, false, not, ◌||◌, List, [], ◌∷◌, ◌++◌, ltb,
  ◌==◌, if◌then◌else◌, length, take, drop, Bytes, Result, ok, err, ◌>>=◌, bit_and, bit_or,
}

pub data BitmapError : Type 0 where
  type_bitmap_error : BitmapError

-- The offsets of `winMap[w]`, in the order of the types.
unfoldable pub offsets_in : ℕ → List ℕ → List ℕ
offsets_in w [] = []
offsets_in w (t ∷ ts) = let rest = offsets_in w ts in if t / 256 == w then t % 256 ∷ rest else rest

-- The loop for `maxOff`.
unfoldable pub max_offset : ℕ → List ℕ → ℕ
max_offset most [] = most
max_offset most (o ∷ os) = max_offset (if ltb most o then o else most) os

-- `make([]byte, bmLen)`
unfoldable pub zeros : ℕ → Bytes
zeros zero = []
zeros (suc n) = 0 ∷ zeros n

-- `bm[off/8] |= 0x80 >> (off % 8)`, with the index and the mask.
unfoldable pub or_at : Bytes → ℕ → ℕ → Bytes
or_at [] i mask = []
or_at (b ∷ bs) zero mask = bit_or b mask ∷ bs
or_at (b ∷ bs) (suc i) mask = b ∷ or_at bs i mask

-- The loop that sets the bits of a window.
unfoldable pub set_bits : Bytes → List ℕ → Bytes
unfolding or_at
set_bits bm [] = bm
set_bits bm (o ∷ os) = set_bits (or_at bm (o / 8) (128 / 2 ^ (o % 8))) os

-- The octets of one window.
unfoldable pub encode_window : ℕ → List ℕ → Bytes
unfolding max_offset zeros set_bits
encode_window w offsets =
    let bm_len = max_offset 0 offsets / 8 + 1 in w ∷ bm_len ∷ set_bits (zeros bm_len) offsets

-- A window in front of the others, where it has a type.
unfoldable pub put_window : ℕ → List ℕ → Bytes → Bytes
unfolding encode_window
put_window w [] rest = rest
put_window w (o ∷ os) rest = encode_window w (o ∷ os) ++ rest

-- The loop over the windows, which `sort.Slice` puts in ascending order: the window numbers from one
-- number on, and how many there are.
unfoldable pub encode_windows : ℕ → ℕ → List ℕ → Bytes
unfolding offsets_in put_window
encode_windows zero w ts = []
encode_windows (suc count) w ts = put_window w (offsets_in w ts) (encode_windows count (suc w) ts)

-- `EncodeTypeBitmap`; a window number has 8 bits.
unfoldable pub encode_type_bitmap : List ℕ → Bytes
unfolding encode_windows
encode_type_bitmap ts = encode_windows 256 0 ts

-- `byteVal&(0x80>>bit) != 0`
unfoldable pub has_bit : ℕ → ℕ → Bool
has_bit b bit = not (bit_and b (128 / 2 ^ bit) == 0)

-- The loop over the bits of an octet, from one bit on, with the type of the octet's first bit.
unfoldable pub decode_octet : ℕ → ℕ → ℕ → ℕ → List ℕ
unfolding has_bit
decode_octet zero bit first b = []
decode_octet (suc left) bit first b =
    let rest = decode_octet left (suc bit) first b in
    if has_bit b bit then (first + bit) ∷ rest else rest

-- The loop over the octets of a window, with the type of the first bit.
unfoldable pub decode_octets : ℕ → Bytes → List ℕ
unfolding decode_octet
decode_octets first [] = []
decode_octets first (b ∷ bs) = decode_octet 8 0 first b ++ decode_octets (first + 8) bs

-- The loop of `DecodeTypeBitmap` on what is left of the bitmap, with a number of rounds.
unfoldable pub decode_windows : ℕ → Bytes → Result BitmapError (List ℕ)
unfolding decode_octets
decode_windows rounds [] = ok []
decode_windows zero (w ∷ rest) = err type_bitmap_error
decode_windows (suc rounds) (w ∷ []) = err type_bitmap_error
decode_windows (suc rounds) (w ∷ len ∷ rest) =
    let later = decode_windows rounds (drop len rest) in
    if len == 0 || ltb 32 len
    then err type_bitmap_error
    else if ltb (length rest) len
    then err type_bitmap_error
    else later >>= λ out. ok (decode_octets (w * 256) (take len rest) ++ out)

-- `DecodeTypeBitmap`; each round takes an octet or more.
unfoldable pub decode_type_bitmap : Bytes → Result BitmapError (List ℕ)
unfolding decode_windows
decode_type_bitmap bitmap = decode_windows (length bitmap) bitmap
