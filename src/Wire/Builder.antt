-- ===== src/Wire/Builder.antt =====
-- wire/builder.go: the append-only buffer, and the big-endian reads of encoding/binary. A buffer is
-- the list of its octets, so `Bytes` and `Clone` are the buffer itself.
use dnsdata_go.Common.{
  ℕ, suc, ◌+◌, ◌*◌, ◌/◌, ◌%◌, ◌^◌, ◌≡◌, arith, [], ◌∷◌, ◌++◌, length, Bytes, octet,
}

-- The octets of a number, the highest first.
abbrev pub be16 : ℕ → Bytes
be16 v = (v / 2 ^ 8 % 256) ∷ (v % 256) ∷ []

abbrev pub be32 : ℕ → Bytes
be32 v = (v / 2 ^ 24 % 256) ∷ (v / 2 ^ 16 % 256) ∷ (v / 2 ^ 8 % 256) ∷ (v % 256) ∷ []

-- The methods of `Builder`.
abbrev pub append_uint8 : Bytes → ℕ → Bytes
append_uint8 b v = b ++ v ∷ []

abbrev pub append_uint16 : Bytes → ℕ → Bytes
append_uint16 b v = b ++ be16 v

abbrev pub append_uint32 : Bytes → ℕ → Bytes
append_uint32 b v = b ++ be32 v

abbrev pub append_bytes : Bytes → Bytes → Bytes
append_bytes b p = b ++ p

-- `binary.BigEndian.Uint16(msg[i:i+2])` and `Uint32`.
abbrev pub uint16_at : Bytes → ℕ → ℕ
uint16_at msg i = octet msg i * 2 ^ 8 + octet msg (i + 1)

abbrev pub uint32_at : Bytes → ℕ → ℕ
uint32_at msg i =
    octet msg i * 2 ^ 24
    + octet msg (i + 1) * 2 ^ 16
    + octet msg (i + 2) * 2 ^ 8
    + octet msg (i + 3)

-- An octet behind a prefix.
pub octet-append : (pre ys : Bytes) (k : ℕ) → octet (pre ++ ys) (length pre + k) ≡ octet ys k
octet-append [] ys k = let e : 0 + k ≡ k = omega arith in rw e
octet-append (x ∷ xs) ys k =
    let e : suc (length xs) + k ≡ suc (length xs + k) = omega arith in rw e (octet-append xs ys k)

pub octet_first : (pre ys : Bytes) → octet (pre ++ ys) (length pre) ≡ octet ys 0
octet_first pre ys =
    let e : length pre + 0 ≡ length pre = omega arith in rw e at (octet-append pre ys 0)

-- A word behind a prefix.
module _ (pre ys : Bytes) {pos : ℕ} (k : ℕ) (e : pos ≡ length pre + k) where
  pub octet_behind : octet (pre ++ ys) pos ≡ octet ys k
  octet_behind = rw e (octet-append pre ys k)

  next_octet : (j : ℕ) → octet (pre ++ ys) (pos + j) ≡ octet ys (k + j)
  next_octet j =
      let f : pos + j ≡ length pre + (k + j) = omega arith in rw f (octet-append pre ys (k + j))

  pub uint16_behind : uint16_at (pre ++ ys) pos ≡ uint16_at ys k
  uint16_behind = omega (arith, octet_behind, next_octet 1)

  pub uint32_behind : uint32_at (pre ++ ys) pos ≡ uint32_at ys k
  uint32_behind = omega (arith, octet_behind, next_octet 1, next_octet 2, next_octet 3)
