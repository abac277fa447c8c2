-- ===== src/Wire/Decompress/Relation.antt =====
-- What a name in a message is (RFC 1035 §4.1.4), apart from the loop that reads it.
use dnsdata_go.Common.{
  ℕ, suc, ◌+◌, ◌≤◌, ◌<◌, ◌≡◌, ◌≢◌, refl, ap, arith, List, [], ◌∷◌, length, take, drop, Bytes, octet,
  bit_and,
}
use dnsdata_go.Wire.Decompress.{pointer_at}

-- At `pos` stands the name with these labels, through `hops` pointers, each of them backwards; the
-- last number counts the labels and pointers passed.
pub data NameAt (msg : Bytes) : ℕ → List Bytes → ℕ → ℕ → Type 0 where
  root : {pos : ℕ} → pos < length msg → octet msg pos ≡ 0 → NameAt msg pos [] 0 0
  label :
      {pos hops size : ℕ} {ls : List Bytes}
      → octet msg pos ≢ 0
      → bit_and (octet msg pos) 0xC0 ≡ 0
      → octet msg pos ≤ 63
      → pos + 1 + octet msg pos ≤ length msg
      → NameAt msg (pos + 1 + octet msg pos) ls hops size
      → NameAt msg pos (take (octet msg pos) (drop (pos + 1) msg) ∷ ls) hops (suc size)
  pointer :
      {pos hops size : ℕ} {ls : List Bytes}
      → bit_and (octet msg pos) 0xC0 ≡ 0xC0
      → pos + 1 < length msg
      → pointer_at msg pos < pos
      → NameAt msg (pointer_at msg pos) ls hops size
      → NameAt msg pos ls (suc hops) (suc size)

-- The offset behind the name as it stands at `pos`: behind the root octet, or the first pointer.
abbrev pub name_end :
    {msg : Bytes} {pos hops size : ℕ} {ls : List Bytes} → NameAt msg pos ls hops size → ℕ
name_end (root {pos} h z) = pos + 1
name_end (label z m k fits at) = name_end at
name_end (pointer {pos} m h back at) = pos + 2

pub root_not_pointer : (b : ℕ) → b ≡ 0 → ¬ (bit_and b 0xC0 ≡ 0xC0)
root_not_pointer b z m = absurd (omega (arith, rw z at m))

-- A message holds one name at an offset: all derivations have the same size.
pub NameAt-size :
    {msg : Bytes} {pos h s k t : ℕ} {ls ms : List Bytes}
    → NameAt msg pos ls h s
    → NameAt msg pos ms k t
    → s ≡ t
NameAt-size (root h z) (root h' z') = refl
NameAt-size (root h z) (label n m k f at) = absurd (n z)
NameAt-size (root h z) (pointer m f b at) = absurd (root_not_pointer _ z m)
NameAt-size (label n m k f at) (root h z) = absurd (n z)
NameAt-size (label n m k f at) (label n' m' k' f' at') = ap suc (NameAt-size at at')
NameAt-size (label n m k f at) (pointer m' f' b' at') = absurd (omega (arith, m, m'))
NameAt-size (pointer m f b at) (root h z) = absurd (root_not_pointer _ z m)
NameAt-size (pointer m f b at) (label n' m' k' f' at') = absurd (omega (arith, m, m'))
NameAt-size (pointer m f b at) (pointer m' f' b' at') = ap suc (NameAt-size at at')

-- The name as it stands takes an octet at least, and lies inside the message.
pub name_end_bounds :
    {msg : Bytes} {pos h size : ℕ} {ls : List Bytes} (at : NameAt msg pos ls h size)
    → (pos < name_end at) × (name_end at ≤ length msg)
name_end_bounds (root i z) = omega arith
name_end_bounds (label n m k f at) = omega (arith, name_end_bounds at)
name_end_bounds (pointer m f b at) = omega arith
