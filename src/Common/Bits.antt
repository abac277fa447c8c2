-- ===== src/Common/Bits.antt =====
-- Masks on one octet as arithmetic; each is a table of at most 256 entries, checked by evaluation.
use Prim.Native.Nat.{ℕ, zero, suc, ◌<◌, bit_and}
use mathlib.Core.Path.{refl, ◌≡◌}
use mathlib.Core.Bool.{Bool, true, ◌&&◌}
use native.Mathlib.Omega.{arith}
use dnsdata_go.Common.Tests.{==_iff, ◌==◌}

-- Whether a test succeeds on every number of a table with so many entries.
unfoldable pub holds_in_table : (ℕ → Bool) → ℕ → Bool
holds_in_table test zero = true
holds_in_table test (suc last) = holds_in_table test last && test last

pub table_entry :
    (test : ℕ → Bool) (entry size : ℕ)
    → entry < size
    → holds_in_table test size ≡ true
    → test entry ≡ true
unfolding holds_in_table
table_entry test entry zero inside passed = absurd (omega arith)
table_entry test entry (suc last) inside passed = ground (arith, table_entry test entry last)

-- The two top bits of a label's length octet.
has_no_top_bits : ℕ → Bool
has_no_top_bits b = bit_and b 0xC0 == 0

label_octets : holds_in_table has_no_top_bits 64 ≡ true
unfolding holds_in_table has_no_top_bits
label_octets = refl

pub top_bits_label : (b : ℕ) → b < 64 → bit_and b 0xC0 ≡ 0
unfolding has_no_top_bits
top_bits_label b h = (==_iff _ 0).0 (table_entry has_no_top_bits b 64 h label_octets)
