-- ===== src/Dnssec/Base32.antt =====
-- The base32hex form of a hash, in dnssec/nsec3.go.
use dnsdata_go.Common.{
  ℕ, ◌+◌, ◌-◌, ◌*◌, ◌/◌, ◌%◌, ◌&&◌, List, [], ◌∷◌, ◌++◌, reverse, Option, none, some, leb, ◌==◌,
  if◌then◌else◌, Bytes, Result, ok, err,
}
use dnsdata_go.Text.{Unicode, to_upper, trim_dot, split_dots}

-- The error of an octet outside the alphabet, and `ErrPresentationFormat`.
pub data Base32Error : Type 0 where
  not_base32_hex presentation_format : Base32Error

-- The octets behind those that stand at the end and are "=".
unfoldable pub drop_padding : Bytes → Bytes
drop_padding [] = []
drop_padding (c ∷ cs) = if c == b'=' then drop_padding cs else c ∷ cs

-- `strings.TrimRight(input, "=")`
unfoldable pub trim_padding : Bytes → Bytes
unfolding drop_padding
trim_padding s = reverse (drop_padding (reverse s))

-- `strings.IndexRune(alphabet, c)`. A rune above 0x7f is not in the alphabet, and none of its octets.
unfoldable pub alphabet_index : ℕ → Option ℕ
alphabet_index c =
    if leb b'0' c && leb c b'9'
    then some (c - b'0')
    else if leb b'A' c && leb c b'V'
    then some (c - b'A' + 10)
    else none

-- The five bits of an index, the highest first.
unfoldable pub five_bits : ℕ → List ℕ
five_bits i = (i / 16) % 2 ∷ (i / 8) % 2 ∷ (i / 4) % 2 ∷ (i / 2) % 2 ∷ i % 2 ∷ []

-- The loop of `base32HexDecode` that collects the bits.
unfoldable pub collect_bits : Bytes → Result Base32Error (List ℕ)
unfolding alphabet_index five_bits
collect_bits [] = ok []
collect_bits (c ∷ cs) =
    let rest = collect_bits cs in
    elim (alphabet_index c) [
      | none ↦ err not_base32_hex
      | some i ↦ elim rest [ err e ↦ err e | ok bits ↦ ok (five_bits i ++ bits) ]
    ]

-- The loop that packs the bits; fewer than eight at the end are dropped.
unfoldable pub pack_bits : List ℕ → Bytes
pack_bits (a ∷ b ∷ c ∷ d ∷ e ∷ f ∷ g ∷ h ∷ rest) =
    (((((((a * 2 + b) * 2 + c) * 2 + d) * 2 + e) * 2 + f) * 2 + g) * 2 + h) ∷ pack_bits rest
pack_bits _ = []

module _ ⦃u : Unicode⦄ where
  -- `base32HexDecode`
  unfoldable pub base32_hex_decode : Bytes → Result Base32Error Bytes
  unfolding trim_padding collect_bits pack_bits
  base32_hex_decode input = elim (collect_bits (to_upper (trim_padding input))) [
    | err e ↦ err e
    | ok bits ↦ ok (pack_bits bits)
  ]

  -- The end of `OwnerHashFromName`, from the labels of the owner.
  unfoldable pub hash_of_labels : List Bytes → Result Base32Error Bytes
  unfolding base32_hex_decode
  hash_of_labels ((c ∷ label) ∷ rest) = base32_hex_decode (c ∷ label)
  hash_of_labels _ = err presentation_format

  -- `OwnerHashFromName`
  unfoldable pub owner_hash_from_name : Bytes → Result Base32Error Bytes
  unfolding hash_of_labels
  owner_hash_from_name owner = hash_of_labels (split_dots (trim_dot owner))
