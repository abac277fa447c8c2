-- ===== src/Tests/Names.antt =====
-- wire/name.go and wire/name_decompress.go at concrete names.
use dnsdata_go.Common.{
  ℕ, ◌+◌, ◌≤◌, ◌≡◌, refl, arith, List, [], ◌∷◌, ◌++◌, map, Bytes, length, ok, err, ◌>>=◌,
  if◌then◌else◌, ltb,
}
use dnsdata_go.Wire.Name.{
  compressed, label_too_long, pointer_loop, pointer_forward, name_too_long, ascii_to_lower,
  put_label, after_dot, encode_from, encode_name, domain_name_to_wire,
  domain_name_to_wire_preserve_case, decode_from, wire_to_domain_name,
}
use dnsdata_go.Wire.Name.Labels.{assemble_name, labels_wire, labels_fit}
use dnsdata_go.Wire.Name.RoundTrip.{decode_of_encode, encode_branches}
use dnsdata_go.Wire.Decompress.{
  cursor_step, contains, walk, cursor_at, parse_domain_name, max_pointer_hops,
}
use dnsdata_go.Wire.Decompress.Relation.{NameAt, root, label, pointer, name_end}
use dnsdata_go.Wire.Decompress.Sound.{parse_domain_name_sound}
use dnsdata_go.Wire.Decompress.Complete.{parse_domain_name_complete}
use dnsdata_go.Wire.Decompress.Fuel.{walk_room}
use dnsdata_go.Wire.Decompress.Uncompressed.{parse-labels_wire}

-- "Ab.c."
abbrev two_labels : List Bytes
two_labels = (b'A' ∷ b'b' ∷ []) ∷ (b'c' ∷ []) ∷ []

decode_of_encode_example :
    ((domain_name_to_wire_preserve_case (assemble_name two_labels) >>= wire_to_domain_name)
      ≡ ok (assemble_name two_labels))
    × ((domain_name_to_wire (assemble_name two_labels) >>= wire_to_domain_name)
        ≡ ok (assemble_name (map (map ascii_to_lower) two_labels)))
decode_of_encode_example = decode_of_encode two_labels (omega arith) (omega arith)

encode_branches_example : domain_name_to_wire (assemble_name two_labels) ≡ (
    if labels_fit two_labels
    then if ltb 255 (length (labels_wire two_labels))
      then err name_too_long
      else ok (labels_wire (map (map ascii_to_lower) two_labels))
    else err label_too_long)
encode_branches_example = encode_branches two_labels (omega arith)

-- Empty labels are dropped, and a name with no final dot gets no root octet.
encode_relative :
    domain_name_to_wire_preserve_case (b'a' ∷ b'.' ∷ b'.' ∷ b'b' ∷ [])
    ≡ ok (1 ∷ b'a' ∷ 1 ∷ b'b' ∷ [])
unfolding domain_name_to_wire_preserve_case encode_name encode_from put_label after_dot
encode_relative = refl

decode_pointer : wire_to_domain_name (0xC0 ∷ 12 ∷ []) ≡ err compressed
unfolding wire_to_domain_name decode_from
decode_pointer = refl

-- "c." at 0, and at 3 the label "ab" with a pointer to 0.
abbrev compressed_message : Bytes
compressed_message = 1 ∷ b'c' ∷ 0 ∷ 2 ∷ b'a' ∷ b'b' ∷ 0xC0 ∷ 0 ∷ 9 ∷ []

parse_compressed :
    parse_domain_name compressed_message 3 ≡ ok (b'a' ∷ b'b' ∷ b'.' ∷ b'c' ∷ b'.' ∷ [], 8)
unfolding parse_domain_name walk cursor_step contains assemble_name
parse_compressed = refl

parse_forward : parse_domain_name (0xC0 ∷ 0 ∷ []) 0 ≡ err pointer_forward
unfolding parse_domain_name walk cursor_step contains
parse_forward = refl

parse_loop : parse_domain_name (1 ∷ b'a' ∷ 0xC0 ∷ 0 ∷ []) 0 ≡ err pointer_loop
unfolding parse_domain_name walk cursor_step contains
parse_loop = refl

parse_domain_name_sound_example :
    (ls : List Bytes) × (hops : ℕ) × (size : ℕ) × (at : NameAt compressed_message 3 ls hops size)
    × ((b'a' ∷ b'b' ∷ b'.' ∷ b'c' ∷ b'.' ∷ []) ≡ assemble_name ls)
    × (8 ≡ name_end at)
    × (hops ≤ max_pointer_hops)
parse_domain_name_sound_example = parse_domain_name_sound compressed_message 3 parse_compressed

compressed_name : NameAt compressed_message 3 ((b'a' ∷ b'b' ∷ []) ∷ (b'c' ∷ []) ∷ []) 1 3
compressed_name = label (omega arith) refl (omega arith) (omega arith) (
    pointer refl (omega arith) (omega arith)
      (label (omega arith) refl (omega arith) (omega arith) (root (omega arith) refl)))

parse_domain_name_complete_example :
    parse_domain_name compressed_message 3
    ≡ ok (assemble_name ((b'a' ∷ b'b' ∷ []) ∷ (b'c' ∷ []) ∷ []), name_end compressed_name)
parse_domain_name_complete_example = parse_domain_name_complete compressed_name (omega arith)

walk_room_example :
    walk 32 9 compressed_message (cursor_at 3) ≡ walk 32 6 compressed_message (cursor_at 3)
walk_room_example = walk_room 32 9 6 compressed_message (cursor_at 3) (omega arith) (omega arith)

parse-labels_wire_example :
    parse_domain_name (7 ∷ labels_wire two_labels ++ 5 ∷ []) 1
    ≡ ok (assemble_name two_labels, 1 + length (labels_wire two_labels))
parse-labels_wire_example = parse-labels_wire two_labels (7 ∷ []) (5 ∷ []) (omega arith)
