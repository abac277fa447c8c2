-- ===== src/Wire/Name.antt =====
-- wire/name.go: domain names without compression.
pub mod Labels
pub mod RoundTrip
use dnsdata_go.Common.{
  ℕ, zero, suc, ◌+◌, ◌-◌, ◌%◌, ◌≤◌, ◌<◌, ◌≡◌, Bool, true, false, not, ◌&&◌, ◌||◌, List, [], ◌∷◌,
  ◌++◌, map, ltb, leb, ◌==◌, if◌then◌else◌, length, take, drop, Bytes, Result, ok, err, ◌>>=◌,
  bit_and,
}

-- The sentinel errors of wire/name.go and wire/name_decompress.go.
pub data NameError : Type 0 where
  label_too_long name_too_long truncated compressed pointer_loop pointer_forward : NameError

-- `asciiToLower`
unfoldable pub ascii_to_lower : ℕ → ℕ
ascii_to_lower b = if leb b'A' b && leb b b'Z' then b + 32 else b

-- The body of the outer loop for the label `name[i:j]`: nothing for an empty one.
unfoldable pub put_label : (ℕ → ℕ) → Bytes → Bytes → Result NameError Bytes
put_label fold out [] = ok out
put_label fold out (c ∷ cs) =
    if ltb 63 (length (c ∷ cs))
    then err label_too_long
    else ok (out ++ (length (c ∷ cs) % 256) ∷ map fold (c ∷ cs))

-- `if i == l { out = append(out, 0x00) }`: the dot just read ended the name.
unfoldable pub after_dot : Bytes → Bytes → Bytes
after_dot out [] = out ++ 0 ∷ []
after_dot out (c ∷ rest) = out

-- The two loops of `domainNameToWire` as one pass: `label` is `name[i:j]`, the last argument is
-- `name[j:]`.
unfoldable pub encode_from : (ℕ → ℕ) → Bytes → Bytes → Bytes → Result NameError Bytes
encode_from fold out label [] = put_label fold out label
encode_from fold out label (c ∷ rest) =
    let at_dot = (do
      out' ← put_label fold out label
      encode_from fold (after_dot out' rest) [] rest) in
    let in_label = encode_from fold out (label ++ c ∷ []) rest in
    if c == b'.' then at_dot else in_label

-- `if len(out) > 255`
abbrev pub check_length : Bytes → Result NameError Bytes
check_length out = if ltb 255 (length out) then err name_too_long else ok out

-- `domainNameToWire`
unfoldable pub encode_name : (ℕ → ℕ) → Bytes → Result NameError Bytes
encode_name fold name = do out ← encode_from fold [] [] name; check_length out

-- `DomainNameToWire` and `DomainNameToWirePreserveCase`
unfoldable pub domain_name_to_wire : Bytes → Result NameError Bytes
domain_name_to_wire = encode_name ascii_to_lower

unfoldable pub domain_name_to_wire_preserve_case : Bytes → Result NameError Bytes
domain_name_to_wire_preserve_case = encode_name (λ b. b)

-- The loop of `WireToDomainName`. `todo` counts the octets of `wire[i:i+s]` still to be copied, and
-- `first` is `i == 0`; the last argument is what has not been read.
unfoldable pub decode_from : ℕ → Bool → Bytes → Bytes → Result NameError Bytes
decode_from todo first out [] = ok out
decode_from (suc todo) first out (c ∷ rest) = decode_from todo first (out ++ c ∷ []) rest
decode_from zero first out (s ∷ rest) =
    let at_root = decode_from zero false (out ++ b'.' ∷ []) rest in
    let at_label = decode_from s false (if first then out else out ++ b'.' ∷ []) rest in
    if s == 0
    then at_root
    else if not (bit_and s 0xC0 == 0)
    then err compressed
    else if ltb (length rest) s
    then err truncated
    else at_label

unfoldable pub wire_to_domain_name : Bytes → Result NameError Bytes
wire_to_domain_name = decode_from 0 true []
