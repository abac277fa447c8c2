-- ===== src/Types/RrClass.antt =====
-- types/rrclass.go and types/rfc3597.go: the mnemonics of the classes.
use dnsdata_go.Common.{ℕ, Bool, List, [], ◌∷◌, Bytes, Result, ok, err}
use dnsdata_go.Text.{Unicode}
use dnsdata_go.Types.Mnemonics.{
  TypesError, unknown_rr_class, find_text, find_code, is_one_of, text_or, code_or,
}
use dnsdata_go.Types.Decimal.{generic_class_prefix, format_uint, parse_generic_mnemonic}
use dnsdata_go.Common.{◌++◌, some, none}

-- The switch of `RRClassToString`.
abbrev pub rr_class_texts : List (ℕ × Bytes)
rr_class_texts =
    (0, b'I' ∷ b'N' ∷ b'V' ∷ b'A' ∷ b'L' ∷ b'I' ∷ b'D' ∷ [])
    ∷ (1, b'I' ∷ b'N' ∷ [])
    ∷ (2, b'U' ∷ b'N' ∷ b'A' ∷ b'L' ∷ b'L' ∷ b'O' ∷ b'C' ∷ b'_' ∷ b'2' ∷ [])
    ∷ (3, b'C' ∷ b'H' ∷ b'A' ∷ b'O' ∷ b'S' ∷ [])
    ∷ (4, b'H' ∷ b'S' ∷ [])
    ∷ (254, b'N' ∷ b'O' ∷ b'N' ∷ b'E' ∷ [])
    ∷ (255, b'A' ∷ b'N' ∷ b'Y' ∷ [])
    ∷ []

-- The switch of `StringToRRClass`.
abbrev pub rr_class_codes : List (Bytes × ℕ)
rr_class_codes =
    (b'I' ∷ b'N' ∷ b'V' ∷ b'A' ∷ b'L' ∷ b'I' ∷ b'D' ∷ [], 0)
    ∷ (b'I' ∷ b'N' ∷ [], 1)
    ∷ (b'U' ∷ b'N' ∷ b'A' ∷ b'L' ∷ b'L' ∷ b'O' ∷ b'C' ∷ b'_' ∷ b'2' ∷ [], 2)
    ∷ (b'C' ∷ b'H' ∷ b'A' ∷ b'O' ∷ b'S' ∷ [], 3)
    ∷ (b'H' ∷ b'S' ∷ [], 4)
    ∷ (b'N' ∷ b'O' ∷ b'N' ∷ b'E' ∷ [], 254)
    ∷ (b'A' ∷ b'N' ∷ b'Y' ∷ [], 255)
    ∷ []

-- `RRClassToString`
unfoldable pub rr_class_to_string : ℕ → Result TypesError Bytes
rr_class_to_string code = text_or unknown_rr_class (find_text rr_class_texts code)

-- `RRClassName`
unfoldable pub rr_class_name : ℕ → Bytes
unfolding rr_class_to_string
rr_class_name code = elim (rr_class_to_string code) [
  | ok s ↦ s
  | err e ↦ generic_class_prefix ++ format_uint code
]

-- `QClassValidForRequest`
unfoldable pub qclass_valid_for_request : ℕ → Bool
qclass_valid_for_request code = is_one_of code (1 ∷ 3 ∷ 4 ∷ 255 ∷ [])

module _ ⦃u : Unicode⦄ where
  -- `StringToRRClass`
  unfoldable pub string_to_rr_class : Bytes → Result TypesError ℕ
  unfolding parse_generic_mnemonic
  string_to_rr_class s = elim (parse_generic_mnemonic s generic_class_prefix) [
    | some t ↦ ok t
    | none ↦ code_or unknown_rr_class (find_code rr_class_codes s)
  ]
