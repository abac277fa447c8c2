-- ===== src/Types/OpCode.antt =====
-- types/opcode.go: the operation codes.
use dnsdata_go.Common.{ℕ, List, [], ◌∷◌, Bytes, Result}
use dnsdata_go.Types.Mnemonics.{TypesError, unknown_op_code, find_text, find_code, text_or, code_or}

-- The switch of `OpCodeToString`.
abbrev pub opcode_texts : List (ℕ × Bytes)
opcode_texts =
    (0, b'Q' ∷ b'u' ∷ b'e' ∷ b'r' ∷ b'y' ∷ [])
    ∷ (1, b'I' ∷ b'Q' ∷ b'u' ∷ b'e' ∷ b'r' ∷ b'y' ∷ [])
    ∷ (2, b'S' ∷ b't' ∷ b'a' ∷ b't' ∷ b'u' ∷ b's' ∷ [])
    ∷ (4, b'N' ∷ b'o' ∷ b't' ∷ b'i' ∷ b'f' ∷ b'y' ∷ [])
    ∷ (5, b'U' ∷ b'p' ∷ b'd' ∷ b'a' ∷ b't' ∷ b'e' ∷ [])
    ∷ []

-- The switch of `StringToOpCode`.
abbrev pub opcode_codes : List (Bytes × ℕ)
opcode_codes =
    (b'Q' ∷ b'u' ∷ b'e' ∷ b'r' ∷ b'y' ∷ [], 0)
    ∷ (b'I' ∷ b'Q' ∷ b'u' ∷ b'e' ∷ b'r' ∷ b'y' ∷ [], 1)
    ∷ (b'S' ∷ b't' ∷ b'a' ∷ b't' ∷ b'u' ∷ b's' ∷ [], 2)
    ∷ (b'N' ∷ b'o' ∷ b't' ∷ b'i' ∷ b'f' ∷ b'y' ∷ [], 4)
    ∷ (b'U' ∷ b'p' ∷ b'd' ∷ b'a' ∷ b't' ∷ b'e' ∷ [], 5)
    ∷ []

-- `OpCodeToString`
unfoldable pub op_code_to_string : ℕ → Result TypesError Bytes
op_code_to_string code = text_or unknown_op_code (find_text opcode_texts code)

-- `StringToOpCode`
unfoldable pub string_to_op_code : Bytes → Result TypesError ℕ
string_to_op_code s = code_or unknown_op_code (find_code opcode_codes s)
