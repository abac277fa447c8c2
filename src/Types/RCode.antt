-- ===== src/Types/RCode.antt =====
-- types/rcode.go: the response codes.
use dnsdata_go.Common.{ℕ, List, [], ◌∷◌, Bytes, Result}
use dnsdata_go.Types.Mnemonics.{TypesError, unknown_r_code, find_text, find_code, text_or, code_or}

-- The switch of `RCodeToString`.
abbrev pub rcode_texts : List (ℕ × Bytes)
rcode_texts =
    (0, b'N' ∷ b'O' ∷ b'E' ∷ b'R' ∷ b'R' ∷ b'O' ∷ b'R' ∷ [])
    ∷ (1, b'F' ∷ b'O' ∷ b'R' ∷ b'M' ∷ b'E' ∷ b'R' ∷ b'R' ∷ [])
    ∷ (2, b'S' ∷ b'E' ∷ b'R' ∷ b'V' ∷ b'F' ∷ b'A' ∷ b'I' ∷ b'L' ∷ [])
    ∷ (3, b'N' ∷ b'X' ∷ b'D' ∷ b'O' ∷ b'M' ∷ b'A' ∷ b'I' ∷ b'N' ∷ [])
    ∷ (4, b'N' ∷ b'O' ∷ b'T' ∷ b'I' ∷ b'M' ∷ b'P' ∷ b'L' ∷ [])
    ∷ (5, b'R' ∷ b'E' ∷ b'F' ∷ b'U' ∷ b'S' ∷ b'E' ∷ b'D' ∷ [])
    ∷ (6, b'Y' ∷ b'X' ∷ b'D' ∷ b'O' ∷ b'M' ∷ b'A' ∷ b'I' ∷ b'N' ∷ [])
    ∷ (7, b'Y' ∷ b'X' ∷ b'R' ∷ b'R' ∷ b'S' ∷ b'E' ∷ b'T' ∷ [])
    ∷ (8, b'N' ∷ b'X' ∷ b'R' ∷ b'R' ∷ b'S' ∷ b'E' ∷ b'T' ∷ [])
    ∷ (9, b'N' ∷ b'O' ∷ b'T' ∷ b'A' ∷ b'U' ∷ b'T' ∷ b'H' ∷ [])
    ∷ (10, b'N' ∷ b'O' ∷ b'T' ∷ b'Z' ∷ b'O' ∷ b'N' ∷ b'E' ∷ [])
    ∷ (16, b'B' ∷ b'A' ∷ b'D' ∷ b'V' ∷ b'E' ∷ b'R' ∷ b'S' ∷ b'/' ∷ b'S' ∷ b'I' ∷ b'G' ∷ [])
    ∷ (17, b'B' ∷ b'A' ∷ b'D' ∷ b'K' ∷ b'E' ∷ b'Y' ∷ [])
    ∷ (18, b'B' ∷ b'A' ∷ b'D' ∷ b'T' ∷ b'I' ∷ b'M' ∷ b'E' ∷ [])
    ∷ []

-- The switch of `StringToRCode`.
abbrev pub rcode_codes : List (Bytes × ℕ)
rcode_codes =
    (b'N' ∷ b'O' ∷ b'E' ∷ b'R' ∷ b'R' ∷ b'O' ∷ b'R' ∷ [], 0)
    ∷ (b'F' ∷ b'O' ∷ b'R' ∷ b'M' ∷ b'E' ∷ b'R' ∷ b'R' ∷ [], 1)
    ∷ (b'S' ∷ b'E' ∷ b'R' ∷ b'V' ∷ b'F' ∷ b'A' ∷ b'I' ∷ b'L' ∷ [], 2)
    ∷ (b'N' ∷ b'X' ∷ b'D' ∷ b'O' ∷ b'M' ∷ b'A' ∷ b'I' ∷ b'N' ∷ [], 3)
    ∷ (b'N' ∷ b'O' ∷ b'T' ∷ b'I' ∷ b'M' ∷ b'P' ∷ b'L' ∷ [], 4)
    ∷ (b'R' ∷ b'E' ∷ b'F' ∷ b'U' ∷ b'S' ∷ b'E' ∷ b'D' ∷ [], 5)
    ∷ (b'Y' ∷ b'X' ∷ b'D' ∷ b'O' ∷ b'M' ∷ b'A' ∷ b'I' ∷ b'N' ∷ [], 6)
    ∷ (b'Y' ∷ b'X' ∷ b'R' ∷ b'R' ∷ b'S' ∷ b'E' ∷ b'T' ∷ [], 7)
    ∷ (b'N' ∷ b'X' ∷ b'R' ∷ b'R' ∷ b'S' ∷ b'E' ∷ b'T' ∷ [], 8)
    ∷ (b'N' ∷ b'O' ∷ b'T' ∷ b'A' ∷ b'U' ∷ b'T' ∷ b'H' ∷ [], 9)
    ∷ (b'N' ∷ b'O' ∷ b'T' ∷ b'Z' ∷ b'O' ∷ b'N' ∷ b'E' ∷ [], 10)
    ∷ (b'B' ∷ b'A' ∷ b'D' ∷ b'V' ∷ b'E' ∷ b'R' ∷ b'S' ∷ b'/' ∷ b'S' ∷ b'I' ∷ b'G' ∷ [], 16)
    ∷ (b'B' ∷ b'A' ∷ b'D' ∷ b'K' ∷ b'E' ∷ b'Y' ∷ [], 17)
    ∷ (b'B' ∷ b'A' ∷ b'D' ∷ b'T' ∷ b'I' ∷ b'M' ∷ b'E' ∷ [], 18)
    ∷ []

-- `RCodeToString`
unfoldable pub rcode_to_string : ℕ → Result TypesError Bytes
rcode_to_string code = text_or unknown_r_code (find_text rcode_texts code)

-- `StringToRCode`
unfoldable pub string_to_rcode : Bytes → Result TypesError ℕ
string_to_rcode s = code_or unknown_r_code (find_code rcode_codes s)
