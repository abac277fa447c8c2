-- ===== src/Types/Algorithm.antt =====
-- types/algorithm.go: the numbers of the signature algorithms.
use dnsdata_go.Common.{ℕ, Bool, List, [], ◌∷◌, Bytes, Result}
use dnsdata_go.Types.Mnemonics.{
  TypesError, unknown_algo, find_text, find_code, is_one_of, text_or, code_or,
}

-- The switch of `AlgorithmToString`.
abbrev pub algorithm_texts : List (ℕ × Bytes)
algorithm_texts =
    (0, b'D' ∷ b'E' ∷ b'L' ∷ b'E' ∷ b'T' ∷ b'E' ∷ [])
    ∷ (1, b'R' ∷ b'S' ∷ b'A' ∷ b'M' ∷ b'D' ∷ b'5' ∷ [])
    ∷ (2, b'D' ∷ b'H' ∷ [])
    ∷ (3, b'D' ∷ b'S' ∷ b'A' ∷ [])
    ∷ (5, b'R' ∷ b'S' ∷ b'A' ∷ b'S' ∷ b'H' ∷ b'A' ∷ b'1' ∷ [])
    ∷ (
      6,
      b'D' ∷ b'S' ∷ b'A' ∷ b'-' ∷ b'N' ∷ b'S' ∷ b'E' ∷ b'C' ∷ b'3' ∷ b'-' ∷ b'S' ∷ b'H' ∷ b'A'
          ∷ b'1' ∷ [],
    )
    ∷ (
      7,
      b'R' ∷ b'S' ∷ b'A' ∷ b'S' ∷ b'H' ∷ b'A' ∷ b'1' ∷ b'-' ∷ b'N' ∷ b'S' ∷ b'E' ∷ b'C' ∷ b'3'
          ∷ b'-' ∷ b'S' ∷ b'H' ∷ b'A' ∷ b'1' ∷ [],
    )
    ∷ (8, b'R' ∷ b'S' ∷ b'A' ∷ b'S' ∷ b'H' ∷ b'A' ∷ b'2' ∷ b'5' ∷ b'6' ∷ [])
    ∷ (10, b'R' ∷ b'S' ∷ b'A' ∷ b'S' ∷ b'H' ∷ b'A' ∷ b'5' ∷ b'1' ∷ b'2' ∷ [])
    ∷ (12, b'E' ∷ b'C' ∷ b'C' ∷ b'-' ∷ b'G' ∷ b'O' ∷ b'S' ∷ b'T' ∷ [])
    ∷ (
      13,
      b'E' ∷ b'C' ∷ b'D' ∷ b'S' ∷ b'A' ∷ b'P' ∷ b'2' ∷ b'5' ∷ b'6' ∷ b'S' ∷ b'H' ∷ b'A' ∷ b'2'
          ∷ b'5' ∷ b'6' ∷ [],
    )
    ∷ (
      14,
      b'E' ∷ b'C' ∷ b'D' ∷ b'S' ∷ b'A' ∷ b'P' ∷ b'3' ∷ b'8' ∷ b'4' ∷ b'S' ∷ b'H' ∷ b'A' ∷ b'3'
          ∷ b'8' ∷ b'4' ∷ [],
    )
    ∷ (15, b'E' ∷ b'D' ∷ b'2' ∷ b'5' ∷ b'5' ∷ b'1' ∷ b'9' ∷ [])
    ∷ (16, b'E' ∷ b'D' ∷ b'4' ∷ b'4' ∷ b'8' ∷ [])
    ∷ (252, b'I' ∷ b'N' ∷ b'D' ∷ b'I' ∷ b'R' ∷ b'E' ∷ b'C' ∷ b'T' ∷ [])
    ∷ (253, b'P' ∷ b'R' ∷ b'I' ∷ b'V' ∷ b'A' ∷ b'T' ∷ b'E' ∷ b'D' ∷ b'N' ∷ b'S' ∷ [])
    ∷ (254, b'P' ∷ b'R' ∷ b'I' ∷ b'V' ∷ b'A' ∷ b'T' ∷ b'E' ∷ b'O' ∷ b'I' ∷ b'D' ∷ [])
    ∷ []

-- The switch of `StringToAlgorithm`.
abbrev pub algorithm_codes : List (Bytes × ℕ)
algorithm_codes =
    (b'D' ∷ b'E' ∷ b'L' ∷ b'E' ∷ b'T' ∷ b'E' ∷ [], 0)
    ∷ (b'R' ∷ b'S' ∷ b'A' ∷ b'M' ∷ b'D' ∷ b'5' ∷ [], 1)
    ∷ (b'D' ∷ b'H' ∷ [], 2)
    ∷ (b'D' ∷ b'S' ∷ b'A' ∷ [], 3)
    ∷ (b'R' ∷ b'S' ∷ b'A' ∷ b'S' ∷ b'H' ∷ b'A' ∷ b'1' ∷ [], 5)
    ∷ (
      b'D' ∷ b'S' ∷ b'A' ∷ b'-' ∷ b'N' ∷ b'S' ∷ b'E' ∷ b'C' ∷ b'3' ∷ b'-' ∷ b'S' ∷ b'H' ∷ b'A'
          ∷ b'1' ∷ [],
      6,
    )
    ∷ (
      b'R' ∷ b'S' ∷ b'A' ∷ b'S' ∷ b'H' ∷ b'A' ∷ b'1' ∷ b'-' ∷ b'N' ∷ b'S' ∷ b'E' ∷ b'C' ∷ b'3'
          ∷ b'-' ∷ b'S' ∷ b'H' ∷ b'A' ∷ b'1' ∷ [],
      7,
    )
    ∷ (b'R' ∷ b'S' ∷ b'A' ∷ b'S' ∷ b'H' ∷ b'A' ∷ b'2' ∷ b'5' ∷ b'6' ∷ [], 8)
    ∷ (b'R' ∷ b'S' ∷ b'A' ∷ b'S' ∷ b'H' ∷ b'A' ∷ b'5' ∷ b'1' ∷ b'2' ∷ [], 10)
    ∷ (b'E' ∷ b'C' ∷ b'C' ∷ b'-' ∷ b'G' ∷ b'O' ∷ b'S' ∷ b'T' ∷ [], 12)
    ∷ (
      b'E' ∷ b'C' ∷ b'D' ∷ b'S' ∷ b'A' ∷ b'P' ∷ b'2' ∷ b'5' ∷ b'6' ∷ b'S' ∷ b'H' ∷ b'A' ∷ b'2'
          ∷ b'5' ∷ b'6' ∷ [],
      13,
    )
    ∷ (
      b'E' ∷ b'C' ∷ b'D' ∷ b'S' ∷ b'A' ∷ b'P' ∷ b'3' ∷ b'8' ∷ b'4' ∷ b'S' ∷ b'H' ∷ b'A' ∷ b'3'
          ∷ b'8' ∷ b'4' ∷ [],
      14,
    )
    ∷ (b'E' ∷ b'D' ∷ b'2' ∷ b'5' ∷ b'5' ∷ b'1' ∷ b'9' ∷ [], 15)
    ∷ (b'E' ∷ b'D' ∷ b'4' ∷ b'4' ∷ b'8' ∷ [], 16)
    ∷ (b'I' ∷ b'N' ∷ b'D' ∷ b'I' ∷ b'R' ∷ b'E' ∷ b'C' ∷ b'T' ∷ [], 252)
    ∷ (b'P' ∷ b'R' ∷ b'I' ∷ b'V' ∷ b'A' ∷ b'T' ∷ b'E' ∷ b'D' ∷ b'N' ∷ b'S' ∷ [], 253)
    ∷ (b'P' ∷ b'R' ∷ b'I' ∷ b'V' ∷ b'A' ∷ b'T' ∷ b'E' ∷ b'O' ∷ b'I' ∷ b'D' ∷ [], 254)
    ∷ []

-- `AlgorithmToString`
unfoldable pub algorithm_to_string : ℕ → Result TypesError Bytes
algorithm_to_string code = text_or unknown_algo (find_text algorithm_texts code)

-- `StringToAlgorithm`
unfoldable pub string_to_algorithm : Bytes → Result TypesError ℕ
string_to_algorithm s = code_or unknown_algo (find_code algorithm_codes s)

-- `AlgorithmSupported`
unfoldable pub algorithm_supported : ℕ → Bool
algorithm_supported a = is_one_of a (5 ∷ 7 ∷ 8 ∷ 10 ∷ 13 ∷ 14 ∷ 15 ∷ [])
