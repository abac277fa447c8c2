-- ===== src/Types/Decimal.antt =====
-- types/rfc3597.go: the generic mnemonics, with strconv.FormatUint and strconv.ParseUint in base 10.
use dnsdata_go.Common.{
  ℕ, zero, suc, ◌+◌, ◌-◌, ◌*◌, ◌/◌, ◌%◌, ◌^◌, ◌<◌, ◌≡◌, refl, ap, ◌∙◌, arith, true, false, not,
  ◌&&◌, ◌||◌, Bool-cases, inl, inr, [], ◌∷◌, ◌++◌, Option, none, some, ltb, leb, if◌then◌else◌,
  length, take, drop, Bytes, equal,
}
use dnsdata_go.Text.{Unicode, equal_fold, is_ascii, lower_octet}

-- The decimal digits of a number, with the number of digits at most.
unfoldable pub format_digits : ℕ → ℕ → Bytes
format_digits zero n = []
format_digits (suc room) n =
    let rest = format_digits room (n / 10) in
    if ltb n 10 then (48 + n) ∷ [] else rest ++ (48 + n % 10) ∷ []

-- `strconv.FormatUint(n, 10)`; a number of 16 bits has at most five digits.
unfoldable pub format_uint : ℕ → Bytes
unfolding format_digits
format_uint n = format_digits 5 n

-- The loop of `strconv.ParseUint` for 16 bits; every error is none.
unfoldable pub parse_digits : ℕ → Bytes → Option ℕ
parse_digits value [] = some value
parse_digits value (c ∷ cs) =
    let next = value * 10 + (c - 48) in
    let rest = parse_digits next cs in
    if not (leb 48 c && leb c 57) then none else if leb (2 ^ 16) next then none else rest

-- `strconv.ParseUint(s, 10, 16)`
unfoldable pub parse_uint : Bytes → Option ℕ
unfolding parse_digits
parse_uint [] = none
parse_uint (c ∷ cs) = parse_digits 0 (c ∷ cs)

abbrev pub generic_type_prefix : Bytes
generic_type_prefix = b'T' ∷ b'Y' ∷ b'P' ∷ b'E' ∷ []

abbrev pub generic_class_prefix : Bytes
generic_class_prefix = b'C' ∷ b'L' ∷ b'A' ∷ b'S' ∷ b'S' ∷ []

module _ ⦃u : Unicode⦄ where
  -- `parseGenericMnemonic`
  unfoldable pub parse_generic_mnemonic : Bytes → Bytes → Option ℕ
  unfolding parse_uint
  parse_generic_mnemonic s prefix =
      if leb (length s) (length prefix) || not (equal_fold (take (length prefix) s) prefix)
      then none
      else parse_uint (drop (length prefix) s)

parse_digits-append :
    (value : ℕ) (xs : Bytes) (d next : ℕ)
    → parse_digits value xs ≡ some next
    → d < 10
    → next * 10 + d < 2 ^ 16
    → parse_digits value (xs ++ (48 + d) ∷ []) ≡ some (next * 10 + d)
unfolding parse_digits
parse_digits-append value [] d next e small low = ground arith
parse_digits-append value (x ∷ xs) d next e small low =
    let rest = parse_digits-append (value * 10 + (x - 48)) xs d next in ground (arith, rest)

-- Reading the digits of a number gives it.
pub parse_digits-format_digits :
    (room n : ℕ) → n < 10 ^ room → n < 2 ^ 16 → parse_digits 0 (format_digits room n) ≡ some n
unfolding format_digits parse_digits
parse_digits-format_digits zero n fits low = ap some (omega arith)
parse_digits-format_digits (suc room) n fits low = elim (Bool-cases (ltb n 10)) [
  | inl y ↦ rw y (ground arith)
  | inr m ↦
      let rest = parse_digits-format_digits room (n / 10) (omega arith) (omega arith) in
      let last =
        parse_digits-append 0 (format_digits room (n / 10)) (n % 10) (n / 10) rest (omega arith)
          (omega arith) in
      let whole : n / 10 * 10 + n % 10 ≡ n = omega arith in rw m (rw whole at last)
]

append-cons : (xs : Bytes) (d : ℕ) → (c : ℕ) × (cs : Bytes) × (xs ++ d ∷ [] ≡ c ∷ cs)
append-cons [] d = (d, [], refl)
append-cons (x ∷ xs) d = (x, xs ++ d ∷ [], refl)

format_digits-cons : (room n : ℕ) → (c : ℕ) × (cs : Bytes) × (format_digits (suc room) n ≡ c ∷ cs)
unfolding format_digits
format_digits-cons room n = elim (Bool-cases (ltb n 10)) [
  | inl y ↦ (48 + n, [], rw y refl)
  | inr m ↦
      let (c, cs, e) = append-cons (format_digits room (n / 10)) (48 + n % 10) in (c, cs, rw m e)
]

parse_digits-format_uint : (n : ℕ) → n < 2 ^ 16 → parse_digits 0 (format_uint n) ≡ some n
unfolding format_uint
parse_digits-format_uint n low = parse_digits-format_digits 5 n (omega arith) low

format_uint-cons : (n : ℕ) → (c : ℕ) × (cs : Bytes) × (format_uint n ≡ c ∷ cs)
unfolding format_uint
format_uint-cons n = format_digits-cons 4 n

-- Reading what was written gives the number.
parse_uint-format_uint : (n : ℕ) → n < 2 ^ 16 → parse_uint (format_uint n) ≡ some n
unfolding parse_uint
parse_uint-format_uint n low =
    let (c, cs, e) = format_uint-cons n in rw e (rw e at (parse_digits-format_uint n low))

module _ ⦃u : Unicode⦄ where
  parse_generic_long :
      (prefix rest : Bytes)
      → leb (length (prefix ++ rest)) (length prefix) ≡ false
      → equal_fold (take (length prefix) (prefix ++ rest)) prefix ≡ true
      → parse_generic_mnemonic (prefix ++ rest) prefix
        ≡ parse_uint (drop (length prefix) (prefix ++ rest))
  unfolding parse_generic_mnemonic
  parse_generic_long prefix rest long same = rw (long, same) refl

  -- The generic form of a type or a class is read back.
  pub generic_type_read :
      (n : ℕ)
      → n < 2 ^ 16
      → parse_generic_mnemonic (generic_type_prefix ++ format_uint n) generic_type_prefix ≡ some n
  unfolding equal_fold is_ascii equal lower_octet
  generic_type_read n low =
      let (c, cs, e) = format_uint-cons n in
      parse_generic_long generic_type_prefix (format_uint n) (rw e (ground arith)) refl
      ∙ parse_uint-format_uint n low

  pub generic_class_read :
      (n : ℕ)
      → n < 2 ^ 16
      → parse_generic_mnemonic (generic_class_prefix ++ format_uint n) generic_class_prefix ≡ some n
  unfolding equal_fold is_ascii equal lower_octet
  generic_class_read n low =
      let (c, cs, e) = format_uint-cons n in
      parse_generic_long generic_class_prefix (format_uint n) (rw e (ground arith)) refl
      ∙ parse_uint-format_uint n low
