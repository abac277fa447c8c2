-- ===== src/Types/RoundTrip.antt =====
-- The package types: reading a mnemonic gives the code that it was written for.
use dnsdata_go.Common.{
  ℕ, ◌^◌, ◌<◌, ◌≡◌, ◌↔◌, refl, subst, ap, ◌∙◌, arith, Bool, true, false, ◌&&◌, Bool-cases,
  Option-cases, inl, inr, List, [], ◌∷◌, ◌++◌, Option, none, some, ◌==◌, Bytes, ok, equal,
}
use dnsdata_go.Text.{Unicode, equal_fold, is_ascii, lower_octet}
use dnsdata_go.Types.Mnemonics.{
  unknown_algo, unknown_r_code, unknown_op_code, find_text, find_code, texts_found, code_of_text,
  tables_inverse,
}
use dnsdata_go.Types.Decimal.{
  generic_type_prefix, generic_class_prefix, format_uint, parse_uint, parse_digits,
  parse_generic_mnemonic, generic_type_read, generic_class_read,
}
use dnsdata_go.Types.RrType.{
  rr_type_texts, rr_type_codes, rr_type_to_string, rr_type_name, string_to_rr_type,
}
use dnsdata_go.Types.RrClass.{
  rr_class_texts, rr_class_codes, rr_class_to_string, rr_class_name, string_to_rr_class,
}
use dnsdata_go.Types.Algorithm.{
  algorithm_to_string, string_to_algorithm, algorithm_texts, algorithm_codes,
}
use dnsdata_go.Types.RCode.{rcode_to_string, string_to_rcode, rcode_texts, rcode_codes}
use dnsdata_go.Types.OpCode.{op_code_to_string, string_to_op_code, opcode_texts, opcode_codes}

abbrev is_none : Option ℕ → Bool
is_none none = true
is_none (some n) = false

is_none_lem : (o : Option ℕ) → is_none o ≡ true → o ≡ none
is_none_lem none e = refl
is_none_lem (some n) e = absurd (cc)

module _ ⦃u : Unicode⦄ where
  -- No text of a table has the generic form.
  plain_texts : Bytes → List (ℕ × Bytes) → Bool
  plain_texts prefix [] = true
  plain_texts prefix ((c, s) ∷ rest) =
      is_none (parse_generic_mnemonic s prefix) && plain_texts prefix rest

  plain_text :
      (prefix : Bytes) (texts : List (ℕ × Bytes)) (code : ℕ) (s : Bytes)
      → plain_texts prefix texts ≡ true
      → find_text texts code ≡ some s
      → parse_generic_mnemonic s prefix ≡ none
  unfolding plain_texts find_text
  plain_text prefix [] code s plain found = absurd (cc)
  plain_text prefix ((c, t) ∷ rest) code s plain found =
      let first : is_none (parse_generic_mnemonic t prefix) ≡ true = ground (arith, plain) in
      let others : plain_texts prefix rest ≡ true = ground (arith, plain) in
      elim (Bool-cases (code == c)) [
        | inl y ↦
            let f : t ≡ s = ground (arith, y, found) in
            is_none_lem _ (subst (λ x. is_none (parse_generic_mnemonic x prefix) ≡ true) f first)
        | inr n ↦ plain_text prefix rest code s others (ground (arith, n, found))
      ]

  types_plain : plain_texts generic_type_prefix rr_type_texts ≡ true
  unfolding plain_texts parse_generic_mnemonic equal_fold is_ascii equal lower_octet parse_uint
      parse_digits
  types_plain = refl

  classes_plain : plain_texts generic_class_prefix rr_class_texts ≡ true
  unfolding plain_texts parse_generic_mnemonic equal_fold is_ascii equal lower_octet parse_uint
      parse_digits
  classes_plain = refl

types_good : texts_found rr_type_codes rr_type_texts ≡ true
unfolding find_code equal
types_good = refl

classes_good : texts_found rr_class_codes rr_class_texts ≡ true
unfolding find_code equal
classes_good = refl

rr_type_name_unlisted :
    (code : ℕ)
    → find_text rr_type_texts code ≡ none
    → rr_type_name code ≡ generic_type_prefix ++ format_uint code
unfolding rr_type_name rr_type_to_string
rr_type_name_unlisted code e = ground (arith, e)

rr_type_name_listed :
    (code : ℕ) (s : Bytes) → find_text rr_type_texts code ≡ some s → rr_type_name code ≡ s
unfolding rr_type_name rr_type_to_string
rr_type_name_listed code s e = ground (arith, e)

rr_class_name_unlisted :
    (code : ℕ)
    → find_text rr_class_texts code ≡ none
    → rr_class_name code ≡ generic_class_prefix ++ format_uint code
unfolding rr_class_name rr_class_to_string
rr_class_name_unlisted code e = ground (arith, e)

rr_class_name_listed :
    (code : ℕ) (s : Bytes) → find_text rr_class_texts code ≡ some s → rr_class_name code ≡ s
unfolding rr_class_name rr_class_to_string
rr_class_name_listed code s e = ground (arith, e)

module _ ⦃u : Unicode⦄ where
  string_to_rr_type_generic :
      (s : Bytes) (code : ℕ)
      → parse_generic_mnemonic s generic_type_prefix ≡ some code
      → string_to_rr_type s ≡ ok code
  unfolding string_to_rr_type
  string_to_rr_type_generic s code e = ground (arith, e)

  string_to_rr_type_plain :
      (s : Bytes) (code : ℕ)
      → parse_generic_mnemonic s generic_type_prefix ≡ none
      → find_code rr_type_codes s ≡ some code
      → string_to_rr_type s ≡ ok code
  unfolding string_to_rr_type
  string_to_rr_type_plain s code e f = ground (arith, e, f)

  string_to_rr_type-rr_type_name :
      (code : ℕ) → code < 2 ^ 16 → string_to_rr_type (rr_type_name code) ≡ ok code
  string_to_rr_type-rr_type_name code low = elim (Option-cases (find_text rr_type_texts code)) [
    | inl e ↦
        ap string_to_rr_type (rr_type_name_unlisted code e)
        ∙ string_to_rr_type_generic _ code (generic_type_read code low)
    | inr (s, e) ↦
        ap string_to_rr_type (rr_type_name_listed code s e)
        ∙ string_to_rr_type_plain s code
            (plain_text generic_type_prefix rr_type_texts code s types_plain e)
            (code_of_text rr_type_codes rr_type_texts code s types_good e)
  ]

  string_to_rr_class_generic :
      (s : Bytes) (code : ℕ)
      → parse_generic_mnemonic s generic_class_prefix ≡ some code
      → string_to_rr_class s ≡ ok code
  unfolding string_to_rr_class
  string_to_rr_class_generic s code e = ground (arith, e)

  string_to_rr_class_plain :
      (s : Bytes) (code : ℕ)
      → parse_generic_mnemonic s generic_class_prefix ≡ none
      → find_code rr_class_codes s ≡ some code
      → string_to_rr_class s ≡ ok code
  unfolding string_to_rr_class
  string_to_rr_class_plain s code e f = ground (arith, e, f)

  string_to_rr_class-rr_class_name :
      (code : ℕ) → code < 2 ^ 16 → string_to_rr_class (rr_class_name code) ≡ ok code
  string_to_rr_class-rr_class_name code low = elim (Option-cases (find_text rr_class_texts code)) [
    | inl e ↦
        ap string_to_rr_class (rr_class_name_unlisted code e)
        ∙ string_to_rr_class_generic _ code (generic_class_read code low)
    | inr (s, e) ↦
        ap string_to_rr_class (rr_class_name_listed code s e)
        ∙ string_to_rr_class_plain s code
            (plain_text generic_class_prefix rr_class_texts code s classes_plain e)
            (code_of_text rr_class_codes rr_class_texts code s classes_good e)
  ]

mnemonics_inverse :
    (code : ℕ) (s : Bytes)
    → ((algorithm_to_string code ≡ ok s) ↔ (string_to_algorithm s ≡ ok code))
      × ((rcode_to_string code ≡ ok s) ↔ (string_to_rcode s ≡ ok code))
      × ((op_code_to_string code ≡ ok s) ↔ (string_to_op_code s ≡ ok code))
unfolding algorithm_to_string string_to_algorithm rcode_to_string string_to_rcode op_code_to_string
    string_to_op_code find_text find_code equal
mnemonics_inverse code s = (
  tables_inverse algorithm_texts algorithm_codes refl refl unknown_algo unknown_algo code s,
  tables_inverse rcode_texts rcode_codes refl refl unknown_r_code unknown_r_code code s,
  tables_inverse opcode_texts opcode_codes refl refl unknown_op_code unknown_op_code code s,
)

-- For every number of 16 bits, StringToRRType reads the name that RRTypeName gives, and
-- StringToRRClass the name that RRClassName gives; for algorithms, response codes and operation
-- codes, the number has a text exactly when the text reads as the number.
pub names_read :
    ⦃u : Unicode⦄
    → (code : ℕ) → code < 2 ^ 16
    → (string_to_rr_type (rr_type_name code) ≡ ok code)
      × (string_to_rr_class (rr_class_name code) ≡ ok code)
      × ((s : Bytes)
          → ((algorithm_to_string code ≡ ok s) ↔ (string_to_algorithm s ≡ ok code))
            × ((rcode_to_string code ≡ ok s) ↔ (string_to_rcode s ≡ ok code))
            × ((op_code_to_string code ≡ ok s) ↔ (string_to_op_code s ≡ ok code)))
names_read code low = (
  string_to_rr_type-rr_type_name code low,
  string_to_rr_class-rr_class_name code low,
  mnemonics_inverse code,
)
