-- ===== src/Types/Mnemonics.antt =====
-- The switches of the package types as tables, and its errors (types/errors.go).
use dnsdata_go.Common.{
  ℕ, ◌≡◌, ◌↔◌, refl, sym, ap, arith, Bool, true, false, ◌&&◌, ◌||◌, Bool-cases, inl, inr, List, [],
  ◌∷◌, Option, none, some, ◌==◌, ==_iff, if◌then◌else◌, Bytes, equal, equal_iff, Result, ok, err,
}

pub data TypesError : Type 0 where
  unknown_op_code unknown_r_code unknown_rr_type unknown_rr_class unknown_algo : TypesError

-- A switch on a code that returns a text, and one on a text that returns a code.
unfoldable pub find_text : List (ℕ × Bytes) → ℕ → Option Bytes
find_text [] code = none
find_text ((c, s) ∷ rest) code =
    let later = find_text rest code in if code == c then some s else later

unfoldable pub find_code : List (Bytes × ℕ) → Bytes → Option ℕ
find_code [] text = none
find_code ((s, c) ∷ rest) text =
    let later = find_code rest text in if equal text s then some c else later

-- A switch whose cases return true.
unfoldable pub is_one_of : ℕ → List ℕ → Bool
is_one_of code [] = false
is_one_of code (c ∷ cs) = code == c || is_one_of code cs

-- The error behind a switch.
abbrev pub text_or : TypesError → Option Bytes → Result TypesError Bytes
text_or e none = err e
text_or e (some s) = ok s

abbrev pub code_or : TypesError → Option ℕ → Result TypesError ℕ
code_or e none = err e
code_or e (some c) = ok c

abbrev is_code : ℕ → Option ℕ → Bool
is_code c none = false
is_code c (some d) = d == c

abbrev is_text : Bytes → Option Bytes → Bool
is_text s none = false
is_text s (some t) = equal t s

-- Each text of one table leads back to its code in the other, and each code to its text.
abbrev pub texts_found : List (Bytes × ℕ) → List (ℕ × Bytes) → Bool
texts_found codes [] = true
texts_found codes ((c, s) ∷ rest) = is_code c (find_code codes s) && texts_found codes rest

abbrev pub codes_found : List (ℕ × Bytes) → List (Bytes × ℕ) → Bool
codes_found texts [] = true
codes_found texts ((s, c) ∷ rest) = is_text s (find_text texts c) && codes_found texts rest

is_code_lem : (c : ℕ) (o : Option ℕ) → is_code c o ≡ true → o ≡ some c
is_code_lem c none e = absurd (cc)
is_code_lem c (some d) e = ap some ((==_iff d c).0 e)

is_text_lem : (s : Bytes) (o : Option Bytes) → is_text s o ≡ true → o ≡ some s
is_text_lem s none e = absurd (cc)
is_text_lem s (some t) e = ap some ((equal_iff t s).0 e)

pub code_of_text :
    (codes : List (Bytes × ℕ)) (texts : List (ℕ × Bytes)) (code : ℕ) (s : Bytes)
    → texts_found codes texts ≡ true
    → find_text texts code ≡ some s
    → find_code codes s ≡ some code
unfolding find_text
code_of_text codes [] code s good found = absurd (cc)
code_of_text codes ((c, t) ∷ rest) code s good found =
    let first : is_code c (find_code codes t) ≡ true = ground (arith, good) in
    let others : texts_found codes rest ≡ true = ground (arith, good) in
    elim (Bool-cases (code == c)) [
      | inl y ↦
          let e : code ≡ c = (==_iff code c).0 y in
          let f : t ≡ s = ground (arith, y, found) in
          rw (sym f, e) (is_code_lem c (find_code codes t) first)
      | inr n ↦ code_of_text codes rest code s others (ground (arith, n, found))
    ]

text_of_code :
    (texts : List (ℕ × Bytes)) (codes : List (Bytes × ℕ)) (code : ℕ) (s : Bytes)
    → codes_found texts codes ≡ true
    → find_code codes s ≡ some code
    → find_text texts code ≡ some s
unfolding find_code
text_of_code texts [] code s good found = absurd (cc)
text_of_code texts ((t, c) ∷ rest) code s good found =
    let first : is_text t (find_text texts c) ≡ true = ground (arith, good) in
    let others : codes_found texts rest ≡ true = ground (arith, good) in
    elim (Bool-cases (equal s t)) [
      | inl y ↦
          let e : s ≡ t = (equal_iff s t).0 y in
          let f : c ≡ code = ground (arith, y, found) in
          rw (sym f, e) (is_text_lem t (find_text texts c) first)
      | inr n ↦ text_of_code texts rest code s others (ground (arith, n, found))
    ]

text_or_found : (e : TypesError) (o : Option Bytes) (s : Bytes) → text_or e o ≡ ok s → o ≡ some s
text_or_found e none s p = absurd (cc)
text_or_found e (some t) s p = cc

code_or_found : (e : TypesError) (o : Option ℕ) (c : ℕ) → code_or e o ≡ ok c → o ≡ some c
code_or_found e none c p = absurd (cc)
code_or_found e (some d) c p = cc

-- Two tables that lead back to each other are inverse.
pub tables_inverse :
    (texts : List (ℕ × Bytes)) (codes : List (Bytes × ℕ))
    → texts_found codes texts ≡ true
    → codes_found texts codes ≡ true
    → (e f : TypesError) (code : ℕ) (s : Bytes)
    → (text_or e (find_text texts code) ≡ ok s) ↔ (code_or f (find_code codes s) ≡ ok code)
tables_inverse texts codes good back e f code s = (
  λ p. rw (code_of_text codes texts code s good (text_or_found e _ s p)) refl,
  λ p. rw (text_of_code texts codes code s back (code_or_found f _ code p)) refl,
)
