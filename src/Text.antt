-- ===== src/Text.antt =====
-- The functions of Go's package strings that the name code calls. On ASCII text they are as below;
-- what they do on other text turns on Unicode tables, and is a parameter.
pub mod Split
pub mod Space
use dnsdata_go.Common.{
  ℕ, ◌+◌, ◌-◌, ◌≡◌, refl, arith, Bool, true, false, ◌&&◌, ◌||◌, List, [], ◌∷◌, ◌++◌, map, reverse,
  ltb, leb, ◌==◌, if◌then◌else◌, Bytes, equal,
}

-- `strings.ToLower`, `strings.ToUpper`, `strings.EqualFold` and `strings.TrimSpace` where an octet above 0x7f occurs.
pub record Unicode : Type 0 where
  pub lower : Bytes → Bytes
  pub upper : Bytes → Bytes
  pub same_fold : Bytes → Bytes → Bool
  pub trim : Bytes → Bytes

unfoldable pub is_ascii : Bytes → Bool
is_ascii [] = true
is_ascii (c ∷ cs) = ltb c 128 && is_ascii cs

unfoldable pub lower_octet : ℕ → ℕ
lower_octet c = if leb b'A' c && leb c b'Z' then c + 32 else c

unfoldable pub upper_octet : ℕ → ℕ
upper_octet c = if leb b'a' c && leb c b'z' then c - 32 else c

unfoldable pub is_space : ℕ → Bool
is_space c = c == b' ' || (leb 9 c && leb c 13)

unfoldable pub drop_spaces : Bytes → Bytes
drop_spaces [] = []
drop_spaces (c ∷ cs) = if is_space c then drop_spaces cs else c ∷ cs

-- `strings.TrimSuffix(name, ".")`
unfoldable pub trim_dot : Bytes → Bytes
trim_dot [] = []
trim_dot (c ∷ []) = if c == b'.' then [] else c ∷ []
trim_dot (c ∷ d ∷ rest) = c ∷ trim_dot (d ∷ rest)

-- An octet in front of the first label.
unfoldable pub extend_first : ℕ → List Bytes → List Bytes
extend_first c [] = (c ∷ []) ∷ []
extend_first c (l ∷ ls) = (c ∷ l) ∷ ls

-- `strings.Split(name, ".")`: the labels, also empty ones.
unfoldable pub split_dots : Bytes → List Bytes
unfolding extend_first
split_dots [] = [] ∷ []
split_dots (c ∷ cs) =
    let rest = split_dots cs in if c == b'.' then [] ∷ rest else extend_first c rest

-- `strings.Join(labels, ".")`
unfoldable pub join_dots : List Bytes → Bytes
join_dots [] = []
join_dots (l ∷ []) = l
join_dots (l ∷ m ∷ ls) = l ++ b'.' ∷ join_dots (m ∷ ls)

-- `slices.Equal` on lists of labels.
unfoldable pub same_labels : List Bytes → List Bytes → Bool
same_labels [] [] = true
same_labels (a ∷ la) (b ∷ lb) = equal a b && same_labels la lb
same_labels _ _ = false

module _ ⦃u : Unicode⦄ where
  -- `strings.ToLower`
  unfoldable pub to_lower : Bytes → Bytes
  unfolding lower_octet
  to_lower s = if is_ascii s then map lower_octet s else u.lower s

  -- `strings.ToUpper`
  unfoldable pub to_upper : Bytes → Bytes
  unfolding upper_octet
  to_upper s = if is_ascii s then map upper_octet s else u.upper s

  -- `strings.EqualFold`
  unfoldable pub equal_fold : Bytes → Bytes → Bool
  unfolding lower_octet
  equal_fold a b =
      if is_ascii a && is_ascii b
      then equal (map lower_octet a) (map lower_octet b)
      else u.same_fold a b

  -- `strings.TrimSpace`
  unfoldable pub trim_space : Bytes → Bytes
  unfolding drop_spaces is_space
  trim_space s = if is_ascii s then reverse (drop_spaces (reverse (drop_spaces s))) else u.trim s
