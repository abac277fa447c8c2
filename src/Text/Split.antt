-- ===== src/Text/Split.antt =====
-- `strings.Split` and `strings.Join` undo one another.
use dnsdata_go.Common.{
  ℕ, ◌==◌, ==_iff, Bool-cases, inl, inr, All, ◌++◌, ◌≡◌, ◌≢◌, refl, ap, sym, ◌∙◌, arith, List, [],
  ◌∷◌, Bytes,
}
use dnsdata_go.Text.{extend_first, split_dots, join_dots}

join-extend_first : (c : ℕ) (ls : List Bytes) → join_dots (extend_first c ls) ≡ c ∷ join_dots ls
unfolding join_dots extend_first
join-extend_first c [] = refl
join-extend_first c (l ∷ []) = refl
join-extend_first c (l ∷ m ∷ ls) = refl

extend_first-ne-nil : (c : ℕ) (ls : List Bytes) → extend_first c ls ≢ []
unfolding extend_first
extend_first-ne-nil c [] = λ e. cc
extend_first-ne-nil c (l ∷ ls) = λ e. cc

pub split_dots-ne-nil : (s : Bytes) → split_dots s ≢ []
unfolding split_dots
split_dots-ne-nil [] = λ e. cc
split_dots-ne-nil (c ∷ cs) = λ e. ground (arith, extend_first-ne-nil c (split_dots cs))

join_behind_dot : (ls : List Bytes) → ls ≢ [] → join_dots ([] ∷ ls) ≡ b'.' ∷ join_dots ls
unfolding join_dots
join_behind_dot [] h = absurd (h refl)
join_behind_dot (l ∷ ls) h = refl

pub join-split : (s : Bytes) → join_dots (split_dots s) ≡ s
unfolding split_dots
join-split [] = unfold join_dots in refl
join-split (c ∷ cs) = ground (
  arith,
  join-split cs,
  join-extend_first c (split_dots cs),
  join_behind_dot (split_dots cs) (split_dots-ne-nil cs),
)

-- So two texts with the same labels are the same.
pub split_dots_injective : (a b : Bytes) → split_dots a ≡ split_dots b → a ≡ b
split_dots_injective a b h = sym (join-split a) ∙ ap join_dots h ∙ join-split b

-- The label holds no dot.
abbrev pub HasNoDot : Bytes → Type 0
HasNoDot = All (λ c. c ≢ b'.')

extend_first-HasNoDot :
    (c : ℕ) (ls : List Bytes) → c ≢ b'.' → All HasNoDot ls → All HasNoDot (extend_first c ls)
unfolding extend_first
extend_first-HasNoDot c [] n h = ((n, tt), tt)
extend_first-HasNoDot c (l ∷ ls) n (h, hs) = ((n, h), hs)

pub split_dots-HasNoDot : (s : Bytes) → All HasNoDot (split_dots s)
unfolding split_dots
split_dots-HasNoDot [] = (tt, tt)
split_dots-HasNoDot (c ∷ cs) = elim (Bool-cases (c == b'.')) [
  | inl y ↦ rw (y, split_dots) (tt, split_dots-HasNoDot cs)
  | inr n ↦
      rw (n, split_dots)
        (extend_first-HasNoDot c (split_dots cs) (λ e. cc ((==_iff c b'.').1 e, n))
          (split_dots-HasNoDot cs))
]

split_first : (l rest : Bytes) → HasNoDot l → split_dots (l ++ b'.' ∷ rest) ≡ l ∷ split_dots rest
unfolding split_dots extend_first
split_first [] rest h = refl
split_first (c ∷ cs) rest (h, hs) = ground (arith, split_first cs rest hs)

split_only : (l : Bytes) → HasNoDot l → split_dots l ≡ l ∷ []
unfolding split_dots extend_first
split_only [] h = refl
split_only (c ∷ cs) (h, hs) = ground (arith, split_only cs hs)

-- Labels without dots come back from their text.
pub split-join_dots :
    (l : Bytes) (ls : List Bytes) → All HasNoDot (l ∷ ls) → split_dots (join_dots (l ∷ ls)) ≡ l ∷ ls
unfolding join_dots
split-join_dots l [] (h, hs) = split_only l h
split-join_dots l (m ∷ ls) (h, hs) =
    split_first l (join_dots (m ∷ ls)) h ∙ ap (λ k. l ∷ k) (split-join_dots m ls hs)
