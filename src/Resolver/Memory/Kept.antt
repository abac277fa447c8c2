-- ===== src/Resolver/Memory/Kept.antt =====
-- What the loops of `rrset`, `withSigs` and `response` keep.
use dnsdata_go.Common.{
  ℕ, ◌≡◌, ◌⊎◌, refl, sym, subst, inl, inr, arith, Bool-cases, true, List, [], ◌∷◌, ◌==◌, ==_iff,
  equal_iff, All,
}
use mathlib.Core.List.{Memᴰ}
use mathlib.Core.List.Memᴰ
use dnsdata_go.Dnssec.Zone.{ZoneRecord}
use dnsdata_go.Resolver.Memory.{AnswerCopy, copy_as, of_type, and_sigs}
use dnsdata_go.Resolver.Memory.Replies.{copies, same_key_as, is_seen_in, unseen}

pub of_type-Mem :
    (rr : ZoneRecord) (t : ℕ) (rrs : List ZoneRecord)
    → Memᴰ rr rrs
    → rr.rr_type ≡ t
    → Memᴰ rr (of_type rrs t)
unfolding of_type
of_type-Mem rr t [] m e = elim m [ ]
of_type-Mem rr t (x ∷ rrs) m e = elim (Memᴰ.cases_cons m) [
  | inl s ↦
      let y : (x.rr_type == t) ≡ true = (==_iff x.rr_type t).1 (subst (λ z. z.rr_type ≡ t) s e) in
      rw (y) (Memᴰ.head s)
  | inr k ↦
      let rest = of_type-Mem rr t rrs k e in
      elim (Bool-cases (x.rr_type == t)) [ inl y ↦ rw (y) (Memᴰ.tail rest) | inr n ↦ rw (n) rest ]
]

pub and_sigs-Mem :
    (rr : ZoneRecord) (t : ℕ) (rrs sigs : List ZoneRecord)
    → Memᴰ rr rrs
    → Memᴰ rr (and_sigs rrs sigs t)
unfolding and_sigs
and_sigs-Mem rr t [] sigs m = elim m [ ]
and_sigs-Mem rr t (x ∷ rrs) sigs m = Memᴰ.append_left _ m

same_key_as_self : (a : AnswerCopy) → same_key_as a a ≡ true
unfolding same_key_as
same_key_as_self a =
    ground (arith, (equal_iff a.label a.label).1 refl, (equal_iff a.value a.value).1 refl)

-- A record that `response` drops has the key of one that it keeps.
pub unseen-Mem :
    (seen records : List AnswerCopy) (a : AnswerCopy)
    → Memᴰ a records
    → (is_seen_in a seen ≡ true)
      ⊎ ((b : AnswerCopy) × Memᴰ b (unseen seen records) × (same_key_as a b ≡ true))
unfolding unseen is_seen_in
unseen-Mem seen [] a m = elim m [ ]
unseen-Mem seen (x ∷ records) a m = elim (Bool-cases (is_seen_in x seen)) [
  | inl y ↦ elim (Memᴰ.cases_cons m) [
    | inl e ↦ inl (subst (λ z. is_seen_in z seen ≡ true) (sym e) y)
    | inr k ↦ rw (y) (unseen-Mem seen records a k)
  ]
  | inr n ↦ elim (Memᴰ.cases_cons m) [
    | inl e ↦
        rw (n) (
          inr (x, Memᴰ.head refl, subst (λ z. same_key_as z x ≡ true) (sym e) (same_key_as_self x)))
    | inr k ↦ elim (unseen-Mem (x ∷ seen) records a k) [
      | inr (b, l, s) ↦ rw (n) (inr (b, Memᴰ.tail l, s))
      | inl s ↦ elim (Bool-cases (same_key_as a x)) [
        | inl y ↦ rw (n) (inr (x, Memᴰ.head refl, y))
        | inr d ↦ inl (ground (arith, s, d))
      ]
    ]
  ]
]

pub copies-Mem :
    (rr : ZoneRecord) (rrs : List ZoneRecord)
    → Memᴰ rr rrs
    → Memᴰ (copy_as rr rr.label) (copies rrs)
copies-Mem rr rrs m = Memᴰ.map (λ x. copy_as x x.label) m

pub All-Mem : {A : Type 0} (P : A → Type 0) (xs : List A) → All P xs → (x : A) → Memᴰ x xs → P x
All-Mem P [] h x m = elim m [ ]
All-Mem P (y ∷ xs) (i, h) x m = elim (Memᴰ.cases_cons m) [
  | inl e ↦ subst P (sym e) i
  | inr k ↦ All-Mem P xs h x k
]
