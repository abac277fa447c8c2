-- ===== src/Zone/Store/Filled.antt =====
-- zone/zone.go: what a zone holds that AddRR filled.
use dnsdata_go.Common.{
  ℕ, ◌≡◌, ◌↔◌, ◌⊎◌, refl, sym, ◌∙◌, ap, arith, Bool, true, false, ◌&&◌, Bool-cases, inl, inr, List,
  [], ◌∷◌, ◌++◌, append_assoc, append-nil, ◌==◌, ==_iff, if◌then◌else◌, Bytes, equal, equal_iff,
}
use mathlib.Core.List.{Memᴰ}
use mathlib.Core.List.Memᴰ
use dnsdata_go.Zone.Store.{RrSetKey, Store, is_key, add_rr, rr_set_in, all_records}

module _ {R : Type 0} where
  Mem-inside :
      (front back : List R) (rr x : R)
      → Memᴰ x ((front ++ rr ∷ []) ++ back) ↔ ((x ≡ rr) ⊎ Memᴰ x (front ++ back))
  Mem-inside front back rr x = (
    λ m. elim (Memᴰ.append_cases (front ++ rr ∷ []) m) [
      | inl i ↦ elim (Memᴰ.append_cases front i) [
        | inl j ↦ inr (Memᴰ.append_left back j)
        | inr j ↦ inl (Memᴰ.eq_of_singleton j)
      ]
      | inr i ↦ inr (Memᴰ.append_right front i)
    ],
    λ c. elim c [
      | inl e ↦ Memᴰ.append_left back (Memᴰ.append_right front (Memᴰ.head e))
      | inr m ↦ elim (Memᴰ.append_cases front m) [
        | inl i ↦ Memᴰ.append_left back (Memᴰ.append_left (rr ∷ []) i)
        | inr i ↦ Memᴰ.append_right (front ++ rr ∷ []) i
      ]
    ],
  )

  Mem-behind :
      (front back more : List R) (rr x : R)
      → Memᴰ x more ↔ ((x ≡ rr) ⊎ Memᴰ x back)
      → Memᴰ x (front ++ more) ↔ ((x ≡ rr) ⊎ Memᴰ x (front ++ back))
  Mem-behind front back more rr x rest = (
    λ m. elim (Memᴰ.append_cases front m) [
      | inl i ↦ inr (Memᴰ.append_left back i)
      | inr i ↦ elim (rest.0 i) [ inl e ↦ inl e | inr j ↦ inr (Memᴰ.append_right front j) ]
    ],
    λ c. elim c [
      | inl e ↦ Memᴰ.append_right front (rest.1 (inl e))
      | inr m ↦ elim (Memᴰ.append_cases front m) [
        | inl i ↦ Memᴰ.append_left more i
        | inr i ↦ Memᴰ.append_right front (rest.1 (inr i))
      ]
    ],
  )

module _ {R : Type 0} (label : R → Bytes) (rr_type : R → ℕ) where
  -- A zone after AddRR of some records, the first of them first.
  abbrev pub fill : Store R → List R → Store R
  fill z [] = z
  fill z (rr ∷ rrs) = fill (add_rr label rr_type z rr) rrs

  -- Whether a record has a name and a type.
  abbrev pub is_at : Bytes → ℕ → R → Bool
  is_at name typ rr = equal (label rr) name && rr_type rr == typ

  -- The records of a list that have a name and a type.
  abbrev pub those_at : Bytes → ℕ → List R → List R
  those_at name typ [] = []
  those_at name typ (rr ∷ rrs) =
      if is_at name typ rr then rr ∷ those_at name typ rrs else those_at name typ rrs

  is_key-is_at :
      (k : RrSetKey) (rr : R) (name : Bytes) (typ : ℕ)
      → is_key k (label rr) (rr_type rr) ≡ true
      → is_key k name typ ≡ is_at name typ rr
  unfolding is_key
  is_key-is_at k rr name typ e =
      let same : equal k.name (label rr) ≡ true = ground (arith, e) in
      let typed : (k.typ == rr_type rr) ≡ true = ground (arith, e) in
      rw ((equal_iff _ _).0 same, (==_iff _ _).0 typed)

  is_at-is_key :
      (k : RrSetKey) (rr : R) (name : Bytes) (typ : ℕ)
      → is_key k name typ ≡ true
      → is_at name typ rr ≡ true
      → is_key k (label rr) (rr_type rr) ≡ true
  unfolding is_key
  is_at-is_key k rr name typ e f =
      let same : equal (label rr) name ≡ true = ground (arith, f) in
      let typed : (rr_type rr == typ) ≡ true = ground (arith, f) in
      rw ((equal_iff _ _).0 same, (==_iff _ _).0 typed) e

  -- The record at its place, when the name and the type asked for are its own.
  abbrev own : Bytes → ℕ → R → List R
  own name typ rr = if is_at name typ rr then rr ∷ [] else []

  found_here :
      (k : RrSetKey) (rrs : List R) (rest : Store R) (rr : R) (name : Bytes) (typ : ℕ)
      → is_key k (label rr) (rr_type rr) ≡ true
      → rr_set_in (add_rr label rr_type ((k, rrs) ∷ rest) rr) name typ
        ≡ rr_set_in ((k, rrs) ∷ rest) name typ ++ own name typ rr
  unfolding add_rr rr_set_in
  found_here k rrs rest rr name typ y =
      let same = is_key-is_at k rr name typ y in
      elim (Bool-cases (is_at name typ rr)) [
        | inl b ↦ rw (y, same, b) refl
        | inr b ↦ rw (y, same, b) (sym (append-nil (rr_set_in rest name typ)))
      ]

  found_later :
      (k : RrSetKey) (rrs : List R) (rest : Store R) (rr : R) (name : Bytes) (typ : ℕ)
      → is_key k (label rr) (rr_type rr) ≡ false
      → rr_set_in (add_rr label rr_type rest rr) name typ
        ≡ rr_set_in rest name typ ++ own name typ rr
      → rr_set_in (add_rr label rr_type ((k, rrs) ∷ rest) rr) name typ
        ≡ rr_set_in ((k, rrs) ∷ rest) name typ ++ own name typ rr
  unfolding add_rr rr_set_in
  found_later k rrs rest rr name typ n later = elim (Bool-cases (is_key k name typ)) [
    | inl y ↦ elim (Bool-cases (is_at name typ rr)) [
      | inl b ↦ let e = is_at-is_key k rr name typ y b in absurd (cc)
      | inr b ↦ rw (n, y, b) (sym (append-nil rrs))
    ]
    | inr m ↦ rw (n, m) later
  ]

  rr_set_in-add_rr :
      (z : Store R) (rr : R) (name : Bytes) (typ : ℕ)
      → rr_set_in (add_rr label rr_type z rr) name typ ≡ rr_set_in z name typ ++ own name typ rr
  unfolding add_rr rr_set_in is_key
  rr_set_in-add_rr [] rr name typ = refl
  rr_set_in-add_rr ((k, rrs) ∷ rest) rr name typ =
      elim (Bool-cases (is_key k (label rr) (rr_type rr))) [
        | inl y ↦ found_here k rrs rest rr name typ y
        | inr n ↦ found_later k rrs rest rr name typ n (rr_set_in-add_rr rest rr name typ)
      ]

  regroup_own :
      (z : Store R) (rr : R) (rrs : List R) (name : Bytes) (typ : ℕ)
      → (rr_set_in z name typ ++ own name typ rr) ++ those_at name typ rrs
        ≡ rr_set_in z name typ ++ those_at name typ (rr ∷ rrs)
  regroup_own z rr rrs name typ = elim (Bool-cases (is_at name typ rr)) [
    | inl b ↦ rw b (append_assoc (rr_set_in z name typ) (rr ∷ []) (those_at name typ rrs))
    | inr b ↦ rw (b, append-nil (rr_set_in z name typ)) refl
  ]

  rr_set_in-fill :
      (z : Store R) (rrs : List R) (name : Bytes) (typ : ℕ)
      → rr_set_in (fill z rrs) name typ ≡ rr_set_in z name typ ++ those_at name typ rrs
  rr_set_in-fill z [] name typ = sym (append-nil (rr_set_in z name typ))
  rr_set_in-fill z (rr ∷ rrs) name typ =
      rr_set_in-fill (add_rr label rr_type z rr) rrs name typ
      ∙ ap (λ xs. xs ++ those_at name typ rrs) (rr_set_in-add_rr z rr name typ)
      ∙ regroup_own z rr rrs name typ

  Mem-add_rr :
      (z : Store R) (rr x : R)
      → Memᴰ x (all_records (add_rr label rr_type z rr)) ↔ ((x ≡ rr) ⊎ Memᴰ x (all_records z))
  unfolding add_rr all_records
  Mem-add_rr [] rr x =
      (λ m. Memᴰ.cases_cons m, λ c. elim c [ inl e ↦ Memᴰ.head e | inr i ↦ Memᴰ.tail i ])
  Mem-add_rr ((k, rrs) ∷ rest) rr x = elim (Bool-cases (is_key k (label rr) (rr_type rr))) [
    | inl y ↦ rw y (Mem-inside rrs (all_records rest) rr x)
    | inr n ↦ rw n (Mem-behind rrs (all_records rest) _ rr x (Mem-add_rr rest rr x))
  ]

  Mem-fill :
      (z : Store R) (rrs : List R) (x : R)
      → Memᴰ x (all_records (fill z rrs)) ↔ (Memᴰ x rrs ⊎ Memᴰ x (all_records z))
  Mem-fill z [] x = (λ m. inr m, λ c. elim c [ inl i ↦ absurd (Memᴰ.not-nil i) | inr i ↦ i ])
  Mem-fill z (rr ∷ rrs) x =
      let rest = Mem-fill (add_rr label rr_type z rr) rrs x in
      let added = Mem-add_rr z rr x in
      (
        λ m. elim (rest.0 m) [
          | inl i ↦ inl (Memᴰ.tail i)
          | inr i ↦ elim (added.0 i) [ inl e ↦ inl (Memᴰ.head e) | inr j ↦ inr j ]
        ],
        λ c. rest.1 (elim c [
          | inl i ↦ elim (Memᴰ.cases_cons i) [ inl e ↦ inr (added.1 (inl e)) | inr j ↦ inl j ]
          | inr i ↦ inr (added.1 (inr i))
        ]),
      )

  -- In a zone that AddRR filled with some records, FindRRSet gives those of a name and a type in
  -- their order, and AllRecords gives the records.
  pub fill_finds :
      (rrs : List R)
      → ((name : Bytes) (typ : ℕ) → rr_set_in (fill [] rrs) name typ ≡ those_at name typ rrs)
        × ((x : R) → Memᴰ x (all_records (fill [] rrs)) ↔ Memᴰ x rrs)
  unfolding rr_set_in all_records
  fill_finds rrs = (
    rr_set_in-fill [] rrs,
    λ x.
        let i = Mem-fill [] rrs x in
        (λ m. elim (i.0 m) [ inl j ↦ j | inr j ↦ absurd (Memᴰ.not-nil j) ], λ m. i.1 (inl m)),
  )
