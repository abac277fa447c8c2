-- ===== src/Resolver/Memory/Served.antt =====
-- The records of an index are those of the zone it was built from.
use dnsdata_go.Common.{
  Result-cases, refl, ap, ◌∙◌, equal_iff, ◌||◌, ℕ, ◌≡◌, ◌⊎◌, sym, subst, inl, inr, Bool-cases, not,
  List, [], ◌∷◌, Bytes, equal, ok, All,
}
use mathlib.Core.List.{Memᴰ}
use mathlib.Core.List.Memᴰ
use dnsdata_go.Text.{Unicode}
use dnsdata_go.Types.{type_dname}
use dnsdata_go.Dnssec.Zone.{ZoneRecord}
use dnsdata_go.Resolver.Memory.{
  AnswerCopy, ZoneIndex, wildcard_of_name, closest_encloser, encloser_in, is_among, parents,
  normalize, records_at, is_at_or_below,
}
use dnsdata_go.Verifier.Names.{root_name}
use dnsdata_go.Resolver.Memory.Suffixes.{EndsWith, root-EndsWith, parents-EndsWith}
use dnsdata_go.Resolver.Memory.Added.{add_typed-by_name, add_typed-AddedAs}
use dnsdata_go.Resolver.Memory.Index.{
  append_record, with_owner, add_to_index, index_records, new_zone_index, empty_zone,
}
use dnsdata_go.Resolver.Memory.Replies.{answer}
use dnsdata_go.Resolver.Memory.Origins.{IsIn}
use dnsdata_go.Resolver.Memory.Copied.{IsCopy, IsRedirected, IsFrom}
use dnsdata_go.Resolver.Memory.Answered.{answer-IsFrom}

append_record-Mem :
    (names : List (Bytes × List ZoneRecord)) (owner name : Bytes) (rr x : ZoneRecord)
    → Memᴰ x (records_at (append_record names owner rr) name)
    → Memᴰ x (records_at names name) ⊎ ((x ≡ rr) × (owner ≡ name))
unfolding append_record records_at
append_record-Mem [] owner name rr x m = elim (Bool-cases (equal owner name)) [
  | inl y ↦ elim (Memᴰ.cases_cons (rw (y) at m)) [
    | inl e ↦ inr (e, (equal_iff owner name).0 y)
    | inr n ↦ elim n [ ]
  ]
  | inr n ↦ absurd (Memᴰ.not-nil (rw (n) at m))
]
append_record-Mem ((n, rrs) ∷ rest) owner name rr x m =
    let later = append_record-Mem rest owner name rr x in
    elim (Bool-cases (equal n owner)) [
      | inl y ↦
          let k = rw (y) at m in
          elim (Bool-cases (equal n name)) [
            | inl z ↦ elim (Memᴰ.append_cases rrs (rw (z) at k)) [
              | inl i ↦ rw (z) (inl i)
              | inr i ↦ elim (Memᴰ.cases_cons i) [
                | inl e ↦
                    let a = (equal_iff n owner).0 y in
                    let b = (equal_iff n name).0 z in inr (e, sym a ∙ b)
                | inr none_left ↦ elim none_left [ ]
              ]
            ]
            | inr d ↦ (let l = rw (d) at k in rw (d) (inl l))
          ]
      | inr d ↦
          let k = rw (d) at m in
          elim (Bool-cases (equal n name)) [
            | inl z ↦ (let l = rw (z) at k in rw (z) (inl l))
            | inr w ↦ (let l = rw (w) at k in rw (w) (later l))
          ]
    ]

module _ ⦃u : Unicode⦄ where
  add_to_index-Mem :
      (idx out : ZoneIndex) (rr x : ZoneRecord) (name : Bytes)
      → add_to_index idx rr ≡ ok out
      → Memᴰ x (records_at out.by_name name)
      → Memᴰ x (records_at idx.by_name name) ⊎ ((x ≡ rr) × (normalize rr.label ≡ name))
  unfolding add_to_index with_owner
  add_to_index-Mem idx out rr x name e m =
      let owner = normalize rr.label in
      elim (Bool-cases (not (is_at_or_below owner idx.apex))) [
        | inl y ↦ let k = rw (y) at e in cc
        | inr n ↦
            let k = rw (n) at e in
            let same =
              add_typed-by_name (with_owner idx owner rr) out owner rr.rr_type rr.handler
                (add_typed-AddedAs (with_owner idx owner rr) out owner rr.rr_type rr.handler k) in
            let there = subst (λ names. Memᴰ x (records_at names name)) same m in
            append_record-Mem idx.by_name owner name rr x there
      ]

  index_records-Mem :
      (rrs : List ZoneRecord) (idx out : ZoneIndex) (x : ZoneRecord) (name : Bytes)
      → index_records rrs idx ≡ ok out
      → Memᴰ x (records_at out.by_name name)
      → Memᴰ x (records_at idx.by_name name) ⊎ (Memᴰ x rrs × (normalize x.label ≡ name))
  unfolding index_records
  index_records-Mem [] idx out x name e m =
      let same : idx ≡ out = cc in
      inl (subst (λ (z : ZoneIndex). Memᴰ x (records_at z.by_name name)) (sym same) m)
  index_records-Mem (rr ∷ rrs) idx out x name e m = elim (Result-cases (add_to_index idx rr)) [
    | inr (f, y) ↦ let k = rw (y) at e in cc
    | inl (next, y) ↦
        let k = rw (y) at e in
        elim (index_records-Mem rrs next out x name k m) [
          | inl j ↦ elim (add_to_index-Mem idx next rr x name y j) [
            | inl l ↦ inl l
            | inr (l, at_name) ↦
                inr (Memᴰ.head l, ap (λ (z : ZoneRecord). normalize z.label) l ∙ at_name)
          ]
          | inr (j, at_name) ↦ inr (Memᴰ.tail j, at_name)
        ]
  ]

  -- The records that an index has at a name are records of its zone with this name.
  index_at-Mem :
      (apex : Bytes) (records : List ZoneRecord) (idx : ZoneIndex) (rr : ZoneRecord) (name : Bytes)
      → new_zone_index apex records ≡ ok idx
      → Memᴰ rr (records_at idx.by_name name)
      → Memᴰ rr records × (normalize rr.label ≡ name)
  unfolding new_zone_index records_at
  index_at-Mem apex records idx rr name e i =
      elim (index_records-Mem records (empty_zone apex) idx rr name e i) [
        | inl m ↦ elim m [ ]
        | inr m ↦ m
      ]

  pub index-Mem :
      (apex : Bytes) (records : List ZoneRecord) (idx : ZoneIndex) (rr : ZoneRecord)
      → new_zone_index apex records ≡ ok idx
      → IsIn idx rr
      → Memᴰ rr records
  index-Mem apex records idx rr e (name, m) = (index_at-Mem apex records idx rr name e m).0

  encloser_in-EndsWith :
      (idx : ZoneIndex) (name : Bytes) (names : List Bytes)
      → ((n : Bytes) → Memᴰ n names → EndsWith name n)
      → EndsWith name (encloser_in idx names)
  unfolding encloser_in
  encloser_in-EndsWith idx name [] h = root-EndsWith name
  encloser_in-EndsWith idx name (n ∷ names) h =
      elim (Bool-cases (is_among n idx.existing_names || (equal n idx.apex || equal n root_name))) [
        | inl y ↦ rw (y) (h n (Memᴰ.head refl))
        | inr d ↦ rw (d) (encloser_in-EndsWith idx name names (λ x m. h x (Memᴰ.tail m)))
      ]

  closest_encloser-EndsWith :
      (idx : ZoneIndex) (name : Bytes) → EndsWith name (closest_encloser idx name)
  unfolding closest_encloser
  closest_encloser-EndsWith idx name = encloser_in-EndsWith idx name (name ∷ parents name) (λ n m.
      elim (Memᴰ.cases_cons m) [
        | inl e ↦ subst (EndsWith name) (sym e) ([], refl)
        | inr i ↦ parents-EndsWith name n i
      ])

  -- The record of a response has the fields of one of these records, under its owner, or under the
  -- name asked for when it is one of a wildcard, of which the name below the asterisk has the last
  -- labels of that name, or it is the CNAME made for that name from a DNAME record among them.
  abbrev pub IsServed : List ZoneRecord → Bytes → AnswerCopy → Type 0
  IsServed records name a =
      (rr : ZoneRecord) × Memᴰ rr records
      × (IsCopy rr rr.label a
          ⊎ ((IsCopy rr name a
                × (ce : Bytes) × EndsWith name ce
                × (normalize rr.label ≡ wildcard_of_name ce))
              ⊎ ((rr.rr_type ≡ type_dname) × IsRedirected name (normalize rr.label) rr a)))

  from-IsServed :
      (apex : Bytes) (records : List ZoneRecord) (idx : ZoneIndex) (name : Bytes)
      → new_zone_index apex records ≡ ok idx
      → (answers : List AnswerCopy) → All (IsFrom idx name) answers
      → All (IsServed records name) answers
  from-IsServed apex records idx name e [] h = tt
  from-IsServed apex records idx name e (a ∷ answers) ((owner, rr, m, k), h) =
      let (there, at_owner) = index_at-Mem apex records idx rr owner e m in
      (
        (
          rr,
          there,
          elim k [
            | inl c ↦ inl c
            | inr (inl (c, w)) ↦ inr (
                inl
                  (c, closest_encloser idx name, closest_encloser-EndsWith idx name, at_owner ∙ w))
            | inr (inr (t, c)) ↦
                inr (inr (t, subst (λ o. IsRedirected name o rr a) (sym at_owner) c))
          ],
        ),
        from-IsServed apex records idx name e answers h,
      )

  -- Each record in the answer of an indexed zone has the fields of a record that the zone was built
  -- from, under its owner, or under the name asked for when it is one of a wildcard whose name below
  -- the asterisk has the last labels of that name, or it is the CNAME that a DNAME record of the zone
  -- gives for that name: the labels in front of those of the owner, and behind them those of the
  -- record's value.
  pub answer-IsServed :
      (sha1 : Bytes → Bytes) (apex : Bytes) (records : List ZoneRecord) (idx : ZoneIndex)
      (name : Bytes) (qtype : ℕ)
      → new_zone_index apex records ≡ ok idx
      → All (IsServed records name) (answer sha1 idx name qtype).records
  answer-IsServed sha1 apex records idx name qtype e =
      from-IsServed apex records idx name e (answer sha1 idx name qtype).records
        (answer-IsFrom idx name sha1 qtype)
