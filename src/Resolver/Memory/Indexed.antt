-- ===== src/Resolver/Memory/Indexed.antt =====
-- What `add` of resolver/memory/index.go keeps true of an index.
use dnsdata_go.Common.{
  ℕ, ◌≡◌, refl, sym, subst, inl, inr, Bool-cases, Result-cases, Bool, true, false, not, List, [],
  ◌∷◌, ◌++◌, if◌then◌else◌, Bytes, equal, equal_iff, ok, All, All-append,
}
use mathlib.Core.List.{Memᴰ}
use mathlib.Core.List.Memᴰ
use dnsdata_go.Text.{Unicode}
use dnsdata_go.Types.{type_nsec, type_nsec3, type_ns}
use dnsdata_go.Dnssec.Base32.{owner_hash_from_name}
use dnsdata_go.Dnssec.Zone.{ZoneRecord, nsec_handler, nsec3_handler}
use dnsdata_go.Resolver.Memory.{
  NsecEntry, Nsec3Entry, ZoneIndex, normalize, records_at, is_at_or_below,
}
use dnsdata_go.Resolver.Memory.Added.{AddedAs, add_typed-AddedAs}
use dnsdata_go.Resolver.Memory.Index.{
  append_record, with_owner, add_to_index, index_records, new_zone_index, empty_zone,
}

keep_last :
    (b : Bool) (rr x : ZoneRecord) (rrs other : List ZoneRecord)
    → Memᴰ x (if b then rrs else other)
    → Memᴰ x (if b then rrs ++ rr ∷ [] else other)
keep_last true rr x rrs other m = Memᴰ.append_left (rr ∷ []) m
keep_last false rr x rrs other m = m

keep_other :
    (b : Bool) (x : ZoneRecord) (rrs before after : List ZoneRecord)
    → (Memᴰ x before → Memᴰ x after)
    → Memᴰ x (if b then rrs else before)
    → Memᴰ x (if b then rrs else after)
keep_other true x rrs before after h m = m
keep_other false x rrs before after h m = h m

-- A record added behind others leaves these where they were.
append_record-keeps :
    (names : List (Bytes × List ZoneRecord)) (owner name : Bytes) (rr x : ZoneRecord)
    → Memᴰ x (records_at names name)
    → Memᴰ x (records_at (append_record names owner rr) name)
unfolding append_record records_at
append_record-keeps [] owner name rr x m = elim m [ ]
append_record-keeps ((n, rrs) ∷ rest) owner name rr x m =
    let later = append_record-keeps rest owner name rr x in
    elim (Bool-cases (equal n owner)) [
      | inl y ↦ rw (y) (keep_last (equal n name) rr x rrs (records_at rest name) m)
      | inr d ↦ rw (d) (
          keep_other (equal n name) x rrs (records_at rest name)
            (records_at (append_record rest owner rr) name) later m)
    ]

-- The record added is found under its owner.
append_record-adds :
    (names : List (Bytes × List ZoneRecord)) (owner : Bytes) (rr : ZoneRecord)
    → Memᴰ rr (records_at (append_record names owner rr) owner)
unfolding append_record records_at
append_record-adds [] owner rr = rw ((equal_iff owner owner).1 refl) (Memᴰ.head refl)
append_record-adds ((n, rrs) ∷ rest) owner rr = elim (Bool-cases (equal n owner)) [
  | inl y ↦ rw (y, records_at, y) (Memᴰ.append_right rrs (Memᴰ.head refl))
  | inr d ↦ rw (d, records_at, d) (append_record-adds rest owner rr)
]

All-weaken :
    {A : Type 0} (P Q : A → Type 0) (xs : List A) → ((x : A) → P x → Q x) → All P xs → All Q xs
All-weaken P Q [] f h = tt
All-weaken P Q (x ∷ xs) f (i, h) = (f x i, All-weaken P Q xs f h)

module _ ⦃u : Unicode⦄ where
  -- The record stands in the index under its own name, with the type.
  abbrev pub StandsAt : ZoneIndex → Bytes → ℕ → ZoneRecord → Type 0
  StandsAt idx owner t rr =
      Memᴰ rr (records_at idx.by_name owner) × (rr.rr_type ≡ t) × (normalize rr.label ≡ owner)

  abbrev pub NsecStands : ZoneIndex → NsecEntry → Type 0
  NsecStands idx e =
      (rr : ZoneRecord) × StandsAt idx e.owner type_nsec rr × (rr.handler ≡ nsec_handler e.nsec)

  abbrev pub Nsec3Stands : ZoneIndex → Nsec3Entry → Type 0
  Nsec3Stands idx e =
      (rr : ZoneRecord) × StandsAt idx e.owner type_nsec3 rr
      × (rr.handler ≡ nsec3_handler e.nsec3)
      × (owner_hash_from_name e.owner ≡ ok e.hash)

  abbrev pub CutStands : ZoneIndex → Bytes → Type 0
  CutStands idx c = (rr : ZoneRecord) × StandsAt idx c type_ns rr × (equal c idx.apex ≡ false)

  -- Each entry of the chains and each delegation point is that of a record of the index.
  pub record IsIndexed (idx : ZoneIndex) : Type 0 where
    pub nsec_entries : All (NsecStands idx) idx.nsecs
    pub nsec3_entries : All (Nsec3Stands idx) idx.nsec3s
    pub cut_names : All (CutStands idx) idx.cuts

  empty_zone-IsIndexed : (apex : Bytes) → IsIndexed (empty_zone apex)
  empty_zone-IsIndexed apex = record { nsec_entries = tt; nsec3_entries = tt; cut_names = tt }

  with_owner-IsIndexed :
      (idx : ZoneIndex) (owner : Bytes) (rr : ZoneRecord)
      → IsIndexed idx
      → IsIndexed (with_owner idx owner rr)
  unfolding with_owner
  with_owner-IsIndexed idx owner rr v =
      let keeps : (n : Bytes) (x : ZoneRecord)
          → Memᴰ x (records_at idx.by_name n)
          → Memᴰ x (records_at (append_record idx.by_name owner rr) n) =
        λ n x m. append_record-keeps idx.by_name owner n rr x m in
      record {
        nsec_entries =
            All-weaken (NsecStands idx) (NsecStands (with_owner idx owner rr)) idx.nsecs
              (λ e (x, (m, s, l), h). (x, (keeps e.owner x m, s, l), h)) v.nsec_entries;
        nsec3_entries =
            All-weaken (Nsec3Stands idx) (Nsec3Stands (with_owner idx owner rr)) idx.nsec3s
              (λ e (x, (m, s, l), h, o). (x, (keeps e.owner x m, s, l), h, o)) v.nsec3_entries;
        cut_names =
            All-weaken (CutStands idx) (CutStands (with_owner idx owner rr)) idx.cuts
              (λ c (x, (m, s, l), h). (x, (keeps c x m, s, l), h)) v.cut_names;
      }

  -- What `add` adds stands in the index, when the record does.
  AddedAs-IsIndexed :
      (idx : ZoneIndex) (rr : ZoneRecord) (out : ZoneIndex)
      → Memᴰ rr (records_at idx.by_name (normalize rr.label))
      → IsIndexed idx
      → AddedAs idx (normalize rr.label) rr.rr_type rr.handler out
      → IsIndexed out
  AddedAs-IsIndexed idx rr out m v (inl e) = subst IsIndexed (sym e) v
  AddedAs-IsIndexed idx rr out m v (inr (inl (n, s, h, e))) = subst IsIndexed (sym e) (record {
    nsec_entries =
        All-append (NsecStands idx) idx.nsecs _ v.nsec_entries ((rr, (m, s, refl), h), tt);
    nsec3_entries = v.nsec3_entries;
    cut_names = v.cut_names;
  })
  AddedAs-IsIndexed idx rr out m v (inr (inr (inl (n, h, s, k, o, e)))) =
      subst IsIndexed (sym e) (record {
        nsec_entries = v.nsec_entries;
        nsec3_entries =
            All-append (Nsec3Stands idx) idx.nsec3s _ v.nsec3_entries
              ((rr, (m, s, refl), k, o), tt);
        cut_names = v.cut_names;
      })
  AddedAs-IsIndexed idx rr out m v (inr (inr (inr (s, d, e)))) = subst IsIndexed (sym e) (record {
    nsec_entries = v.nsec_entries;
    nsec3_entries = v.nsec3_entries;
    cut_names = All-append (CutStands idx) idx.cuts _ v.cut_names ((rr, (m, s, refl), d), tt);
  })

  add_to_index-IsIndexed :
      (idx out : ZoneIndex) (rr : ZoneRecord)
      → add_to_index idx rr ≡ ok out
      → IsIndexed idx
      → IsIndexed out
  unfolding add_to_index with_owner
  add_to_index-IsIndexed idx out rr e v =
      let owner = normalize rr.label in
      elim (Bool-cases (not (is_at_or_below owner idx.apex))) [
        | inl y ↦ let k = rw (y) at e in cc
        | inr n ↦
            let k = rw (n) at e in
            AddedAs-IsIndexed (with_owner idx owner rr) rr out
              (append_record-adds idx.by_name owner rr) (with_owner-IsIndexed idx owner rr v)
              (add_typed-AddedAs (with_owner idx owner rr) out owner rr.rr_type rr.handler k)
      ]

  index_records-IsIndexed :
      (rrs : List ZoneRecord) (idx out : ZoneIndex)
      → index_records rrs idx ≡ ok out
      → IsIndexed idx
      → IsIndexed out
  unfolding index_records
  index_records-IsIndexed [] idx out e v = let same : idx ≡ out = cc in subst IsIndexed same v
  index_records-IsIndexed (rr ∷ rrs) idx out e v = elim (Result-cases (add_to_index idx rr)) [
    | inr (f, y) ↦ let k = rw (y) at e in cc
    | inl (next, y) ↦
        index_records-IsIndexed rrs next out (rw (y) at e) (add_to_index-IsIndexed idx next rr y v)
  ]

  -- Each NSEC and NSEC3 entry of a built index, and each delegation point, is that of a record of its
  -- type that stands in the index under its own name; the entry has the record's value, the hash of
  -- an NSEC3 entry is the one in its owner's name, and no delegation point is the apex.
  pub new_zone_index-IsIndexed :
      (apex : Bytes) (records : List ZoneRecord) (idx : ZoneIndex)
      → new_zone_index apex records ≡ ok idx
      → IsIndexed idx
  unfolding new_zone_index
  new_zone_index-IsIndexed apex records idx e =
      index_records-IsIndexed records (empty_zone apex) idx e (empty_zone-IsIndexed apex)
