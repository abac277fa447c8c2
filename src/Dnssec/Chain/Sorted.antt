-- ===== src/Dnssec/Chain/Sorted.antt =====
-- The owners that `newZoneView` collects from records in canonical order.
use dnsdata_go.Common.{
  ℕ, ◌≡◌, ◌≢◌, ◌↔◌, refl, subst, inl, inr, arith, Bool-cases, Bool, true, false, not, ◌&&◌, List,
  [], ◌∷◌, ◌++◌, if◌then◌else◌, ◌==◌, Bytes, ok, All, All-append, Ordering,
}
use mathlib.Core.List.{Memᴰ}
use mathlib.Core.List.Memᴰ
use dnsdata_go.Common.Compare.{Ordering-cases}
use dnsdata_go.Text.{Unicode, to_lower}
use dnsdata_go.Types.{type_ns}
use dnsdata_go.Zone.Canonical.{compare_canonical_names}
use dnsdata_go.Dnssec.Zone.{ZoneRecord}
use dnsdata_go.Dnssec.Chain.{IsIncreasing}
use dnsdata_go.Dnssec.Chain.Keys.{
  has_key-add_type, has_key-cases, has_key-add_type_self, last, last-append, IsIncreasing-append,
}
use dnsdata_go.Dnssec.Chain.View.{
  ZoneParts, is_generated_type, has_key, has_name, is_at_or_below, same_name, with_record,
  view_records,
}

module _ ⦃u : Unicode⦄ where
  -- The name sorts behind none of the records, and compares as equal to the name of one exactly when
  -- the two differ at most in case.
  abbrev pub Before : Bytes → List ZoneRecord → Type 0
  Before a rrs =
      All
        (λ (s : ZoneRecord).
          (compare_canonical_names a s.label ≢ Ordering.gt)
          × ((compare_canonical_names a s.label ≡ Ordering.eq) ↔ (to_lower a ≡ to_lower s.label)))
        rrs

  -- The records stand in canonical order.
  abbrev pub AreSorted : List ZoneRecord → Type 0
  AreSorted [] = Unit {0}
  AreSorted (rr ∷ rrs) = Before rr.label rrs × AreSorted rrs

  -- Each key is that of an owner, which sorts behind none of the records.
  abbrev pub HasKeys : ZoneParts → List ZoneRecord → Type 0
  HasKeys v rrs =
      (key : Bytes)
      → has_key v.types key ≡ true
      → (o : Bytes) × Memᴰ o v.owners × (to_lower o ≡ key) × Before o rrs

  -- What the loop of `newZoneView` keeps true from the apex on.
  pub record IsView (apex : Bytes) (v : ZoneParts) (rrs : List ZoneRecord) : Type 0 where
    pub others : List Bytes
    pub at_apex : v.apex ≡ apex
    pub from_apex : v.owners ≡ apex ∷ others
    pub in_order : IsIncreasing compare_canonical_names apex others
    pub last_kept : has_key v.types (to_lower (last apex others)) ≡ true
    pub last_before : Before (last apex others) rrs
    pub keys_kept : HasKeys v rrs
    pub below_apex :
        All (λ (c : Bytes). (same_name c apex ≡ false) × (is_at_or_below c apex ≡ true)) v.cuts

  pub cuts-below :
      (apex name : Bytes) (t : ℕ) (v : ZoneParts)
      → v.apex ≡ apex
      → is_at_or_below name apex ≡ true
      → All (λ (c : Bytes). (same_name c apex ≡ false) × (is_at_or_below c apex ≡ true)) v.cuts
      → All
          (λ (c : Bytes). (same_name c apex ≡ false) × (is_at_or_below c apex ≡ true))
          (with_record v name t).cuts
  unfolding with_record
  cuts-below apex name t v e below h =
      elim (Bool-cases
        (t == type_ns && (not (same_name name v.apex) && not (has_name v.cuts name)))) [
          | inl y ↦
              let other : same_name name v.apex ≡ false = ground (arith, y) in
              rw (y) (
                All-append _ v.cuts (name ∷ []) h
                  ((subst (λ a. same_name name a ≡ false) e other, below), tt))
          | inr n ↦ rw (n) h
        ]

  pub with_record-HasKeys :
      (apex : Bytes) (v : ZoneParts) (rr : ZoneRecord) (rrs : List ZoneRecord)
      → AreSorted (rr ∷ rrs)
      → HasKeys v (rr ∷ rrs)
      → HasKeys (with_record v rr.label rr.rr_type) rrs
  unfolding with_record
  with_record-HasKeys apex v rr rrs s k key h =
      let from_old : has_key v.types key ≡ true
          → (o : Bytes) × Memᴰ o (with_record v rr.label rr.rr_type).owners
            × (to_lower o ≡ key)
            × Before o rrs =
        λ old.
          let (o, m, e, b) = k key old in
          (o, kept_owner (has_key v.types (to_lower rr.label)) m, e, b.1) in
      elim (has_key-cases v.types (to_lower rr.label) key rr.rr_type h) [
        | inl old ↦ from_old old
        | inr same ↦ elim (Bool-cases (has_key v.types (to_lower rr.label))) [
          | inl y ↦ from_old (subst (λ x. has_key v.types x ≡ true) same y)
          | inr n ↦ (rr.label, rw (n) (Memᴰ.append_right v.owners (Memᴰ.head refl)), same, s.0)
        ]
      ]
    where
      kept_owner :
          (b : Bool) {o : Bytes}
          → Memᴰ o v.owners
          → Memᴰ o (if b then v.owners else v.owners ++ rr.label ∷ [])
      kept_owner true m = m
      kept_owner false m = Memᴰ.append_left (rr.label ∷ []) m

  pub with_record-IsView :
      (apex : Bytes) (v : ZoneParts) (rr : ZoneRecord) (rrs : List ZoneRecord)
      → AreSorted (rr ∷ rrs)
      → is_at_or_below rr.label v.apex ≡ true
      → IsView apex v (rr ∷ rrs)
      → IsView apex (with_record v rr.label rr.rr_type) rrs
  unfolding with_record
  with_record-IsView apex v rr rrs s below k =
      let key = to_lower rr.label in
      let cuts =
        cuts-below apex rr.label rr.rr_type v k.at_apex
          (subst (λ a. is_at_or_below rr.label a ≡ true) k.at_apex below) k.below_apex in
      elim (Bool-cases (has_key v.types key)) [
        | inl y ↦ record {
          others = k.others;
          at_apex = k.at_apex;
          from_apex = rw (y) k.from_apex;
          in_order = k.in_order;
          last_kept =
              has_key-add_type v.types key (to_lower (last apex k.others)) rr.rr_type k.last_kept;
          last_before = k.last_before.1;
          keys_kept = with_record-HasKeys apex v rr rrs s k.keys_kept;
          below_apex = cuts;
        }
        | inr n ↦
            let l : compare_canonical_names (last apex k.others) rr.label ≡ Ordering.lt =
              new_above v.types (last apex k.others) rr.label k.last_kept n k.last_before.0 in
            let new : last apex (k.others ++ rr.label ∷ []) ≡ rr.label =
              last-append apex rr.label k.others in
            record {
              others = k.others ++ rr.label ∷ [];
              at_apex = k.at_apex;
              from_apex = rw (n, k.from_apex) refl;
              in_order = IsIncreasing-append apex rr.label k.others k.in_order l;
              last_kept = rw (new) (has_key-add_type_self v.types key rr.rr_type);
              last_before = rw (new) (s.0);
              keys_kept = with_record-HasKeys apex v rr rrs s k.keys_kept;
              below_apex = cuts;
            }
      ]
    where
      new_above :
          (types : List (Bytes × List ℕ)) (a b : Bytes)
          → has_key types (to_lower a) ≡ true
          → has_key types (to_lower b) ≡ false
          → (compare_canonical_names a b ≢ Ordering.gt)
            × ((compare_canonical_names a b ≡ Ordering.eq) ↔ (to_lower a ≡ to_lower b))
          → compare_canonical_names a b ≡ Ordering.lt
      new_above types a b h n (g, e) = elim (Ordering-cases (compare_canonical_names a b)) [
        | inl l ↦ l
        | inr (inl q) ↦ let f = e.0 q in cc
        | inr (inr q) ↦ absurd (g q)
      ]

  pub skipped-IsView :
      (apex : Bytes) (v : ZoneParts) (rr : ZoneRecord) (rrs : List ZoneRecord)
      → IsView apex v (rr ∷ rrs)
      → IsView apex v rrs
  skipped-IsView apex v rr rrs k = record {
    others = k.others;
    at_apex = k.at_apex;
    from_apex = k.from_apex;
    in_order = k.in_order;
    last_kept = k.last_kept;
    last_before = k.last_before.1;
    keys_kept = λ key h. let (o, m, e, b) = k.keys_kept key h in (o, m, e, b.1);
    below_apex = k.below_apex;
  }

  pub view_records-IsView :
      (apex : Bytes) (rrs : List ZoneRecord) (v out : ZoneParts)
      → AreSorted rrs
      → IsView apex v rrs
      → view_records rrs v ≡ ok out
      → IsView apex out []
  unfolding view_records
  view_records-IsView apex [] v out s k e =
      let same : v ≡ out = cc in subst (λ z. IsView apex z []) same k
  view_records-IsView apex (rr ∷ rrs) v out s k e =
      elim (Bool-cases (is_generated_type rr.rr_type)) [
        | inl y ↦
            view_records-IsView apex rrs v out (s.1) (skipped-IsView apex v rr rrs k) (rw (y) at e)
        | inr n ↦ elim (Bool-cases (is_at_or_below rr.label v.apex)) [
          | inr o ↦ let x = rw (n, o) at e in cc
          | inl b ↦
              view_records-IsView apex rrs (with_record v rr.label rr.rr_type) out (s.1)
                (with_record-IsView apex v rr rrs s b k) (rw (n, b) at e)
        ]
      ]
