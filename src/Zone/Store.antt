-- ===== src/Zone/Store.antt =====
-- zone/zone.go: the records of a zone by name and type. The map is the list of its entries, in the
-- order in which their keys came; the code reads that order nowhere but in AllRecords, whose order
-- it leaves open.
pub mod Filled
use dnsdata_go.Common.{
  ℕ, Bool, ◌&&◌, List, [], ◌∷◌, ◌++◌, Option, none, some, ◌==◌, if◌then◌else◌, Bytes, equal,
}

-- `rrsetKey`
pub record RrSetKey : Type 0 where
  pub name : Bytes
  pub typ : ℕ

-- The equality of keys in the map.
unfoldable pub is_key : RrSetKey → Bytes → ℕ → Bool
is_key k name typ = equal k.name name && k.typ == typ

-- `Zone`, for records of any kind.
abbrev pub Store : Type 0 → Type 0
Store R = List (RrSetKey × List R)

module _ {R : Type 0} (label : R → Bytes) (rr_type : R → ℕ) where
  -- `AddRR`
  unfoldable pub add_rr : Store R → R → Store R
  unfolding is_key
  add_rr [] rr = (record { name = label rr; typ = rr_type rr }, rr ∷ []) ∷ []
  add_rr ((k, rrs) ∷ rest) rr =
      let later = add_rr rest rr in
      if is_key k (label rr) (rr_type rr) then (k, rrs ++ rr ∷ []) ∷ rest else (k, rrs) ∷ later

module _ {R : Type 0} where
  -- `FindRRSet`; nil and the empty list are one.
  unfoldable pub rr_set_in : Store R → Bytes → ℕ → List R
  unfolding is_key
  rr_set_in [] name typ = []
  rr_set_in ((k, rrs) ∷ rest) name typ =
      let later = rr_set_in rest name typ in if is_key k name typ then rrs else later

  -- `FindRR`
  unfoldable pub find_rr : Store R → Bytes → ℕ → Option R
  unfolding rr_set_in
  find_rr z name typ = elim (rr_set_in z name typ) [ [] ↦ none | rr ∷ rrs ↦ some rr ]

  -- `AllRecords`
  unfoldable pub all_records : Store R → List R
  all_records [] = []
  all_records ((k, rrs) ∷ rest) = rrs ++ all_records rest
