-- ===== src/Dnssec/Zone/Stored.antt =====
-- zone/zone.go behind dnssec/zone.go: the list of records in the model of the zone stands for the
-- map that AddRR fills.
use dnsdata_go.Common.{ℕ, ◌≡◌, ◌↔◌, ◌∙◌, refl, List, [], ◌∷◌, Bytes, Bool-cases, inl, inr}
use mathlib.Core.List.{Memᴰ}
use dnsdata_go.Zone.Store.{rr_set_in, all_records}
use dnsdata_go.Zone.Store.Filled.{fill, is_at, those_at, fill_finds}
use dnsdata_go.Dnssec.Zone.{ZoneRecord, find_rr_set}

abbrev pub label_of : ZoneRecord → Bytes
label_of r = r.label

abbrev pub type_of : ZoneRecord → ℕ
type_of r = r.rr_type

those_at-find_rr_set :
    (records : List ZoneRecord) (name : Bytes) (typ : ℕ)
    → those_at label_of type_of name typ records ≡ find_rr_set records name typ
unfolding find_rr_set
those_at-find_rr_set [] name typ = refl
those_at-find_rr_set (r ∷ rs) name typ = elim (Bool-cases (is_at label_of type_of name typ r)) [
  | inl y ↦ rw (y, those_at-find_rr_set rs name typ) refl
  | inr n ↦ rw (n, those_at-find_rr_set rs name typ) refl
]

-- In the map that AddRR fills with the records of a list, FindRRSet finds what the model finds in the
-- list, and AllRecords the members of the list.
pub find_rr_set_stored :
    (records : List ZoneRecord)
    → ((name : Bytes) (typ : ℕ)
        → rr_set_in (fill label_of type_of [] records) name typ ≡ find_rr_set records name typ)
      × ((r : ZoneRecord)
          → Memᴰ r (all_records (fill label_of type_of [] records)) ↔ Memᴰ r records)
find_rr_set_stored records =
    let (found, kept) = fill_finds label_of type_of records in
    (λ name typ. found name typ ∙ those_at-find_rr_set records name typ, kept)
