-- ===== src/Tests/Denial.antt =====
-- Canonical order, bitmaps and chains at concrete records.
use dnsdata_go.Common.{
  ◌≡◌, ◌≢◌, map, refl, arith, true, false, not, ◌&&◌, List, [], ◌∷◌, ◌++◌, Bytes, Ordering,
  if◌then◌else◌,
}
use dnsdata_go.Common.Compare.{lex}
use dnsdata_go.Text.{Unicode, is_ascii, to_lower, trim_dot, split_dots}
use dnsdata_go.Types.{type_cname, type_ns, type_ds, type_soa}
use dnsdata_go.Zone.Canonical.{
  canonical_labels, labels_of_text, compare_bytes, compare_canonical_names,
}
use dnsdata_go.Text.{lower_octet}
use dnsdata_go.Verifier.Names.{dotted}
use dnsdata_go.Verifier.Names.Canonical.{lowered, compare_canonical_names_lem}
use dnsdata_go.Dnssec.Nsec.{Nsec, Nsec3, covers_type, proves_no_data, proves_no_ds}
use dnsdata_go.Dnssec.Nsec.Bitmap.{lists, bitmap_tests}
use dnsdata_go.Dnssec.Chain.{links, owned}
use dnsdata_go.Dnssec.Chain.Denial.{count_nsec3, nsec3_chain_denial}

-- No text in these runs has an octet above 0x7f.
instance abbrev ascii_only : Unicode
ascii_only = record { lower = λ s. s; upper = λ s. s; same_fold = λ a b. false; trim = λ s. s }

-- "ex.", "a.Ex" and "Z.ex."
abbrev ex : Bytes
ex = b'e' ∷ b'x' ∷ b'.' ∷ []

abbrev a_ex : Bytes
a_ex = b'a' ∷ b'.' ∷ b'E' ∷ b'x' ∷ []

abbrev z_ex : Bytes
z_ex = b'Z' ∷ b'.' ∷ b'e' ∷ b'x' ∷ b'.' ∷ []

ex_below_a : compare_canonical_names ex a_ex ≡ Ordering.lt
unfolding compare_canonical_names canonical_labels labels_of_text to_lower is_ascii trim_dot
    split_dots lex
ex_below_a = refl

a_below_z : compare_canonical_names a_ex z_ex ≡ Ordering.lt
unfolding compare_canonical_names canonical_labels labels_of_text to_lower is_ascii trim_dot
    split_dots lex
a_below_z = refl

abbrev ex_label : Bytes
ex_label = b'e' ∷ b'x' ∷ []

same_when_lowered : map lowered (ex_label ∷ []) ≡ map lowered ((b'E' ∷ b'X' ∷ []) ∷ [])
unfolding lower_octet
same_when_lowered = refl

compare_canonical_names_lem_example :
    (compare_canonical_names (dotted (ex_label ∷ [])) (dotted ((b'E' ∷ b'X' ∷ []) ∷ []))
      ≡ Ordering.eq)
    × (compare_canonical_names
          (dotted (ex_label ∷ []))
          (dotted ((b'b' ∷ []) ∷ (b'E' ∷ b'X' ∷ []) ∷ []))
        ≡ Ordering.lt)
    × (lowered (b'A' ∷ []) ≢ lowered (b'b' ∷ [])
        → compare_canonical_names
            (dotted ((b'A' ∷ []) ∷ ex_label ∷ []))
            (dotted ((b'b' ∷ []) ∷ (b'E' ∷ b'X' ∷ []) ∷ []))
          ≡ compare_bytes (lowered (b'A' ∷ [])) (lowered (b'b' ∷ [])))
compare_canonical_names_lem_example =
    compare_canonical_names_lem [] [] (ex_label ∷ []) ((b'E' ∷ b'X' ∷ []) ∷ []) (b'A' ∷ [])
      (b'b' ∷ []) (ground arith) (ground arith) same_when_lowered

a_labels : canonical_labels a_ex ≡ ((b'a' ∷ []) ∷ []) ++ canonical_labels ex
unfolding canonical_labels labels_of_text to_lower is_ascii trim_dot split_dots
a_labels = refl

all_ascii : (is_ascii ex ≡ true) × (is_ascii a_ex ≡ true)
unfolding is_ascii
all_ascii = (refl, refl)

bitmap_tests_example :
    (covers_type (2 ∷ 6 ∷ 46 ∷ []) 43 ≡ lists (2 ∷ 6 ∷ 46 ∷ []) 43)
    × (proves_no_data (2 ∷ 6 ∷ 46 ∷ []) 43
        ≡ (not (lists (2 ∷ 6 ∷ 46 ∷ []) 43) && not (lists (2 ∷ 6 ∷ 46 ∷ []) type_cname)))
    × (proves_no_ds (2 ∷ 6 ∷ 46 ∷ []) ≡ (
        lists (2 ∷ 6 ∷ 46 ∷ []) type_ns
        && not (lists (2 ∷ 6 ∷ 46 ∷ []) type_ds)
        && not (lists (2 ∷ 6 ∷ 46 ∷ []) type_soa)))
bitmap_tests_example = bitmap_tests (2 ∷ 6 ∷ 46 ∷ []) 43 (omega arith)

abbrev nsec_to : Bytes → Nsec
nsec_to next = record { next_domain = next; type_bitmap = []; covered_types = [] }

-- The chain of "ex." and "Z.ex.".
abbrev two_records : List (Bytes × Nsec)
two_records = (ex, nsec_to z_ex) ∷ (z_ex, nsec_to ex) ∷ []

ex_below_z : compare_canonical_names ex z_ex ≡ Ordering.lt
unfolding compare_canonical_names canonical_labels labels_of_text to_lower is_ascii trim_dot
    split_dots lex
ex_below_z = refl

abbrev nsec3_to : Bytes → Nsec3
nsec3_to next = record {
  hash_algorithm = 1;
  flags = 0;
  iterations = 0;
  salt = [];
  next_hashed_owner = next;
  type_bitmap = [];
  covered_types = [];
}

nsec3_chain_denial_example :
    count_nsec3 ((1 ∷ [], nsec3_to (9 ∷ [])) ∷ (9 ∷ [], nsec3_to (1 ∷ [])) ∷ []) (5 ∷ [])
    ≡ (if owned compare_bytes ((1 ∷ []) ∷ (9 ∷ []) ∷ []) (5 ∷ []) then 0 else 1)
unfolding links lex
nsec3_chain_denial_example =
    nsec3_chain_denial ((1 ∷ [], nsec3_to (9 ∷ [])) ∷ (9 ∷ [], nsec3_to (1 ∷ [])) ∷ []) (1 ∷ [])
      ((9 ∷ []) ∷ []) (5 ∷ []) refl (refl, tt)
