-- ===== src/Wire/Decompress/Complete.antt =====
-- `ParseDomainName` finds every name that stands in the message.
use dnsdata_go.Common.{
  ℕ, zero, suc, ◌+◌, ◌≤◌, ◌<◌, ◌≡◌, ◌≢◌, refl, subst, ◌∙◌, arith, List, [], ◌∷◌, ◌++◌, Option, none,
  some, length, take, drop, All, Bytes, octet, ok, append-nil, append_assoc, false,
}
use dnsdata_go.Wire.Name.Labels.{assemble_name}
use dnsdata_go.Wire.Decompress.{
  Cursor, next_or, contains, pointer_at, walk, max_pointer_hops, parse_domain_name,
}
use dnsdata_go.Wire.Decompress.Rounds.{
  walk_return, walk_advance, walk_jump, step_root, step_label, step_pointer,
}
use dnsdata_go.Wire.Decompress.Relation.{NameAt, root, label, pointer, name_end, NameAt-size}

-- Every offset that the loop has jumped to holds a name at least as large as the one being read.
abbrev Passed : Bytes → ℕ → List ℕ → Type 0
Passed msg size =
    All (λ v. (ls : List Bytes) × (h : ℕ) × (s : ℕ) × NameAt msg v ls h s × (size ≤ s))

Passed-le : (msg : Bytes) {m n : ℕ} (vs : List ℕ) → m ≤ n → Passed msg n vs → Passed msg m vs
Passed-le msg [] h p = tt
Passed-le msg (v ∷ vs) h ((ls, k, s, at, le), ps) =
    ((ls, k, s, at, omega arith), Passed-le msg vs h ps)

-- So a name does not come back to such an offset.
contains-Passed :
    {msg : Bytes} {ptr h s : ℕ} {ls : List Bytes} (vs : List ℕ)
    → NameAt msg ptr ls h s
    → Passed msg (suc s) vs
    → contains vs ptr ≡ false
unfolding contains
contains-Passed [] at p = refl
contains-Passed {msg} {ptr} {s = s} (v ∷ vs) at ((ls, k, t, other, le), ps) =
    ground (arith, differ, contains-Passed vs at ps)
  where
    differ : v ≢ ptr
    differ e = absurd (omega (arith, NameAt-size (subst (λ p. NameAt msg p ls k t) e other) at))

abbrev cursor : ℕ → Option ℕ → List ℕ → List Bytes → Cursor
cursor pos next visited labels = record {
  pos = pos;
  next = next;
  visited = visited;
  labels = labels;
}

walk_complete :
    {msg : Bytes} {pos h size : ℕ} {ls : List Bytes} (at : NameAt msg pos ls h size) (hops room : ℕ)
    (next : Option ℕ) (visited : List ℕ) (labels : List Bytes)
    → h ≤ hops
    → length msg ≤ pos + room
    → Passed msg size visited
    → walk hops room msg (cursor pos next visited labels)
      ≡ ok (assemble_name (labels ++ ls), next_or next (name_end at))
walk_complete (root i z) hops zero next vs labels hh hr p = absurd (omega arith)
walk_complete {msg} (root {pos} i z) hops (suc room) next vs labels hh hr p =
    let c = cursor pos next vs labels in
    walk_return room msg c hops (step_root msg c i z) ∙ rw append-nil
walk_complete (label n m k f at) hops zero next vs labels hh hr p = absurd (omega arith)
walk_complete {msg} (label {pos} {size = s} n m k f at) hops (suc room) next vs labels hh hr p =
    let c = cursor pos next vs labels in
    let l : Bytes = take (octet msg pos) (drop (pos + 1) msg) in
    walk_advance room msg c hops (step_label msg c n m k f)
    ∙ walk_complete at hops room next vs (labels ++ l ∷ []) hh (omega arith)
        (Passed-le msg vs (omega arith) p)
    ∙ rw append_assoc
walk_complete (pointer m f b at) hops zero next vs labels hh hr p = absurd (omega arith)
walk_complete (pointer m f b at) zero (suc room) next vs labels hh hr p = absurd (omega arith)
walk_complete {msg} (pointer {pos} {hops = h} {size = s} {ls} m f b at) (suc hops) (suc room) next
      vs labels hh hr p =
    let c = cursor pos next vs labels in
    let ptr : ℕ = pointer_at msg pos in
    walk_jump room msg c hops (step_pointer msg c m f b (contains-Passed vs at p))
    ∙ walk_complete at hops (length msg) (some (next_or next (pos + 2))) (ptr ∷ vs) labels
        (omega arith) (omega arith) ((ls, h, s, at, omega arith), Passed-le msg vs (omega arith) p)

NameAt-inside :
    {msg : Bytes} {pos h size : ℕ} {ls : List Bytes} → NameAt msg pos ls h size → pos < length msg
NameAt-inside (root i z) = i
NameAt-inside (label n m k f at) = omega arith
NameAt-inside (pointer m f b at) = omega arith

-- A name that stands at the offset, reached through at most 32 backward pointers, is returned with
-- the offset behind it, whatever the length of the name.
pub parse_domain_name_complete :
    {msg : Bytes} {offset hops size : ℕ} {ls : List Bytes} (at : NameAt msg offset ls hops size)
    → hops ≤ max_pointer_hops
    → parse_domain_name msg offset ≡ ok (assemble_name ls, name_end at)
unfolding parse_domain_name
parse_domain_name_complete {msg} {offset} at h = ground (
  arith,
  NameAt-inside at,
  walk_complete at max_pointer_hops (length msg) none [] [] h (omega arith) tt,
)
