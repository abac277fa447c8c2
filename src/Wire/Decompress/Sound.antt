-- ===== src/Wire/Decompress/Sound.antt =====
-- What `ParseDomainName` returns stands in the message.
use dnsdata_go.Common.{
  ℕ, zero, suc, ◌+◌, ◌≤◌, ◌≡◌, ap, sym, ◌∙◌, arith, List, [], ◌∷◌, ◌++◌, length, take, drop, Bytes,
  octet, ok, append-nil, append_assoc, inl, inr,
}
use dnsdata_go.Wire.Name.Labels.{assemble_name}
use dnsdata_go.Wire.Decompress.{
  Cursor, return, jump, advance, next_or, cursor_step, walk, max_pointer_hops, cursor_at,
  parse_domain_name,
}
use dnsdata_go.Wire.Decompress.Rounds.{
  cursor_step-return, cursor_step-jump, cursor_step-advance, jumped, advanced, Move-cases,
  walk_return, walk_advance, walk_jump_zero, walk_jump,
}
use dnsdata_go.Wire.Decompress.Relation.{NameAt, root, label, pointer, name_end}

-- From cursor `c` the name and the offset are those of a name in the message.
record Found (hops : ℕ) (msg : Bytes) (c : Cursor) (name : Bytes) (nx : ℕ) : Type 0 where
  ls : List Bytes
  used : ℕ
  size : ℕ
  at : NameAt msg c.pos ls used size
  name_is : name ≡ assemble_name (c.labels ++ ls)
  next_is : nx ≡ next_or c.next (name_end at)
  capped : used ≤ hops

module _ (msg : Bytes) (c : Cursor) {name : Bytes} {nx : ℕ} where
  Found-return : (hops : ℕ) → cursor_step msg c ≡ return (ok (name, nx)) → Found hops msg c name nx
  Found-return hops e =
      let (h, z, n, x) = cursor_step-return msg c e in
      record {
        ls = [];
        used = 0;
        size = 0;
        at = root h z;
        name_is = rw append-nil n;
        next_is = x;
        capped = omega arith;
      }

  Found-advance :
      (hops : ℕ)
      → (c' : Cursor) → cursor_step msg c ≡ advance c'
      → Found hops msg c' name nx
      → Found hops msg c name nx
  Found-advance hops c' e f =
      let (z, m, k, fits, same) = cursor_step-advance msg c c' e in
      let g : Found hops msg (advanced msg c) name nx = rw same at f in
      record {
        ls = take (octet msg c.pos) (drop (c.pos + 1) msg) ∷ g.ls;
        used = g.used;
        size = suc g.size;
        at = label z m k fits g.at;
        name_is = g.name_is ∙ ap assemble_name (append_assoc c.labels _ g.ls);
        next_is = g.next_is;
        capped = g.capped;
      }

  Found-jump :
      (hops : ℕ)
      → (c' : Cursor) → cursor_step msg c ≡ jump c'
      → Found hops msg c' name nx
      → Found (suc hops) msg c name nx
  Found-jump hops c' e f =
      let (m, fits, back, fresh, same) = cursor_step-jump msg c c' e in
      let g : Found hops msg (jumped msg c) name nx = rw same at f in
      record {
        ls = g.ls;
        used = suc g.used;
        size = suc g.size;
        at = pointer m fits back g.at;
        name_is = g.name_is;
        next_is = g.next_is;
        capped = omega (arith, g.capped);
      }

walk-Found :
    (hops room : ℕ) (msg : Bytes) (c : Cursor) {name : Bytes} {nx : ℕ}
    → walk hops room msg c ≡ ok (name, nx)
    → Found hops msg c name nx
walk-Found zero zero msg c h = unfold walk in cc h
walk-Found (suc hops) zero msg c h = unfold walk in cc h
walk-Found zero (suc room) msg c h = elim (Move-cases (cursor_step msg c)) [
  | inl (r, e) ↦ Found-return msg c zero (e ∙ ap return (sym (walk_return room msg c zero e) ∙ h))
  | inr (inl (c', e)) ↦ cc (walk_jump_zero room msg c e)
  | inr (inr (c', e)) ↦
      Found-advance msg c zero c' e
        (walk-Found zero room msg c' (sym (walk_advance room msg c zero e) ∙ h))
]
walk-Found (suc hops) (suc room) msg c h = elim (Move-cases (cursor_step msg c)) [
  | inl (r, e) ↦
      Found-return msg c (suc hops) (e ∙ ap return (sym (walk_return room msg c (suc hops) e) ∙ h))
  | inr (inl (c', e)) ↦
      Found-jump msg c hops c' e
        (walk-Found hops (length msg) msg c' (sym (walk_jump room msg c hops e) ∙ h))
  | inr (inr (c', e)) ↦
      Found-advance msg c (suc hops) c' e
        (walk-Found (suc hops) room msg c' (sym (walk_advance room msg c (suc hops) e) ∙ h))
]

-- When `ParseDomainName` succeeds, the labels of its name stand at the offset, reached through at
-- most 32 backward pointers, and the offset that it returns is behind the name as it stands there.
pub parse_domain_name_sound :
    (msg : Bytes) (offset : ℕ) {name : Bytes} {nx : ℕ}
    → parse_domain_name msg offset ≡ ok (name, nx)
    → (ls : List Bytes) × (hops : ℕ) × (size : ℕ) × (at : NameAt msg offset ls hops size) × (name
        ≡ assemble_name ls)
      × (nx ≡ name_end at)
      × (hops ≤ max_pointer_hops)
unfolding parse_domain_name
parse_domain_name_sound msg offset h =
    let f = walk-Found max_pointer_hops (length msg) msg (cursor_at offset) (ground arith) in
    (f.ls, f.used, f.size, f.at, f.name_is, f.next_is, f.capped)
