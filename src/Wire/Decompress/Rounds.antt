-- ===== src/Wire/Decompress/Rounds.antt =====
-- The rounds of the loop of `ParseDomainName`, one lemma for each move.
use dnsdata_go.Common.{
  ℕ, zero, suc, ◌+◌, ◌≤◌, ◌<◌, ◌≡◌, ◌≢◌, refl, arith, [], ◌∷◌, ◌++◌, some, length, take, drop,
  Bytes, octet, bit_and, Result, ok, err, false, ◌⊎◌, inl, inr,
}
use dnsdata_go.Wire.Name.{NameError, truncated, pointer_loop}
use dnsdata_go.Wire.Decompress.Relation.{root_not_pointer}
use dnsdata_go.Wire.Name.Labels.{assemble_name}
use dnsdata_go.Wire.Decompress.{
  Cursor, Move, return, jump, advance, next_or, contains, pointer_at, cursor_step, walk,
}

-- The rounds of the loop, read backwards: what holds where a round makes each move.
pub cursor_step-return :
    (msg : Bytes) (c : Cursor) {name : Bytes} {nx : ℕ}
    → cursor_step msg c ≡ return (ok (name, nx))
    → (c.pos < length msg)
      × (octet msg c.pos ≡ 0)
      × (name ≡ assemble_name c.labels)
      × (nx ≡ next_or c.next (c.pos + 1))
unfolding cursor_step
cursor_step-return msg c e = ground arith

abbrev pub jumped : Bytes → Cursor → Cursor
jumped msg c = record c {
  pos = pointer_at msg c.pos;
  next = some (next_or c.next (c.pos + 2));
  visited = pointer_at msg c.pos ∷ c.visited;
}

pub cursor_step-jump :
    (msg : Bytes) (c c' : Cursor)
    → cursor_step msg c ≡ jump c'
    → (bit_and (octet msg c.pos) 0xC0 ≡ 0xC0)
      × (c.pos + 1 < length msg)
      × (pointer_at msg c.pos < c.pos)
      × (contains c.visited (pointer_at msg c.pos) ≡ false)
      × (c' ≡ jumped msg c)
unfolding cursor_step
cursor_step-jump msg c c' e = ground arith

abbrev pub advanced : Bytes → Cursor → Cursor
advanced msg c = record c {
  pos = c.pos + 1 + octet msg c.pos;
  labels = c.labels ++ take (octet msg c.pos) (drop (c.pos + 1) msg) ∷ [];
}

pub cursor_step-advance :
    (msg : Bytes) (c c' : Cursor)
    → cursor_step msg c ≡ advance c'
    → (octet msg c.pos ≢ 0)
      × (bit_and (octet msg c.pos) 0xC0 ≡ 0)
      × (octet msg c.pos ≤ 63)
      × (c.pos + 1 + octet msg c.pos ≤ length msg)
      × (c' ≡ advanced msg c)
unfolding cursor_step
cursor_step-advance msg c c' e = ground arith

pub Move-cases :
    (m : Move)
    → ((r : Result NameError (Bytes × ℕ)) × (m ≡ return r))
      ⊎ ((c : Cursor) × (m ≡ jump c))
      ⊎ ((c : Cursor) × (m ≡ advance c))
Move-cases (return r) = inl (r, refl)
Move-cases (jump c) = inr (inl (c, refl))
Move-cases (advance c) = inr (inr (c, refl))

module _ (room : ℕ) (msg : Bytes) (c : Cursor) where
  pub walk_return :
      (hops : ℕ) {r : Result NameError (Bytes × ℕ)}
      → cursor_step msg c ≡ return r
      → walk hops (suc room) msg c ≡ r
  unfolding walk
  walk_return zero e = rw (e, walk)
  walk_return (suc hops) e = rw (e, walk)

  pub walk_advance :
      (hops : ℕ) {c' : Cursor}
      → cursor_step msg c ≡ advance c'
      → walk hops (suc room) msg c ≡ walk hops room msg c'
  unfolding walk
  walk_advance zero e = rw (e, walk)
  walk_advance (suc hops) e = rw (e, walk)

  pub walk_jump_zero :
      {c' : Cursor} → cursor_step msg c ≡ jump c' → walk 0 (suc room) msg c ≡ err pointer_loop
  unfolding walk
  walk_jump_zero e = rw (e, walk)

  pub walk_jump :
      (hops : ℕ) {c' : Cursor}
      → cursor_step msg c ≡ jump c'
      → walk (suc hops) (suc room) msg c ≡ walk hops (length msg) msg c'
  unfolding walk
  walk_jump hops e = rw (e, walk)

-- The moves that the octets of a name make.
pub step_root :
    (msg : Bytes) (c : Cursor)
    → c.pos < length msg
    → octet msg c.pos ≡ 0
    → cursor_step msg c ≡ return (ok (assemble_name c.labels, next_or c.next (c.pos + 1)))
unfolding cursor_step
step_root msg c h z = ground arith

pub step_label :
    (msg : Bytes) (c : Cursor)
    → octet msg c.pos ≢ 0
    → bit_and (octet msg c.pos) 0xC0 ≡ 0
    → octet msg c.pos ≤ 63
    → c.pos + 1 + octet msg c.pos ≤ length msg
    → cursor_step msg c ≡ advance (advanced msg c)
unfolding cursor_step
step_label msg c n m k f = ground arith

pub step_pointer :
    (msg : Bytes) (c : Cursor)
    → bit_and (octet msg c.pos) 0xC0 ≡ 0xC0
    → c.pos + 1 < length msg
    → pointer_at msg c.pos < c.pos
    → contains c.visited (pointer_at msg c.pos) ≡ false
    → cursor_step msg c ≡ jump (jumped msg c)
unfolding cursor_step
step_pointer msg c m f b v = ground (arith, root_not_pointer (octet msg c.pos))

pub step_behind :
    (msg : Bytes) (c : Cursor) → length msg ≤ c.pos → cursor_step msg c ≡ return (err truncated)
unfolding cursor_step
step_behind msg c h = ground arith
