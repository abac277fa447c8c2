-- ===== src/Wire/Decompress.antt =====
-- wire/name_decompress.go: names with compression pointers.
pub mod Relation
pub mod Rounds
pub mod Sound
pub mod Complete
pub mod Fuel
pub mod Uncompressed
use dnsdata_go.Common.{
  ℕ, zero, suc, ◌+◌, ◌-◌, ◌*◌, ◌≤◌, ◌<◌, ◌≡◌, Bool, true, false, not, ◌&&◌, ◌||◌, List, [], ◌∷◌,
  ◌++◌, Option, none, some, ltb, leb, ◌==◌, if◌then◌else◌, length, take, drop, Bytes, octet, Result,
  ok, err, bit_and,
}
use dnsdata_go.Wire.Name.{NameError, label_too_long, truncated, pointer_loop, pointer_forward}
use dnsdata_go.Wire.Name.Labels.{assemble_name}

-- The variables of the loop of `ParseDomainName`: `next` is `none` for -1, and `visited` lists the
-- keys of the map. `hops` stands in `walk`.
pub record Cursor : Type 0 where
  pub pos : ℕ
  pub next : Option ℕ
  pub visited : List ℕ
  pub labels : List Bytes

-- What one round of the loop does: return, follow a pointer, or go on behind a label.
pub data Move : Type 0 where
  return : Result NameError (Bytes × ℕ) → Move
  jump : Cursor → Move
  advance : Cursor → Move

-- `if next < 0 { next = pos }`
abbrev pub next_or : Option ℕ → ℕ → ℕ
next_or none n = n
next_or (some m) n = m

-- `visited[ptr]`
unfoldable pub contains : List ℕ → ℕ → Bool
contains [] p = false
contains (v ∷ vs) p = v == p || contains vs p

-- `int(b&0x3F)<<8 | int(msg[pos+1])`: the two parts have no bit in common.
abbrev pub pointer_at : Bytes → ℕ → ℕ
pointer_at msg pos = bit_and (octet msg pos) 0x3F * 256 + octet msg (pos + 1)

abbrev pub fail : NameError → Move
fail e = return (err e)

-- `case b&0xC0 == 0xC0`, up to the count of hops.
unfoldable pub pointer_move : Bytes → Cursor → Move
pointer_move msg c =
    let ptr = pointer_at msg c.pos in
    if leb (length msg) (c.pos + 1)
    then fail truncated
    else if leb c.pos ptr
    then fail pointer_forward
    else if contains c.visited ptr
    then fail pointer_loop
    else jump (record c {
      pos = ptr;
      next = some (next_or c.next (c.pos + 2));
      visited = ptr ∷ c.visited;
    })

-- The `default` case: a label of `b` octets.
unfoldable pub label_move : Bytes → Cursor → ℕ → Move
label_move msg c b =
    if ltb 63 b
    then fail label_too_long
    else if ltb (length msg) (c.pos + 1 + b)
    then fail truncated
    else advance
        (record c { pos = c.pos + 1 + b; labels = c.labels ++ take b (drop (c.pos + 1) msg) ∷ [] })

-- One round of the loop.
unfoldable pub cursor_step : Bytes → Cursor → Move
unfolding pointer_move label_move
cursor_step msg c =
    let b = octet msg c.pos in
    if leb (length msg) c.pos
    then fail truncated
    else if b == 0
    then return (ok (assemble_name c.labels, next_or c.next (c.pos + 1)))
    else if bit_and b 0xC0 == 0xC0
    then pointer_move msg c
    else if not (bit_and b 0xC0 == 0)
    then fail truncated
    else label_move msg c b

-- The loop. The first number is `maxPointerHops - hops`: a jump at 0 makes `hops` pass the cap.
-- The second is at least `len(msg) - pos`, so that at 0 the cursor is behind the message.
unfoldable pub walk : ℕ → ℕ → Bytes → Cursor → Result NameError (Bytes × ℕ)
walk hops zero msg c = err truncated
walk zero (suc room) msg c = elim (cursor_step msg c) [
  | return r ↦ r
  | jump c' ↦ err pointer_loop
  | advance c' ↦ walk zero room msg c'
]
walk (suc hops) (suc room) msg c = elim (cursor_step msg c) [
  | return r ↦ r
  | jump c' ↦ walk hops (length msg) msg c'
  | advance c' ↦ walk (suc hops) room msg c'
]

abbrev pub max_pointer_hops : ℕ
max_pointer_hops = 32

abbrev pub cursor_at : ℕ → Cursor
cursor_at pos = record { pos = pos; next = none; visited = []; labels = [] }

-- `ParseDomainName`. An offset is a natural number, so `offset < 0` does not arise.
unfoldable pub parse_domain_name : Bytes → ℕ → Result NameError (Bytes × ℕ)
parse_domain_name msg offset =
    if leb (length msg) offset
    then err truncated
    else walk max_pointer_hops (length msg) msg (cursor_at offset)
