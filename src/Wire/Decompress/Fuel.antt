-- ===== src/Wire/Decompress/Fuel.antt =====
-- The rounds given to the loop are enough.
use dnsdata_go.Common.{
  ℕ, zero, suc, ◌+◌, ◌≤◌, ◌≡◌, refl, sym, subst, ◌<◌, ◌∙◌, arith, length, Bytes, inl, inr, err,
}
use dnsdata_go.Wire.Name.{truncated}
use dnsdata_go.Wire.Decompress.{Cursor, advance, cursor_step, walk}
use dnsdata_go.Wire.Decompress.Rounds.{
  cursor_step-advance, step_behind, Move-cases, walk_return, walk_advance, walk_jump_zero,
  walk_jump,
}

walk_behind :
    (hops room : ℕ) (msg : Bytes) (c : Cursor)
    → length msg ≤ c.pos
    → walk hops room msg c ≡ err truncated
walk_behind zero zero msg c h = unfold walk in refl
walk_behind (suc hops) zero msg c h = unfold walk in refl
walk_behind hops (suc room) msg c h = walk_return room msg c hops (step_behind msg c h)

advance-pos : (msg : Bytes) (c c' : Cursor) → cursor_step msg c ≡ advance c' → c.pos < c'.pos
advance-pos msg c c' e =
    let (z, m, k, f, same) = cursor_step-advance msg c c' e in
    subst (λ (d : Cursor). c.pos < d.pos) (sym same) (omega arith)

-- The loop gives one result for every number of rounds that reaches the end of the message from
-- the cursor: the limit on rounds in the model never decides what it returns.
pub walk_room :
    (hops r s : ℕ) (msg : Bytes) (c : Cursor)
    → length msg ≤ c.pos + r
    → length msg ≤ c.pos + s
    → walk hops r msg c ≡ walk hops s msg c
walk_room hops zero s msg c hr hs =
    walk_behind hops 0 msg c (omega arith) ∙ sym (walk_behind hops s msg c (omega arith))
walk_room hops (suc r) zero msg c hr hs =
    walk_behind hops (suc r) msg c (omega arith) ∙ sym (walk_behind hops 0 msg c (omega arith))
walk_room zero (suc r) (suc s) msg c hr hs = elim (Move-cases (cursor_step msg c)) [
  | inl (x, e) ↦ walk_return r msg c 0 e ∙ sym (walk_return s msg c 0 e)
  | inr (inl (c', e)) ↦ walk_jump_zero r msg c e ∙ sym (walk_jump_zero s msg c e)
  | inr (inr (c', e)) ↦
      let on = advance-pos msg c c' e in
      walk_advance r msg c 0 e
      ∙ walk_room 0 r s msg c' (omega arith) (omega arith)
      ∙ sym (walk_advance s msg c 0 e)
]
walk_room (suc hops) (suc r) (suc s) msg c hr hs = elim (Move-cases (cursor_step msg c)) [
  | inl (x, e) ↦ walk_return r msg c (suc hops) e ∙ sym (walk_return s msg c (suc hops) e)
  | inr (inl (c', e)) ↦ walk_jump r msg c hops e ∙ sym (walk_jump s msg c hops e)
  | inr (inr (c', e)) ↦
      let on = advance-pos msg c c' e in
      walk_advance r msg c (suc hops) e
      ∙ walk_room (suc hops) r s msg c' (omega arith) (omega arith)
      ∙ sym (walk_advance s msg c (suc hops) e)
]
