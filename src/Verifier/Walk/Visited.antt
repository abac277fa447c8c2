-- ===== src/Verifier/Walk/Visited.antt =====
-- Which names a walk visits.
use dnsdata_go.Common.{
  ℕ, zero, suc, ◌+◌, ◌≤◌, ◌≡◌, inl, inr, refl, ap, ◌∙◌, arith, false, List, [], ◌∷◌, ◌++◌, map,
  reverse, Option, none, some, Bool-cases, Option-cases, Bytes, Result, ok, err, length,
}
use dnsdata_go.Text.{Unicode}
use dnsdata_go.Verifier.Names.{normalize_q_name}
use dnsdata_go.Verifier.Walk.{
  AliasStep, HopOutcome, WalkResult, Walk, Next, stop, go, Hops, set_bogus, apply_outcome, is_seen,
  follow, after_hop, walk_round, walk_loop, walk_start, validate, max_alias_hops,
}
use mathlib.Core.List.{reverse-append, map-append}

-- No name occurs twice.
abbrev pub AreDistinct : List Bytes → Type 0
AreDistinct [] = Unit
AreDistinct (x ∷ xs) = (is_seen x xs ≡ false) × AreDistinct xs

-- The names of a walk, the last one first: the start and each redirection's target.
abbrev pub trail : Bytes → List AliasStep → List Bytes
trail start aliases = reverse (start ∷ map (λ a. a.target) aliases)

trail-append :
    (start : Bytes) (aliases : List AliasStep) (a : AliasStep)
    → trail start (aliases ++ a ∷ []) ≡ a.target ∷ trail start aliases
trail-append start aliases a =
    ap (λ k. reverse (start ∷ k)) (map-append (λ b. b.target) aliases (a ∷ []))
    ∙ reverse-append (start ∷ map (λ b. b.target) aliases) (a.target ∷ [])

-- All names of the trail but the last are distinct, and they are so many at most.
abbrev pub WalksOnce : Bytes → ℕ → List AliasStep → Type 0
WalksOnce start bound aliases =
    (last : Bytes) × (seen : List Bytes) × (trail start aliases ≡ last ∷ seen)
    × AreDistinct seen
    × (length seen ≤ bound)

module _ {E Evidence Answer : Type 0} (hops : Hops E Evidence Answer) where
  -- A hop does not touch the list of redirections.
  abbrev pub KeepsAliases : Type 0
  KeepsAliases =
      (name : Bytes) (r : WalkResult Evidence Answer) → (hops.one_hop name r).1.aliases ≡ r.aliases

module _ {E Evidence Answer : Type 0} (hops : Hops E Evidence Answer) (start : Bytes)
    (bound : ℕ) where
  abbrev OnTrail : Walk Evidence Answer → ℕ → Type 0
  OnTrail w left =
      (trail start w.result.aliases ≡ w.current ∷ w.seen)
      × AreDistinct w.seen
      × (length w.seen + left ≤ bound)

  abbrev KeepsTrail : Next E Evidence Answer → ℕ → Type 0
  KeepsTrail (stop r e) left = WalksOnce start bound r.aliases
  KeepsTrail (go next) left = OnTrail next left

  stops :
      (w : Walk Evidence Answer) (left : ℕ) (aliases : List AliasStep)
      → OnTrail w left
      → aliases ≡ w.result.aliases
      → WalksOnce start bound aliases
  stops w left aliases t e = (w.current, w.seen, ap (trail start) e ∙ t.0, t.1, omega (arith, t.2))

  follow_keeps :
      (w : Walk Evidence Answer) (left : ℕ) (o : HopOutcome Answer) (r : WalkResult Evidence Answer)
      (redirect : Option AliasStep)
      → OnTrail w (suc left)
      → is_seen w.current w.seen ≡ false
      → r.aliases ≡ w.result.aliases
      → KeepsTrail (follow hops w o r redirect) left
  unfolding follow apply_outcome
  follow_keeps w left o r none t d e = stops w (suc left) r.aliases t e
  follow_keeps w left o r (some a) t d e = (
    trail-append start r.aliases (record a { verdict = o.verdict })
        ∙ ap (λ k. a.target ∷ k) (ap (trail start) e ∙ t.0),
    (d, t.1),
    omega (arith, t.2),
  )

  after_keeps :
      (w : Walk Evidence Answer) (left : ℕ)
      (p : Result E (HopOutcome Answer) × WalkResult Evidence Answer)
      → OnTrail w (suc left)
      → is_seen w.current w.seen ≡ false
      → p.1.aliases ≡ w.result.aliases
      → KeepsTrail (after_hop hops w p) left
  unfolding after_hop
  after_keeps w left (ok o, r) t d e = follow_keeps w left o r o.alias t d e
  after_keeps w left (err x, r) t d e = stops w (suc left) r.aliases t e

  round_keeps :
      (w : Walk Evidence Answer) (left : ℕ)
      → KeepsAliases hops
      → OnTrail w (suc left)
      → KeepsTrail (walk_round hops w) left
  unfolding walk_round set_bogus
  round_keeps w left law t = elim (Option-cases (hops.ctx_err w.hop)) [
    | inr (e, late) ↦ rw (late, walk_round) (stops w (suc left) w.result.aliases t refl)
    | inl on ↦ elim (Bool-cases (is_seen w.current w.seen)) [
      | inl seen ↦ rw (on, seen, walk_round) (stops w (suc left) w.result.aliases t refl)
      | inr unseen ↦
          rw (on, unseen, walk_round)
            (after_keeps w left (hops.one_hop w.current w.result) t unseen (law w.current w.result))
    ]
  ]

  next_keeps :
      (n : ℕ) (k : Next E Evidence Answer)
      → ((w : Walk Evidence Answer)
          → OnTrail w n
          → WalksOnce start bound (walk_loop hops n w).0.aliases)
      → KeepsTrail k n
      → (let out : WalkResult Evidence Answer × Option E = elim k [
        | stop r e ↦ (r, e)
        | go next ↦ walk_loop hops n next
      ] in
          WalksOnce start bound out.0.aliases)
  next_keeps n (stop r e) ih t = t
  next_keeps n (go w) ih t = ih w t

  loop_keeps :
      (n : ℕ) (w : Walk Evidence Answer)
      → KeepsAliases hops
      → OnTrail w n
      → WalksOnce start bound (walk_loop hops n w).0.aliases
  unfolding walk_loop set_bogus
  loop_keeps zero w law t = stops w zero w.result.aliases t refl
  loop_keeps (suc n) w law t =
      next_keeps n (walk_round hops w) (λ w' t'. loop_keeps n w' law t') (round_keeps w n law t)

module _ {E Evidence Answer : Type 0} (hops : Hops E Evidence Answer) ⦃u : Unicode⦄ where
  -- A walk for a name follows at most eleven redirections, and asks for no name twice.
  pub validate_once :
      (c : ℕ) (cs : Bytes) (evidence : Evidence)
      → KeepsAliases hops
      → (res : WalkResult Evidence Answer) × (error : Option E) × (validate hops (c ∷ cs) evidence
          ≡ (some res, error))
        × WalksOnce (normalize_q_name (c ∷ cs)) 11 res.aliases
  unfolding validate walk_start
  validate_once c cs evidence law =
      let start = walk_start hops (normalize_q_name (c ∷ cs)) evidence in
      let done = walk_loop hops (suc max_alias_hops) start in
      (
        done.0,
        done.1,
        refl,
        loop_keeps hops (normalize_q_name (c ∷ cs)) 11 11 start law (refl, tt, omega arith),
      )
