-- ===== src/Comp/Manual/Laws.antt =====
-- A board is refused exactly when a character appears twice or has no role, and is otherwise written
-- in its order.
use raider_mate_service.Prelude.{
  ℕ, suc, ◌≡◌, ◌≢◌, refl, Bool, true, false, some, List, [], ◌∷◌, arith, All, All-mono, All-and,
  All-intro, Unique, Bool-cases, Option-cases, inl, inr, if◌then◌else◌,
}
use raider_mate_service.Prelude.Int.{ℤ, pos, ◌+ℤ◌, to_int16, wrap}
use raider_mate_service.Comp.Types.{Assignment}
use raider_mate_service.Comp.Roles.{is_ok}
use raider_mate_service.Comp.Manual.{
  Placement, Board, ok, err, is_seen, slot, prepend, next, manual_slots, manual_assignments,
}

-- The int16 counter after `k` increments is `k` as an int16.
next_lem : (k : ℕ) → next (to_int16 (pos k)) ≡ to_int16 (pos (suc k))
unfolding next wrap ◌+ℤ◌
next_lem k = ground arith

step_seated :
    (b : Bool) (k : ℕ)
    → (if b then to_int16 (pos k) else next (to_int16 (pos k)))
      ≡ to_int16 (pos (if b then k else suc k))
step_seated true k = refl
step_seated false k = next_lem k

step_benched :
    (b : Bool) (k : ℕ)
    → (if b then next (to_int16 (pos k)) else to_int16 (pos k))
      ≡ to_int16 (pos (if b then suc k else k))
step_benched true k = next_lem k
step_benched false k = refl

index_lem :
    (b : Bool) (i j : ℕ)
    → (if b then to_int16 (pos i) else to_int16 (pos j)) ≡ to_int16 (pos (if b then i else j))
index_lem true i j = refl
index_lem false i j = refl

-- A slot as the board asks for it: the next index of its half.
abbrev pub Written : ℕ → ℕ → List Placement → List Assignment → Type 0
Written seated benched [] [] = Unit
Written seated benched (p ∷ ps) (a ∷ out) =
    (a.character_id ≡ p.character_id)
    × (some a.role ≡ p.role)
    × (a.is_bench ≡ p.is_bench)
    × (a.slot_index ≡ to_int16 (pos (if p.is_bench then benched else seated)))
    × Written (if p.is_bench then seated else suc seated)
        (if p.is_bench then suc benched else benched) ps out
Written seated benched _ _ = ⊥

abbrev pub placement_id : Placement → ℕ
placement_id p = p.character_id

-- What the schema asks of a board: distinct characters, each with a role.
abbrev pub HasRole : Placement → Type 0
HasRole p = is_ok p.role ≡ true

abbrev Unseen : List ℕ → List Placement → Type 0
Unseen seen ps = All (λ p. is_seen p.character_id seen ≡ false) ps

Unseen-cons :
    (id : ℕ) (seen : List ℕ) (ps : List Placement)
    → All (λ q. placement_id q ≢ id) ps
    → Unseen seen ps
    → Unseen (id ∷ seen) ps
unfolding is_seen
Unseen-cons id seen ps apart un =
    All-mono _ _ (λ q h. ground (arith, h.0, h.1)) ps (All-and _ _ ps apart un)

Unseen-uncons :
    (id : ℕ) (seen : List ℕ) (ps : List Placement)
    → Unseen (id ∷ seen) ps
    → All (λ q. placement_id q ≢ id) ps × Unseen seen ps
unfolding is_seen
Unseen-uncons id seen ps un =
    (All-mono _ _ (λ q h. ground (arith, h)) ps un, All-mono _ _ (λ q h. ground (arith, h)) ps un)

manual_slots_total :
    (ps : List Placement) (seen : List ℕ) (seated benched : ℕ)
    → Unique placement_id ps
    → All HasRole ps
    → Unseen seen ps
    → (out : List Assignment) × (manual_slots ps seen
          (to_int16 (pos seated))
          (to_int16 (pos benched))
        ≡ ok out)
      × Written seated benched ps out
unfolding manual_slots
manual_slots_total [] seen seated benched u r un = ([], refl, tt)
manual_slots_total (p ∷ ps) seen seated benched u r un = elim (Option-cases p.role) [
  | inl e ↦ absurd (ground (arith, r.0, e))
  | inr (role, e) ↦
      let un' = Unseen-cons p.character_id seen ps u.0 un.1 in
      let (out, h, w) =
        manual_slots_total ps (p.character_id ∷ seen) (if p.is_bench then seated else suc seated)
          (if p.is_bench then suc benched else benched) u.1 r.1 un' in
      (
        slot p role (if p.is_bench then to_int16 (pos benched) else to_int16 (pos seated)) ∷ out,
        rw
            (
              un.0,
              e,
              manual_slots,
              step_seated p.is_bench seated,
              step_benched p.is_bench benched,
              h,
            )
            refl,
        (refl, rw e refl, refl, index_lem p.is_bench benched seated, w),
      )
]

prepend-ok :
    (a : Assignment) (b : Board) (out : List Assignment)
    → prepend a b ≡ ok out
    → (rest : List Assignment) × (b ≡ ok rest)
prepend-ok a (ok rest) out h = (rest, refl)
prepend-ok a (err e) out h = absurd (ground (arith, h))

-- An accepted board has distinct characters, each with a role.
manual_slots-ok :
    (ps : List Placement) (seen : List ℕ) (seated benched : ℤ) (out : List Assignment)
    → manual_slots ps seen seated benched ≡ ok out
    → Unique placement_id ps × All HasRole ps × Unseen seen ps
unfolding manual_slots
manual_slots-ok [] seen seated benched out h = (tt, tt, tt)
manual_slots-ok (p ∷ ps) seen seated benched out h =
    elim (Bool-cases (is_seen p.character_id seen)) [
      | inl s ↦ absurd (ground (arith, h, s))
      | inr s ↦ elim (Option-cases p.role) [
        | inl e ↦ absurd (ground (arith, h, s, e))
        | inr (role, e) ↦
            let (rest, h') = prepend-ok _ _ out (rw (s, e, manual_slots) at h) in
            let (u, r, un) = manual_slots-ok ps _ _ _ rest h' in
            let (apart, un') = Unseen-uncons p.character_id seen ps un in
            ((apart, u), (rw e refl, r), (s, un'))
      ]
    ]

-- A board of distinct characters, each with a role, is accepted, and what is written is the board in
-- its order, with the seated and the benched placements each numbered from 0 (as an int16).
pub manual_assignments_total :
    (ps : List Placement)
    → Unique placement_id ps
    → All HasRole ps
    → (out : List Assignment) × (manual_assignments ps ≡ ok out) × Written 0 0 ps out
unfolding manual_assignments wrap
manual_assignments_total ps u r = manual_slots_total ps [] 0 0 u r (All-intro _ (λ p. refl) ps)

-- An accepted board has distinct characters, each with a role; so every other board is refused.
pub manual_assignments-ok :
    (ps : List Placement) (out : List Assignment)
    → manual_assignments ps ≡ ok out
    → Unique placement_id ps × All HasRole ps
unfolding manual_assignments
manual_assignments-ok ps out h =
    let (u, r, un) = manual_slots-ok ps [] (pos 0) (pos 0) out h in (u, r)
