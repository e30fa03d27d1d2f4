-- ===== src/Comp/Fill/Repair.antt =====
-- The repair pass: it keeps the invariant, only adds seats, and its bound never cuts it short.
use raider_mate_service.Prelude.{
  ℕ, suc, ◌+◌, ◌≤◌, ◌≡◌, ap, ◌⊎◌, subst, true, false, none, some, List, [], ◌∷◌, arith,
  if◌then◌else◌, All, Unique, Bool-cases, Option-cases, inl, inr, length,
}
use raider_mate_service.Prelude.Int.{pos, pos_part, leb_ℤ}
use raider_mate_service.Prelude.Map.{
  Assoc, entry_key, lookup, delete, delete_absent, count_if-delete, count_if-true, Unique-delete,
}
use raider_mate_service.Comp.Types.{Raider, Group, tank, healer, dps, Needs}
use raider_mate_service.Comp.Rank.Order.{raider_id}
use raider_mate_service.Comp.Fill.{
  Assigned, group_eq, Seating, GroupCounts, got_of, set_got, need_of, order, try_swap_into,
  repair_round, repair,
}
use raider_mate_service.Comp.Fill.Count.{group_count, group_eq-true}
use raider_mate_service.Comp.Fill.Sound.{offered-delete, find_raider, Offers, IsSound}
use raider_mate_service.Comp.Fill.Take.{room_below}
use raider_mate_service.Comp.Fill.Swap.{try_swap_into-Gains}

-- A map whose keys are distinct ids of the pool has no more entries than the pool.
fits_pool :
    (raiders : List Raider) (assigned : Assigned)
    → Unique entry_key assigned
    → All (λ e. Offers (find_raider raiders (entry_key e)) e.1) assigned
    → length assigned ≤ length raiders
unfolding find_raider
fits_pool [] [] u h = omega arith
fits_pool [] (e ∷ assigned) u h = absurd h.0
fits_pool (r ∷ rs) assigned u h =
    let id = r.character_id in
    let rest = delete id assigned in
    let less = fits_pool rs rest (Unique-delete id assigned u) (offered-delete r rs assigned h) in
    elim (Option-cases (lookup id assigned)) [
      | inl e ↦ omega (arith, ap (λ (a : Assigned). length a) (delete_absent id assigned e))
      | inr (pl, e) ↦ omega (
        arith,
        count_if-true assigned,
        count_if-true rest,
        count_if-delete (λ e. true) id assigned u e,
      )
    ]

-- The map and the counts agree, and no group has more seats than it needs.
pub record IsSeated (raiders : List Raider) (needs : Needs) (s : Seating) : Type 0 where
  pub sound : IsSound raiders needs s.assigned
  pub counted : (g : Group) → got_of s.got g ≡ group_count g s.assigned
  pub bounded : (g : Group) → got_of s.got g ≤ pos_part (need_of needs g)

pub got_of-set_got :
    (got : GroupCounts) (g h : Group) (n : ℕ)
    → got_of (set_got got g n) h ≡ (if group_eq g h then n else got_of got h)
unfolding got_of set_got
got_of-set_got got g h n = ground arith

-- Every group has the seats it needs, or no swap can help it.
abbrev pub IsSettled : List Raider → Needs → Assoc ℕ → Seating → Type 0
IsSettled raiders needs ranks s =
    (g : Group)
    → (leb_ℤ (need_of needs g) (pos (got_of s.got g)) ≡ true)
      ⊎ (try_swap_into raiders s.assigned g needs ranks ≡ none)

module _ (raiders : List Raider) (needs : Needs) (distinct : Unique raider_id raiders)
    (ranks : Assoc ℕ) where
  -- What a round that swaps makes of the seating.
  record Improves (s s' : Seating) : Type 0 where
    seated : IsSeated raiders needs s'
    more : (g : Group) → got_of s.got g ≤ got_of s'.got g
    grown : length s'.assigned ≡ suc (length s.assigned)

  swapped-Improves :
      (g : Group) (s : Seating) (after : Assigned)
      → IsSeated raiders needs s
      → leb_ℤ (need_of needs g) (pos (got_of s.got g)) ≡ false
      → try_swap_into raiders s.assigned g needs ranks ≡ some after
      → Improves s (record { assigned = after; got = set_got s.got g (suc (got_of s.got g)) })
  swapped-Improves g s after v short h =
      let (sound, gains) =
        try_swap_into-Gains raiders needs distinct ranks g s.assigned v.sound h in
      record {
        seated = record {
          sound = sound;
          counted = λ k. ground (
            arith,
            got_of-set_got s.got g k (suc (got_of s.got g)),
            gains.seats k,
            v.counted k,
            group_eq-true g k,
          );
          bounded = λ k. ground (
            arith,
            got_of-set_got s.got g k (suc (got_of s.got g)),
            v.bounded k,
            room_below (need_of needs g) (got_of s.got g),
            group_eq-true g k,
          );
        };
        more =
            λ k. ground (arith, got_of-set_got s.got g k (suc (got_of s.got g)), group_eq-true g k);
        grown = gains.grown;
      }

  repair_round-Improves :
      (groups : List Group) (s : Seating) {s' : Seating}
      → IsSeated raiders needs s
      → repair_round raiders needs ranks groups s ≡ some s'
      → Improves s s'
  unfolding repair_round
  repair_round-Improves [] s v h = cc
  repair_round-Improves (g ∷ groups) s {s'} v h =
      elim (Bool-cases (leb_ℤ (need_of needs g) (pos (got_of s.got g)))) [
        | inl full ↦ repair_round-Improves groups s v (rw (full, repair_round) at h)
        | inr short ↦ elim (Option-cases (try_swap_into raiders s.assigned g needs ranks)) [
          | inl e ↦ repair_round-Improves groups s v (rw (short, repair_round, e) at h)
          | inr (after, e) ↦
              let same : record { assigned = after; got = set_got s.got g (suc (got_of s.got g)) }
                  ≡ s' =
                ground (arith, short, e, h) in
              subst (Improves s) same (swapped-Improves g s after v short e)
        ]
      ]

  settled :
      (s : Seating)
      → repair_round raiders needs ranks order s ≡ none
      → IsSettled raiders needs ranks s
  unfolding repair_round
  settled s h tank = ground arith
  settled s h healer = ground arith
  settled s h dps = ground arith

  record Repairs (s s' : Seating) : Type 0 where
    seated : IsSeated raiders needs s'
    more : (g : Group) → got_of s.got g ≤ got_of s'.got g
    done : repair_round raiders needs ranks order s' ≡ none

  repair-Repairs :
      (rounds : List Raider) (s : Seating)
      → length raiders ≤ length s.assigned + length rounds
      → IsSeated raiders needs s
      → Repairs s (repair raiders needs ranks rounds s)
  unfolding repair
  repair-Repairs [] s fuel v = record {
    seated = v;
    more = λ g. omega arith;
    done = elim (Option-cases (repair_round raiders needs ranks order s)) [
      | inl e ↦ e
      | inr (s', e) ↦
          let i = repair_round-Improves order s v e in
          absurd (
            omega (
              arith,
              i.grown,
              fits_pool raiders s'.assigned i.seated.sound.keys i.seated.sound.offered,
            ))
    ];
  }
  repair-Repairs (r ∷ rounds) s fuel v =
      elim (Option-cases (repair_round raiders needs ranks order s)) [
        | inl e ↦ rw (e, repair) (record { seated = v; more = λ g. omega arith; done = e })
        | inr (s', e) ↦
            let i = repair_round-Improves order s v e in
            let rest = repair-Repairs rounds s' (omega (arith, i.grown)) i.seated in
            rw (e, repair)
              (record {
                seated = rest.seated;
                more = λ g. omega (arith, i.more g, rest.more g);
                done = rest.done;
              })
      ]

  -- The repair pass keeps the map sound and in step with `got`, takes a seat from no group, fills
  -- no group past its need, and ends only when no swap can help a short group: a round for each
  -- raider is always enough.
  pub repair_lem :
      (s : Seating)
      → IsSeated raiders needs s
      → let s' = repair raiders needs ranks raiders s in
        IsSeated raiders needs s'
        × ((g : Group) → got_of s.got g ≤ got_of s'.got g)
        × IsSettled raiders needs ranks s'
  repair_lem s v =
      let r = repair-Repairs raiders s (omega arith) v in (r.seated, r.more, settled _ r.done)
