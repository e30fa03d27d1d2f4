-- ===== src/Comp/Assign/Seats.antt =====
-- The seats that the passes hand out: sound, within the needs, and beyond repair by a swap.
use raider_mate_service.Prelude.{
  ℕ, ◌≡◌, ◌≢◌, refl, false, List, [], ◌∷◌, arith, All, All-intro, All-mono, All-and, Unique,
}
use raider_mate_service.Prelude.Int.{ltb_ℤ}
use raider_mate_service.Prelude.Sort.{Unique-sort_by}
use raider_mate_service.Prelude.Map.{Assoc, count_if}
use raider_mate_service.Comp.Types.{Raider, Group, tank, healer, dps, Needs}
use raider_mate_service.Comp.Rank.Order.{raider_id}
use raider_mate_service.Comp.Fill.{Seating, group_eq, got_of, set_got, need_of, order, fill_group}
use raider_mate_service.Comp.Fill.Count.{group_count, group_eq-true}
use raider_mate_service.Comp.Fill.Sound.{empty-IsSound}
use raider_mate_service.Comp.Fill.Take.{fill_group-IsSound, fill_group-Fills}
use raider_mate_service.Comp.Fill.Repair.{IsSeated, IsSettled, got_of-set_got, repair_lem}
use raider_mate_service.Comp.Assign.{scarcity_order, fill_groups, no_seats, seat_raiders}

abbrev group_index : Group → ℕ
group_index tank = 0
group_index healer = 1
group_index dps = 2

other_group : (g h : Group) → group_index h ≢ group_index g → group_eq g h ≡ false
other_group g h n = ground arith

scarcity_order-Unique : (needs : Needs) → Unique group_index (scarcity_order needs)
unfolding scarcity_order
scarcity_order-Unique needs =
    Unique-sort_by (λ g h. ltb_ℤ (need_of needs g) (need_of needs h)) group_index order
      (omega arith)

no_seats-IsSeated : (raiders : List Raider) (needs : Needs) → IsSeated raiders needs no_seats
unfolding got_of count_if
no_seats-IsSeated raiders needs = record {
  sound = empty-IsSound raiders needs;
  counted = λ g. ground arith;
  bounded = λ g. ground arith;
}

no_count : (g : Group) → group_count g [] ≡ 0
unfolding count_if
no_count g = refl

module _ (raiders : List Raider) (needs : Needs) (ranks : Assoc ℕ)
    (distinct : Unique raider_id raiders) where
  fill_groups-IsSeated :
      (groups : List Group) (s : Seating)
      → Unique group_index groups
      → All (λ g. group_count g s.assigned ≡ 0) groups
      → IsSeated raiders needs s
      → IsSeated raiders needs (fill_groups raiders needs ranks groups s)
  unfolding fill_groups
  fill_groups-IsSeated [] s u e v = v
  fill_groups-IsSeated (g ∷ groups) s u e v =
      let need = need_of needs g in
      let filled = fill_group raiders s.assigned g need needs ranks in
      let (fills, most) = fill_group-Fills raiders s.assigned g need needs ranks distinct v.sound in
      fill_groups-IsSeated groups (record { assigned = filled.0; got = set_got s.got g filled.1 })
        u.1
        (All-mono _ _ (λ h k. ground (arith, fills.seats h, other_group g h k.0, k.1)) groups
          (All-and _ _ groups u.0 e.1))
        (record {
          sound = fill_group-IsSound raiders s.assigned g need needs ranks distinct v.sound;
          counted = λ h. ground (
            arith,
            got_of-set_got s.got g h filled.1,
            fills.seats h,
            v.counted h,
            e.0,
            group_eq-true g h,
          );
          bounded = λ h.
              ground
                (arith, got_of-set_got s.got g h filled.1, most, v.bounded h, group_eq-true g h);
        })

  -- The two filling passes.
  pub filled-IsSeated :
      IsSeated raiders needs (fill_groups raiders needs ranks (scarcity_order needs) no_seats)
  filled-IsSeated =
      fill_groups-IsSeated (scarcity_order needs) no_seats (scarcity_order-Unique needs)
        (All-intro _ no_count (scarcity_order needs)) (no_seats-IsSeated raiders needs)

  -- After the three passes the map is sound, its seats are counted group by group and stay within
  -- the needs, and a group that is still short cannot be helped by a swap.
  pub seat_raiders_lem :
      IsSeated raiders needs (seat_raiders raiders needs ranks)
      × IsSettled raiders needs ranks (seat_raiders raiders needs ranks)
  unfolding seat_raiders
  seat_raiders_lem = let r = repair_lem raiders needs distinct ranks _ filled-IsSeated in (r.0, r.2)
