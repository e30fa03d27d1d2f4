-- ===== src/Comp/Examples.antt =====
-- Runs of the assigner on small pools, and its theorems at those pools.
mod Boards
mod Tables
use mathlib.Core.List.Perm
use raider_mate_service.Prelude.{
  ℕ, ◌≤◌, ◌<◌, ◌≡◌, refl, ◌↔◌, ◌⊎◌, true, false, Option, none, some, List, [], ◌∷◌, ◌++◌, map,
  arith, if◌then◌else◌, leb, Unique,
}
use raider_mate_service.Prelude.Int.{pos, negsuc, pos_part, neg_part, leb_ℤ, wrap, ◌+ℤ◌, ◌-ℤ◌}
use raider_mate_service.Prelude.Sort.{sort_by, insert_by}
use raider_mate_service.Prelude.Map.{lookup, insert, delete}
use raider_mate_service.Comp.Types.{
  RoleEnum, mdps, rdps, RoleChoice, Raider, Template, no_roles, not_enough, placed, Mode,
  raid_mythic, mythic_plus, Needs, Group, Result,
}
use raider_mate_service.Comp.Resolve.{
  advisory, resolve, size_for, suggested_tanks, suggested_healers,
}
use raider_mate_service.Comp.Resolve.Bounds.{
  unset, FillsRaid, resolve-FillsRaid, resolve_default, resolve_caps, resolve_overflow,
}
use raider_mate_service.Comp.Roles.{
  group_priority, can_play, choose_dps_role, place_in_group, is_open, group_for_role,
}
use raider_mate_service.Comp.Rank.{
  less_candidate, rank_of, signed_up_before, Candidate, rank_candidates, signup_ranks,
}
use raider_mate_service.Comp.Rank.Order.{raider_id, rank_candidates_order}
use raider_mate_service.Comp.Fill.{
  Seating, Assigned, count_side, recount, free_candidates, seat, take_candidates, fill_group,
  backfill, movable_candidates, try_swap_into, got_of, set_got, need_of, repair_round, repair,
}
use raider_mate_service.Comp.Assign.{
  fill_groups, scarcity_order, no_seats, without_roles, assign_advisories, with_roles, pool_needs,
  final_seating, assign,
}
use raider_mate_service.Comp.Fill.Sound.{IsSound, find_raider}
use raider_mate_service.Comp.Fill.Take.{Fills, fill_group-IsSound, fill_group-Fills}
use raider_mate_service.Comp.Fill.Swap.{Gains, try_swap_into-Gains}
use raider_mate_service.Comp.Fill.Repair.{IsSeated, IsSettled, repair_lem}
use raider_mate_service.Comp.Assign.Seats.{filled-IsSeated}
use raider_mate_service.Comp.Roles.Menu.{IsSeat, IsBestSeat, place_in_group-IsBestSeat}
use raider_mate_service.Comp.Assign.Counts.{seat_count}
use raider_mate_service.Comp.Assign.Slots.{IsComp, assign_total}
use raider_mate_service.Comp.Assign.Limits.{IsWithin, assign-IsWithin, assign-IsSettled, in_group}

abbrev choice : RoleEnum → ℕ → RoleChoice
choice role priority = record { role = role; priority = priority }

-- The only healer signed up first and prefers to tank.
abbrev flex : Raider
flex = record {
  character_id = 1;
  name = "Flex";
  roles = choice RoleEnum.tank 1 ∷ choice RoleEnum.healer 2 ∷ [];
  is_main = true;
  score = 620;
  signed_up_at = 10;
}

abbrev second_tank : Raider
second_tank = record {
  character_id = 2;
  name = "Shield";
  roles = choice RoleEnum.tank 2 ∷ [];
  is_main = true;
  score = 640;
  signed_up_at = 20;
}

abbrev blade : Raider
blade = record {
  character_id = 3;
  name = "Blade";
  roles = choice mdps 1 ∷ choice rdps 2 ∷ [];
  is_main = false;
  score = 630;
  signed_up_at = 30;
}

abbrev roleless : Raider
roleless = record {
  character_id = 4;
  name = "Blank";
  roles = [];
  is_main = true;
  score = 600;
  signed_up_at = 5;
}

abbrev pool : List Raider
pool = flex ∷ second_tank ∷ blade ∷ roleless ∷ []

pool-Unique : Unique raider_id pool
pool-Unique = omega arith

-- The assigner with all that it computes with.
run : List Raider → Template → Mode → Option Result
unfolding assign sort_by insert_by lookup insert delete size_for suggested_tanks suggested_healers
    resolve wrap ◌+ℤ◌ ◌-ℤ◌ can_play group_priority choose_dps_role place_in_group less_candidate
    rank_of rank_candidates signed_up_before signup_ranks count_side recount free_candidates seat
    take_candidates fill_group backfill movable_candidates try_swap_into got_of set_got need_of
    repair_round repair final_seating pool_needs with_roles without_roles assign_advisories
run = assign

seats_of : Option Result → List (ℕ × RoleEnum)
seats_of none = []
seats_of (some r) = map (λ a. (a.character_id, a.role)) r.assignments

-- The repair pass moves the flex raider to the healer seat and seats the second tank.
repaired :
    seats_of (run pool unset mythic_plus)
    ≡ (2, RoleEnum.tank) ∷ (1, RoleEnum.healer) ∷ (3, mdps) ∷ []
unfolding run seats_of
repaired = refl

abbrev chosen : Result
chosen = record {
  assignments =
      record {
        character_id = 2;
        role = RoleEnum.tank;
        slot_index = pos 0;
        is_bench = false;
        reason = placed Group.tank 2 true 1;
      }
      ∷ record {
        character_id = 1;
        role = RoleEnum.healer;
        slot_index = pos 1;
        is_bench = false;
        reason = placed Group.healer 2 true 0;
      }
      ∷ record {
        character_id = 3;
        role = mdps;
        slot_index = pos 2;
        is_bench = false;
        reason = placed Group.dps 1 false 2;
      }
      ∷ [];
  advisories = advisory none (no_roles "Blank") ++ advisory none (not_enough Group.dps 1 (pos 3));
}

pool_returned : assign pool unset mythic_plus ≡ some chosen
unfolding run
pool_returned = refl

assign_total_example :
    (result : Result) × (assign pool unset mythic_plus ≡ some result)
    × IsComp (with_roles pool) result.assignments
assign_total_example = assign_total pool unset mythic_plus

assign-IsWithin_example :
    IsWithin (pool_needs (with_roles pool) unset mythic_plus).0 chosen.assignments
assign-IsWithin_example = assign-IsWithin pool unset mythic_plus chosen pool-Unique pool_returned

assign-IsSettled_example :
    let raiders = with_roles pool in
    let needs = (pool_needs raiders unset mythic_plus).0 in
    let s = final_seating raiders unset mythic_plus in
    (got_of s.got Group.dps ≡ seat_count (in_group Group.dps) chosen.assignments)
    × ((leb_ℤ (need_of needs Group.dps) (pos (seat_count (in_group Group.dps) chosen.assignments))
          ≡ true)
        ⊎ (try_swap_into raiders s.assigned Group.dps needs (signup_ranks raiders) ≡ none))
assign-IsSettled_example =
    assign-IsSettled pool unset mythic_plus chosen pool-Unique pool_returned Group.dps

abbrev able : List Raider
able = flex ∷ second_tank ∷ blade ∷ []

able-Unique : Unique raider_id able
able-Unique = omega arith

abbrev five : Needs
five = record {
  tanks = pos 1;
  healers = pos 1;
  dps = pos 3;
  max_melee = some (pos 1);
  max_ranged = none;
}

filled : Seating
filled = fill_groups able five (signup_ranks able) (scarcity_order five) no_seats

repair_lem_example :
    let s' = repair able five (signup_ranks able) able filled in
    IsSeated able five s'
    × ((g : Group) → got_of filled.got g ≤ got_of s'.got g)
    × IsSettled able five (signup_ranks able) s'
unfolding filled
repair_lem_example =
    repair_lem able five able-Unique (signup_ranks able) _
      (filled-IsSeated able five (signup_ranks able) able-Unique)

-- Only the flex raider is seated, as a tank.
abbrev lone : Assigned
lone = (1, record { role = RoleEnum.tank; group = Group.tank; priority = 1 }) ∷ []

abbrev helped : Assigned
helped =
    (2, record { role = RoleEnum.tank; group = Group.tank; priority = 2 })
    ∷ (1, record { role = RoleEnum.healer; group = Group.healer; priority = 2 })
    ∷ []

lone-IsSound : IsSound able five lone
unfolding find_raider can_play group_for_role recount
lone-IsSound = record {
  keys = (tt, tt);
  offered = ((refl, refl), tt);
  melee = omega arith;
  ranged = tt;
}

lone-helped : try_swap_into able lone Group.healer five (signup_ranks able) ≡ some helped
unfolding run
lone-helped = refl

try_swap_into-Gains_example : IsSound able five helped × Gains Group.healer lone helped
try_swap_into-Gains_example =
    try_swap_into-Gains able five able-Unique (signup_ranks able) Group.healer lone lone-IsSound
      lone-helped

fill_group-Fills_example :
    Fills Group.dps lone 0 (fill_group able lone Group.dps (pos 3) five (signup_ranks able))
    × ((fill_group able lone Group.dps (pos 3) five (signup_ranks able)).1 ≤ 3)
fill_group-Fills_example =
    fill_group-Fills able lone Group.dps (pos 3) five (signup_ranks able) able-Unique lone-IsSound

place_in_group-IsBestSeat_example :
    ((role : RoleEnum) × (p : ℕ) × (place_in_group blade Group.dps five 0 0 ≡ some (role, p))
      × IsBestSeat blade Group.dps five 0 0 role p)
    ⊎ ((place_in_group blade Group.dps five 0 0 ≡ none)
        × (¬ ((role : RoleEnum) × (p : ℕ) × IsSeat blade Group.dps five 0 0 role p)))
place_in_group-IsBestSeat_example = place_in_group-IsBestSeat blade Group.dps five 0 0

abbrev as_tank : Raider → ℕ → Candidate
as_tank r p = record { raider = r; priority = p }

rank_candidates_order_example :
    rank_candidates (signup_ranks able) (as_tank flex 1 ∷ as_tank second_tank 2 ∷ [])
    ≡ rank_candidates (signup_ranks able) (as_tank second_tank 2 ∷ as_tank flex 1 ∷ [])
rank_candidates_order_example =
    rank_candidates_order (signup_ranks able) (Perm.swap _ _ []) (omega arith)

-- More tanks and healers than the raid has seats.
abbrev greedy : Template
greedy = record {
  tanks = some (pos 12);
  healers = some (pos 40);
  max_melee = some (negsuc 2);
  max_ranged = none;
}

resolve-FillsRaid_example : FillsRaid (resolve greedy raid_mythic 25).0 (size_for raid_mythic 25)
resolve-FillsRaid_example = resolve-FillsRaid greedy raid_mythic 25 (omega arith)

abbrev endless : Template
endless = record unset { healers = some (pos 9223372036854775807) }

resolve_overflow_example :
    ((resolve endless raid_mythic 20).0.healers ≡ pos 9223372036854775807)
    × (0 < neg_part (resolve endless raid_mythic 20).0.dps)
unfolding run
resolve_overflow_example =
    resolve_overflow endless raid_mythic 20 9223372036854775807 refl (omega arith) (omega arith)
