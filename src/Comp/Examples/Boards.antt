-- ===== src/Comp/Examples/Boards.antt =====
-- Runs of manualAssignments and of Advise, and their theorems at small boards.
use raider_mate_service.Prelude.{◌≡◌, refl, true, false, some, List, [], ◌∷◌, ◌++◌, arith}
use raider_mate_service.Prelude.Int.{pos, wrap, ◌+ℤ◌}
use raider_mate_service.Comp.Types.{RoleEnum, mdps, Assignment, by_raid_lead, mythic_plus}
use raider_mate_service.Comp.Resolve.Bounds.{unset}
use raider_mate_service.Comp.Fill.{order}
use raider_mate_service.Comp.Assign.{with_roles, pool_needs, final_seating}
use raider_mate_service.Comp.Advise.{missing_advisories, advise}
use raider_mate_service.Comp.Advise.Laws.{advise-assign}
use raider_mate_service.Comp.Manual.{Placement, ok, err, appears_twice, next, manual_assignments}
use raider_mate_service.Comp.Manual.Laws.{Written, manual_assignments_total}
use raider_mate_service.Comp.Examples.{pool, pool-Unique, chosen, pool_returned}

abbrev at_seat : Placement
at_seat = record { character_id = 7; role = some RoleEnum.tank; is_bench = false }

abbrev at_bench : Placement
at_bench = record { character_id = 8; role = some mdps; is_bench = true }

abbrev pub board : List Placement
board = at_seat ∷ at_bench ∷ []

twice : manual_assignments (at_seat ∷ at_bench ∷ at_seat ∷ []) ≡ err (appears_twice 7)
unfolding manual_assignments next wrap ◌+ℤ◌
twice = refl

abbrev pub written : List Assignment
written =
    record {
      character_id = 7;
      role = RoleEnum.tank;
      slot_index = pos 0;
      is_bench = false;
      reason = by_raid_lead;
    }
    ∷ record {
      character_id = 8;
      role = mdps;
      slot_index = pos 0;
      is_bench = true;
      reason = by_raid_lead;
    }
    ∷ []

run_board : manual_assignments board ≡ ok written
unfolding manual_assignments next wrap ◌+ℤ◌
run_board = refl

manual_assignments_total_example :
    (out : List Assignment) × (manual_assignments board ≡ ok out) × Written 0 0 board out
manual_assignments_total_example = manual_assignments_total board (omega arith) (refl, (refl, tt))

advise-assign_example :
    let raiders = with_roles pool in
    let (needs, advisories) = pool_needs raiders unset mythic_plus in
    advise chosen.assignments unset mythic_plus
    ≡ advisories ++ missing_advisories needs (final_seating raiders unset mythic_plus).got order
advise-assign_example =
    advise-assign pool unset mythic_plus chosen pool-Unique pool_returned (λ e. ground (arith, e))
