-- ===== src/Comp/Assign.antt =====
-- Assign of internal/comp/assign.go: the four passes, and the slots that they write.
-- An index out of range, a panic in Go, is `none`.
pub mod Seats
pub mod Slots
pub mod Counts
pub mod Limits
use mathlib.Core.Option
use raider_mate_service.Prelude.{
  ℕ, zero, suc, ◌+◌, Bool, true, false, not, Option, none, some, List, [], ◌∷◌, ◌++◌, ltb, ◌==◌,
  if◌then◌else◌, length, map,
}
use raider_mate_service.Prelude.Int.{pos, ltb_ℤ, to_int16}
use raider_mate_service.Prelude.Sort.{sort_by}
use raider_mate_service.Prelude.Map.{Assoc, lookup}
use raider_mate_service.Comp.Types.{
  RoleEnum, RoleChoice, Mode, Raider, Template, Needs, Group, tank, healer, dps, Advisory, Reason,
  no_roles, not_enough, placed, benched, Assignment, Result,
}
use raider_mate_service.Comp.Resolve.{resolve, advisory}
use raider_mate_service.Comp.Roles.{is_ok}
use raider_mate_service.Comp.Rank.{less_candidate, signed_up_before, rank_of, signup_ranks}
use raider_mate_service.Comp.Fill.{
  Placement, Assigned, Seating, order, need_of, got_of, set_got, fill_group, repair,
}

abbrev has_no_roles : Raider → Bool
has_no_roles r = elim r.roles [ [] ↦ true | _ ↦ false ]

-- partitionByRoleMenu, its two results.
unfoldable pub with_roles : List Raider → List Raider
with_roles [] = []
with_roles (r ∷ rs) = let rest = with_roles rs in if has_no_roles r then rest else r ∷ rest

unfoldable pub without_roles : List Raider → List Raider
without_roles [] = []
without_roles (r ∷ rs) = let rest = without_roles rs in if has_no_roles r then r ∷ rest else rest

skipped_advisories : List Raider → List Advisory
skipped_advisories [] = []
skipped_advisories (r ∷ rs) = advisory none (no_roles r.name) ++ skipped_advisories rs

-- Scarcest need first.
unfoldable pub scarcity_order : Needs → List Group
scarcity_order needs = sort_by (λ g h. ltb_ℤ (need_of needs g) (need_of needs h)) order

-- Passes 1 and 2: for _, g := range groups { got[g.name] = fillGroup(…) }
unfoldable pub fill_groups : List Raider → Needs → Assoc ℕ → List Group → Seating → Seating
unfolding fill_group
fill_groups raiders needs ranks [] s = s
fill_groups raiders needs ranks (g ∷ groups) s =
    let (assigned, took) = fill_group raiders s.assigned g (need_of needs g) needs ranks in
    fill_groups raiders needs ranks groups
      (record { assigned = assigned; got = set_got s.got g took })

abbrev pub no_seats : Seating
no_seats = record { assigned = []; got = record { tanks = 0; healers = 0; dps = 0 } }

-- Passes 1 to 3.
unfoldable pub seat_raiders : List Raider → Needs → Assoc ℕ → Seating
unfolding scarcity_order fill_groups repair
seat_raiders raiders needs ranks =
    repair raiders needs ranks raiders
      (fill_groups raiders needs ranks (scarcity_order needs) no_seats)

unfoldable pub role_for_group : Group → Option RoleEnum
role_for_group tank = some RoleEnum.tank
role_for_group healer = some RoleEnum.healer
role_for_group dps = none

unfoldable pub shortage_advisories : Needs → Seating → List Group → List Advisory
unfolding role_for_group
shortage_advisories needs s [] = []
shortage_advisories needs s (g ∷ groups) =
    let rest = shortage_advisories needs s groups in
    if ltb_ℤ (pos (got_of s.got g)) (need_of needs g)
    then advisory (role_for_group g) (not_enough g (got_of s.got g) (need_of needs g)) ++ rest
    else rest

-- A raider of `assignedList` with their entry of the map `assigned`, which the source looks up anew.
pub record Seated : Type 0 where
  pub raider : Raider
  pub placement : Placement

abbrev with_seat : Raider → Option Placement → List Seated → List Seated
with_seat r none rest = rest
with_seat r (some pl) rest = record { raider = r; placement = pl } ∷ rest

-- The loop that splits the raiders into `assignedList` and `benchList`.
unfoldable pub assigned_list : List Raider → Assigned → List Seated
assigned_list [] assigned = []
assigned_list (r ∷ rs) assigned =
    with_seat r (lookup r.character_id assigned) (assigned_list rs assigned)

unfoldable pub bench_list : List Raider → Assigned → List Raider
bench_list [] assigned = []
bench_list (r ∷ rs) assigned =
    let rest = bench_list rs assigned in
    if is_ok (lookup r.character_id assigned) then rest else r ∷ rest

group_order : Group → ℕ
group_order tank = 0
group_order healer = 1
group_order dps = 2

-- Tanks, healers, DPS, and the ranking of candidates within a group.
unfoldable pub seated_before : Assoc ℕ → Seated → Seated → Bool
unfolding group_order
seated_before ranks a b =
    if not (group_order a.placement.group == group_order b.placement.group)
    then ltb (group_order a.placement.group) (group_order b.placement.group)
    else less_candidate ranks (record { raider = a.raider; priority = a.placement.priority })
        (record { raider = b.raider; priority = b.placement.priority })

unfoldable pub bench_before : Assoc ℕ → Raider → Raider → Bool
bench_before ranks a b =
    let rank_a = rank_of ranks a.character_id in
    let rank_b = rank_of ranks b.character_id in
    if not (rank_a == rank_b) then ltb rank_a rank_b else ltb a.character_id b.character_id

-- The loop of benchRole after its first choice.
least_choice : RoleChoice → List RoleChoice → RoleChoice
least_choice best [] = best
least_choice best (rc ∷ rest) =
    least_choice (if ltb rc.priority best.priority then rc else best) rest

-- r.Roles[0] of an empty menu is out of range.
unfoldable pub bench_role : Raider → Option RoleEnum
unfolding least_choice
bench_role r = elim r.roles [ [] ↦ none | rc ∷ rest ↦ some (least_choice rc rest).role ]

-- The slots of the seated raiders from index `i` on.
unfoldable pub seat_slots : Assoc ℕ → ℕ → List Seated → List Assignment
seat_slots ranks i [] = []
seat_slots ranks i (s ∷ seated) =
    record {
      character_id = s.raider.character_id;
      role = s.placement.role;
      slot_index = to_int16 (pos i);
      is_bench = false;
      reason =
          placed s.placement.group s.placement.priority s.raider.is_main
            (rank_of ranks s.raider.character_id);
    }
    ∷ seat_slots ranks (suc i) seated

abbrev bench_slot : Assoc ℕ → ℕ → Raider → RoleEnum → Assignment
bench_slot ranks i r role = record {
  character_id = r.character_id;
  role = role;
  slot_index = to_int16 (pos i);
  is_bench = true;
  reason = benched (rank_of ranks r.character_id);
}

unfoldable pub bench_slots : Assoc ℕ → ℕ → List Raider → Option (List Assignment)
unfolding bench_role
bench_slots ranks i [] = some []
bench_slots ranks i (r ∷ rs) = elim (bench_role r) [
  | none ↦ none
  | some role ↦ Option.map (λ rest. bench_slot ranks i r role ∷ rest) (bench_slots ranks (suc i) rs)
]

unfoldable pub build_assignments : List Raider → Assigned → Assoc ℕ → Option (List Assignment)
unfolding assigned_list bench_list seated_before bench_before seat_slots bench_slots
build_assignments raiders assigned ranks =
    Option.map
      (λ bench.
        seat_slots ranks 0 (sort_by (seated_before ranks) (assigned_list raiders assigned))
        ++ bench)
      (bench_slots ranks 0 (sort_by (bench_before ranks) (bench_list raiders assigned)))

-- The needs, the ranks and the seating that Assign computes from the raiders with a role.
unfoldable pub pool_needs : List Raider → Template → Mode → Needs × List Advisory
pool_needs raiders tmpl mode = resolve tmpl mode (length raiders)

unfoldable pub final_seating : List Raider → Template → Mode → Seating
unfolding pool_needs seat_raiders
final_seating raiders tmpl mode =
    seat_raiders raiders (pool_needs raiders tmpl mode).0 (signup_ranks raiders)

unfoldable pub assign_advisories : List Raider → Template → Mode → List Advisory
unfolding with_roles without_roles skipped_advisories shortage_advisories final_seating
assign_advisories pool tmpl mode =
    let raiders = with_roles pool in
    let (needs, advisories) = pool_needs raiders tmpl mode in
    advisories
    ++ skipped_advisories (without_roles pool)
    ++ shortage_advisories needs (final_seating raiders tmpl mode) order

unfoldable pub assign : List Raider → Template → Mode → Option Result
unfolding assign_advisories build_assignments
assign pool tmpl mode =
    let raiders = with_roles pool in
    Option.map
      (λ assignments. record {
        assignments = assignments;
        advisories = assign_advisories pool tmpl mode;
      })
      (build_assignments raiders (final_seating raiders tmpl mode).assigned (signup_ranks raiders))
