-- ===== src/Comp/Advise.antt =====
-- Advise of internal/comp/advise.go: what a board says about itself when it is read.
pub mod Laws
use raider_mate_service.Prelude.{ℕ, zero, suc, List, [], ◌∷◌, ◌++◌, length, if◌then◌else◌}
use raider_mate_service.Prelude.Int.{pos, ltb_ℤ}
use raider_mate_service.Comp.Types.{
  Template, Mode, Needs, Group, Advisory, seats_missing, Assignment,
}
use raider_mate_service.Comp.Resolve.{advisory, resolve}
use raider_mate_service.Comp.Roles.{group_for_role}
use raider_mate_service.Comp.Fill.{GroupCounts, got_of, set_got, need_of, order}
use raider_mate_service.Comp.Assign.{role_for_group}

-- The loop over the slots; the bench is on the board but not in the raid.
unfoldable pub count_seats : GroupCounts → List Assignment → GroupCounts
unfolding group_for_role set_got got_of
count_seats seated [] = seated
count_seats seated (a ∷ slots) =
    let g = group_for_role a.role in
    count_seats (if a.is_bench then seated else set_got seated g (suc (got_of seated g))) slots

unfoldable pub missing_advisories : Needs → GroupCounts → List Group → List Advisory
unfolding role_for_group
missing_advisories needs seated [] = []
missing_advisories needs seated (g ∷ groups) =
    let rest = missing_advisories needs seated groups in
    if ltb_ℤ (pos (got_of seated g)) (need_of needs g)
    then advisory (role_for_group g) (seats_missing g (got_of seated g) (need_of needs g)) ++ rest
    else rest

unfoldable pub advise : List Assignment → Template → Mode → List Advisory
unfolding count_seats missing_advisories
advise [] tmpl mode = []
advise (a ∷ slots) tmpl mode =
    let (needs, advisories) = resolve tmpl mode (length (a ∷ slots)) in
    let seated = count_seats (record { tanks = 0; healers = 0; dps = 0 }) (a ∷ slots) in
    advisories ++ missing_advisories needs seated order
