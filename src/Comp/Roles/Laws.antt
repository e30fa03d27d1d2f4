-- ===== src/Comp/Roles/Laws.antt =====
-- What placing a raider in a group guarantees, and when it is refused.
use raider_mate_service.Prelude.{
  ℕ, ◌≡◌, ◌↔◌, ◌⊎◌, Bool, true, false, Option, none, some, arith, leb, if◌then◌else◌,
}
use raider_mate_service.Prelude.Int.{ℤ}
use raider_mate_service.Comp.Types.{RoleEnum, mdps, rdps, Raider, Group, Needs}
use raider_mate_service.Comp.Roles.{
  can_play, group_priority, is_open, choose_dps_role, place_in_group, group_for_role,
}

-- The cap that a role counts against, and the count.
abbrev pub side_open : Needs → RoleEnum → ℕ → ℕ → Bool
side_open needs mdps melee ranged = is_open needs.max_melee melee
side_open needs rdps melee ranged = is_open needs.max_ranged ranged
side_open needs _ melee ranged = true

-- A role, a priority and a side that placeInGroup has found by its own tests.
pub place_in_group_sound :
    (r : Raider) (g : Group) (needs : Needs) (melee ranged : ℕ) {role : RoleEnum} {p : ℕ}
    → place_in_group r g needs melee ranged ≡ some (role, p)
    → (can_play r role ≡ some p)
      × (group_for_role role ≡ g)
      × (side_open needs role melee ranged ≡ true)
unfolding place_in_group choose_dps_role group_for_role
place_in_group_sound r Group.tank needs melee ranged h = ground arith
place_in_group_sound r Group.healer needs melee ranged h = ground arith
place_in_group_sound r Group.dps needs melee ranged h = ground arith

-- A raider is refused a DPS seat exactly when each side is full or not on their menu.
pub choose_dps_role-none_iff :
    (r : Raider) (max_melee max_ranged : Option ℤ) (melee ranged : ℕ)
    → (choose_dps_role r max_melee max_ranged melee ranged ≡ none) ↔ (
        ((can_play r mdps ≡ none) ⊎ (is_open max_melee melee ≡ false))
        × ((can_play r rdps ≡ none) ⊎ (is_open max_ranged ranged ≡ false)))
unfolding choose_dps_role
choose_dps_role-none_iff r max_melee max_ranged melee ranged =
    (λ h. ground arith, λ h. ground arith)

-- A raider who plays both sides gets the one of the lower priority number, melee on a tie, while
-- both are open.
pub choose_dps_role-preferred :
    (r : Raider) (max_melee max_ranged : Option ℤ) (melee ranged m n : ℕ)
    → can_play r mdps ≡ some m
    → can_play r rdps ≡ some n
    → is_open max_melee melee ≡ true
    → is_open max_ranged ranged ≡ true
    → choose_dps_role r max_melee max_ranged melee ranged ≡ some (if leb m n then mdps else rdps)
unfolding choose_dps_role
choose_dps_role-preferred r max_melee max_ranged melee ranged m n hm hn om or = ground arith

-- Whoever can be placed in a group can play it.
pub place_in_group-group_priority :
    (r : Raider) (g : Group) (needs : Needs) (melee ranged : ℕ)
    → group_priority r g ≡ none
    → place_in_group r g needs melee ranged ≡ none
unfolding place_in_group choose_dps_role group_priority
place_in_group-group_priority r Group.tank needs melee ranged h = ground arith
place_in_group-group_priority r Group.healer needs melee ranged h = ground arith
place_in_group-group_priority r Group.dps needs melee ranged h = ground arith
