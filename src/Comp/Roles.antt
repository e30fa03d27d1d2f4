-- ===== src/Comp/Roles.antt =====
-- Who can play what: canPlay, groupPriority, placeInGroup and chooseDPSRole of
-- internal/comp/assign.go. A Go pair (value, ok) is an Option.
pub mod Laws
pub mod Menu
use raider_mate_service.Prelude.{
  ℕ, Bool, true, false, ◌&&◌, ◌||◌, not, Option, none, some, List, [], ◌∷◌, leb, if◌then◌else◌,
}
use raider_mate_service.Prelude.Int.{ℤ, pos, ltb_ℤ}
use raider_mate_service.Comp.Types.{
  RoleEnum, tank, healer, mdps, rdps, RoleChoice, Raider, Group, Needs,
}

-- p.role == role
abbrev pub role_eq : RoleEnum → RoleEnum → Bool
role_eq tank tank = true
role_eq healer healer = true
role_eq mdps mdps = true
role_eq rdps rdps = true
role_eq _ _ = false

-- The loop of canPlay: the first choice of that role.
unfoldable pub menu_priority : List RoleChoice → RoleEnum → Option ℕ
menu_priority [] role = none
menu_priority (rc ∷ menu) role =
    if role_eq rc.role role then some rc.priority else menu_priority menu role

unfoldable pub can_play : Raider → RoleEnum → Option ℕ
unfolding menu_priority
can_play r role = menu_priority r.roles role

abbrev better : Option ℕ → Option ℕ → Option ℕ
better (some m) (some r) = if leb m r then some m else some r
better none (some r) = some r
better (some m) none = some m
better none none = none

unfoldable pub best_dps_priority : Raider → Option ℕ
best_dps_priority r = better (can_play r mdps) (can_play r rdps)

unfoldable pub group_priority : Raider → Group → Option ℕ
unfolding best_dps_priority
group_priority r Group.tank = can_play r tank
group_priority r Group.healer = can_play r healer
group_priority r Group.dps = best_dps_priority r

-- cap == nil || count < *cap
abbrev pub is_open : Option ℤ → ℕ → Bool
is_open none count = true
is_open (some cap) count = ltb_ℤ (pos count) cap

-- mOK && (!rOK || mPrio <= rPrio)
abbrev pub prefers_melee : Option ℕ → Option ℕ → Bool
prefers_melee none _ = false
prefers_melee (some m) none = true
prefers_melee (some m) (some r) = leb m r

abbrev pub is_ok {ℓ} : {A : Type ℓ} → Option A → Bool
is_ok none = false
is_ok (some _) = true

unfoldable pub choose_dps_role : Raider → Option ℤ → Option ℤ → ℕ → ℕ → Option RoleEnum
choose_dps_role r max_melee max_ranged melee_count ranged_count =
    let m = can_play r mdps in
    let n = can_play r rdps in
    let melee_open = is_open max_melee melee_count in
    let ranged_open = is_open max_ranged ranged_count in
    if prefers_melee m n && melee_open
    then some mdps
    else if is_ok n && ranged_open
    then some rdps
    else if is_ok m && melee_open
    then some mdps
    else none

-- The priority that goes with a role; a missing one would be the zero value.
with_priority : Raider → RoleEnum → RoleEnum × ℕ
with_priority r role = (role, elim (can_play r role) [ none ↦ 0 | some p ↦ p ])

-- A role that is on the menu, with its priority.
if_playable : Raider → RoleEnum → Option (RoleEnum × ℕ)
if_playable r role = elim (can_play r role) [ none ↦ none | some p ↦ some (role, p) ]

unfoldable pub place_in_group : Raider → Group → Needs → ℕ → ℕ → Option (RoleEnum × ℕ)
unfolding if_playable with_priority
place_in_group r Group.tank needs melee_count ranged_count = if_playable r tank
place_in_group r Group.healer needs melee_count ranged_count = if_playable r healer
place_in_group r Group.dps needs melee_count ranged_count =
    elim (choose_dps_role r needs.max_melee needs.max_ranged melee_count ranged_count) [
      | none ↦ none
      | some role ↦ some (with_priority r role)
    ]

-- groupForRole of internal/comp/advise.go.
unfoldable pub group_for_role : RoleEnum → Group
group_for_role tank = Group.tank
group_for_role healer = Group.healer
group_for_role _ = Group.dps
