-- ===== src/Comp/Roles/Menu.antt =====
-- Where a raider may be placed, by the entries of the menu and by the caps alone, and that placeInGroup
-- places a raider exactly there.
use raider_mate_service.Prelude.{
  ℕ, ◌≤◌, ◌<◌, ◌≡◌, ◌≢◌, ◌↔◌, ◌⊎◌, refl, ap, ◌∙◌, inl, inr, true, Option, none, some, List, [], ◌∷◌,
  ◌++◌, arith, All, Bool-cases, Option-cases,
}
use raider_mate_service.Prelude.Int.{ℤ, pos, negsuc}
use raider_mate_service.Comp.Types.{
  RoleEnum, tank, healer, mdps, rdps, RoleChoice, Raider, Group, Needs,
}
use raider_mate_service.Comp.Roles.{
  role_eq, menu_priority, can_play, is_open, choose_dps_role, place_in_group, group_for_role,
}
use raider_mate_service.Comp.Roles.Laws.{side_open, place_in_group_sound}

-- The first entry of the menu with the role has the priority.
pub record IsChoice (menu : List RoleChoice) (role : RoleEnum) (p : ℕ) : Type 0 where
  pub before : List RoleChoice
  pub after : List RoleChoice
  pub stands : menu ≡ before ++ record { role = role; priority = p } ∷ after
  pub is_first : All (λ c. c.role ≢ role) before

-- No cap, or a cap above the count.
abbrev pub IsBelow : Option ℤ → ℕ → Type 0
IsBelow none count = Unit
IsBelow (some cap) count = (k : ℕ) × (cap ≡ pos k) × (count < k)

-- The side of a DPS role has room.
abbrev pub HasRoom : Needs → RoleEnum → ℕ → ℕ → Type 0
HasRoom needs mdps melee ranged = IsBelow needs.max_melee melee
HasRoom needs rdps melee ranged = IsBelow needs.max_ranged ranged
HasRoom needs _ melee ranged = Unit

role_eq_iff : (a b : RoleEnum) → (role_eq a b ≡ true) ↔ (a ≡ b)
role_eq_iff a b = (λ h. ground arith, λ h. ground arith)

menu_priority-IsChoice :
    (menu : List RoleChoice) (role : RoleEnum) (p : ℕ)
    → menu_priority menu role ≡ some p
    → IsChoice menu role p
unfolding menu_priority
menu_priority-IsChoice [] role p h = absurd (ground (arith, h))
menu_priority-IsChoice (c ∷ menu) role p h = elim (Bool-cases (role_eq c.role role)) [
  | inl e ↦
      let same : c ≡ record { role = role; priority = p } =
        ground (arith, (role_eq_iff c.role role).0 e, h) in
      record { before = []; after = menu; stands = ap (λ d. d ∷ menu) same; is_first = tt }
  | inr e ↦
      let found = menu_priority-IsChoice menu role p (ground (arith, e, h)) in
      record {
        before = c ∷ found.before;
        after = found.after;
        stands = ap (λ cs. c ∷ cs) found.stands;
        is_first = (λ same. ground (arith, e, (role_eq_iff c.role role).1 same), found.is_first);
      }
]

skip_others :
    (before : List RoleChoice) (menu : List RoleChoice) (role : RoleEnum)
    → All (λ c. c.role ≢ role) before
    → menu_priority (before ++ menu) role ≡ menu_priority menu role
unfolding menu_priority
skip_others [] menu role h = refl
skip_others (c ∷ before) menu role h = elim (Bool-cases (role_eq c.role role)) [
  | inl e ↦ absurd (h.0 ((role_eq_iff c.role role).0 e))
  | inr e ↦ rw (menu_priority, e) (skip_others before menu role h.1)
]

IsChoice-menu_priority :
    (menu : List RoleChoice) (role : RoleEnum) (p : ℕ)
    → IsChoice menu role p
    → menu_priority menu role ≡ some p
unfolding menu_priority
IsChoice-menu_priority menu role p c =
    ap (λ m. menu_priority m role) c.stands
    ∙ skip_others c.before (record { role = role; priority = p } ∷ c.after) role c.is_first
    ∙ rw ((role_eq_iff role role).1 refl) refl

is_open_iff : (cap : Option ℤ) (count : ℕ) → (is_open cap count ≡ true) ↔ IsBelow cap count
is_open_iff none count = (λ h. tt, λ h. refl)
is_open_iff (some (pos k)) count = (λ h. (k, refl, ground arith), λ (j, e, h). ground arith)
is_open_iff (some (negsuc k)) count =
    (λ h. absurd (ground arith), λ (j, e, h). absurd (ground arith))

side_open_iff :
    (needs : Needs) (role : RoleEnum) (melee ranged : ℕ)
    → (side_open needs role melee ranged ≡ true) ↔ HasRoom needs role melee ranged
side_open_iff needs tank melee ranged = (λ h. tt, λ h. refl)
side_open_iff needs healer melee ranged = (λ h. tt, λ h. refl)
side_open_iff needs mdps melee ranged = is_open_iff needs.max_melee melee
side_open_iff needs rdps melee ranged = is_open_iff needs.max_ranged ranged

-- The roles of a group.
abbrev pub Belongs : Group → RoleEnum → Type 0
Belongs Group.tank role = role ≡ tank
Belongs Group.healer role = role ≡ healer
Belongs Group.dps role = (role ≡ mdps) ⊎ (role ≡ rdps)

group_for_role_iff : (role : RoleEnum) (g : Group) → (group_for_role role ≡ g) ↔ Belongs g role
unfolding group_for_role
group_for_role_iff role Group.tank = (λ h. ground arith, λ h. ground arith)
group_for_role_iff role Group.healer = (λ h. ground arith, λ h. ground arith)
group_for_role_iff role Group.dps = (λ h. ground arith, λ h. ground arith)

-- A seat of the group for the raider: a role on the menu, of the group, whose side has room.
abbrev pub IsSeat : Raider → Group → Needs → ℕ → ℕ → RoleEnum → ℕ → Type 0
IsSeat r g needs melee ranged role p =
    IsChoice r.roles role p × Belongs g role × HasRoom needs role melee ranged

module _ (r : Raider) (g : Group) (needs : Needs) (melee ranged : ℕ) where
  seat_tests :
      (role : RoleEnum) (p : ℕ)
      → IsSeat r g needs melee ranged role p
      → (can_play r role ≡ some p)
        × (group_for_role role ≡ g)
        × (side_open needs role melee ranged ≡ true)
  unfolding can_play
  seat_tests role p (c, b, o) = (
    IsChoice-menu_priority r.roles role p c,
    (group_for_role_iff role g).1 b,
    (side_open_iff needs role melee ranged).1 o,
  )

  placed-IsSeat :
      (role : RoleEnum) (p : ℕ)
      → place_in_group r g needs melee ranged ≡ some (role, p)
      → IsSeat r g needs melee ranged role p
  unfolding can_play
  placed-IsSeat role p h =
      let (c, b, o) = place_in_group_sound r g needs melee ranged h in
      (
        menu_priority-IsChoice r.roles role p c,
        (group_for_role_iff role g).0 b,
        (side_open_iff needs role melee ranged).0 o,
      )

placed_if_possible :
    (r : Raider) (g : Group) (needs : Needs) (melee ranged : ℕ) (role : RoleEnum) (p : ℕ)
    → can_play r role ≡ some p
    → group_for_role role ≡ g
    → side_open needs role melee ranged ≡ true
    → place_in_group r g needs melee ranged ≢ none
unfolding place_in_group choose_dps_role group_for_role
placed_if_possible r Group.tank needs melee ranged role p c b o h = ground arith
placed_if_possible r Group.healer needs melee ranged role p c b o h = ground arith
placed_if_possible r Group.dps needs melee ranged role p c b o h = ground arith

placed_best :
    (r : Raider) (g : Group) (needs : Needs) (melee ranged : ℕ) (role : RoleEnum) (p : ℕ)
    (role' : RoleEnum) (q : ℕ)
    → place_in_group r g needs melee ranged ≡ some (role, p)
    → can_play r role' ≡ some q
    → group_for_role role' ≡ g
    → side_open needs role' melee ranged ≡ true
    → p ≤ q
unfolding place_in_group choose_dps_role group_for_role
placed_best r Group.tank needs melee ranged role p role' q h c b o = ground arith
placed_best r Group.healer needs melee ranged role p role' q h c b o = ground arith
placed_best r Group.dps needs melee ranged role p role' q h c b o = ground arith

-- A seat, and none of a smaller priority number.
abbrev pub IsBestSeat : Raider → Group → Needs → ℕ → ℕ → RoleEnum → ℕ → Type 0
IsBestSeat r g needs melee ranged role p =
    IsSeat r g needs melee ranged role p
    × (¬ ((other : RoleEnum) × (q : ℕ) × IsSeat r g needs melee ranged other q × (q < p)))

-- A raider is placed in a group exactly when there is a seat of the group for them: a role of the group
-- that is on their menu and whose side, if it is a DPS role, has no cap or a cap above its count. The
-- placement is such a seat, the priority is that of the first entry of the menu with the role, and no
-- seat that is open to them has a smaller priority number.
pub place_in_group-IsBestSeat :
    (r : Raider) (g : Group) (needs : Needs) (melee ranged : ℕ)
    → ((role : RoleEnum) × (p : ℕ) × (place_in_group r g needs melee ranged ≡ some (role, p))
        × IsBestSeat r g needs melee ranged role p)
      ⊎ ((place_in_group r g needs melee ranged ≡ none)
          × (¬ ((role : RoleEnum) × (p : ℕ) × IsSeat r g needs melee ranged role p)))
place_in_group-IsBestSeat r g needs melee ranged =
    elim (Option-cases (place_in_group r g needs melee ranged)) [
      | inl e ↦ inr (
        e,
        λ (role, p, seat).
            let (c, b, o) = seat_tests r g needs melee ranged role p seat in
            placed_if_possible r g needs melee ranged role p c b o e,
      )
      | inr ((role, p), e) ↦ inl (
        role,
        p,
        e,
        (
          placed-IsSeat r g needs melee ranged role p e,
          λ (other, q, seat, less).
              let (c, b, o) = seat_tests r g needs melee ranged other q seat in
              absurd (omega (arith, placed_best r g needs melee ranged role p other q e c b o)),
        ),
      )
    ]
