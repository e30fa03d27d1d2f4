-- ===== src/Comp/Resolve.antt =====
-- Template.Resolve of internal/comp/comp.go: sizing, overrides, trimming and caps.
-- Go's int is 64 bits wide: every sum and difference of ints wraps, `to_int`.
pub mod Bounds
use raider_mate_service.Prelude.{
  ℕ, ◌+◌, ◌-◌, ◌/◌, min, max, Bool, true, false, ◌&&◌, not, Option, none, some, List, [], ◌∷◌, ◌++◌,
  ltb, if◌then◌else◌,
}
use raider_mate_service.Prelude.Int.{ℤ, pos, ◌+ℤ◌, ◌-ℤ◌, ltb_ℤ, leb_ℤ, eqb_ℤ, to_int}
use raider_mate_service.Comp.Types.{
  RoleEnum, Mode, raid_flex, raid_mythic, mythic_plus, Template, Needs, Group, Side, Message,
  departs, count_negative, cap_negative, tanks_trimmed, healers_trimmed, no_dps, caps_below_need,
  Advisory,
}

-- Every argument here is at least 0, and `b` at least 1.
ceil_div : ℕ → ℕ → ℕ
ceil_div a b = (a + b - 1) / b

clamp : ℕ → ℕ → ℕ → ℕ
clamp n lo hi = max lo (min n hi)

unfoldable pub size_for : Mode → ℕ → ℕ
unfolding clamp
size_for raid_mythic turnout = 20
size_for mythic_plus turnout = 5
size_for raid_flex turnout = clamp turnout 10 30

is_mythic_plus : Mode → Bool
is_mythic_plus mythic_plus = true
is_mythic_plus _ = false

abbrev role_of : Group → Option RoleEnum
role_of Group.tank = some RoleEnum.tank
role_of Group.healer = some RoleEnum.healer
role_of Group.dps = none

abbrev pub advisory : Option RoleEnum → Message → List Advisory
advisory role message = record { role = role; message = message } ∷ []

-- `if test { advisories = append(advisories, …) }`
abbrev pub when : Bool → List Advisory → List Advisory
when b advisories = if b then advisories else []

override_advisories : Option ℤ → ℕ → ℕ → Group → List Advisory
override_advisories none suggested size g = []
override_advisories (some count) suggested size g =
    when (not (eqb_ℤ count (pos suggested))) (advisory (role_of g) (departs g count size suggested))

overridden : Option ℤ → ℕ → ℤ
overridden none suggested = pos suggested
overridden (some count) suggested = count

resolve_count : Option ℤ → ℕ → ℕ → Group → ℤ × List Advisory
unfolding override_advisories overridden
resolve_count override suggested size g =
    let count = overridden override suggested in
    let negative = ltb_ℤ count (pos 0) in
    (
      if negative then pos 0 else count,
      override_advisories override suggested size g
          ++ when negative (advisory (role_of g) (count_negative g count)),
    )

resolve_cap : Option ℤ → Side → Option ℤ × List Advisory
resolve_cap none label = (none, [])
resolve_cap (some limit) label =
    if leb_ℤ (pos 0) limit
    then (some limit, [])
    else (some (pos 0), advisory none (cap_negative label limit))

-- The two trims, on the counts and on the advisories.
trim_tanks : ℕ → ℤ → ℤ
trim_tanks size tanks = if ltb_ℤ (pos size) tanks then pos size else tanks

trim_tanks_advisories : ℕ → ℤ → List Advisory
trim_tanks_advisories size tanks =
    when (ltb_ℤ (pos size) tanks) (advisory (some RoleEnum.tank) (tanks_trimmed tanks size))

-- tanks+healers > size, where the sum is an int.
leaves_too_few : ℕ → ℤ → ℤ → Bool
leaves_too_few size tanks healers = ltb_ℤ (pos size) (to_int (tanks +ℤ healers))

trim_healers : ℕ → ℤ → ℤ → ℤ
unfolding leaves_too_few
trim_healers size tanks healers =
    if leaves_too_few size tanks healers then to_int (pos size -ℤ tanks) else healers

trim_healers_advisories : ℕ → ℤ → ℤ → List Advisory
unfolding leaves_too_few
trim_healers_advisories size tanks healers = when (leaves_too_few size tanks healers) (
    advisory (some RoleEnum.healer)
      (healers_trimmed healers size tanks (to_int (pos size -ℤ tanks))))

dps_left : ℕ → ℤ → ℤ → ℤ
dps_left size tanks healers = to_int (to_int (pos size -ℤ tanks) -ℤ healers)

capacity_advisories : Option ℤ → Option ℤ → ℤ → List Advisory
capacity_advisories (some melee) (some ranged) dps =
    let capacity = to_int (melee +ℤ ranged) in
    when (ltb_ℤ capacity dps) (advisory none (caps_below_need capacity dps))
capacity_advisories _ _ dps = []

unfoldable pub suggested_tanks : Mode → ℕ
unfolding is_mythic_plus
suggested_tanks mode = if is_mythic_plus mode then 1 else 2

unfoldable pub suggested_healers : Mode → ℕ → ℕ
unfolding ceil_div
suggested_healers mode turnout = ceil_div (size_for mode turnout) 5

unfoldable pub resolve : Template → Mode → ℕ → Needs × List Advisory
unfolding resolve_count resolve_cap trim_tanks trim_tanks_advisories trim_healers
    trim_healers_advisories dps_left capacity_advisories
resolve t mode turnout =
    let size = size_for mode turnout in
    let (asked_tanks, a) = resolve_count t.tanks (suggested_tanks mode) size Group.tank in
    let (asked_healers, b) =
      resolve_count t.healers (suggested_healers mode turnout) size Group.healer in
    let tanks = trim_tanks size asked_tanks in
    let healers = trim_healers size tanks asked_healers in
    let dps = dps_left size tanks healers in
    let (max_melee, c) = resolve_cap t.max_melee Side.max_melee in
    let (max_ranged, d) = resolve_cap t.max_ranged Side.max_ranged in
    (
      record {
        tanks = tanks;
        healers = healers;
        dps = dps;
        max_melee = max_melee;
        max_ranged = max_ranged;
      },
      a
          ++ b
          ++ trim_tanks_advisories size asked_tanks
          ++ trim_healers_advisories size tanks asked_healers
          ++ when (eqb_ℤ dps (pos 0) && ltb 0 size)
              (advisory none (no_dps (to_int (tanks +ℤ healers)) size))
          ++ c
          ++ d
          ++ capacity_advisories max_melee max_ranged dps,
    )
