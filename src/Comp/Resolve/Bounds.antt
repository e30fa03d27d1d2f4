-- ===== src/Comp/Resolve/Bounds.antt =====
-- What Template.Resolve guarantees of the counts, and where its sum of ints overflows.
use mathlib.Core.Option
use raider_mate_service.Prelude.{
  ℕ, min, ◌+◌, ◌-◌, ◌≤◌, ◌<◌, ◌≡◌, refl, Option, none, some, [], arith,
}
use raider_mate_service.Prelude.Int.{
  ℤ, pos, pos_part, neg_part, half64, IsNonneg, ◌+ℤ◌, ◌-ℤ◌, to_int, wrap,
}
use raider_mate_service.Comp.Types.{
  Mode, raid_flex, raid_mythic, mythic_plus, Template, Needs, Group, Side,
}
use raider_mate_service.Comp.Resolve.{
  size_for, suggested_tanks, suggested_healers, resolve_count, resolve_cap, trim_tanks,
  trim_healers, dps_left, resolve,
}

pub size_for_bounds :
    (mode : Mode) (turnout : ℕ) → (5 ≤ size_for mode turnout) × (size_for mode turnout ≤ 30)
unfolding size_for
size_for_bounds raid_flex turnout = (omega arith, omega arith)
size_for_bounds _ turnout = (omega arith, omega arith)

suggested_fit :
    (mode : Mode) (turnout : ℕ)
    → (1 ≤ suggested_tanks mode)
      × (suggested_tanks mode ≤ 2)
      × (1 ≤ suggested_healers mode turnout)
      × (suggested_tanks mode + suggested_healers mode turnout < size_for mode turnout)
unfolding suggested_tanks suggested_healers size_for
suggested_fit raid_flex turnout = ground arith
suggested_fit raid_mythic turnout = ground arith
suggested_fit mythic_plus turnout = ground arith

resolve_count-IsNonneg :
    (o : Option ℤ) (suggested size : ℕ) (g : Group) → IsNonneg (resolve_count o suggested size g).0
unfolding resolve_count
resolve_count-IsNonneg o suggested size g = ground arith

trim_tanks_lem :
    (size : ℕ) (t : ℤ) → IsNonneg t → (k : ℕ) × (trim_tanks size t ≡ pos k) × (k ≤ size)
unfolding trim_tanks
trim_tanks_lem size t h = (pos_part (trim_tanks size t), ground arith, ground arith)

abbrev pub unset : Template
unset = record { tanks = none; healers = none; max_melee = none; max_ranged = none }

resolve_cap_lem :
    (o : Option ℤ) (label : Side) → (resolve_cap o label).0 ≡ Option.map (λ c. pos (pos_part c)) o
unfolding resolve_cap
resolve_cap_lem o label = ground arith

-- The seats a template can ask of the healers without passing the largest int.
abbrev pub IsModest : Option ℤ → Type 0
IsModest none = Unit
IsModest (some h) = pos_part h + 30 < half64

to_int_sub : (a b : ℕ) → b ≤ a → a < half64 → to_int (pos a -ℤ pos b) ≡ pos (a - b)
unfolding wrap ◌-ℤ◌
to_int_sub a b h k = ground arith

to_int_add : (a b : ℕ) → a + b < half64 → to_int (pos a +ℤ pos b) ≡ pos (a + b)
unfolding wrap ◌+ℤ◌
to_int_add a b k = ground arith

trim_healers_lem :
    (size k h : ℕ)
    → size ≤ 30
    → k ≤ size
    → h + 30 < half64
    → trim_healers size (pos k) (pos h) ≡ pos (min h (size - k))
unfolding trim_healers
trim_healers_lem size k h s t m =
    rw (to_int_add k h (omega arith), to_int_sub size k t (omega arith)) (ground arith)

dps_left_lem :
    (size k h : ℕ)
    → size ≤ 30
    → k ≤ size
    → dps_left size (pos k) (pos (min h (size - k))) ≡ pos (size - k - min h (size - k))
unfolding dps_left
dps_left_lem size k h s t =
    rw (to_int_sub size k t (omega arith))
      (to_int_sub (size - k) (min h (size - k)) (omega arith) (omega arith))

resolve_count_modest :
    (o : Option ℤ) (suggested size : ℕ) (g : Group)
    → IsModest o
    → suggested ≤ 30
    → (h : ℕ) × ((resolve_count o suggested size g).0 ≡ pos h) × (h + 30 < half64)
unfolding resolve_count
resolve_count_modest none suggested size g m s = (suggested, ground arith, omega arith)
resolve_count_modest (some c) suggested size g m s = (pos_part c, ground arith, omega arith)

-- The three counts are numbers that add up to the raid size.
pub record FillsRaid (n : Needs) (size : ℕ) : Type 0 where
  pub tanks : IsNonneg n.tanks
  pub healers : IsNonneg n.healers
  pub dps : IsNonneg n.dps
  pub total : pos_part n.tanks + pos_part n.healers + pos_part n.dps ≡ size

-- Whatever the template says of the tanks, and whatever it says of the healers short of the largest
-- int, the resolved counts are not negative and add up to the raid size exactly.
pub resolve-FillsRaid :
    (t : Template) (mode : Mode) (turnout : ℕ)
    → IsModest t.healers
    → FillsRaid (resolve t mode turnout).0 (size_for mode turnout)
unfolding resolve
resolve-FillsRaid t mode turnout m =
    let size = size_for mode turnout in
    let bounds = size_for_bounds mode turnout in
    let fit = suggested_fit mode turnout in
    let (k, k_eq, k_le) =
      trim_tanks_lem size (resolve_count t.tanks (suggested_tanks mode) size Group.tank).0
        (resolve_count-IsNonneg t.tanks (suggested_tanks mode) size Group.tank) in
    let (h, h_eq, h_le) =
      resolve_count_modest t.healers (suggested_healers mode turnout) size Group.healer m
        (omega arith) in
    rw
      (
        k_eq,
        h_eq,
        trim_healers_lem size k h bounds.1 k_le h_le,
        dps_left_lem size k h bounds.1 k_le,
      )
      (omega arith)

-- With no overrides the counts are the suggestion, the caps are unset, some seats are left for
-- DPS, and there is nothing to report.
pub resolve_default :
    (mode : Mode) (turnout : ℕ)
    → let (n, advisories) = resolve unset mode turnout in
      (n.tanks ≡ pos (suggested_tanks mode))
      × (n.healers ≡ pos (suggested_healers mode turnout))
      × (0 < pos_part n.dps)
      × (n.max_melee ≡ none)
      × (n.max_ranged ≡ none)
      × (advisories ≡ [])
unfolding resolve wrap ◌+ℤ◌ ◌-ℤ◌
resolve_default mode turnout =
    ground (arith, size_for_bounds mode turnout, suggested_fit mode turnout)

-- The cap that Resolve hands on is what the lead wrote, and 0 where that is negative.
pub resolve_caps :
    (t : Template) (mode : Mode) (turnout : ℕ)
    → ((resolve t mode turnout).0.max_melee ≡ Option.map (λ c. pos (pos_part c)) t.max_melee)
      × ((resolve t mode turnout).0.max_ranged ≡ Option.map (λ c. pos (pos_part c)) t.max_ranged)
unfolding resolve
resolve_caps t mode turnout =
    (resolve_cap_lem t.max_melee Side.max_melee, resolve_cap_lem t.max_ranged Side.max_ranged)

trim_healers_overflow :
    (size k h : ℕ)
    → size ≤ 30
    → k ≤ size
    → h < half64
    → half64 ≤ k + h
    → trim_healers size (pos k) (pos h) ≡ pos h
unfolding trim_healers wrap ◌+ℤ◌
trim_healers_overflow size k h s t f o = ground arith

dps_left_overflow :
    (size k h : ℕ)
    → size ≤ 30
    → k ≤ size
    → h < half64
    → half64 ≤ k + h
    → 0 < neg_part (dps_left size (pos k) (pos h))
unfolding dps_left wrap ◌-ℤ◌
dps_left_overflow size k h s t f o = rw (to_int_sub size k t (omega arith)) (ground arith)

-- The largest ints that a lead may ask of the healers wrap the sum that the trim tests: the trim is
-- skipped, and the number of DPS comes out negative.
pub resolve_overflow :
    (t : Template) (mode : Mode) (turnout h : ℕ)
    → t.healers ≡ some (pos h)
    → h < half64
    → half64 ≤ pos_part (resolve t mode turnout).0.tanks + h
    → ((resolve t mode turnout).0.healers ≡ pos h) × (0 < neg_part (resolve t mode turnout).0.dps)
unfolding resolve
resolve_overflow t mode turnout h e f o =
    let size = size_for mode turnout in
    let bounds = size_for_bounds mode turnout in
    let (k, k_eq, k_le) =
      trim_tanks_lem size (resolve_count t.tanks (suggested_tanks mode) size Group.tank).0
        (resolve_count-IsNonneg t.tanks (suggested_tanks mode) size Group.tank) in
    let too_many : half64 ≤ k + h = rw k_eq at o in
    let h_eq : (resolve_count t.healers (suggested_healers mode turnout) size Group.healer).0
        ≡ pos h =
      ground arith in
    rw (k_eq, h_eq, trim_healers_overflow size k h bounds.1 k_le f too_many)
      (refl, dps_left_overflow size k h bounds.1 k_le f too_many)
