-- ===== src/Comp/Fill.antt =====
-- The passes of internal/comp/assign.go over the map of assigned raiders: fillGroup, backfill,
-- trySwapInto and the repair loop of Assign. Go mutates the map `assigned`; here each pass returns
-- it.
pub mod Count
pub mod Sound
pub mod Candidates
pub mod Take
pub mod Swap
pub mod Repair
use raider_mate_service.Prelude.{
  ℕ, zero, suc, ◌+◌, Bool, true, false, Option, none, some, List, [], ◌∷◌, if◌then◌else◌,
}
use raider_mate_service.Prelude.Int.{ℤ, pos, leb_ℤ}
use raider_mate_service.Prelude.Map.{Assoc, lookup, insert, delete}
use raider_mate_service.Comp.Types.{RoleEnum, mdps, rdps, Raider, Group, tank, healer, dps, Needs}
use raider_mate_service.Comp.Roles.{group_priority, place_in_group, is_ok}
use raider_mate_service.Comp.Rank.{Candidate, rank_candidates}

pub record Placement : Type 0 where
  pub role : RoleEnum
  pub group : Group
  pub priority : ℕ

abbrev pub Assigned : Type 0
Assigned = Assoc Placement

abbrev pub group_eq : Group → Group → Bool
group_eq tank tank = true
group_eq healer healer = true
group_eq dps dps = true
group_eq _ _ = false

-- One round of the loop of `recount`.
unfoldable pub count_side : RoleEnum → ℕ × ℕ → ℕ × ℕ
count_side mdps (melee, ranged) = (suc melee, ranged)
count_side rdps (melee, ranged) = (melee, suc ranged)
count_side _ counts = counts

unfoldable pub recount : Assigned → ℕ × ℕ
unfolding count_side
recount [] = (0, 0)
recount ((id, p) ∷ assigned) = count_side p.role (recount assigned)

abbrev with_candidate : Raider → Option ℕ → List Candidate → List Candidate
with_candidate r none rest = rest
with_candidate r (some p) rest = record { raider = r; priority = p } ∷ rest

-- The loop of fillGroup and of backfill: who is not assigned and can play the group.
unfoldable pub free_candidates : List Raider → Assigned → Group → List Candidate
free_candidates [] assigned group = []
free_candidates (r ∷ rs) assigned group =
    let rest = free_candidates rs assigned group in
    if is_ok (lookup r.character_id assigned)
    then rest
    else with_candidate r (group_priority r group) rest

-- assigned[c.raider.CharacterID] = placement{role: role, group: group, priority: priority}
unfoldable pub seat : Candidate → Group → RoleEnum × ℕ → Assigned → Assigned
seat c group (role, priority) assigned =
    insert c.raider.character_id (record { role = role; group = group; priority = priority })
      assigned

-- The loop of fillGroup over the ranked candidates, and its `took`.
unfoldable pub take_candidates : Group → ℤ → Needs → List Candidate → ℕ → Assigned → Assigned × ℕ
unfolding seat
take_candidates group need needs [] took assigned = (assigned, took)
take_candidates group need needs (c ∷ cands) took assigned = elim (leb_ℤ need (pos took)) [
  | true ↦ (assigned, took)
  | false ↦
      let (melee, ranged) = recount assigned in
      elim (place_in_group c.raider group needs melee ranged) [
        | none ↦ take_candidates group need needs cands took assigned
        | some placed ↦
            take_candidates group need needs cands (suc took) (seat c group placed assigned)
      ]
]

unfoldable pub fill_group : List Raider → Assigned → Group → ℤ → Needs → Assoc ℕ → Assigned × ℕ
unfolding take_candidates
fill_group raiders assigned group need needs ranks =
    take_candidates group need needs
      (rank_candidates ranks (free_candidates raiders assigned group)) 0 assigned

-- The loop of backfill: the first ranked candidate who fits.
unfoldable pub backfill_first : List Candidate → Group → Needs → ℕ → ℕ → Assigned → Option Assigned
unfolding seat
backfill_first [] group needs melee ranged scratch = none
backfill_first (c ∷ cands) group needs melee ranged scratch =
    elim (place_in_group c.raider group needs melee ranged) [
      | none ↦ backfill_first cands group needs melee ranged scratch
      | some placed ↦ some (seat c group placed scratch)
    ]

-- `none` is the result false.
unfoldable pub backfill : List Raider → Assigned → Group → Needs → Assoc ℕ → Option Assigned
unfolding backfill_first
backfill raiders scratch group needs ranks =
    let (melee, ranged) = recount scratch in
    backfill_first (rank_candidates ranks (free_candidates raiders scratch group)) group needs melee
      ranged scratch

-- The loop that collects `movable`: who is assigned in another group and can play `short`.
unfoldable pub movable_candidates : List Raider → Assigned → Group → List Candidate
movable_candidates [] assigned short = []
movable_candidates (r ∷ rs) assigned short =
    let rest = movable_candidates rs assigned short in
    elim (lookup r.character_id assigned) [
      | none ↦ rest
      | some pl ↦
          if group_eq pl.group short then rest else with_candidate r (group_priority r short) rest
    ]

-- The scratch copy in which `m` has left their seat.
abbrev pub vacate : Candidate → Assigned → Assigned
vacate m assigned = delete m.raider.character_id assigned

-- One round of the loop over `movable`. A raider who is not assigned would have the zero
-- placement, whose group "" nobody can play, so the round would fail.
unfoldable pub try_move :
    List Raider → Assigned → Group → Needs → Assoc ℕ → Candidate → Option Assigned
unfolding seat
try_move raiders assigned short needs ranks m = elim (lookup m.raider.character_id assigned) [
  | none ↦ none
  | some from ↦
      let scratch = vacate m assigned in
      let (melee, ranged) = recount scratch in
      elim (place_in_group m.raider short needs melee ranged) [
        | none ↦ none
        | some placed ↦ backfill raiders (seat m short placed scratch) from.group needs ranks
      ]
]

unfoldable pub first_move :
    List Raider → Assigned → Group → Needs → Assoc ℕ → List Candidate → Option Assigned
unfolding try_move
first_move raiders assigned short needs ranks [] = none
first_move raiders assigned short needs ranks (m ∷ movable) =
    elim (try_move raiders assigned short needs ranks m) [
      | none ↦ first_move raiders assigned short needs ranks movable
      | some scratch ↦ some scratch
    ]

unfoldable pub try_swap_into : List Raider → Assigned → Group → Needs → Assoc ℕ → Option Assigned
unfolding first_move
try_swap_into raiders assigned short needs ranks =
    first_move raiders assigned short needs ranks
      (rank_candidates ranks (movable_candidates raiders assigned short))

-- The maps `got` and `need` from group names.
pub record GroupCounts : Type 0 where
  pub tanks : ℕ
  pub healers : ℕ
  pub dps : ℕ

unfoldable pub got_of : GroupCounts → Group → ℕ
got_of got tank = got.tanks
got_of got healer = got.healers
got_of got dps = got.dps

unfoldable pub set_got : GroupCounts → Group → ℕ → GroupCounts
set_got got tank n = record got { tanks = n }
set_got got healer n = record got { healers = n }
set_got got dps n = record got { dps = n }

unfoldable pub need_of : Needs → Group → ℤ
need_of needs tank = needs.tanks
need_of needs healer = needs.healers
need_of needs dps = needs.dps

abbrev pub order : List Group
order = tank ∷ healer ∷ dps ∷ []

-- What the passes change: the map `assigned` and the map `got`.
pub record Seating : Type 0 where
  pub assigned : Assigned
  pub got : GroupCounts

-- The body of the repair loop: the first short group that a swap can help; `none` is !swapped.
unfoldable pub repair_round : List Raider → Needs → Assoc ℕ → List Group → Seating → Option Seating
unfolding got_of set_got need_of
repair_round raiders needs ranks [] s = none
repair_round raiders needs ranks (g ∷ groups) s =
    let rest = repair_round raiders needs ranks groups s in
    if leb_ℤ (need_of needs g) (pos (got_of s.got g))
    then rest
    else elim (try_swap_into raiders s.assigned g needs ranks) [
      | none ↦ rest
      | some assigned ↦
          some (record { assigned = assigned; got = set_got s.got g (suc (got_of s.got g)) })
    ]

-- `for range raiders`: a round for each raider, until one swaps nothing.
unfoldable pub repair : List Raider → Needs → Assoc ℕ → List Raider → Seating → Seating
unfolding repair_round
repair raiders needs ranks [] s = s
repair raiders needs ranks (r ∷ rounds) s = elim (repair_round raiders needs ranks order s) [
  | none ↦ s
  | some s' ↦ repair raiders needs ranks rounds s'
]
