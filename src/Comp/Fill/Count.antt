-- ===== src/Comp/Fill/Count.antt =====
-- How many raiders each group and each DPS side holds, and how a seat changes that.
use raider_mate_service.Prelude.{
  ℕ, suc, ◌≡◌, refl, Bool, true, none, some, [], ◌∷◌, arith, if◌then◌else◌, ◌==◌,
}
use raider_mate_service.Prelude.Map.{lookup, count_if, count_if-insert, lookup-insert}
use raider_mate_service.Comp.Types.{RoleEnum, mdps, rdps, Group}
use raider_mate_service.Comp.Roles.{role_eq}
use raider_mate_service.Comp.Rank.{Candidate}
use raider_mate_service.Comp.Fill.{Placement, Assigned, group_eq, recount, seat}

pub group_eq-true : (g h : Group) → group_eq g h ≡ true → g ≡ h
group_eq-true g h e = ground arith

abbrev pub holds_group : Group → ℕ × Placement → Bool
holds_group g e = group_eq e.1.group g

abbrev pub holds_role : RoleEnum → ℕ × Placement → Bool
holds_role role e = role_eq e.1.role role

-- The seats of a group.
abbrev pub group_count : Group → Assigned → ℕ
group_count g assigned = count_if (holds_group g) assigned

-- `recount` counts the two sides.
pub recount_lem :
    (assigned : Assigned)
    → recount assigned ≡ (count_if (holds_role mdps) assigned, count_if (holds_role rdps) assigned)
unfolding recount count_if
recount_lem [] = refl
recount_lem (e ∷ assigned) = rw (recount_lem assigned) (ground arith)

module _ (c : Candidate) (g : Group) (role : RoleEnum) (p : ℕ) (assigned : Assigned)
    (free : lookup c.raider.character_id assigned ≡ none) where
  pub count_if-seat :
      (f : ℕ × Placement → Bool)
      → count_if f (seat c g (role, p) assigned) ≡ (
          if f (c.raider.character_id, record { role = role; group = g; priority = p })
          then suc (count_if f assigned)
          else count_if f assigned)
  unfolding seat
  count_if-seat f = count_if-insert f c.raider.character_id _ assigned free

pub lookup-seat :
    (c : Candidate) (g : Group) (role : RoleEnum) (p : ℕ) (assigned : Assigned) (id : ℕ)
    → lookup id (seat c g (role, p) assigned) ≡ (
        if c.raider.character_id == id
        then some (record { role = role; group = g; priority = p })
        else lookup id assigned)
unfolding seat
lookup-seat c g role p assigned id = lookup-insert c.raider.character_id id _ assigned
