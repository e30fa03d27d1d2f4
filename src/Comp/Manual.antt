-- ===== src/Comp/Manual.antt =====
-- manualAssignments of internal/comp/manual.go: a raid lead's board, turned into slots.
pub mod Laws
use raider_mate_service.Prelude.{
  ℕ, Bool, true, false, ◌||◌, Option, none, some, List, [], ◌∷◌, ◌==◌, if◌then◌else◌,
}
use raider_mate_service.Prelude.Int.{ℤ, pos, ◌+ℤ◌, to_int16}
use raider_mate_service.Comp.Types.{RoleEnum, Assignment, by_raid_lead}

-- `role` is `none` for the zero value "".
pub record Placement : Type 0 where
  pub character_id : ℕ
  pub role : Option RoleEnum
  pub is_bench : Bool

-- The two refusals, both ErrInvalidBoard.
pub data BoardError : Type 0 where
  appears_twice : ℕ → BoardError
  has_no_role : ℕ → BoardError

pub data Board : Type 0 where
  ok : List Assignment → Board
  err : BoardError → Board

-- _, dup := seen[p.CharacterID]
unfoldable pub is_seen : ℕ → List ℕ → Bool
is_seen id [] = false
is_seen id (x ∷ seen) = x == id || is_seen id seen

abbrev pub slot : Placement → RoleEnum → ℤ → Assignment
slot p role index = record {
  character_id = p.character_id;
  role = role;
  slot_index = index;
  is_bench = p.is_bench;
  reason = by_raid_lead;
}

abbrev pub prepend : Assignment → Board → Board
prepend a (ok out) = ok (a ∷ out)
prepend a (err e) = err e

-- An int16 counter, incremented.
unfoldable pub next : ℤ → ℤ
next n = to_int16 (n +ℤ pos 1)

-- The loop; what it appends comes before what the later rounds append.
unfoldable pub manual_slots : List Placement → List ℕ → ℤ → ℤ → Board
unfolding is_seen next
manual_slots [] seen seated benched = ok []
manual_slots (p ∷ placements) seen seated benched = elim (is_seen p.character_id seen) [
  | true ↦ err (appears_twice p.character_id)
  | false ↦ elim p.role [
    | none ↦ err (has_no_role p.character_id)
    | some role ↦ prepend (slot p role (if p.is_bench then benched else seated)) (
        manual_slots placements (p.character_id ∷ seen) (if p.is_bench then seated else next seated)
          (if p.is_bench then next benched else benched))
  ]
]

unfoldable pub manual_assignments : List Placement → Board
unfolding manual_slots
manual_assignments placements = manual_slots placements [] (pos 0) (pos 0)
