-- ===== src/Comp/Spec.antt =====
-- What the comps of the events are to internal/comp: under each name a board, or nothing. The slots of a
-- board are read in the order of its halves.
use raider_mate_service.Prelude.{ℕ, Bool, ◌&&◌, Option, none, some, List, ◌==◌, if◌then◌else◌}
use raider_mate_service.Prelude.Text.{String, str_eq}
use raider_mate_service.Prelude.Sort.{sort_by}
use raider_mate_service.Comp.Types.{CompMode, Assignment}
use raider_mate_service.Comp.Store.{ReplaceComp}
use raider_mate_service.Tables.{Db}
use raider_mate_service.Tables.Comps.{get_comp, slot_before, list_comp_slots}

abbrev pub Boards : Type 0
Boards = ℕ → String → Option (CompMode × List Assignment)

abbrev pub board_of : Option CompMode → List Assignment → Option (CompMode × List Assignment)
board_of none slots = none
board_of (some mode) slots = some (mode, slots)

-- The boards that the tables hold.
abbrev pub boards : Db → Boards
boards db event_id name = board_of (get_comp event_id name db) (list_comp_slots event_id name db)

abbrev pub mode_or : {A : Type 0} → CompMode → Option (CompMode × A) → CompMode
mode_or mode none = mode
mode_or mode (some (kept, _)) = kept

abbrev pub is_key : ℕ → String → ℕ → String → Bool
is_key event_id name e n = event_id == e && str_eq name n

-- One board is replaced, under the mode that it has or else the given one. The others stay.
unfoldable pub replace : ReplaceComp → Boards → Boards
replace arg bs e n =
    if is_key arg.event_id arg.comp_name e n
    then some (mode_or arg.mode (bs e n), sort_by slot_before arg.result.assignments)
    else bs e n

-- A board moves to another name.
unfoldable pub move : ℕ → String → String → Boards → Boards
move event_id from to bs e n =
    if is_key event_id to e n
    then bs event_id from
    else if is_key event_id from e n
    then none
    else bs e n
